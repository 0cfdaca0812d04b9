-- ===== src/Paging/PageTable/Invariant.antt =====
-- pagetable.c: the page table and the coremap agree.
use operating_system_unix_li.Base.{
  ℕ, ◌/◌, ◌≡◌, ◌≢◌, Bool, true, false, some, List, get_elem?, get-set_same, get-set_ne, set, update,
  update_same, update_ne, arith, inl, inr, Bool-cases, ◌==◌, ==_iff, ap, subst, sym, ◌∙◌,
}
use operating_system_unix_li.Paging.Bitmap.Space.{Tracks}
use operating_system_unix_li.Paging.Machine.{Pte, Frame, Machine}

-- The frame `i` holds the page that its entry names, if it is in use.
abbrev pub HoldsPage : Machine → ℕ → Frame → Type 0
HoldsPage m i f = f.in_use ≡ true → ((m.ptes f.pte).valid ≡ true) × ((m.ptes f.pte).number ≡ i)

-- The entry `p` is valid only if its frame is in use for it.
abbrev pub IsResident : Machine → ℕ → Type 0
IsResident m p =
    (f : Frame) × (get_elem? m.coremap (m.ptes p).number ≡ some f) × (f.in_use ≡ true) × (f.pte ≡ p)

-- Page table and coremap agree on all frames but `i`, which no valid entry names.
pub record AgreesBut (i : ℕ) (m : Machine) : Type 0 where
  pub frames : (j : ℕ) (f : Frame) → j ≢ i → get_elem? m.coremap j ≡ some f → HoldsPage m j f
  pub entries : (p : ℕ) → (m.ptes p).valid ≡ true → ((m.ptes p).number ≢ i) × IsResident m p

-- Page table and coremap agree, no entry has PG_ONSWAP, a valid entry is in a page table that exists,
-- and the swap bitmap is in order.
pub record IsCoherent (m : Machine) : Type 0 where
  pub frames : (i : ℕ) (f : Frame) → get_elem? m.coremap i ≡ some f → HoldsPage m i f
  pub entries : (p : ℕ) → (m.ptes p).valid ≡ true → IsResident m p
  pub tables : (p : ℕ) → (m.ptes p).valid ≡ true → m.pgdir (p / 4096) ≡ true
  pub no_onswap : (p : ℕ) → (m.ptes p).onswap ≡ false
  pub swap_space : (used : List Bool) × Tracks used m.swapmap

-- The two states have the same pages in the same frames.
pub record SameShape (m m1 : Machine) : Type 0 where
  pub pgdir : m1.pgdir ≡ m.pgdir
  pub swapmap : m1.swapmap ≡ m.swapmap
  pub valid : (p : ℕ) → (m1.ptes p).valid ≡ (m.ptes p).valid
  pub number : (p : ℕ) → (m1.ptes p).number ≡ (m.ptes p).number
  pub onswap : (p : ℕ) → (m1.ptes p).onswap ≡ (m.ptes p).onswap
  pub forth :
      (i : ℕ) (g : Frame)
      → get_elem? m1.coremap i ≡ some g
      → (f : Frame) × (get_elem? m.coremap i ≡ some f) × (f.in_use ≡ g.in_use) × (f.pte ≡ g.pte)
  pub back :
      (i : ℕ) (f : Frame)
      → get_elem? m.coremap i ≡ some f
      → (g : Frame) × (get_elem? m1.coremap i ≡ some g) × (g.in_use ≡ f.in_use) × (g.pte ≡ f.pte)

pub IsCoherent-SameShape : (m m1 : Machine) → SameShape m m1 → IsCoherent m → IsCoherent m1
IsCoherent-SameShape m m1 same ok = record {
  frames = λ i g at used.
      let (f, there, like, own) = same.forth i g at in
      let (valid, number) = ok.frames i f there (like ∙ used) in
      rw (sym own) (same.valid f.pte ∙ valid, same.number f.pte ∙ number);
  entries = λ p valid.
      let (f, there, used, own) = ok.entries p (sym (same.valid p) ∙ valid) in
      let (g, at, like, like_own) = same.back (m.ptes p).number f there in
      (g, rw (same.number p) at, like ∙ used, like_own ∙ own);
  tables = λ p valid. ap (λ d. d (p / 4096)) same.pgdir ∙ ok.tables p (sym (same.valid p) ∙ valid);
  no_onswap = λ p. same.onswap p ∙ ok.no_onswap p;
  swap_space = (ok.swap_space.0, subst (Tracks ok.swap_space.0) (sym same.swapmap) ok.swap_space.1);
}

-- A frame that is free is named by no valid entry.
pub AgreesBut-free :
    (m : Machine) (i : ℕ) (f : Frame)
    → IsCoherent m
    → get_elem? m.coremap i ≡ some f
    → f.in_use ≡ false
    → AgreesBut i m
AgreesBut-free m i f ok at free = record {
  frames = λ j g ne there. ok.frames j g there;
  entries = λ p valid.
      let (g, there, used, own) = ok.entries p valid in (λ e. cc e, (g, there, used, own));
}

-- So is the frame of a page that leaves.
pub AgreesBut-turned :
    (m : Machine) (i : ℕ) (f : Frame) (e : Pte)
    → IsCoherent m
    → get_elem? m.coremap i ≡ some f
    → f.in_use ≡ true
    → e.valid ≡ false
    → AgreesBut i (record m { ptes = update m.ptes f.pte e })
AgreesBut-turned m i f e ok at used off = record {
  frames = λ j g ne there g_used.
      let kept : HoldsPage m j g = ok.frames j g there in
      let other : g.pte ≢ f.pte = λ same.
        ne (sym (kept g_used).1 ∙ ap (λ k. (m.ptes k).number) same ∙ (ok.frames i f at used).1) in
      rw (update_ne m.ptes f.pte e g.pte other) (kept g_used);
  entries = λ p valid.
      let other : p ≢ f.pte = λ same. cc (
        sym valid
        ∙ ap (λ k. (update m.ptes f.pte e k).valid) same
        ∙ ap (λ x. x.valid) (update_same m.ptes f.pte e)
        ∙ off) in
      let same : update m.ptes f.pte e p ≡ m.ptes p = update_ne m.ptes f.pte e p other in
      let (g, there, g_used, own) = ok.entries p (sym (ap (λ x. x.valid) same) ∙ valid) in
      let away : (m.ptes p).number ≢ i = λ n. other (cc (own, there, at, n)) in
      rw same (away, (g, there, g_used, own));
}

module _ (m : Machine) (i p : ℕ) (fresh : Frame) (e : Pte) where
  abbrev pub installed : Machine
  installed = record m { coremap = set m.coremap i fresh; ptes = update m.ptes p e }

  module _ (f : Frame) (at : get_elem? m.coremap i ≡ some f) (in_use : fresh.in_use ≡ true)
      (own : fresh.pte ≡ p) (valid : e.valid ≡ true) (number : e.number ≡ i)
      (absent : (m.ptes p).valid ≡ false) (agrees : AgreesBut i m) where
    pub HoldsPage-installed :
        (j : ℕ) (g : Frame) → get_elem? (set m.coremap i fresh) j ≡ some g → HoldsPage installed j g
    HoldsPage-installed j g there g_used = elim (Bool-cases (j == i)) [
      | inl same ↦
          let here : j ≡ i = (==_iff j i).0 same in
          let fresh_there : fresh ≡ g = cc (
            sym (get-set_same m.coremap i f fresh at)
            ∙ ap (get_elem? (set m.coremap i fresh)) (sym here)
            ∙ there) in
          let at_p : update m.ptes p e g.pte ≡ e =
            ap (update m.ptes p e) (ap (λ x. x.pte) (sym fresh_there) ∙ own)
            ∙ update_same m.ptes p e in
          rw at_p (valid, number ∙ sym here)
      | inr differ ↦
          let ne : j ≢ i = ground arith in
          let old = agrees.frames j g ne (sym (get-set_ne m.coremap i j fresh ne) ∙ there) g_used in
          let other : g.pte ≢ p =
            λ same. cc (sym old.0 ∙ ap (λ k. (m.ptes k).valid) same ∙ absent) in
          rw (update_ne m.ptes p e g.pte other) old
    ]

    pub IsResident-installed : (q : ℕ) → (update m.ptes p e q).valid ≡ true → IsResident installed q
    IsResident-installed q q_valid = elim (Bool-cases (q == p)) [
      | inl same ↦
          let here : q ≡ p = (==_iff q p).0 same in
          let at_p : update m.ptes p e q ≡ e =
            ap (update m.ptes p e) here ∙ update_same m.ptes p e in
          (fresh, rw (at_p, number) (get-set_same m.coremap i f fresh at), in_use, own ∙ sym here)
      | inr differ ↦
          let same : update m.ptes p e q ≡ m.ptes q = update_ne m.ptes p e q (ground arith) in
          let (away, (g, there, g_used, g_own)) =
            agrees.entries q (sym (ap (λ x. x.valid) same) ∙ q_valid) in
          (g, rw (same, get-set_ne m.coremap i (m.ptes q).number fresh away) there, g_used, g_own)
    ]

    pub installed-IsCoherent :
        (used : List Bool)
        → ((q : ℕ) → (m.ptes q).valid ≡ true → m.pgdir (q / 4096) ≡ true)
        → ((q : ℕ) → (m.ptes q).onswap ≡ false)
        → m.pgdir (p / 4096) ≡ true
        → e.onswap ≡ false
        → Tracks used m.swapmap
        → IsCoherent installed
    installed-IsCoherent used tables no_onswap table e_onswap t = record {
      frames = HoldsPage-installed;
      entries = IsResident-installed;
      tables = λ q q_valid. elim (Bool-cases (q == p)) [
        | inl same ↦ ap (λ k. m.pgdir (k / 4096)) ((==_iff q p).0 same) ∙ table
        | inr differ ↦
            tables q (sym (ap (λ x. x.valid) (update_ne m.ptes p e q (ground arith))) ∙ q_valid)
      ];
      no_onswap = λ q. elim (Bool-cases (q == p)) [
        | inl same ↦
            ap (λ x. x.onswap)
              (ap (update m.ptes p e) ((==_iff q p).0 same) ∙ update_same m.ptes p e)
            ∙ e_onswap
        | inr differ ↦ ap (λ x. x.onswap) (update_ne m.ptes p e q (ground arith)) ∙ no_onswap q
      ];
      swap_space = (used, t);
    }

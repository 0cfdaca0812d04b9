-- ===== src/Paging/PageTable/Ready.antt =====
-- pagetable.c: the swap space stays enough for the pages of a trace.
use operating_system_unix_li.Base.{
  ℕ, suc, ◌/◌, ◌≤◌, ◌≡◌, refl, sym, ap, subst, ◌∙◌, true, false, none, List, [], ◌∷◌, inl, inr,
  contains, length, update, update_same, update_ne, arith, Bool-cases, ◌==◌, ==_iff, if◌then◌else◌,
  map,
}
use operating_system_unix_li.Paging.Bitmap.Space.{Tracks}
use operating_system_unix_li.Paging.Machine.{Pte, Frame, Machine}
use operating_system_unix_li.Paging.PageTable.Coherence.{common, same_pte, unmeasured}
use operating_system_unix_li.Paging.PageTable.Room.{IsReady, has_slot, waiting, waiting_mono}

module _ (pages : List ℕ) (K : List ℕ → Type 0) where
  -- Nothing that counts here has changed.
  pub IsReady-same :
      (m m1 : Machine)
      → m1.pgdir ≡ m.pgdir
      → m1.swapmap ≡ m.swapmap
      → length m1.coremap ≡ length m.coremap
      → ((q : ℕ) → (m1.ptes q).swap_off ≡ (m.ptes q).swap_off)
      → ((q : ℕ) → (m1.ptes q).valid ≡ true → contains q pages ≡ true)
      → K m1.curr
      → IsReady pages K m
      → IsReady pages K m1
  IsReady-same m m1 pgdir swapmap coremap offsets listed future ok =
      let kept : (q : ℕ) → has_slot m q ≡ true → has_slot m1 q ≡ true =
        λ q slot. rw (pgdir, offsets q) slot in
      let less : waiting (has_slot m1) pages ≤ waiting (has_slot m) pages =
        waiting_mono (has_slot m) (has_slot m1) pages kept in
      record {
        used = ok.used;
        tracks = subst (Tracks ok.used) (sym swapmap) ok.tracks;
        room = omega (arith, less, ok.room);
        small = ok.small;
        listed = listed;
        slots = λ q o table off.
            ok.slots q o (sym (ap (λ d. d (q / 4096)) pgdir) ∙ table) (sym (offsets q) ∙ off);
        memory = rw coremap ok.memory;
        future = future;
      }

  length-unmeasured : (fs : List Frame) → length (map unmeasured fs) ≡ length fs
  length-unmeasured [] = refl
  length-unmeasured (f ∷ fs) = ap suc (length-unmeasured fs)

  pub common-length : (m m1 : Machine) → common m1 ≡ common m → length m1.coremap ≡ length m.coremap
  common-length m m1 same =
      sym (length-unmeasured m1.coremap)
      ∙ ap (λ k. length k.coremap) same
      ∙ length-unmeasured m.coremap

  pub IsReady-common :
      (m m1 : Machine) → common m1 ≡ common m → K m1.curr → IsReady pages K m → IsReady pages K m1
  IsReady-common m m1 same future ok =
      IsReady-same m m1 (ap (λ k. k.pgdir) same) (ap (λ k. k.swapmap) same)
        (common-length m m1 same) (λ q. ap (λ e. e.swap_off) (same_pte m m1 same q))
        (λ q valid. ok.listed q (sym (ap (λ e. e.valid) (same_pte m m1 same q)) ∙ valid)) future ok

  update-offset :
      (ptes : ℕ → Pte) (p q : ℕ) (e : Pte)
      → e.swap_off ≡ (ptes p).swap_off
      → (update ptes p e q).swap_off ≡ (ptes q).swap_off
  update-offset ptes p q e same = elim (Bool-cases (q == p)) [
    | inl here ↦
        let at : q ≡ p = (==_iff q p).0 here in
        ap (λ k. k.swap_off) (ap (update ptes p e) at ∙ update_same ptes p e)
        ∙ same
        ∙ ap (λ k. (ptes k).swap_off) (sym at)
    | inr differ ↦ ap (λ k. k.swap_off) (update_ne ptes p e q (ground arith))
  ]

  -- A page of the list is entered.
  pub update-listed :
      (m : Machine) (p q : ℕ) (e : Pte)
      → IsReady pages K m
      → contains p pages ≡ true
      → (update m.ptes p e q).valid ≡ true
      → contains q pages ≡ true
  update-listed m p q e ok at valid = elim (Bool-cases (q == p)) [
    | inl here ↦ ap (λ k. contains k pages) ((==_iff q p).0 here) ∙ at
    | inr differ ↦
        ok.listed q (sym (ap (λ k. k.valid) (update_ne m.ptes p e q (ground arith))) ∙ valid)
  ]

  pub IsReady-entry :
      (m : Machine) (p : ℕ) (e : Pte) (coremap : List Frame)
      → IsReady pages K m
      → contains p pages ≡ true
      → e.swap_off ≡ (m.ptes p).swap_off
      → length coremap ≡ length m.coremap
      → IsReady pages K (record m { ptes = update m.ptes p e; coremap = coremap })
  IsReady-entry m p e coremap ok at offset len =
      IsReady-same m (record m { ptes = update m.ptes p e; coremap = coremap }) refl refl len
        (λ q. update-offset m.ptes p q e offset) (λ q. update-listed m p q e ok at) ok.future ok

-- What is left of the trace list is another matter.
pub IsReady-future :
    (pages : List ℕ) (K K' : List ℕ → Type 0) (m : Machine)
    → K' m.curr
    → IsReady pages K m
    → IsReady pages K' m
IsReady-future pages K K' m future ok = record {
  used = ok.used;
  tracks = ok.tracks;
  room = ok.room;
  small = ok.small;
  listed = ok.listed;
  slots = ok.slots;
  memory = ok.memory;
  future = future;
}

-- A page table is added whose pages have no space yet.
pub IsReady-table :
    (pages : List ℕ) (K : List ℕ → Type 0) (m : Machine) (idx : ℕ) (fresh : Pte)
    → fresh.valid ≡ false
    → fresh.swap_off ≡ none
    → m.pgdir idx ≡ false
    → IsReady pages K m
    → IsReady pages K (record m {
      pgdir = update m.pgdir idx true;
      ptes = λ p. if p / 4096 == idx then fresh else m.ptes p;
    })
IsReady-table pages K m idx fresh off empty absent ok =
    let m1 : Machine = record m {
      pgdir = update m.pgdir idx true;
      ptes = λ p. if p / 4096 == idx then fresh else m.ptes p;
    } in
    let kept : (q : ℕ) → has_slot m q ≡ true → has_slot m1 q ≡ true = λ q slot.
      elim (Bool-cases (q / 4096 == idx)) [
        | inl here ↦ absurd (cc (rw (ap m.pgdir ((==_iff (q / 4096) idx).0 here) ∙ absent) at slot))
        | inr differ ↦ rw (differ, update_ne m.pgdir idx true (q / 4096) (ground arith)) slot
      ] in
    let less : waiting (has_slot m1) pages ≤ waiting (has_slot m) pages =
      waiting_mono (has_slot m) (has_slot m1) pages kept in
    record {
      used = ok.used;
      tracks = ok.tracks;
      room = omega (arith, less, ok.room);
      small = ok.small;
      listed = λ q valid. elim (Bool-cases (q / 4096 == idx)) [
        | inl here ↦ absurd (cc (rw here at valid, off))
        | inr differ ↦ ok.listed q (rw differ at valid)
      ];
      slots = λ q o table has. elim (Bool-cases (q / 4096 == idx)) [
        | inl here ↦ absurd (cc (rw here at has, empty))
        | inr differ ↦
            ok.slots q o (sym (update_ne m.pgdir idx true (q / 4096) (ground arith)) ∙ table)
              (rw differ at has)
      ];
      memory = ok.memory;
      future = ok.future;
    }

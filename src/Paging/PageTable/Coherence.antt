-- ===== src/Paging/PageTable/Coherence.antt =====
-- pagetable.c, `allocate_frame`: page table and coremap still agree afterwards.
use operating_system_unix_li.Base.{
  ℕ, ◌/◌, ◌≡◌, ◌≢◌, refl, sym, ap, subst, ◌∙◌, Bool, true, false, Option, none, some, List, [], ◌⊎◌,
  inl, inr, get_elem?, get-map, map-get, get-length, map, update, update_same, update_ne, arith,
  Bool-cases, if◌then◌else◌, ◌==◌, ==_iff,
}
use operating_system_unix_li.Paging.Bitmap.{Bitmap}
use operating_system_unix_li.Paging.Bitmap.Space.{Tracks}
use operating_system_unix_li.Paging.Machine.{Pte, Frame, Machine, Page, Counters}
use operating_system_unix_li.Paging.Swap.{Disk}
use operating_system_unix_li.Paging.PageTable.{Policy, first_free, allocate_frame}
use operating_system_unix_li.Paging.PageTable.Invariant.{
  SameShape, IsCoherent-SameShape, IsCoherent, AgreesBut-free, AgreesBut-turned, installed,
  installed-IsCoherent,
}
use operating_system_unix_li.Paging.PageTable.Kept.{
  Kept, Kept-SameShape, installed-Kept, replaced-Kept,
}
use operating_system_unix_li.Paging.PageTable.Allocate.{
  Failed, turned, fresh_frame, fresh_pte, first_free_found, first_free_full, turn_out_total,
  allocate_free, allocate_stuck, allocate_evicts,
}

abbrev unmarked : Pte → Pte
unmarked e = record e { ref = false }

abbrev pub unmeasured : Frame → Frame
unmeasured f = record f { distance = 0 }

-- The state without what belongs to the replacement algorithms.
abbrev pub common : Machine → Machine
common m = record m {
  ptes = λ p. unmarked (m.ptes p);
  coremap = map unmeasured m.coremap;
  referlist = [];
  curr = [];
}

module _ (m m1 : Machine) (same : common m1 ≡ common m) where
  pub same_pte : (p : ℕ) → unmarked (m1.ptes p) ≡ unmarked (m.ptes p)
  same_pte p = ap (λ k. k.ptes p) same

  pub same_frame_at :
      (i : ℕ) (g : Frame)
      → get_elem? m1.coremap i ≡ some g
      → (f : Frame) × (get_elem? m.coremap i ≡ some f) × (unmeasured f ≡ unmeasured g)
  same_frame_at i g at =
      get-map unmeasured m.coremap i (unmeasured g)
        (ap (λ k. get_elem? k.coremap i) (sym same) ∙ map-get unmeasured m1.coremap i g at)

  same_frame_back :
      (i : ℕ) (f : Frame)
      → get_elem? m.coremap i ≡ some f
      → (g : Frame) × (get_elem? m1.coremap i ≡ some g) × (unmeasured g ≡ unmeasured f)
  same_frame_back i f at =
      get-map unmeasured m1.coremap i (unmeasured f)
        (ap (λ k. get_elem? k.coremap i) same ∙ map-get unmeasured m.coremap i f at)

  pub same_valid : (p : ℕ) → (m1.ptes p).valid ≡ (m.ptes p).valid
  same_valid p = ap (λ e. e.valid) (same_pte p)

  pub SameShape-common : SameShape m m1
  SameShape-common = record {
    pgdir = ap (λ k. k.pgdir) same;
    swapmap = ap (λ k. k.swapmap) same;
    valid = same_valid;
    number = λ p. ap (λ e. e.number) (same_pte p);
    onswap = λ p. ap (λ e. e.onswap) (same_pte p);
    forth = λ i g at.
        let (f, there, like) = same_frame_at i g at in
        (f, there, ap (λ k. k.in_use) like, ap (λ k. k.pte) like);
    back = λ i f at.
        let (g, there, like) = same_frame_back i f at in
        (g, there, ap (λ k. k.in_use) like, ap (λ k. k.pte) like);
  }

  pub IsCoherent-common : IsCoherent m → IsCoherent m1
  IsCoherent-common ok = IsCoherent-SameShape m m1 SameShape-common ok

-- What is known after a frame was allocated for entry `p`: page table and coremap agree, and the entry
-- is valid and names the frame.
pub record Allocated (p i : ℕ) (m : Machine) : Type 0 where
  pub coherent : IsCoherent m
  pub valid : (m.ptes p).valid ≡ true
  pub number : (m.ptes p).number ≡ i

-- If a frame is free then `allocate_frame` gives the first free one to the entry, which was not valid
-- and is in a page table that exists; page table and coremap agree afterwards if they did before, the
-- other pages in memory keep their frames and contents, and nothing is evicted.
pub allocate_frame-free :
    (policy : Policy) (disk : Disk) (p i : ℕ) (m : Machine)
    → IsCoherent m
    → (m.ptes p).valid ≡ false
    → m.pgdir (p / 4096) ≡ true
    → first_free 0 m.coremap ≡ some i
    → (m' : Machine) × (allocate_frame policy disk p m ≡ some (some i, m'))
      × Allocated p i m'
      × Kept p m m'
      × (m'.counters ≡ m.counters)
allocate_frame-free policy disk p i m ok absent table free =
    let (j, f, same, at_j, unused) = first_free_found 0 i m.coremap free in
    let at : get_elem? m.coremap i ≡ some f =
      ap (get_elem? m.coremap) (omega (arith, same)) ∙ at_j in
    let (used, t) = ok.swap_space in
    let e : Pte = fresh_pte i (m.ptes p) in
    (
      installed m i p (fresh_frame p) e,
      allocate_free policy disk p m i f free at,
      record {
        coherent =
            installed-IsCoherent m i p (fresh_frame p) e f at refl refl refl refl absent
              (AgreesBut-free m i f ok at unused) used ok.tables ok.no_onswap table refl t;
        valid = ap (λ x. x.valid) (update_same m.ptes p e);
        number = ap (λ x. x.number) (update_same m.ptes p e);
      },
      installed-Kept m i p (fresh_frame p) e,
      refl,
    )

-- An entry that has lost PG_VALID.
module _ (m : Machine) (q : ℕ) (e : Pte) (off : e.valid ≡ false) where
  turned-valid : (k : ℕ) → (update m.ptes q e k).valid ≡ true → (m.ptes k).valid ≡ true
  turned-valid k valid = elim (Bool-cases (k == q)) [
    | inl same ↦ absurd (
        cc (
          sym valid
          ∙ ap (λ x. x.valid)
              (ap (update m.ptes q e) ((==_iff k q).0 same) ∙ update_same m.ptes q e)
          ∙ off))
    | inr differ ↦ sym (ap (λ x. x.valid) (update_ne m.ptes q e k (ground arith))) ∙ valid
  ]

  turned-invalid : (k : ℕ) → (m.ptes k).valid ≡ false → (update m.ptes q e k).valid ≡ false
  turned-invalid k absent = elim (Bool-cases (k == q)) [
    | inl same ↦
        ap (λ x. x.valid) (ap (update m.ptes q e) ((==_iff k q).0 same) ∙ update_same m.ptes q e)
        ∙ off
    | inr differ ↦ ap (λ x. x.valid) (update_ne m.ptes q e k (ground arith)) ∙ absent
  ]

  turned-onswap :
      ((k : ℕ) → (m.ptes k).onswap ≡ false)
      → e.onswap ≡ false
      → (k : ℕ) → (update m.ptes q e k).onswap ≡ false
  turned-onswap none_on e_off k = elim (Bool-cases (k == q)) [
    | inl same ↦
        ap (λ x. x.onswap) (ap (update m.ptes q e) ((==_iff k q).0 same) ∙ update_same m.ptes q e)
        ∙ e_off
    | inr differ ↦ ap (λ x. x.onswap) (update_ne m.ptes q e k (ground arith)) ∙ none_on k
  ]

-- The page at frame `i` has left and entry `p` gets the frame.
replaced-Allocated :
    (m : Machine) (p i : ℕ) (g : Frame) (e : Pte) (b : Bitmap) (file : List (ℕ × Page))
    (c : Counters) (used : List Bool)
    → IsCoherent m
    → (m.ptes p).valid ≡ false
    → m.pgdir (p / 4096) ≡ true
    → get_elem? m.coremap i ≡ some g
    → g.in_use ≡ true
    → e.valid ≡ false
    → e.onswap ≡ false
    → Tracks used b
    → Allocated p i (
        installed
          (turned g.pte e b file c m)
          i
          p
          (fresh_frame p)
          (fresh_pte i (update m.ptes g.pte e p)))
replaced-Allocated m p i g e b file c used ok absent table at in_use off off_swap t =
    let m2 : Machine = turned g.pte e b file c m in
    let entry : Pte = fresh_pte i (m2.ptes p) in
    let left = AgreesBut-turned m i g e ok at in_use off in
    record {
      coherent =
          installed-IsCoherent m2 i p (fresh_frame p) entry g at refl refl refl refl
            (turned-invalid m g.pte e off p absent)
            (record { frames = left.frames; entries = left.entries }) used
            (λ q valid. ok.tables q (turned-valid m g.pte e off q valid))
            (turned-onswap m g.pte e off ok.no_onswap off_swap) table refl t;
      valid = ap (λ x. x.valid) (update_same m2.ptes p entry);
      number = ap (λ x. x.number) (update_same m2.ptes p entry);
    }

-- If no frame is free and the replacement algorithm picks the frame `i` and changes nothing but its own
-- data, then `allocate_frame` ends, and the victim's entry is no more valid. Either the victim is dirty
-- and `swap_pageout` has failed for it, and then no frame is given, or the entry, which was not valid,
-- gets the frame, page table and coremap agree, and the other pages in memory keep their frames and
-- contents.
pub allocate_frame-evicts :
    (policy : Policy) (disk : Disk) (p i : ℕ) (f : Frame) (m m1 : Machine)
    → IsCoherent m
    → (m.ptes p).valid ≡ false
    → m.pgdir (p / 4096) ≡ true
    → first_free 0 m.coremap ≡ none
    → policy.evict_fcn m ≡ some (i, m1)
    → common m1 ≡ common m
    → get_elem? m.coremap i ≡ some f
    → (r : Option ℕ) × (m' : Machine) × (allocate_frame policy disk p m ≡ some (r, m'))
      × ((m'.ptes f.pte).valid ≡ false)
      × (((r ≡ none) × Failed disk i f.pte m1) ⊎ ((r ≡ some i) × Allocated p i m' × Kept p m m'))
allocate_frame-evicts policy disk p i f m m1 ok absent table full picked same at =
    let ok1 : IsCoherent m1 = IsCoherent-common m m1 same ok in
    let (g, at1, like) = same_frame_back m m1 same i f at in
    let own : g.pte ≡ f.pte = ap (λ k. k.pte) like in
    let in_use : g.in_use ≡ true =
      ap (λ k. k.in_use) like ∙ first_free_full 0 m.coremap i f full at in
    let (valid, number) = ok1.frames i g at1 in_use in
    let absent1 : (m1.ptes p).valid ≡ false = same_valid m m1 same p ∙ absent in
    let (r, d, o, b, file, c, used, out, t, fails) =
      turn_out_total disk i g ok1.swap_space.0 m1 at1 (get-length m1.coremap i g at1) valid
        ok1.swap_space.1 in
    let e : Pte = record (m1.ptes g.pte) { valid = false; dirty = d; swap_off = o } in
    let m2 : Machine = turned g.pte e b file c m1 in
    let gone : (m2.ptes f.pte).valid ≡ false =
      ap (λ k. (m2.ptes k).valid) (sym own) ∙ ap (λ x. x.valid) (update_same m1.ptes g.pte e) in
    let other : f.pte ≢ p = λ s. cc (sym valid ∙ ap (λ k. (m1.ptes k).valid) (own ∙ s) ∙ absent1) in
    let result : Bool → Option (Option ℕ × Machine) =
      λ k. some (if k then some (m1.ptes g.pte).number else none, m2) in
    elim (Bool-cases r) [
      | inr failed ↦ (
        none,
        m2,
        allocate_stuck policy disk p m i m1 m2 full picked (out ∙ ap result failed),
        gone,
        inl (refl, subst (λ q. Failed disk i q m1) own (fails failed)),
      )
      | inl written ↦ (
        some i,
        installed m2 i p (fresh_frame p) (fresh_pte i (m2.ptes p)),
        allocate_evicts policy disk p m i g m1 m2 full picked
            (out ∙ ap result written ∙ ap (λ n. some (some n, m2)) number) at1,
        ap (λ x. x.valid) (update_ne m2.ptes p (fresh_pte i (m2.ptes p)) f.pte other) ∙ gone,
        inr (
          refl,
          replaced-Allocated m1 p i g e b file c used ok1 absent1
              (ap (λ k. k.pgdir (p / 4096)) same ∙ table) at1 in_use refl (ok1.no_onswap g.pte) t,
          Kept-SameShape p m m1 (installed m2 i p (fresh_frame p) (fresh_pte i (m2.ptes p)))
              (SameShape-common m m1 same) (ap (λ k. k.physmem) same)
              (replaced-Kept m1 i p g.pte (fresh_frame p) e (fresh_pte i (m2.ptes p)) b file c
                refl),
        ),
      )
    ]

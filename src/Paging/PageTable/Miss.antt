-- ===== src/Paging/PageTable/Miss.antt =====
-- pagetable.c, `find_physpage`: the frame that is given has the page, whether it was in memory or not.
use operating_system_unix_li.Base.{
  ℕ, ◌+◌, ◌*◌, ◌/◌, ◌%◌, ◌^◌, ◌<◌, ◌≡◌, refl, sym, ap, subst, ◌∙◌, Bool, true, false, not, Option,
  none, some, inl, inr, get_elem?, update, update_same, arith, Option-cases, if◌then◌else◌, ltb,
  length,
}
use operating_system_unix_li.Paging.Machine.{
  Pte, Counters, Machine, M, ◌>>=◌, done, stop, get_pte, set_pte, get_frame, count,
}
use operating_system_unix_li.Paging.Swap.{Disk}
use operating_system_unix_li.Paging.PageTable.{
  Policy, first_free, turn_out, allocate_frame, init_frame, miss, get_pgdir, find_physpage,
  init_second_level,
}
use operating_system_unix_li.Paging.PageTable.Invariant.{IsCoherent}
use operating_system_unix_li.Paging.PageTable.Kept.{Kept}
use operating_system_unix_li.Paging.PageTable.Coherence.{
  common, same_frame_at, Allocated, allocate_frame-free, allocate_frame-evicts,
}
use operating_system_unix_li.Paging.PageTable.Hit.{entry_of}
use operating_system_unix_li.Paging.PageTable.Leads.{
  After, After-at, bind-After, if-After, branch-After,
}
use operating_system_unix_li.Paging.PageTable.Refilled.{IsFilled-frame, unloaded-IsFilled}
use operating_system_unix_li.Paging.PageTable.Filled.{
  IsFilled, Loaded, LeavesPages, IsFilled-counters, touch-After, init_second_level-After,
}

-- If there is a frame, it is allocated for entry `p`, and the pages that stay keep theirs.
abbrev Gives : ℕ → Machine → Option ℕ → Machine → Type 0
Gives p m r m1 = (i : ℕ) → r ≡ some i → Allocated p i m1 × Kept p m m1

pub not-true : (b : Bool) → not b ≡ true → b ≡ false
not-true true e = cc e
not-true false e = refl

pub not-false : (b : Bool) → not b ≡ false → b ≡ true
not-false true e = refl
not-false false e = cc e

module _ (policy : Policy) (disk : Disk) (leaves : LeavesPages policy) where
  module _ (p : ℕ) (m : Machine) where
    allocate_unpicked :
        first_free 0 m.coremap ≡ none
        → policy.evict_fcn m ≡ none
        → allocate_frame policy disk p m ≡ none
    unfolding allocate_frame
    allocate_unpicked full e = simp (allocate_frame, full, ◌>>=◌, e) refl

    allocate_outside :
        (i : ℕ) (m1 : Machine)
        → first_free 0 m.coremap ≡ none
        → policy.evict_fcn m ≡ some (i, m1)
        → get_elem? m1.coremap i ≡ none
        → allocate_frame policy disk p m ≡ none
    unfolding allocate_frame turn_out get_frame
    allocate_outside i m1 full e out =
        simp (allocate_frame, full, ◌>>=◌, e, turn_out, get_frame, out) refl

    module _ (ok : IsCoherent m) (absent : (m.ptes p).valid ≡ false)
        (table : m.pgdir (p / 4096) ≡ true) where
      allocate_full-After :
          first_free 0 m.coremap ≡ none → After Unit (Gives p m) (allocate_frame policy disk p m)
      allocate_full-After full = elim (Option-cases (policy.evict_fcn m)) [
        | inl e ↦ After-at Unit (Gives p m) _ none (allocate_unpicked full e) tt
        | inr ((i, m1), e) ↦
            let same : common m1 ≡ common m = leaves.evict_fcn m i m1 e in
            elim (Option-cases (get_elem? m1.coremap i)) [
              | inl out ↦ After-at Unit (Gives p m) _ none (allocate_outside i m1 full e out) tt
              | inr (g, at1) ↦
                  let (f, at, like) = same_frame_at m m1 same i g at1 in
                  let (r, m', result, gone, cases) =
                    allocate_frame-evicts policy disk p i f m m1 ok absent table full e same at in
                  After-at Unit (Gives p m) _ _ result (λ j is. elim cases [
                    | inl (stuck, fails) ↦ absurd (cc (sym stuck ∙ is))
                    | inr (found, allocated, kept) ↦
                        let here : i ≡ j = cc (sym found ∙ is) in
                        (subst (λ k. Allocated p k m') here allocated, kept)
                  ])
            ]
      ]

      allocate-After : After Unit (Gives p m) (allocate_frame policy disk p m)
      allocate-After = elim (Option-cases (first_free 0 m.coremap)) [
        | inl full ↦ allocate_full-After full
        | inr (i, free) ↦
            let (m', result, allocated, kept, same) =
              allocate_frame-free policy disk p i m ok absent table free in
            After-at Unit (Gives p m) _ _ result
              (λ j is. (subst (λ k. Allocated p k m') (cc is) allocated, kept))
      ]

  abbrev pub loading : ℕ → Option ℕ → M (Unit {0})
  loading vaddr frame = elim frame [ none ↦ stop | some i ↦ init_frame i vaddr ]

  init_frame-After :
      (p vaddr : ℕ) (m : Machine) (frame : Option ℕ) (m1 : Machine)
      → IsFilled m
      → vaddr ≡ p * 4096
      → Gives p m frame m1
      → After Unit (λ u m2. IsFilled m2 × ((m2.ptes p).valid ≡ true)) (loading vaddr frame m1)
  unfolding init_frame
  init_frame-After p vaddr m none m1 ok aligned gives = tt
  init_frame-After p vaddr m (some i) m1 ok aligned gives =
      let (allocated, kept) = gives i refl in
      if-After Unit _ (ltb i (length m1.coremap)) _ none
        (λ inside. (
          IsFilled-frame p i m m1 (record { version = 0; checkaddr = vaddr }) ok aligned allocated
              kept,
          allocated.valid,
        ))
        (λ outside. tt)

  -- A page that is not in memory is brought in.
  pub miss-After :
      (vaddr p : ℕ) (m : Machine)
      → IsFilled m
      → (m.ptes p).valid ≡ false
      → m.pgdir (p / 4096) ≡ true
      → vaddr ≡ p * 4096
      → After Unit (λ u m2. IsFilled m2 × ((m2.ptes p).valid ≡ true)) (miss policy disk vaddr p m)
  unfolding miss count get_pte set_pte
  miss-After vaddr p m ok absent table aligned =
      let c : Counters = record m.counters { miss_count = m.counters.miss_count + 1 } in
      let e : Pte = record (m.ptes p) { dirty = true } in
      let m1 : Machine = record m { counters = c; ptes = update m.ptes p e } in
      let ok1 : IsFilled m1 =
        unloaded-IsFilled (record m { counters = c }) p e (IsFilled-counters m c ok) absent absent
          (ok.coherent.no_onswap p) in
      let absent1 : (m1.ptes p).valid ≡ false =
        ap (λ k. k.valid) (update_same m.ptes p e) ∙ absent in
      branch-After Unit _ (not (m.ptes p).onswap) _ _ (record m { counters = c })
        (λ off.
          bind-After Unit (Gives p m1) _ (allocate_frame policy disk p) _ m1
            (allocate-After p m1 ok1.coherent absent1 table)
            (λ frame m2 gives. init_frame-After p vaddr m1 frame m2 ok1 aligned gives))
        (λ on. absurd (cc (ap not (ok.coherent.no_onswap p), on)))

  abbrev pub count_hit : M (Unit {0})
  count_hit = count (λ c. record c { hit_count = c.hit_count + 1 })

  -- The frame that `find_physpage` gives has the page.
  pub find_physpage-After :
      (memalign_gives : ℕ → Bool) (vaddr type : ℕ) (m : Machine)
      → IsFilled m
      → vaddr < 2 ^ 36
      → vaddr % 4096 ≡ 0
      → After Unit (Loaded (entry_of vaddr)) (find_physpage policy disk memalign_gives vaddr type m)
  unfolding find_physpage get_pgdir get_pte count
  find_physpage-After memalign_gives vaddr type m ok small aligned =
      let idx : ℕ = vaddr / 2 ^ 24 % 2 ^ 32 in
      let p : ℕ = entry_of vaddr in
      let at_idx : p / 4096 ≡ idx = omega arith in
      let address : vaddr ≡ p * 4096 = omega (arith, small, aligned) in
      bind-After Unit (λ present m1. IsFilled m1 × (m1.pgdir idx ≡ present)) (Loaded p)
        (get_pgdir idx) _ m
        (if-After Unit (λ present m1. IsFilled m1 × (m1.pgdir idx ≡ present)) (ltb idx 4096)
          (some (m.pgdir idx, m)) none (λ inside. (ok, refl)) (λ outside. tt))
        (λ present m1 (ok1, there).
          bind-After Unit (λ u m2. IsFilled m2 × (m2.pgdir idx ≡ true)) (Loaded p)
            (if present then done else init_second_level (memalign_gives idx) idx) _ m1
            (branch-After Unit (λ u m2. IsFilled m2 × (m2.pgdir idx ≡ true)) present done
              (init_second_level (memalign_gives idx) idx) m1 (λ e. (ok1, there ∙ e))
              (λ e. init_second_level-After (memalign_gives idx) idx m1 ok1 (there ∙ e)))
            (λ u m2 (ok2, table).
              bind-After Unit (λ v m3. IsFilled m3 × ((m3.ptes p).valid ≡ true)) (Loaded p)
                (if not (m2.ptes p).valid then miss policy disk vaddr p else count_hit) _ m2
                (branch-After Unit (λ v m3. IsFilled m3 × ((m3.ptes p).valid ≡ true))
                  (not (m2.ptes p).valid) (miss policy disk vaddr p) count_hit m2
                  (λ e.
                    miss-After vaddr p m2 ok2 (not-true (m2.ptes p).valid e)
                      (ap m2.pgdir at_idx ∙ table) address)
                  (λ e. (IsFilled-counters m2 _ ok2, not-false (m2.ptes p).valid e)))
                (λ v m3 (ok3, valid). touch-After policy disk p vaddr type m3 leaves ok3 valid)))

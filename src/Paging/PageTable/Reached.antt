-- ===== src/Paging/PageTable/Reached.antt =====
-- pagetable.c: `find_physpage` reaches its end if the swap file has room.
use operating_system_unix_li.Base.{
  ℕ, suc, ◌+◌, ◌*◌, ◌/◌, ◌%◌, ◌^◌, ◌<◌, ◌≡◌, refl, sym, ap, ◌∙◌, true, false, not, none, some, List,
  contains, length, set, length-set, update, arith, if◌then◌else◌, ltb, lt→ltb,
}
use operating_system_unix_li.Paging.Machine.{Pte, Counters, Machine, done, get_pte, set_pte, count}
use operating_system_unix_li.Paging.Swap.{Disk}
use operating_system_unix_li.Paging.PageTable.{
  Policy, allocate_frame, init_frame, miss, touch, get_pgdir, find_physpage, init_second_level,
}
use operating_system_unix_li.Paging.PageTable.Hit.{entry_of, touched, touch_lem, marked}
use operating_system_unix_li.Paging.PageTable.Leads.{
  After, After-at, After-both, bind-After, if-After, branch-After,
}
use operating_system_unix_li.Paging.PageTable.Filled.{
  IsFilled, Loaded, IsFilled-counters, touch-After, init_second_level-After,
}
use operating_system_unix_li.Paging.PageTable.Miss.{
  count_hit, loading, miss-After, not-true, not-false,
}
use operating_system_unix_li.Paging.PageTable.Refilled.{unloaded-IsFilled}
use operating_system_unix_li.Paging.PageTable.Room.{IsReady}
use operating_system_unix_li.Paging.PageTable.Written.{Writes}
use operating_system_unix_li.Paging.PageTable.Ready.{
  IsReady-same, IsReady-common, IsReady-entry, IsReady-future, IsReady-table,
}
use operating_system_unix_li.Paging.PageTable.Total.{IsTotal, allocate-IsReady}

module _ (policy : Policy) (disk : Disk) (writes_ok : Writes disk) (J : ℕ → List ℕ → Type 0)
    (total : IsTotal policy J) (pages : List ℕ) (n : ℕ) where
  abbrev Before : Machine → Type 0
  Before m = IsFilled m × IsReady pages (J (suc n)) m

  IsReady-counters :
      (m : Machine) (c : Counters)
      → IsReady pages (J (suc n)) m
      → IsReady pages (J (suc n)) (record m { counters = c })
  IsReady-counters m c ready =
      IsReady-same pages (J (suc n)) m (record m { counters = c }) refl refl refl (λ q. refl)
        ready.listed ready.future ready

  loading-IsReady :
      (vaddr i : ℕ) (m : Machine)
      → i < length m.coremap
      → IsReady pages (J (suc n)) m
      → After ⊥ (λ u m1. IsReady pages (J (suc n)) m1) (init_frame i vaddr m)
  unfolding init_frame
  loading-IsReady vaddr i m inside ready =
      if-After ⊥ (λ u m1. IsReady pages (J (suc n)) m1) (ltb i (length m.coremap)) _ none
        (λ e.
          IsReady-same pages (J (suc n)) m
            (record m { physmem = update m.physmem i (record { version = 0; checkaddr = vaddr }) })
            refl refl refl (λ q. refl) ready.listed ready.future ready)
        (λ e. absurd (cc (sym (lt→ltb i (length m.coremap) inside) ∙ e)))

  miss-IsReady :
      (vaddr p : ℕ) (m : Machine)
      → Before m
      → (m.ptes p).valid ≡ false
      → contains p pages ≡ true
      → After ⊥ (λ u m1. IsReady pages (J (suc n)) m1) (miss policy disk vaddr p m)
  unfolding miss count get_pte set_pte
  miss-IsReady vaddr p m (ok, ready) absent at =
      let c : Counters = record m.counters { miss_count = m.counters.miss_count + 1 } in
      let e : Pte = record (m.ptes p) { dirty = true } in
      let m1 : Machine = record m { counters = c; ptes = update m.ptes p e } in
      let ok1 : IsFilled m1 =
        unloaded-IsFilled (record m { counters = c }) p e (IsFilled-counters m c ok) absent absent
          (ok.coherent.no_onswap p) in
      let ready1 : IsReady pages (J (suc n)) m1 =
        IsReady-entry pages (J (suc n)) (record m { counters = c }) p e m.coremap
          (IsReady-counters m c ready) at refl refl in
      let (i, m2, out, inside, ready2) =
        allocate-IsReady policy disk writes_ok J total pages n p m1 ok1.coherent ready1 at in
      branch-After ⊥ (λ u m1. IsReady pages (J (suc n)) m1) (not (m.ptes p).onswap) _ _
        (record m { counters = c })
        (λ off.
          bind-After ⊥ (λ frame m3. (frame ≡ some i) × (m3 ≡ m2))
            (λ u m3. IsReady pages (J (suc n)) m3) (allocate_frame policy disk p)
            (loading policy disk total.leaves vaddr) m1
            (After-at ⊥ (λ frame m3. (frame ≡ some i) × (m3 ≡ m2)) _ _ out (refl, refl))
            (λ frame m3 (is, here).
              After-at ⊥ (λ u m4. IsReady pages (J (suc n)) m4) _ _ (rw (is, here) refl)
                (loading-IsReady vaddr i m2 inside ready2)))
        (λ on. absurd (cc (ap not (ok.coherent.no_onswap p), on)))

  touch-IsReady :
      (p vaddr type : ℕ) (m : Machine)
      → Before m
      → (m.ptes p).valid ≡ true
      → After ⊥ (λ r m1. IsReady pages (J n) m1) (touch policy disk p vaddr type m)
  touch-IsReady p vaddr type m (ok, ready) valid =
      let (f, at, used, own) = ok.coherent.entries p valid in
      let t : Machine = touched p f vaddr type m in
      let ready1 : IsReady pages (J (suc n)) t =
        IsReady-entry pages (J (suc n)) m p (marked type (m.ptes p))
          (set m.coremap (m.ptes p).number (record f { vaddr = vaddr })) ready
          (ready.listed p valid) refl
          (length-set m.coremap (m.ptes p).number (record f { vaddr = vaddr })) in
      let (m2, told, future) = total.ref_fcn n p t ready1.future in
      let ready2 : IsReady pages (λ vs. Unit) m2 =
        IsReady-common pages (λ vs. Unit) t m2 (total.leaves.ref_fcn p t m2 told) tt
          (IsReady-future pages (J (suc n)) (λ vs. Unit) t tt ready1) in
      After-at ⊥ (λ r m1. IsReady pages (J n) m1) _ _
        (touch_lem policy disk p vaddr type f m m2 at told)
        (IsReady-future pages (λ vs. Unit) (J n)
          (record m2 { counters = record m2.counters { ref_count = m2.counters.ref_count + 1 } })
          future
          (IsReady-same pages (λ vs. Unit) m2
            (record m2 { counters = record m2.counters { ref_count = m2.counters.ref_count + 1 } })
            refl refl refl (λ q. refl) ready2.listed tt ready2))

  init_second_level-IsReady :
      (idx : ℕ) (m : Machine)
      → IsReady pages (J (suc n)) m
      → m.pgdir idx ≡ false
      → After ⊥ (λ u m1. IsReady pages (J (suc n)) m1) (init_second_level true idx m)
  unfolding init_second_level
  init_second_level-IsReady idx m ready absent =
      IsReady-table pages (J (suc n)) m idx
        (record {
          number = 0;
          valid = false;
          dirty = false;
          ref = false;
          onswap = false;
          swap_off = none;
        })
        refl refl absent ready

  -- A reference to a page of the list, when there is room for all of them in the swap file.
  pub find_physpage_reached :
      (vaddr type : ℕ) (m : Machine)
      → Before m
      → vaddr < 2 ^ 36
      → vaddr % 4096 ≡ 0
      → contains (entry_of vaddr) pages ≡ true
      → After ⊥
          (λ r m1. Loaded (entry_of vaddr) r m1 × IsReady pages (J n) m1)
          (find_physpage policy disk (λ idx. true) vaddr type m)
  unfolding find_physpage get_pgdir get_pte count
  find_physpage_reached vaddr type m (ok, ready) small aligned at =
      let idx : ℕ = vaddr / 2 ^ 24 % 2 ^ 32 in
      let p : ℕ = entry_of vaddr in
      let at_idx : p / 4096 ≡ idx = omega arith in
      let address : vaddr ≡ p * 4096 = omega (arith, small, aligned) in
      let inside : ltb idx 4096 ≡ true = lt→ltb idx 4096 (omega (arith, small)) in
      let Q : ℕ → Machine → Type 0 = λ r m1. Loaded p r m1 × IsReady pages (J n) m1 in
      bind-After ⊥ (λ present m1. Before m1 × (m1.pgdir idx ≡ present)) Q (get_pgdir idx) _ m
        (if-After ⊥ (λ present m1. Before m1 × (m1.pgdir idx ≡ present)) (ltb idx 4096)
          (some (m.pgdir idx, m)) none (λ e. ((ok, ready), refl)) (λ e. absurd (cc (inside, e))))
        (λ present m1 (before1, there).
          bind-After ⊥
            (λ u m2. (IsFilled m2 × (m2.pgdir idx ≡ true)) × IsReady pages (J (suc n)) m2) Q
            (if present then done else init_second_level true idx) _ m1
            (branch-After ⊥
              (λ u m2. (IsFilled m2 × (m2.pgdir idx ≡ true)) × IsReady pages (J (suc n)) m2) present
              done (init_second_level true idx) m1 (λ e. ((before1.0, there ∙ e), before1.1))
              (λ e.
                After-both (λ u m2. IsFilled m2 × (m2.pgdir idx ≡ true))
                  (λ u m2. IsReady pages (J (suc n)) m2) (init_second_level true idx m1)
                  (init_second_level-After true idx m1 before1.0 (there ∙ e))
                  (init_second_level-IsReady idx m1 before1.1 (there ∙ e))))
            (λ u m2 ((ok2, table), ready2).
              bind-After ⊥
                (λ v m3. (IsFilled m3 × ((m3.ptes p).valid ≡ true)) × IsReady pages (J (suc n)) m3)
                Q
                (if not (m2.ptes p).valid
                  then miss policy disk vaddr p
                  else count_hit policy disk total.leaves)
                _ m2
                (branch-After ⊥
                  (λ v m3.
                    (IsFilled m3 × ((m3.ptes p).valid ≡ true)) × IsReady pages (J (suc n)) m3)
                  (not (m2.ptes p).valid) (miss policy disk vaddr p)
                  (count_hit policy disk total.leaves) m2
                  (λ e.
                    After-both (λ v m3. IsFilled m3 × ((m3.ptes p).valid ≡ true))
                      (λ v m3. IsReady pages (J (suc n)) m3) (miss policy disk vaddr p m2)
                      (miss-After policy disk total.leaves vaddr p m2 ok2
                        (not-true (m2.ptes p).valid e) (ap m2.pgdir at_idx ∙ table) address)
                      (miss-IsReady vaddr p m2 (ok2, ready2) (not-true (m2.ptes p).valid e) at))
                  (λ e. (
                    (IsFilled-counters m2 _ ok2, not-false (m2.ptes p).valid e),
                    IsReady-counters m2 _ ready2,
                  )))
                (λ v m3 ((ok3, valid), ready3).
                  After-both (Loaded p) (λ r m4. IsReady pages (J n) m4)
                    (touch policy disk p vaddr type m3)
                    (touch-After policy disk p vaddr type m3 total.leaves ok3 valid)
                    (touch-IsReady p vaddr type m3 (ok3, ready3) valid))))

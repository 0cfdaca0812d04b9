-- ===== src/Paging/Algs/Own.antt =====
-- Each replacement algorithm changes its own data only.
use operating_system_unix_li.Base.{
  ℕ, zero, suc, ◌+◌, ◌%◌, ◌≡◌, refl, sym, ap, ◌∙◌, fun_ext, Bool, true, false, Option, none, some,
  List, [], ◌∷◌, ◌++◌, inl, inr, ◌==◌, ==_iff, ◌⊎◌, length, map, update, Bool-cases, Option-cases,
}
use operating_system_unix_li.Paging.Machine.{Pte, Frame, Machine, same_frame}
use operating_system_unix_li.Paging.Policies.{
  drop_last, evict_last, lru_ref, lru_evict, fifo_ref, fifo_evict, listed, clock_loop, unlink,
  clock_ref, clock_evict, clock_find, count_frame, pick_max, frame_of_max, opt_ref, opt_evict,
  rand_evict,
}
use operating_system_unix_li.Paging.PageTable.Coherence.{common, unmeasured}
use operating_system_unix_li.Paging.PageTable.Filled.{LeavesPages}
use operating_system_unix_li.Paging.Policies.Farthest.{opt_evict_at}
use operating_system_unix_li.Paging.Algs.{Alg, algs, finish}

second :
    {A B : Type 0} (a b : A) (x y : B)
    → ◌≡◌ {A = Option (A × B)} (some (a, x)) (some (b, y))
    → y ≡ x
second a b x y h = cc h

cleared :
    (b : Bool) (ptes : ℕ → Pte) (p q : ℕ)
    → record (update ptes p (record (ptes p) { ref = b }) q) { ref = false }
      ≡ record (ptes q) { ref = false }
unfolding update
cleared b ptes p q = elim (Bool-cases (q == p)) [
  | inl e ↦ rw (e, (==_iff q p).0 e) refl
  | inr e ↦ rw e refl
]

List-cases : (xs : List ℕ) → (xs ≡ []) ⊎ ((x : ℕ) × (ys : List ℕ) × (xs ≡ x ∷ ys))
List-cases [] = inl refl
List-cases (x ∷ ys) = inr (x, ys, refl)

-- Distances only.
unmeasured-count :
    (future : List ℕ) (fs : List Frame)
    → map unmeasured (map (count_frame future) fs) ≡ map unmeasured fs
unmeasured-count future [] = refl
unmeasured-count future (f ∷ fs) = ap (◌∷◌ (unmeasured f)) (unmeasured-count future fs)

-- The loop of the clock clears reference bits only.
clock_loop-marks :
    (rounds : ℕ) (ptes ptes' : ℕ → Pte) (passed passed' ps ps' : List ℕ)
    → ◌≡◌ {A = Option ((ℕ → Pte) × List ℕ × List ℕ)}
        (clock_loop rounds ptes passed ps)
        (some (ptes', passed', ps'))
    → (q : ℕ) → record (ptes' q) { ref = false } ≡ record (ptes q) { ref = false }
unfolding clock_loop
clock_loop-marks zero ptes ptes' passed passed' ps ps' h q = cc h
clock_loop-marks (suc rounds) ptes ptes' passed passed' [] ps' h q =
    clock_loop-marks rounds ptes ptes' [] passed' passed ps' h q
clock_loop-marks (suc rounds) ptes ptes' passed passed' (p ∷ ps) ps' h q =
    elim (Bool-cases (ptes p).ref) [
      | inl e ↦
          clock_loop-marks rounds (update ptes p (record (ptes p) { ref = false })) ptes'
            (passed ++ p ∷ []) passed' ps ps' (rw e at h) q
          ∙ cleared false ptes p q
      | inr e ↦
          let same : ptes' ≡ ptes = cc (rw e at h) in ap (λ f. record (f q) { ref = false }) same
    ]

module _ (m : Machine) (i : ℕ) (m1 : Machine) where
  evict_last-common : evict_last m ≡ some (i, m1) → common m1 ≡ common m
  unfolding evict_last
  evict_last-common h = elim (Option-cases (drop_last m.referlist)) [
    | inl e ↦ cc (simp (evict_last, e) at h)
    | inr ((q, ps), e) ↦
        ap common
          (second (m.ptes q).number i (record m { referlist = ps }) m1 (simp (evict_last, e) at h))
  ]

  rand_evict-common : (drawn : ℕ) → rand_evict drawn m ≡ some (i, m1) → common m1 ≡ common m
  unfolding rand_evict
  rand_evict-common drawn h = elim (Bool-cases (length m.coremap == 0)) [
    | inl e ↦ cc (simp (rand_evict, e) at h)
    | inr e ↦ ap common (second (drawn % length m.coremap) i m m1 (simp (rand_evict, e) at h))
  ]

  unlink-common :
      (ptes : ℕ → Pte) (passed ps : List ℕ)
      → ((q : ℕ) → record (ptes q) { ref = false } ≡ record (m.ptes q) { ref = false })
      → unlink ptes passed ps m ≡ some (i, m1)
      → common m1 ≡ common m
  unlink-common ptes passed [] same h = cc h
  unlink-common ptes [] (p ∷ []) same h = cc h
  unlink-common ptes [] (p ∷ q ∷ ps) same h =
      ap common
        (second (ptes p).number i (record m { ptes = ptes; referlist = (q ∷ ps) ++ [] }) m1 h)
      ∙ ap (λ f. common (record m { ptes = f })) (fun_ext same)
  unlink-common ptes (r ∷ passed) (p ∷ ps) same h =
      ap common
        (second (ptes p).number i (record m { ptes = ptes; referlist = ps ++ r ∷ passed }) m1 h)
      ∙ ap (λ f. common (record m { ptes = f })) (fun_ext same)

  clock_evict-common : clock_evict m ≡ some (i, m1) → common m1 ≡ common m
  unfolding clock_evict
  clock_evict-common h =
      elim (Option-cases (clock_loop (length m.referlist + 2) m.ptes [] m.referlist)) [
        | inl e ↦ cc (simp (clock_evict, e) at h)
        | inr ((ptes, passed, ps), e) ↦
            unlink-common ptes passed ps
              (clock_loop-marks (length m.referlist + 2) m.ptes ptes [] passed m.referlist ps e)
              (simp (clock_evict, e) at h)
      ]

  opt_evict-common : opt_evict m ≡ some (i, m1) → common m1 ≡ common m
  unfolding opt_evict frame_of_max
  opt_evict-common h = elim (List-cases m.curr) [
    | inl e ↦ cc (simp (opt_evict, e) at h)
    | inr (v, future, e) ↦
        let fs : List Frame = map (count_frame future) m.coremap in
        let picked : frame_of_max fs m ≡ some (i, m1) = sym (opt_evict_at m v future e) ∙ h in
        elim (Option-cases (pick_max 0 none 0 fs)) [
          | inl g ↦ cc (simp (frame_of_max, g) at picked)
          | inr (j, g) ↦
              ap common
                (second j i (record m { coremap = fs }) m1 (simp (frame_of_max, g) at picked))
              ∙ ap (λ cs. record (common m) { coremap = cs }) (unmeasured-count future m.coremap)
        ]
  ]

-- When it picks a frame, an algorithm of the table changes only the list of pages, the reference bits
-- and the distances.
pub algs_evict-common :
    (random : Machine → ℕ) (alg : Alg) (m : Machine) (i : ℕ) (m1 : Machine)
    → (algs random alg).evict_fcn m ≡ some (i, m1)
    → common m1 ≡ common m
unfolding algs lru_evict fifo_evict
algs_evict-common random Alg.rand m i m1 h = rand_evict-common m i m1 (random m) h
algs_evict-common random Alg.lru m i m1 h = evict_last-common m i m1 h
algs_evict-common random Alg.fifo m i m1 h = evict_last-common m i m1 h
algs_evict-common random Alg.clock m i m1 h = clock_evict-common m i m1 h
algs_evict-common random Alg.opt m i m1 h = opt_evict-common m i m1 h

clock_ref_at :
    (p q : ℕ) (m : Machine)
    → clock_find (λ k. same_frame (m.ptes k) (m.ptes p)) m.referlist ≡ some q
    → clock_ref p m ≡ record m { ptes = update m.ptes q (record (m.ptes q) { ref = true }) }
unfolding clock_ref
clock_ref_at p q m e = rw (clock_ref, e) refl

clock_ref_new :
    (p : ℕ) (m : Machine)
    → clock_find (λ k. same_frame (m.ptes k) (m.ptes p)) m.referlist ≡ none
    → clock_ref p m ≡ record m { referlist = m.referlist ++ p ∷ [] }
unfolding clock_ref
clock_ref_new p m e = rw (clock_ref, e) refl

clock_ref-common : (p : ℕ) (m : Machine) → common (clock_ref p m) ≡ common m
clock_ref-common p m =
    elim (Option-cases (clock_find (λ q. same_frame (m.ptes q) (m.ptes p)) m.referlist)) [
      | inl e ↦ ap common (clock_ref_new p m e)
      | inr (q, e) ↦
          ap common (clock_ref_at p q m e)
          ∙ ap (λ f. record (common m) { ptes = f }) (fun_ext (cleared true m.ptes q))
    ]

fifo_ref_old :
    (p : ℕ) (m : Machine)
    → listed (λ k. same_frame (m.ptes k) (m.ptes p)) m.referlist ≡ true
    → fifo_ref p m ≡ m
unfolding fifo_ref
fifo_ref_old p m e = simp (fifo_ref, e) refl

fifo_ref_new :
    (p : ℕ) (m : Machine)
    → listed (λ k. same_frame (m.ptes k) (m.ptes p)) m.referlist ≡ false
    → fifo_ref p m ≡ record m { referlist = p ∷ m.referlist }
unfolding fifo_ref
fifo_ref_new p m e = simp (fifo_ref, e) refl

pub opt_ref_at :
    (p v : ℕ) (vs : List ℕ) (m : Machine)
    → m.curr ≡ v ∷ vs
    → opt_ref p m ≡ some (record m { curr = vs })
unfolding opt_ref
opt_ref_at p v vs m e = simp (opt_ref, e) refl

opt_ref_end : (p : ℕ) (m : Machine) → m.curr ≡ [] → opt_ref p m ≡ none
unfolding opt_ref
opt_ref_end p m e = simp (opt_ref, e) refl

fifo_ref-common : (p : ℕ) (m : Machine) → common (fifo_ref p m) ≡ common m
fifo_ref-common p m =
    elim (Bool-cases (listed (λ q. same_frame (m.ptes q) (m.ptes p)) m.referlist)) [
      | inl e ↦ ap common (fifo_ref_old p m e)
      | inr e ↦ ap common (fifo_ref_new p m e)
    ]

-- On a reference, an algorithm of the table changes only the list of pages, the place in the trace, the
-- reference bits and the distances.
pub algs_ref-common :
    (random : Machine → ℕ) (alg : Alg) (p : ℕ) (m m1 : Machine)
    → (algs random alg).ref_fcn p m ≡ some (tt, m1)
    → common m1 ≡ common m
unfolding algs lru_ref
algs_ref-common random Alg.rand p m m1 h = ap common (second tt tt m m1 h)
algs_ref-common random Alg.lru p m m1 h = ap common (second tt tt (lru_ref p m) m1 h)
algs_ref-common random Alg.fifo p m m1 h =
    ap common (second tt tt (fifo_ref p m) m1 h) ∙ fifo_ref-common p m
algs_ref-common random Alg.clock p m m1 h =
    ap common (second tt tt (clock_ref p m) m1 h) ∙ clock_ref-common p m
algs_ref-common random Alg.opt p m m1 h = elim (List-cases m.curr) [
  | inl e ↦ cc (sym (ap finish (opt_ref_end p m e)) ∙ h)
  | inr (v, vs, e) ↦
      ap common
        (second tt tt (record m { curr = vs }) m1 (sym (ap finish (opt_ref_at p v vs m e)) ∙ h))
]

-- Each of the five algorithms changes only its own data: the list of pages, the place in the trace, the
-- reference bits and the distances; the page table, the coremap and the memory are as they were
-- otherwise, on a reference as well as when a frame is picked.
pub algs-LeavesPages : (random : Machine → ℕ) (alg : Alg) → LeavesPages (algs random alg)
algs-LeavesPages random alg = record {
  ref_fcn = algs_ref-common random alg;
  evict_fcn = algs_evict-common random alg;
}

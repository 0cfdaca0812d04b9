-- ===== src/Paging/Policies/Farthest.antt =====
-- opt.c: the page whose next use is the farthest away.
use operating_system_unix_li.Base.{
  get-map, map-get, ℕ, zero, suc, ◌+◌, ◌/◌, ◌≤◌, ◌<◌, ◌≡◌, refl, ap, ◌∙◌, Option, none, some, List,
  [], ◌∷◌, ◌⊎◌, inl, inr, ◌==◌, ltb, if◌then◌else◌, length, get_elem?, map, arith, Bool-cases,
  Option-cases,
}
use native.Mathlib.Nat.{zero-add}
use operating_system_unix_li.Paging.Machine.{Machine, Frame}
use operating_system_unix_li.Paging.Policies.{
  count_distance, count_frame, pick_max, frame_of_max, opt_evict,
}

-- How many references come before the next one to the page, if there is one.
unfoldable pub next_use : ℕ → List ℕ → Option ℕ
next_use page [] = none
next_use page (v ∷ vs) =
    let rest : Option ℕ = elim (next_use page vs) [ none ↦ none | some n ↦ some (suc n) ] in
    if v == page then some 0 else rest

-- The first use is not before the second.
abbrev pub NotSooner : Option ℕ → Option ℕ → Type 0
NotSooner none b = Unit
NotSooner (some m) none = some m ≡ none
NotSooner (some m) (some n) = n ≤ m

count_distance_lem :
    (d page : ℕ) (vs : List ℕ)
    → count_distance d page vs ≡ d + elim (next_use page vs) [ none ↦ length vs | some n ↦ n ]
unfolding count_distance next_use
count_distance_lem d page [] = omega arith
count_distance_lem d page (v ∷ vs) = ground (arith, count_distance_lem (d + 1) page vs)

next_use_bound : (page : ℕ) (vs : List ℕ) (n : ℕ) → next_use page vs ≡ some n → n < length vs
unfolding next_use
next_use_bound page [] n h = cc
next_use_bound page (v ∷ vs) n h = elim (Option-cases (next_use page vs)) [
  | inl e ↦ ground (arith, e, h)
  | inr (k, e) ↦ ground (arith, next_use_bound page vs k e, e, h)
]

abbrev AllBelow : ℕ → List Frame → Type 0
AllBelow x [] = Unit
AllBelow x (f ∷ fs) = (f.distance + 1 ≤ x) × AllBelow x fs

AllBelow-get :
    (x : ℕ) (fs : List Frame) (k : ℕ) (g : Frame)
    → AllBelow x fs
    → get_elem? fs k ≡ some g
    → g.distance + 1 ≤ x
AllBelow-get x [] k g all h = cc
AllBelow-get x (f ∷ fs) zero g all h = ground (arith, all.0, h)
AllBelow-get x (f ∷ fs) (suc k) g all h = AllBelow-get x fs k g all.1 h

module _ (max : ℕ) (best : Option ℕ) (i : ℕ) (fs : List Frame) where
  abbrev Picked : Type 0
  Picked =
      ((pick_max max best i fs ≡ best) × AllBelow max fs)
      ⊎ ((k : ℕ) × (f : Frame) × (pick_max max best i fs ≡ some (i + k))
          × (get_elem? fs k ≡ some f)
          × (max < f.distance + 1)
          × AllBelow (f.distance + 1) fs)

pick_max_lem : (max : ℕ) (best : Option ℕ) (i : ℕ) (fs : List Frame) → Picked max best i fs
unfolding pick_max
pick_max_lem max best i [] = inl (refl, tt)
pick_max_lem max best i (f ∷ fs) = elim (Bool-cases (ltb max (f.distance + 1))) [
  | inl e ↦ elim (pick_max_lem (f.distance + 1) (some i) (i + 1) fs) [
    | inl (r, all) ↦
        inr (0, f, rw e (r ∙ ap some (omega arith)), refl, ground arith, (omega arith, all))
    | inr (k, g, r, at, more, all) ↦ inr (
      suc k,
      g,
      rw e (r ∙ ap some (omega arith)),
      at,
      ground (arith, more),
      (omega (arith, more), all),
    )
  ]
  | inr e ↦ elim (pick_max_lem max best (i + 1) fs) [
    | inl (r, all) ↦ inl (rw e r, (ground arith, all))
    | inr (k, g, r, at, more, all) ↦
        inr (suc k, g, rw e (r ∙ ap some (omega arith)), at, more, (ground (arith, more), all))
  ]
]

NotSooner-distance :
    (p q : ℕ) (vs : List ℕ)
    → count_distance 0 q vs ≤ count_distance 0 p vs
    → NotSooner (next_use p vs) (next_use q vs)
NotSooner-distance p q vs le = elim (Option-cases (next_use p vs)) [
  | inl e ↦ rw e tt
  | inr (a, e) ↦ elim (Option-cases (next_use q vs)) [
    | inl g ↦ absurd (
        ground (
          arith,
          count_distance_lem 0 p vs,
          count_distance_lem 0 q vs,
          next_use_bound p vs a e,
          e,
          g,
          le,
        ))
    | inr (b, g) ↦
        rw (e, g) (ground (arith, count_distance_lem 0 p vs, count_distance_lem 0 q vs, e, g, le))
  ]
]

frame_of_max_at :
    (fs : List Frame) (m : Machine) (k : ℕ)
    → pick_max 0 none 0 fs ≡ some (0 + k)
    → frame_of_max fs m ≡ some (k, record m { coremap = fs })
unfolding frame_of_max
frame_of_max_at fs m k h = rw (frame_of_max, h, zero-add) refl

pub opt_evict_at :
    (m : Machine) (v : ℕ) (future : List ℕ)
    → m.curr ≡ v ∷ future
    → opt_evict m ≡ frame_of_max (map (count_frame future) m.coremap) m
unfolding opt_evict
opt_evict_at m v future now = simp (opt_evict, now) refl

-- Whenever the trace list has a current node, `opt_evict` gives the index of a frame of the coremap
-- such that the next use of its page in the trace behind the current node is not before the next use of
-- the page of any frame `g`; only the distances of the coremap change.
pub opt_evict-farthest :
    (m : Machine) (v : ℕ) (future : List ℕ) (i : ℕ) (g : Frame)
    → m.curr ≡ v ∷ future
    → get_elem? m.coremap i ≡ some g
    → (j : ℕ) × (f : Frame) × (opt_evict m
        ≡ some (j, record m { coremap = map (count_frame future) m.coremap }))
      × (get_elem? m.coremap j ≡ some f)
      × NotSooner (next_use (f.vaddr / 4096) future) (next_use (g.vaddr / 4096) future)
unfolding opt_evict
opt_evict-farthest m v future i g now at =
    let fs : List Frame = map (count_frame future) m.coremap in
    let counted : get_elem? fs i ≡ some (count_frame future g) =
      map-get (count_frame future) m.coremap i g at in
    elim (pick_max_lem 0 none 0 fs) [
      | inl (r, all) ↦
          absurd (omega (arith, AllBelow-get 0 fs i (count_frame future g) all counted))
      | inr (k, f', r, there, more, all) ↦
          let (f, here, same) = get-map (count_frame future) m.coremap k f' there in
          let below : (count_frame future g).distance + 1 ≤ f'.distance + 1 =
            AllBelow-get (f'.distance + 1) fs i (count_frame future g) all counted in
          (
            k,
            f,
            opt_evict_at m v future now ∙ frame_of_max_at fs m k r,
            here,
            NotSooner-distance (f.vaddr / 4096) (g.vaddr / 4096) future
                (omega (arith, below, ap (λ x. x.distance) same)),
          )
    ]

-- ===== src/Paging/Policies/Recency.antt =====
-- lru.c against the order in which the pages were last used.
use operating_system_unix_li.Base.{
  contains_head, contains_tail, inl, inr, ℕ, zero, suc, ◌-◌, ◌<◌, ◌≡◌, refl, ap, ◌∙◌, Bool, true,
  false, none, some, List, [], ◌∷◌, ◌==◌, if◌then◌else◌, length, get_elem?, contains, arith,
  Bool-cases,
}
use operating_system_unix_li.Paging.Machine.{Machine, IsTold, same_frame}
use operating_system_unix_li.Paging.Policies.{
  drop_last, pull_out, to_front, lru_ref, lru_evict, evict_last,
}

abbrev pub take : ℕ → List ℕ → List ℕ
take zero xs = []
take (suc n) [] = []
take (suc n) (x ∷ xs) = x ∷ take n xs

abbrev pub remove : ℕ → List ℕ → List ℕ
remove p [] = []
remove p (x ∷ xs) = if x == p then xs else x ∷ remove p xs

-- The pages of a history of references, the latest first: each page once, at its last use.
abbrev pub recent : List ℕ → List ℕ
recent [] = []
recent (p ∷ history) = p ∷ remove p (recent history)

remove_absent : (p : ℕ) (xs : List ℕ) → contains p xs ≡ false → remove p xs ≡ xs
remove_absent p [] h = refl
remove_absent p (x ∷ xs) h = ground (arith, remove_absent p xs)

remove-take :
    (p n : ℕ) (xs : List ℕ)
    → contains p (take n xs) ≡ true
    → remove p (take n xs) ≡ take (n - 1) (remove p xs)
remove-take p zero xs h = cc
remove-take p (suc n) [] h = cc
remove-take p (suc zero) (x ∷ xs) h = ground arith
remove-take p (suc (suc n)) (x ∷ xs) h = ground (arith, remove-take p (suc n) xs)

take-remove :
    (p n : ℕ) (xs : List ℕ) → contains p (take n xs) ≡ false → take n (remove p xs) ≡ take n xs
take-remove p zero xs h = refl
take-remove p (suc n) [] h = refl
take-remove p (suc n) (x ∷ xs) h = ground (arith, take-remove p n xs)

front-take :
    (p n : ℕ) (xs : List ℕ)
    → p ∷ remove p (take n xs)
      ≡ take (if contains p (take n xs) then n else suc n) (p ∷ remove p xs)
front-take p zero xs = refl
front-take p (suc n) xs = elim (Bool-cases (contains p (take (suc n) xs))) [
  | inl e ↦ rw (e, remove-take p (suc n) xs e) (ground arith)
  | inr e ↦ rw (e, remove_absent p (take (suc n) xs) e, take-remove p (suc n) xs e) refl
]

module _ (hit : ℕ → Bool) (p : ℕ) where
  pull_out_lem :
      (xs : List ℕ)
      → ((q : ℕ) → contains q xs ≡ true → hit q ≡ (q == p))
      → pull_out hit xs ≡ (if contains p xs then some (p, remove p xs) else none)
  unfolding pull_out
  pull_out_lem [] told = refl
  pull_out_lem (x ∷ xs) told =
      ground (
        arith,
        told x (contains_head x xs),
        pull_out_lem xs (λ q h. told q (contains_tail q x xs h)),
      )

  to_front_lem :
      (xs : List ℕ)
      → ((q : ℕ) → contains q xs ≡ true → hit q ≡ (q == p))
      → to_front hit p xs ≡ p ∷ remove p xs
  to_front_lem [] told = refl
  to_front_lem (x ∷ xs) told =
      ground (arith, told x (contains_head x xs), pull_out_lem (x ∷ xs) told, remove_absent p xs)

-- On a reference to a page that the frame words tell from the others, `lru_ref` keeps the list in the
-- order of recency: if it holds the `n` pages that were used last, then it holds the `n` pages used
-- last after this reference, or one more if the page was not in the list.
pub lru_ref-recency :
    (history : List ℕ) (n p : ℕ) (m : Machine)
    → IsTold m p
    → m.referlist ≡ take n (recent history)
    → (lru_ref p m).referlist
      ≡ take (if contains p m.referlist then n else suc n) (recent (p ∷ history))
unfolding lru_ref
lru_ref-recency history n p m told order =
    to_front_lem (λ q. same_frame (m.ptes q) (m.ptes p)) p m.referlist told
    ∙ rw order (front-take p n (recent history))

drop_last-take :
    (n : ℕ) (xs : List ℕ)
    → suc n < length xs
    → (q : ℕ) × (get_elem? xs (suc n) ≡ some q)
      × (drop_last (take (suc (suc n)) xs) ≡ some (q, take (suc n) xs))
unfolding drop_last
drop_last-take n [] h = absurd (omega (arith, h))
drop_last-take n (x ∷ []) h = absurd (omega (arith, h))
drop_last-take zero (x ∷ y ∷ xs) h = (y, refl, refl)
drop_last-take (suc n) (x ∷ y ∷ []) h = absurd (omega (arith, h))
drop_last-take (suc n) (x ∷ y ∷ z ∷ xs) h =
    let (q, at, out) = drop_last-take n (y ∷ z ∷ xs) (omega (arith, h)) in
    (q, at, ground (arith, out))

-- If the list holds at least two pages, and they are the pages used last, then `lru_evict` picks the
-- one among them whose last use is the earliest and takes it off the list.
pub lru_evict-oldest :
    (history : List ℕ) (n : ℕ) (m : Machine)
    → m.referlist ≡ take (suc (suc n)) (recent history)
    → suc n < length (recent history)
    → (q : ℕ) × (get_elem? (recent history) (suc n) ≡ some q)
      × (lru_evict m
          ≡ some ((m.ptes q).number, record m { referlist = take (suc n) (recent history) }))
unfolding lru_evict evict_last
lru_evict-oldest history n m order enough =
    let (q, at, out) = drop_last-take n (recent history) enough in
    (q, at, rw (lru_evict, evict_last, ap drop_last order ∙ out) refl)

-- ===== src/Paging/Policies/Queue.antt =====
-- fifo.c: the pages leave in the order in which they came.
use operating_system_unix_li.Base.{
  contains_head, contains_tail, ℕ, ◌<◌, ◌≡◌, refl, ap, ◌∙◌, Bool, true, some, List, [], ◌∷◌, ◌++◌,
  ◌==◌, if◌then◌else◌, length, contains, arith, Bool-cases, inl, inr,
}
use operating_system_unix_li.Paging.Machine.{Machine, IsTold, same_frame}
use operating_system_unix_li.Paging.Policies.{drop_last, listed, fifo_ref, fifo_evict, evict_last}

-- `arrived` are the pages that were ever put in the list and `left` those that were evicted, both with
-- the latest first.
abbrev pub IsQueue : List ℕ → List ℕ → Machine → Type 0
IsQueue arrived left m = m.referlist ++ left ≡ arrived

listed_lem :
    (hit : ℕ → Bool) (p : ℕ) (xs : List ℕ)
    → ((q : ℕ) → contains q xs ≡ true → hit q ≡ (q == p))
    → listed hit xs ≡ contains p xs
unfolding listed
listed_lem hit p [] told = refl
listed_lem hit p (x ∷ xs) told = ground (
  arith,
  told x (contains_head x xs),
  listed_lem hit p xs (λ q h. told q (contains_tail q x xs h)),
)

-- A page is counted as arrived if it was not in the list.
fifo_ref-IsQueue :
    (arrived left : List ℕ) (p : ℕ) (m : Machine)
    → IsTold m p
    → IsQueue arrived left m
    → IsQueue (if contains p m.referlist then arrived else p ∷ arrived) left (fifo_ref p m)
unfolding fifo_ref
fifo_ref-IsQueue arrived left p m told queue =
    let seen : listed (λ q. same_frame (m.ptes q) (m.ptes p)) m.referlist ≡ contains p m.referlist =
      listed_lem (λ q. same_frame (m.ptes q) (m.ptes p)) p m.referlist told in
    elim (Bool-cases (contains p m.referlist)) [
      | inl e ↦ rw (seen, e) queue
      | inr e ↦ rw (seen, e) (ap (◌∷◌ p) queue)
    ]

drop_last_lem :
    (xs left : List ℕ)
    → 1 < length xs
    → (q : ℕ) × (ys : List ℕ) × (drop_last xs ≡ some (q, ys)) × (ys ++ q ∷ left ≡ xs ++ left)
unfolding drop_last
drop_last_lem [] left h = absurd (omega (arith, h))
drop_last_lem (x ∷ []) left h = absurd (omega (arith, h))
drop_last_lem (x ∷ y ∷ []) left h = (y, x ∷ [], refl, refl)
drop_last_lem (x ∷ y ∷ z ∷ xs) left h =
    let (q, ys, out, same) = drop_last_lem (y ∷ z ∷ xs) left (omega arith) in
    (q, x ∷ ys, ground (arith, out), ap (◌∷◌ x) same)

fifo_evict-IsQueue :
    (arrived left : List ℕ) (m : Machine)
    → IsQueue arrived left m
    → 1 < length m.referlist
    → (q : ℕ) × (m' : Machine) × (fifo_evict m ≡ some ((m.ptes q).number, m'))
      × IsQueue arrived (q ∷ left) m'
unfolding fifo_evict evict_last
fifo_evict-IsQueue arrived left m queue enough =
    let (q, ys, out, same) = drop_last_lem m.referlist left enough in
    (q, record m { referlist = ys }, rw (fifo_evict, evict_last, out) refl, same ∙ queue)

-- In a queue of at least two pages: on a reference to a page that the frame words tell from the others,
-- `fifo_ref` counts it as arrived if it was not in the list, and changes nothing if it was, and the list
-- stays a queue; `fifo_evict` takes the page that arrived first among those that have not left, and
-- returns its frame.
pub fifo-IsQueue :
    (arrived left : List ℕ) (p : ℕ) (m : Machine)
    → IsTold m p
    → IsQueue arrived left m
    → 1 < length m.referlist
    → IsQueue (if contains p m.referlist then arrived else p ∷ arrived) left (fifo_ref p m)
      × ((q : ℕ) × (m' : Machine) × (fifo_evict m ≡ some ((m.ptes q).number, m'))
          × IsQueue arrived (q ∷ left) m')
fifo-IsQueue arrived left p m told queue enough =
    (fifo_ref-IsQueue arrived left p m told queue, fifo_evict-IsQueue arrived left m queue enough)

-- ===== src/Paging/Policies.antt =====
-- lru.c, fifo.c, clock.c, opt.c and rand.c: the replacement algorithms, as functions on the state.
-- `none` as a result is a NULL pointer that is followed.
pub mod Recency
pub mod Queue
pub mod Chance
pub mod Farthest
use operating_system_unix_li.Base.{
  ℕ, zero, suc, ◌+◌, ◌/◌, ◌%◌, Bool, true, false, Option, none, some, List, [], ◌∷◌, ◌++◌, ◌==◌,
  ltb, if◌then◌else◌, length, map, update,
}
use operating_system_unix_li.Paging.Machine.{Pte, Frame, Machine, same_frame}

-- The walk to the last node, which is taken off: `prevN` is NULL if it is the only one.
unfoldable pub drop_last : List ℕ → Option (ℕ × List ℕ)
drop_last [] = none
drop_last (p ∷ []) = none
drop_last (p ∷ q ∷ []) = some (q, p ∷ [])
drop_last (p ∷ q ∷ r ∷ ps) = elim (drop_last (q ∷ r ∷ ps)) [
  | none ↦ none
  | some (l, qs) ↦ some (l, p ∷ qs)
]

unfoldable pub evict_last : Machine → Option (ℕ × Machine)
evict_last m = elim (drop_last m.referlist) [
  | none ↦ none
  | some (q, ps) ↦ some ((m.ptes q).number, record m { referlist = ps })
]

unfoldable pub lru_evict : Machine → Option (ℕ × Machine)
lru_evict m = evict_last m

unfoldable pub fifo_evict : Machine → Option (ℕ × Machine)
fifo_evict m = evict_last m

-- The loop of `lru_ref`: the first node with the frame, and the list without it.
unfoldable pub pull_out : (ℕ → Bool) → List ℕ → Option (ℕ × List ℕ)
pull_out hit [] = none
pull_out hit (q ∷ qs) =
    let rest : Option (ℕ × List ℕ) = elim (pull_out hit qs) [
      | none ↦ none
      | some (r, rs) ↦ some (r, q ∷ rs)
    ] in
    if hit q then some (q, qs) else rest

abbrev pub to_front : (ℕ → Bool) → ℕ → List ℕ → List ℕ
to_front hit p [] = p ∷ []
to_front hit p (q ∷ qs) =
    if hit q
    then q ∷ qs
    else elim (pull_out hit (q ∷ qs)) [ none ↦ p ∷ q ∷ qs | some (r, rs) ↦ r ∷ rs ]

unfoldable pub lru_ref : ℕ → Machine → Machine
unfolding pull_out
lru_ref p m = record m {
  referlist = to_front (λ q. same_frame (m.ptes q) (m.ptes p)) p m.referlist;
}

-- Whether some node of the list has the frame.
unfoldable pub listed : (ℕ → Bool) → List ℕ → Bool
listed hit [] = false
listed hit (q ∷ qs) = if hit q then true else listed hit qs

unfoldable pub fifo_ref : ℕ → Machine → Machine
unfolding listed
fifo_ref p m =
    if listed (λ q. same_frame (m.ptes q) (m.ptes p)) m.referlist
    then m
    else record m { referlist = p ∷ m.referlist }

-- The first loop of `clock_evict`, with the rounds that are left: the pages passed since the head,
-- whose reference bits are cleared, and those from `current` on. Behind the last page comes the head.
unfoldable pub clock_loop : ℕ → (ℕ → Pte) → List ℕ → List ℕ → Option ((ℕ → Pte) × List ℕ × List ℕ)
clock_loop zero ptes passed ps = none
clock_loop (suc rounds) ptes passed [] = clock_loop rounds ptes [] passed
clock_loop (suc rounds) ptes passed (p ∷ ps) =
    let pte : Pte = ptes p in
    let next : Option ((ℕ → Pte) × List ℕ × List ℕ) =
      clock_loop rounds (update ptes p (record pte { ref = false })) (passed ++ p ∷ []) ps in
    if pte.ref then next else some (ptes, passed, p ∷ ps)

-- The page at `current` leaves the circle, and the one behind it is the new head. In a circle of one
-- page the head is left at a node that is freed, which is a fault here.
abbrev pub unlink : (ℕ → Pte) → List ℕ → List ℕ → Machine → Option (ℕ × Machine)
unlink ptes passed [] m = none
unlink ptes [] (p ∷ []) m = none
unlink ptes passed (p ∷ ps) m =
    some ((ptes p).number, record m { ptes = ptes; referlist = ps ++ passed })

unfoldable pub clock_evict : Machine → Option (ℕ × Machine)
unfolding clock_loop
clock_evict m = elim (clock_loop (length m.referlist + 2) m.ptes [] m.referlist) [
  | none ↦ none
  | some (ptes, passed, ps) ↦ unlink ptes passed ps m
]

-- The circle with the first page that has the frame marked, if there is one.
unfoldable pub clock_find : (ℕ → Bool) → List ℕ → Option ℕ
clock_find hit [] = none
clock_find hit (q ∷ qs) = if hit q then some q else clock_find hit qs

unfoldable pub clock_ref : ℕ → Machine → Machine
unfolding clock_find
clock_ref p m = elim (clock_find (λ q. same_frame (m.ptes q) (m.ptes p)) m.referlist) [
  | none ↦ record m { referlist = m.referlist ++ p ∷ [] }
  | some q ↦ record m { ptes = update m.ptes q (record (m.ptes q) { ref = true }) }
]

-- The inner loop of `opt_evict`: the distance of a page grows by one for each node of the trace list
-- up to the first with this page; a distance of 0 after that is never seen.
unfoldable pub count_distance : ℕ → ℕ → List ℕ → ℕ
count_distance distance page [] = distance
count_distance distance page (v ∷ vs) =
    let rest = count_distance (distance + 1) page vs in if v == page then distance else rest

-- The loop that picks the frame: `max` is max_distance + 1, so that -1 is 0, and `best` is none for -1.
unfoldable pub pick_max : ℕ → Option ℕ → ℕ → List Frame → Option ℕ
pick_max max best i [] = best
pick_max max best i (f ∷ fs) =
    let larger = ltb max (f.distance + 1) in
    pick_max (if larger then f.distance + 1 else max) (if larger then some i else best) (i + 1) fs

abbrev pub count_frame : List ℕ → Frame → Frame
count_frame future f = record f { distance = count_distance 0 (f.vaddr / 4096) future }

unfoldable pub frame_of_max : List Frame → Machine → Option (ℕ × Machine)
unfolding pick_max
frame_of_max fs m = elim (pick_max 0 none 0 fs) [
  | none ↦ none
  | some i ↦ some (i, record m { coremap = fs })
]

-- `curr->next` is read for each frame; the index -1 is a fault in the caller, and `none` here.
unfoldable pub opt_evict : Machine → Option (ℕ × Machine)
unfolding count_distance pick_max frame_of_max
opt_evict m = elim m.curr [
  | [] ↦ none
  | v ∷ future ↦ frame_of_max (map (count_frame future) m.coremap) m
]

unfoldable pub opt_ref : ℕ → Machine → Option Machine
opt_ref p m = elim m.curr [ [] ↦ none | v ∷ vs ↦ some (record m { curr = vs }) ]

-- `drawn` is the result of random(); a remainder by 0 is a fault.
unfoldable pub rand_evict : ℕ → Machine → Option (ℕ × Machine)
rand_evict drawn m = if length m.coremap == 0 then none else some (drawn % length m.coremap, m)

-- The list of pages that `opt_init` makes of the lines that are not skipped, which are given as type and
-- address; `opens` says whether the file can be opened.
unfoldable pub pages_of : List (ℕ × ℕ) → List ℕ
pages_of [] = []
pages_of ((type, vaddr) ∷ trace) = vaddr / 4096 ∷ pages_of trace

unfoldable pub opt_init : Bool → List (ℕ × ℕ) → Machine → Option Machine
opt_init opens trace m = if opens then some (record m { curr = pages_of trace }) else none

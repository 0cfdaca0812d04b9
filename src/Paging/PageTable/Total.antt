-- ===== src/Paging/PageTable/Total.antt =====
-- pagetable.c: `find_physpage` ends if the swap file has room.
use operating_system_unix_li.Base.{
  ℕ, zero, suc, ◌/◌, ◌<◌, ◌≡◌, refl, sym, ap, ◌∙◌, true, false, none, some, List, [], ◌∷◌, inl, inr,
  contains, length, get_elem?, get-length, set, length-set, arith, Option-cases,
}
use operating_system_unix_li.Paging.Machine.{Pte, Machine}
use operating_system_unix_li.Paging.Swap.{Disk}
use operating_system_unix_li.Paging.PageTable.{Policy, first_free, allocate_frame}
use operating_system_unix_li.Paging.PageTable.Invariant.{IsCoherent, installed}
use operating_system_unix_li.Paging.PageTable.Allocate.{
  turned, fresh_frame, fresh_pte, first_free_found, first_free_full, allocate_free, allocate_evicts,
}
use operating_system_unix_li.Paging.PageTable.Coherence.{common, same_frame_at, IsCoherent-common}
use operating_system_unix_li.Paging.PageTable.Filled.{LeavesPages}
use operating_system_unix_li.Paging.PageTable.Room.{IsReady}
use operating_system_unix_li.Paging.PageTable.Written.{Writes, turn_out_room}
use operating_system_unix_li.Paging.PageTable.Ready.{IsReady-common, IsReady-entry, common-length}
use operating_system_unix_li.Paging.PageTable.Slots.{HasRoom-IsReady, turned-IsReady}

-- A replacement algorithm that always ends, when `J n` holds of the trace list before the last `n`
-- references.
pub record IsTotal (policy : Policy) (J : ℕ → List ℕ → Type 0) : Type 0 where
  pub leaves : LeavesPages policy
  pub ref_fcn :
      (n p : ℕ) (m : Machine)
      → J (suc n) m.curr
      → (m1 : Machine) × (policy.ref_fcn p m ≡ some (tt, m1)) × J n m1.curr
  pub evict_fcn :
      (n : ℕ) (m : Machine)
      → J (suc n) m.curr
      → 0 < length m.coremap
      → (i : ℕ) × (m1 : Machine) × (policy.evict_fcn m ≡ some (i, m1))
        × (i < length m.coremap)
        × J (suc n) m1.curr

pub get-inside {ℓ} :
    {A : Type ℓ} (xs : List A) (i : ℕ) → i < length xs → (x : A) × (get_elem? xs i ≡ some x)
get-inside [] i inside = absurd (omega (arith, inside))
get-inside (x ∷ xs) zero inside = (x, refl)
get-inside (x ∷ xs) (suc i) inside = get-inside xs i (omega (arith, inside))

module _ (policy : Policy) (disk : Disk) (writes_ok : Writes disk) (J : ℕ → List ℕ → Type 0)
    (total : IsTotal policy J) (pages : List ℕ) (n : ℕ) where
  allocate_free-IsReady :
      (p i : ℕ) (m : Machine)
      → IsReady pages (J (suc n)) m
      → contains p pages ≡ true
      → first_free 0 m.coremap ≡ some i
      → (j : ℕ) × (m1 : Machine) × (allocate_frame policy disk p m ≡ some (some j, m1))
        × (j < length m1.coremap)
        × IsReady pages (J (suc n)) m1
  allocate_free-IsReady p i m ready at free =
      let (j, f, same, at_j, unused) = first_free_found 0 i m.coremap free in
      let at_i : get_elem? m.coremap i ≡ some f =
        ap (get_elem? m.coremap) (omega (arith, same)) ∙ at_j in
      let len : length (set m.coremap i (fresh_frame p)) ≡ length m.coremap =
        length-set m.coremap i (fresh_frame p) in
      (
        i,
        installed m i p (fresh_frame p) (fresh_pte i (m.ptes p)),
        allocate_free policy disk p m i f free at_i,
        omega (arith, len, get-length m.coremap i f at_i),
        IsReady-entry pages (J (suc n)) m p (fresh_pte i (m.ptes p))
            (set m.coremap i (fresh_frame p)) ready at refl len,
      )

  allocate_full-IsReady :
      (p : ℕ) (m : Machine)
      → IsCoherent m
      → IsReady pages (J (suc n)) m
      → contains p pages ≡ true
      → first_free 0 m.coremap ≡ none
      → (j : ℕ) × (m1 : Machine) × (allocate_frame policy disk p m ≡ some (some j, m1))
        × (j < length m1.coremap)
        × IsReady pages (J (suc n)) m1
  allocate_full-IsReady p m ok ready at full =
      let (i, m1, picked, inside, future) = total.evict_fcn n m ready.future ready.memory in
      let same : common m1 ≡ common m = total.leaves.evict_fcn m i m1 picked in
      let len : length m1.coremap ≡ length m.coremap = common-length pages (J (suc n)) m m1 same in
      let (g, at1) = get-inside m1.coremap i (omega (arith, inside, len)) in
      let (f, at_f, like) = same_frame_at m m1 same i g at1 in
      let ok1 : IsCoherent m1 = IsCoherent-common m m1 same ok in
      let ready1 : IsReady pages (J (suc n)) m1 =
        IsReady-common pages (J (suc n)) m m1 same future ready in
      let in_use : g.in_use ≡ true =
        sym (ap (λ k. k.in_use) like) ∙ first_free_full 0 m.coremap i f full at_f in
      let (valid, number) = ok1.frames i g at1 in_use in
      let table : m1.pgdir (g.pte / 4096) ≡ true = ok1.tables g.pte valid in
      let (d, s, b, file, c, used', out, slot) =
        turn_out_room disk i g ready1.used m1 writes_ok at1 (omega (arith, inside, len)) valid
          (HasRoom-IsReady pages (J (suc n)) m1 g.pte ready1 valid table) in
      let e : Pte = record (m1.ptes g.pte) { valid = false; dirty = d; swap_off = s } in
      let m2 : Machine = turned g.pte e b file c m1 in
      let set_len : length (set m1.coremap i (fresh_frame p)) ≡ length m1.coremap =
        length-set m1.coremap i (fresh_frame p) in
      (
        i,
        installed m2 i p (fresh_frame p) (fresh_pte i (m2.ptes p)),
        allocate_evicts policy disk p m i g m1 m2 full picked
            (out ∙ ap (λ k. some (some k, m2)) number) at1,
        omega (arith, inside, len, set_len),
        IsReady-entry pages (J (suc n)) m2 p (fresh_pte i (m2.ptes p))
            (set m2.coremap i (fresh_frame p))
            (turned-IsReady pages (J (suc n)) m1 g.pte e b file c used' ready1 valid table slot) at
            refl set_len,
      )

  pub allocate-IsReady :
      (p : ℕ) (m : Machine)
      → IsCoherent m
      → IsReady pages (J (suc n)) m
      → contains p pages ≡ true
      → (j : ℕ) × (m1 : Machine) × (allocate_frame policy disk p m ≡ some (some j, m1))
        × (j < length m1.coremap)
        × IsReady pages (J (suc n)) m1
  allocate-IsReady p m ok ready at = elim (Option-cases (first_free 0 m.coremap)) [
    | inl full ↦ allocate_full-IsReady p m ok ready at full
    | inr (i, free) ↦ allocate_free-IsReady p i m ready at free
  ]

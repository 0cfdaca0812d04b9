-- ===== src/Paging/PageTable/Replay.antt =====
-- sim.c: `replay_trace` reaches its end if the swap file has room.
use operating_system_unix_li.Base.{
  ℕ, suc, ◌*◌, ◌%◌, ◌^◌, ◌<◌, ◌≡◌, refl, true, List, [], ◌∷◌, contains, length, arith,
}
use operating_system_unix_li.Paging.Machine.{Machine, ret}
use operating_system_unix_li.Paging.Swap.{Disk}
use operating_system_unix_li.Paging.PageTable.{Policy, find_physpage, access_mem, replay_trace}
use operating_system_unix_li.Paging.PageTable.Hit.{entry_of}
use operating_system_unix_li.Paging.PageTable.Leads.{After, After-at, bind-After}
use operating_system_unix_li.Paging.PageTable.Filled.{IsFilled, Loaded}
use operating_system_unix_li.Paging.PageTable.Checks.{ArePages, check, check_lem}
use operating_system_unix_li.Paging.PageTable.Room.{IsReady}
use operating_system_unix_li.Paging.PageTable.Written.{Writes}
use operating_system_unix_li.Paging.PageTable.Ready.{IsReady-same}
use operating_system_unix_li.Paging.PageTable.Total.{IsTotal}
use operating_system_unix_li.Paging.PageTable.Reached.{find_physpage_reached}

-- The pages of the trace are in the list.
abbrev pub AreListed : List ℕ → List (ℕ × ℕ) → Type 0
AreListed pages [] = Unit
AreListed pages ((type, vaddr) ∷ trace) =
    (contains (entry_of vaddr) pages ≡ true) × AreListed pages trace

module _ (policy : Policy) (disk : Disk) (writes_ok : Writes disk) (J : ℕ → List ℕ → Type 0)
    (total : IsTotal policy J) (pages : List ℕ) where
  abbrev Goes : ℕ → Machine → Type 0
  Goes n m = IsFilled m × IsReady pages (J n) m

  access_mem_reached :
      (n type vaddr : ℕ) (m : Machine)
      → Goes (suc n) m
      → vaddr < 2 ^ 36
      → vaddr % 4096 ≡ 0
      → contains (entry_of vaddr) pages ≡ true
      → After ⊥ (λ ok m1. Goes n m1) (access_mem policy disk (λ idx. true) type vaddr m)
  unfolding access_mem
  access_mem_reached n type vaddr m goes small aligned at =
      let p : ℕ = entry_of vaddr in
      let address : vaddr ≡ p * 4096 = omega (arith, small, aligned) in
      bind-After ⊥ (λ r m1. Loaded p r m1 × IsReady pages (J n) m1) (λ ok m1. Goes n m1)
        (find_physpage policy disk (λ idx. true) vaddr type) (check type vaddr) m
        (find_physpage_reached policy disk writes_ok J total pages n vaddr type m goes small aligned
          at)
        (λ frame m1 (found, ready).
          let (memory, out, ok1) = check_lem type vaddr p frame m1 address found in
          After-at ⊥ (λ ok m2. Goes n m2) (check type vaddr frame m1) _ out
            (
              ok1,
              IsReady-same pages (J n) m1 (record m1 { physmem = memory }) refl refl refl
                  (λ q. refl) ready.listed ready.future ready,
            ))

  pub replay_trace_reached :
      (trace : List (ℕ × ℕ)) (m : Machine)
      → IsFilled m
      → IsReady pages (J (length trace)) m
      → ArePages trace
      → AreListed pages trace
      → After ⊥ (λ oks m1. IsFilled m1) (replay_trace policy disk (λ idx. true) trace m)
  unfolding replay_trace
  replay_trace_reached [] m ok ready addresses listed = ok
  replay_trace_reached ((type, vaddr) ∷ trace) m ok ready (small, aligned, addresses) (at, listed) =
      let n : ℕ = length trace in
      bind-After ⊥ (λ good m1. Goes n m1) (λ oks m1. IsFilled m1)
        (access_mem policy disk (λ idx. true) type vaddr) _ m
        (access_mem_reached n type vaddr m (ok, ready) small aligned at)
        (λ good m1 (ok1, ready1).
          bind-After ⊥ (λ oks m2. IsFilled m2) (λ oks m2. IsFilled m2)
            (replay_trace policy disk (λ idx. true) trace) (λ oks. ret (good ∷ oks)) m1
            (replay_trace_reached trace m1 ok1 ready1 addresses listed) (λ oks m2 ok2. ok2))

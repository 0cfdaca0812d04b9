-- ===== src/Paging/Algs/Totals.antt =====
-- The counters of sim.c over a trace, with each of the replacement algorithms.
use operating_system_unix_li.Base.{
  ℕ, ◌+◌, ◌≡◌, refl, ap, subst, Bool, Option, none, some, List, length,
}
use operating_system_unix_li.Paging.Machine.{Machine}
use operating_system_unix_li.Paging.Swap.{Disk}
use operating_system_unix_li.Paging.PageTable.{replay_trace}
use operating_system_unix_li.Paging.PageTable.Coherence.{common}
use operating_system_unix_li.Paging.PageTable.Moves.{accesses, Ends, still}
use operating_system_unix_li.Paging.PageTable.Counts.{LeavesCounts, replay_trace-Moves}
use operating_system_unix_li.Paging.Algs.{Alg, algs}
use operating_system_unix_li.Paging.Algs.Own.{algs_evict-common, algs_ref-common}

-- A result whose machine agrees on all but what belongs to the algorithms.
common-Ends :
    {A : Type 0} (m : Machine) (o : Option (A × Machine))
    → ((a : A) (m1 : Machine) → o ≡ some (a, m1) → common m1 ≡ common m)
    → Ends 0 0 m o
common-Ends m none same = tt
common-Ends m (some (a, m1)) same = still m m1 a (ap (λ k. k.counters) (same a m1 refl))

pub algs-LeavesCounts : (random : Machine → ℕ) (alg : Alg) → LeavesCounts (algs random alg)
algs-LeavesCounts random alg = (
  λ p m.
      common-Ends m ((algs random alg).ref_fcn p m) (λ u m1 h. algs_ref-common random alg p m m1 h),
  λ m.
      common-Ends m ((algs random alg).evict_fcn m)
        (λ i m1 h. algs_evict-common random alg m i m1 h),
)

Ends-at :
    {A : Type 0} (n r : ℕ) (m m1 : Machine) (a : A) (o : Option (A × Machine))
    → Ends n r m o
    → o ≡ some (a, m1)
    → (accesses m1 ≡ accesses m + n) × (m1.counters.ref_count ≡ m.counters.ref_count + r)
Ends-at n r m m1 a o h is =
    let (moved, referred, hits) = subst (Ends n r m) is h in (moved, referred)

-- With each of the five algorithms, a trace that is replayed to its end moves the hits and the misses,
-- taken together, by the number of its accesses, and the references by the same number.
pub replay_trace-accesses :
    (random : Machine → ℕ) (alg : Alg) (disk : Disk) (gives : ℕ → Bool) (trace : List (ℕ × ℕ))
    (oks : List Bool) (m m1 : Machine)
    → replay_trace (algs random alg) disk gives trace m ≡ some (oks, m1)
    → (accesses m1 ≡ accesses m + length trace)
      × (m1.counters.ref_count ≡ m.counters.ref_count + length trace)
replay_trace-accesses random alg disk gives trace oks m m1 runs =
    Ends-at (length trace) (length trace) m m1 oks
      (replay_trace (algs random alg) disk gives trace m)
      (replay_trace-Moves (algs random alg) disk (algs-LeavesCounts random alg) gives trace m) runs

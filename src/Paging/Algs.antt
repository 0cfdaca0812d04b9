-- ===== src/Paging/Algs.antt =====
-- sim.c: the table of the replacement algorithms.
pub mod Own
pub mod Totals
pub mod Ends
use operating_system_unix_li.Base.{ℕ, Option, none, some}
use operating_system_unix_li.Paging.Machine.{Machine, M}
use operating_system_unix_li.Paging.Policies.{
  lru_ref, lru_evict, fifo_ref, fifo_evict, clock_ref, clock_evict, opt_ref, opt_evict, rand_evict,
}
use operating_system_unix_li.Paging.PageTable.{Policy}

pub data Alg : Type 0 where
  rand : Alg
  lru : Alg
  fifo : Alg
  clock : Alg
  opt : Alg

abbrev pub total : Machine → Option ((Unit {0}) × Machine)
total m = some (tt, m)

abbrev pub finish : Option Machine → Option ((Unit {0}) × Machine)
finish none = none
finish (some m) = total m

-- The entry of `algs`; `random` gives the numbers that are drawn.
unfoldable pub algs : (Machine → ℕ) → Alg → Policy
algs random Alg.rand = record { ref_fcn = λ p m. total m; evict_fcn = λ m. rand_evict (random m) m }
algs random Alg.lru = record { ref_fcn = λ p m. total (lru_ref p m); evict_fcn = lru_evict }
algs random Alg.fifo = record { ref_fcn = λ p m. total (fifo_ref p m); evict_fcn = fifo_evict }
algs random Alg.clock = record { ref_fcn = λ p m. total (clock_ref p m); evict_fcn = clock_evict }
algs random Alg.opt = record { ref_fcn = λ p m. finish (opt_ref p m); evict_fcn = opt_evict }

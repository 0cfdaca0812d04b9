-- ===== src/Paging/Simulator.antt =====
-- sim.c, `main`: a run of the simulator.
pub mod Start
pub mod Outcome
pub mod Ends
mod Tests
use operating_system_unix_li.Base.{
  ℕ, zero, suc, ◌%◌, ◌^◌, Bool, true, false, ◌&&◌, Option, none, some, List, [], ◌∷◌, ◌==◌,
  if◌then◌else◌,
}
use operating_system_unix_li.Paging.Machine.{
  Pte, Frame, Page, Machine, M, ◌>>=◌, ◌>>◌, ret, done, stop,
}
use operating_system_unix_li.Paging.Swap.{Disk, swap_init}
use operating_system_unix_li.Paging.Policies.{opt_init}
use operating_system_unix_li.Paging.PageTable.{init_pagetable, replay_trace}
use operating_system_unix_li.Paging.Algs.{Alg, algs, finish}
use operating_system_unix_li.Paging.Trace.{Text, scan_trace}

-- An option of the command line as getopt gives it; a number is what strtoul makes of the argument.
pub data Flag : Type 0 where
  tracefile_flag : Text → Flag
  memsize_flag : ℕ → Flag
  alg_flag : Text → Flag
  swapsize_flag : ℕ → Flag
  bad_flag : Flag

-- The variables that the options set.
pub record Settings : Type 0 where
  pub tracefile : Option Text
  pub memsize : ℕ
  pub replacement_alg : Option Text
  pub swapsize : ℕ

-- What the run finds: the lines of a file that can be opened and those of stdin, whether mkstemp, malloc
-- for the bitmap and memalign give something, the numbers of random(), the calls on the swap file, and
-- what is in memory that was not written: `swapsize`, the type and the address at the start of
-- `opt_init`, the type at that of `replay_trace`, and the new coremap and memory. malloc is taken to give
-- the coremap and the memory.
pub record World : Type 0 where
  pub file : Text → Option (List Text)
  pub stdin : List Text
  pub mkstemp_gives : Bool
  pub malloc_gives : Bool
  pub memalign_gives : ℕ → Bool
  pub random : Machine → ℕ
  pub disk : Disk
  pub swapsize : ℕ
  pub opt_start : ℕ × ℕ
  pub type : ℕ
  pub frames : ℕ → Frame
  pub pages : ℕ → Page

-- The loop over the options.
unfoldable pub read_flags : List Flag → Settings → Option Settings
read_flags [] s = some s
read_flags (Flag.tracefile_flag optarg ∷ flags) s =
    read_flags flags (record s { tracefile = some optarg })
read_flags (Flag.memsize_flag n ∷ flags) s = read_flags flags (record s { memsize = n % 2 ^ 32 })
read_flags (Flag.alg_flag optarg ∷ flags) s =
    read_flags flags (record s { replacement_alg = some optarg })
read_flags (Flag.swapsize_flag n ∷ flags) s = read_flags flags (record s { swapsize = n % 2 ^ 32 })
read_flags (Flag.bad_flag ∷ flags) s = none

-- The file that `tfp` reads: stdin without -f.
unfoldable pub open_trace : World → Option Text → Option (List Text)
open_trace w none = some w.stdin
open_trace w (some tracefile) = w.file tracefile

-- The names of the table `algs`.
abbrev pub alg_names : List (Text × Alg)
alg_names =
    (114 ∷ 97 ∷ 110 ∷ 100 ∷ [], Alg.rand)
    ∷ (108 ∷ 114 ∷ 117 ∷ [], Alg.lru)
    ∷ (102 ∷ 105 ∷ 102 ∷ 111 ∷ [], Alg.fifo)
    ∷ (99 ∷ 108 ∷ 111 ∷ 99 ∷ 107 ∷ [], Alg.clock)
    ∷ (111 ∷ 112 ∷ 116 ∷ [], Alg.opt)
    ∷ []

abbrev same_text : Text → Text → Bool
same_text [] [] = true
same_text [] (d ∷ ds) = false
same_text (c ∷ cs) [] = false
same_text (c ∷ cs) (d ∷ ds) = c == d && same_text cs ds

-- The loop over the table, up to the first algorithm of the name.
unfoldable pub find_alg : Text → List (Text × Alg) → Option Alg
find_alg name [] = none
find_alg name ((alg_name, alg) ∷ rest) =
    if same_text alg_name name then some alg else find_alg name rest

-- Without a name the usage is printed, and without an algorithm of the name an error.
unfoldable pub choose_alg : Option Text → M Alg
unfolding find_alg
choose_alg none m = none
choose_alg (some name) m = elim (find_alg name alg_names) [ none ↦ none | some alg ↦ some (alg, m) ]

-- Only `opt_init` does something: it reads the whole trace.
unfoldable pub init_fcn : World → Alg → List Text → M (Unit {0})
init_fcn w Alg.opt lines m = finish (opt_init true (scan_trace w.opt_start lines) m)
init_fcn w alg lines m = some (tt, m)

-- The lines that are left for `replay_trace`: a file is opened anew by `opt_init`, but stdin is at its
-- end after it.
unfoldable pub lines_left : Alg → Option Text → List Text → List Text
lines_left Alg.opt none lines = []
lines_left alg tracefile lines = lines

abbrev pub frames_from : ℕ → ℕ → (ℕ → Frame) → List Frame
frames_from zero i frames = []
frames_from (suc n) i frames = frames i ∷ frames_from n (suc i) frames

-- The globals when the coremap and the memory are there. No page table exists, so no entry is valid.
unfoldable pub allocated_state : World → ℕ → Machine
allocated_state w memsize = record {
  pgdir = λ idx. false;
  ptes = λ p. record {
    number = 0;
    valid = false;
    dirty = false;
    ref = false;
    onswap = false;
    swap_off = none;
  };
  coremap = frames_from memsize 0 w.frames;
  physmem = w.pages;
  referlist = [];
  curr = [];
  swapmap = record { nbits = 0; v = [] };
  swapfile = [];
  counters = record {
    hit_count = 0;
    miss_count = 0;
    ref_count = 0;
    evict_clean_count = 0;
    evict_dirty_count = 0;
  };
}

-- `main` from the choice of the algorithm on; `replay_trace` starts with the address 0.
unfoldable pub play : World → Settings → List Text → M (List Bool)
play w s lines = do
  alg ← choose_alg s.replacement_alg
  init_fcn w alg lines
  replay_trace (algs w.random alg) w.disk w.memalign_gives
      (scan_trace (w.type, 0) (lines_left alg s.tracefile lines))

-- `main` from the call of `swap_init` on.
unfoldable pub run : World → Settings → List Text → M (List Bool)
run w s lines = do
  swap_init w.mkstemp_gives w.malloc_gives s.swapsize
  init_pagetable
  play w s lines

-- The variables before the loop over the options.
abbrev pub unset : World → Settings
unset w = record { tracefile = none; memsize = 0; replacement_alg = none; swapsize = w.swapsize }

-- The checks of the accesses, and the state whose counters are printed; no result where the program ends
-- before that.
unfoldable pub sim_main : World → List Flag → Option (List Bool × Machine)
sim_main w flags = elim (read_flags flags (unset w)) [
  | none ↦ none
  | some s ↦ elim (open_trace w s.tracefile) [
    | none ↦ none
    | some lines ↦ run w s lines (allocated_state w s.memsize)
  ]
]

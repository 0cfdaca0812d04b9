-- ===== src/Paging/Simulator/Tests.antt =====
-- Runs of the simulator on a small trace.
use operating_system_unix_li.Base.{
  ◌≡◌, refl, Bool, true, false, Option, none, some, List, [], ◌∷◌, inl, arith, update,
}
use operating_system_unix_li.Paging.Bitmap.{bitmap_create, words_for}
use operating_system_unix_li.Paging.Machine.{
  Machine, same_frame, get_pte, set_pte, set_frame, count,
}
use operating_system_unix_li.Paging.Swap.{swap_init}
use operating_system_unix_li.Paging.Policies.{fifo_ref}
use operating_system_unix_li.Paging.PageTable.{
  first_free, init_pagetable, init_second_level, get_pgdir, init_frame, get_page, bump_version,
  install, allocate_frame, miss, touch, find_physpage, access_mem, replay_trace,
}
use operating_system_unix_li.Paging.Algs.{Alg, algs}
use operating_system_unix_li.Paging.Trace.{
  Text, skip_spaces, scan_digits, scan_number, scan_prefix, scan_hex, scan_line, scan_trace,
}
use operating_system_unix_li.Paging.Simulator.{
  World, Settings, Flag, find_alg, choose_alg, init_fcn, lines_left, allocated_state, play, run,
  alg_names, read_flags, open_trace, unset, sim_main,
}
use operating_system_unix_li.Paging.Simulator.Outcome.{Succeeded, sim_main-succeeds}
use operating_system_unix_li.Paging.Simulator.Ends.{sim_main-ends}

-- "I 1000", "S 2000", a line that is skipped, "L 1000".
abbrev lines : List Text
lines =
    (73 ∷ 32 ∷ 49 ∷ 48 ∷ 48 ∷ 48 ∷ 10 ∷ [])
    ∷ (83 ∷ 32 ∷ 50 ∷ 48 ∷ 48 ∷ 48 ∷ 10 ∷ [])
    ∷ (61 ∷ 61 ∷ 10 ∷ [])
    ∷ (76 ∷ 32 ∷ 49 ∷ 48 ∷ 48 ∷ 48 ∷ 10 ∷ [])
    ∷ []

scan_lines : scan_trace (0, 0) lines ≡ (73, 4096) ∷ (83, 8192) ∷ (76, 4096) ∷ []
unfolding scan_trace scan_line scan_hex scan_prefix scan_number scan_digits skip_spaces
scan_lines = refl

abbrev world : World
world = record {
  file = λ name. none;
  stdin = lines;
  mkstemp_gives = true;
  malloc_gives = true;
  memalign_gives = λ idx. true;
  random = λ m. 7;
  disk = record { write_ok = λ offset. true; read_page = λ file offset. none };
  swapsize = 0;
  opt_start = (0, 0);
  type = 0;
  frames = λ i. record { in_use = false; pte = 0; distance = 0; vaddr = 0 };
  pages = λ i. record { version = 0; checkaddr = 0 };
}

abbrev rand_name : Text
rand_name = 114 ∷ 97 ∷ 110 ∷ 100 ∷ []

-- -m 1 -s 2 -a rand
abbrev rand_flags : List Flag
rand_flags = Flag.memsize_flag 1 ∷ Flag.swapsize_flag 2 ∷ Flag.alg_flag rand_name ∷ []

abbrev rand_settings : Settings
rand_settings = record {
  tracefile = none;
  memsize = 1;
  replacement_alg = some rand_name;
  swapsize = 2;
}

read_rand_flags : read_flags rand_flags (unset world) ≡ some rand_settings
unfolding read_flags
read_rand_flags = refl

open_stdin : open_trace world none ≡ some lines
unfolding open_trace
open_stdin = refl

find_rand : find_alg rand_name alg_names ≡ some Alg.rand
unfolding find_alg
find_rand = refl

sim_main_ends_example :
    (oks : List Bool) × (m : Machine) × (sim_main world rand_flags ≡ some (oks, m))
    × Succeeded world rand_settings lines Alg.rand oks m
unfolding scan_trace scan_line scan_hex scan_prefix scan_number scan_digits skip_spaces
sim_main_ends_example =
    sim_main-ends world rand_flags rand_settings lines Alg.rand rand_name (1 ∷ 2 ∷ [])
      read_rand_flags open_stdin refl find_rand (inl refl)
      (omega arith, refl, (omega arith, refl, (omega arith, refl, tt))) (omega arith)
      (refl, (refl, (refl, tt))) (omega arith) (omega arith) (omega arith) (omega arith) (λ i. refl)
      refl refl (λ idx. refl) (λ offset. refl)

abbrev fifo_name : Text
fifo_name = 102 ∷ 105 ∷ 102 ∷ 111 ∷ []

-- -m 2 -s 2 -a fifo
abbrev fifo_flags : List Flag
fifo_flags = Flag.memsize_flag 2 ∷ Flag.swapsize_flag 2 ∷ Flag.alg_flag fifo_name ∷ []

abbrev fifo_settings : Settings
fifo_settings = record {
  tracefile = none;
  memsize = 2;
  replacement_alg = some fifo_name;
  swapsize = 2;
}

read_fifo_flags : read_flags fifo_flags (unset world) ≡ some fifo_settings
unfolding read_flags
read_fifo_flags = refl

abbrev fifo_run : Option (List Bool × Machine)
fifo_run = sim_main world fifo_flags

abbrev end_of : Option (List Bool × Machine) → Machine
unfolding allocated_state
end_of none = allocated_state world 0
end_of (some (oks, m)) = m

fifo_run_ends : fifo_run ≡ some (true ∷ true ∷ true ∷ [], end_of fifo_run)
unfolding sim_main read_flags open_trace run play swap_init bitmap_create init_pagetable choose_alg
    find_alg init_fcn lines_left scan_trace scan_line scan_hex scan_prefix scan_number scan_digits
    skip_spaces allocated_state replay_trace access_mem find_physpage get_pgdir init_second_level
    get_pte set_pte set_frame count miss touch allocate_frame first_free install init_frame get_page
    bump_version algs fifo_ref update same_frame words_for
fifo_run_ends = refl

sim_main_succeeds_example :
    (alg : Alg) × Succeeded world fifo_settings lines alg
      (true ∷ true ∷ true ∷ [])
      (end_of fifo_run)
unfolding scan_trace scan_line scan_hex scan_prefix scan_number scan_digits skip_spaces
sim_main_succeeds_example =
    sim_main-succeeds world fifo_flags fifo_settings lines (true ∷ true ∷ true ∷ [])
      (end_of fifo_run) read_fifo_flags open_stdin
      (omega arith, refl, (omega arith, refl, (omega arith, refl, tt))) (omega arith) (omega arith)
      (omega arith) (λ i. refl) fifo_run_ends

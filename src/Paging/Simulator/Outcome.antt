-- ===== src/Paging/Simulator/Outcome.antt =====
-- sim.c, `main`: what is found when a run has ended.
use operating_system_unix_li.Base.{
  ℕ, ◌+◌, ◌^◌, ◌<◌, ◌≡◌, refl, sym, subst, ◌∙◌, Bool, true, false, Option, none, some, List, [],
  ◌⊎◌, inl, inr, Option-cases, length, replicate, arith,
}
use operating_system_unix_li.Paging.Bitmap.{Bitmap}
use operating_system_unix_li.Paging.Machine.{Machine, ◌>>=◌}
use operating_system_unix_li.Paging.Policies.{opt_init, pages_of}
use operating_system_unix_li.Paging.PageTable.{replay_trace}
use operating_system_unix_li.Paging.PageTable.Leads.{After, After-at, After-map}
use operating_system_unix_li.Paging.PageTable.Filled.{IsFilled, IsFilled-curr}
use operating_system_unix_li.Paging.PageTable.Checks.{ArePages, replay_trace-After}
use operating_system_unix_li.Paging.Algs.{Alg, algs}
use operating_system_unix_li.Paging.Algs.Own.{algs-LeavesPages}
use operating_system_unix_li.Paging.Algs.Totals.{algs-LeavesCounts, replay_trace-accesses}
use operating_system_unix_li.Paging.PageTable.Resident.{hits_along, replay_trace-Hits}
use operating_system_unix_li.Paging.Trace.{Text, scan_trace}
use operating_system_unix_li.Paging.Simulator.{
  World, Settings, Flag, find_alg, choose_alg, init_fcn, lines_left, allocated_state, play, run,
  alg_names, read_flags, open_trace, unset, sim_main,
}
use operating_system_unix_li.Paging.Simulator.Start.{started, started-IsFilled, run-After}

-- The accesses that are replayed.
abbrev pub replayed : World → Settings → List Text → Alg → List (ℕ × ℕ)
replayed w s lines alg = scan_trace (w.type, 0) (lines_left alg s.tracefile lines)

-- The algorithm that -a names.
abbrev pub Chosen : Settings → Alg → Type 0
Chosen s alg =
    (name : Text) × (s.replacement_alg ≡ some name) × (find_alg name alg_names ≡ some alg)

-- The run has used the algorithm that was asked for, from a state in which no page is in memory, and
-- every check has succeeded. The hits are the accesses whose page was in memory when they came, and the
-- misses the others; each access is a reference; page table, coremap and memory agree.
pub record Succeeded (w : World) (s : Settings) (lines : List Text) (alg : Alg) (oks : List Bool)
    (m : Machine) : Type 0 where
  pub chosen : Chosen s alg
  pub checks : oks ≡ replicate (length (replayed w s lines alg)) true
  pub start : Machine
  pub unused : (p : ℕ) → (start.ptes p).valid ≡ false
  pub played :
      replay_trace (algs w.random alg) w.disk w.memalign_gives (replayed w s lines alg) start
      ≡ some (oks, m)
  pub hits :
      m.counters.hit_count
      ≡ hits_along (algs w.random alg) w.disk w.memalign_gives (replayed w s lines alg) start
  pub misses : m.counters.hit_count + m.counters.miss_count ≡ length (replayed w s lines alg)
  pub references : m.counters.ref_count ≡ length (replayed w s lines alg)
  pub filled : IsFilled m

-- With some algorithm.
abbrev pub Success : World → Settings → List Text → List Bool → Machine → Type 0
Success w s lines oks m = (alg : Alg) × Succeeded w s lines alg oks m

-- What holds of no accesses and of all of them holds of those that are left.
pub left_lem :
    (P : List (ℕ × ℕ) → Type 0) (start : ℕ × ℕ) (lines : List Text) (alg : Alg)
    (tracefile : Option Text)
    → P []
    → P (scan_trace start lines)
    → P (scan_trace start (lines_left alg tracefile lines))
unfolding lines_left scan_trace
left_lem P start lines Alg.opt none nothing all = nothing
left_lem P start lines Alg.opt (some name) nothing all = all
left_lem P start lines Alg.rand tracefile nothing all = all
left_lem P start lines Alg.lru tracefile nothing all = all
left_lem P start lines Alg.fifo tracefile nothing all = all
left_lem P start lines Alg.clock tracefile nothing all = all

result_of :
    {A : Type 0} (F : Type 0) (Q : A → Machine → Type 0) (o : Option (A × Machine)) (a : A)
    (m : Machine)
    → o ≡ some (a, m)
    → After F Q o
    → Q a m
result_of F Q o a m is h = subst (After F Q) is h

module _ (w : World) (s : Settings) (lines : List Text)
    (pages : ArePages (scan_trace (w.type, 0) lines)) where
  init_fcn_lem :
      (alg : Alg) (m : Machine)
      → (future : List ℕ) × (init_fcn w alg lines m ≡ some (tt, record m { curr = future }))
  unfolding init_fcn opt_init
  init_fcn_lem Alg.opt m = (pages_of (scan_trace w.opt_start lines), refl)
  init_fcn_lem Alg.rand m = (m.curr, refl)
  init_fcn_lem Alg.lru m = (m.curr, refl)
  init_fcn_lem Alg.fifo m = (m.curr, refl)
  init_fcn_lem Alg.clock m = (m.curr, refl)

  replay-After :
      (alg : Alg) (b : Bitmap) (future : List ℕ)
      → Chosen s alg
      → IsFilled (started w s.memsize b)
      → After Unit (Success w s lines) (
          replay_trace
            (algs w.random alg)
            w.disk
            w.memalign_gives
            (replayed w s lines alg)
            (record (started w s.memsize b) { curr = future }))
  unfolding allocated_state
  replay-After alg b future chosen ok =
      let trace : List (ℕ × ℕ) = replayed w s lines alg in
      let m : Machine = record (started w s.memsize b) { curr = future } in
      After-map Unit (λ oks m1. (oks ≡ replicate (length trace) true) × IsFilled m1)
        (Success w s lines) (replay_trace (algs w.random alg) w.disk w.memalign_gives trace m)
        (λ oks m1 runs (good, ok1).
          let (both, references) =
            replay_trace-accesses w.random alg w.disk w.memalign_gives trace oks m m1 runs in
          let hits : m1.counters.hit_count
              ≡ 0 + hits_along (algs w.random alg) w.disk w.memalign_gives trace m =
            result_of Unit _ (replay_trace (algs w.random alg) w.disk w.memalign_gives trace m) oks
              m1 runs
              (replay_trace-Hits (algs w.random alg) w.disk (algs-LeavesCounts w.random alg)
                w.memalign_gives trace m) in
          (
            alg,
            record {
              chosen = chosen;
              checks = good;
              start = m;
              unused = λ p. refl;
              played = runs;
              hits = hits ∙ omega arith;
              misses = both ∙ omega arith;
              references = references ∙ omega arith;
              filled = ok1;
            },
          ))
        (replay_trace-After (algs w.random alg) w.disk (algs-LeavesPages w.random alg)
          w.memalign_gives trace m (IsFilled-curr (started w s.memsize b) future ok)
          (left_lem ArePages (w.type, 0) lines alg s.tracefile tt pages))

  play-none : (m : Machine) → choose_alg s.replacement_alg m ≡ none → play w s lines m ≡ none
  unfolding play
  play-none m e = simp (play, ◌>>=◌, e) refl

  pub play_at :
      (m : Machine) (alg : Alg) (future : List ℕ)
      → choose_alg s.replacement_alg m ≡ some (alg, m)
      → init_fcn w alg lines m ≡ some (tt, record m { curr = future })
      → play w s lines m
        ≡ replay_trace
            (algs w.random alg)
            w.disk
            w.memalign_gives
            (replayed w s lines alg)
            (record m { curr = future })
  unfolding play
  play_at m alg future e init = simp (play, ◌>>=◌, e, init) refl

  choose_alg_cases :
      (name : Option Text) (m : Machine)
      → (choose_alg name m ≡ none)
        ⊎ ((alg : Alg) × (choose_alg name m ≡ some (alg, m))
            × ((name' : Text) × (name ≡ some name') × (find_alg name' alg_names ≡ some alg)))
  unfolding choose_alg
  choose_alg_cases none m = inl refl
  choose_alg_cases (some name) m = elim (Option-cases (find_alg name alg_names)) [
    | inl e ↦ inl (simp (choose_alg, e) refl)
    | inr (alg, e) ↦ inr (alg, simp (choose_alg, e) refl, (name, refl, e))
  ]

  pub play-After :
      (b : Bitmap)
      → IsFilled (started w s.memsize b)
      → After Unit (Success w s lines) (play w s lines (started w s.memsize b))
  play-After b ok =
      let m : Machine = started w s.memsize b in
      elim (choose_alg_cases s.replacement_alg m) [
        | inl e ↦ After-at Unit (Success w s lines) _ none (play-none m e) tt
        | inr (alg, e, chosen) ↦
            let (future, init) = init_fcn_lem alg m in
            After-at Unit (Success w s lines) _ _ (play_at m alg future e init)
              (replay-After alg b future chosen ok)
      ]

pub sim_main_at :
    (w : World) (flags : List Flag) (s : Settings) (lines : List Text)
    → read_flags flags (unset w) ≡ some s
    → open_trace w s.tracefile ≡ some lines
    → sim_main w flags ≡ run w s lines (allocated_state w s.memsize)
unfolding sim_main
sim_main_at w flags s lines e g = simp (sim_main, e, g) refl

-- A run of the simulator, with any of its algorithms, on a trace of fewer than 2^31 accesses, the
-- addresses of pages below 2^36, with fewer than 2^19 frames, whose numbers fit their words, and a swap
-- file of fewer than 2^32 - 31 pages, when no frame of the new coremap counts as in use: if it ends then
-- it has used the algorithm that -a names, every check of the replay has succeeded, the hits are the
-- accesses whose page was in memory and the misses the others, each access is a reference, and page
-- table, coremap and memory agree.
pub sim_main-succeeds :
    (w : World) (flags : List Flag) (s : Settings) (lines : List Text) (oks : List Bool)
    (m : Machine)
    → read_flags flags (unset w) ≡ some s
    → open_trace w s.tracefile ≡ some lines
    → ArePages (scan_trace (w.type, 0) lines)
    → length (scan_trace (w.type, 0) lines) < 2 ^ 31
    → s.memsize < 2 ^ 19
    → s.swapsize + 31 < 2 ^ 32
    → ((i : ℕ) → (w.frames i).in_use ≡ false)
    → sim_main w flags ≡ some (oks, m)
    → (alg : Alg) × Succeeded w s lines alg oks m
sim_main-succeeds w flags s lines oks m e g pages short numbered small unused ends =
    result_of Unit (Success w s lines) (run w s lines (allocated_state w s.memsize)) oks m
      (sym (sim_main_at w flags s lines e g) ∙ ends)
      (run-After w s lines Unit (Success w s lines) small (λ h. tt) (λ h. tt)
        (λ b t.
          play-After w s lines pages b
            (started-IsFilled w s.memsize b (replicate s.swapsize false) unused t)))

-- ===== src/Paging/Simulator/Ends.antt =====
-- sim.c, `main`: a run that has what it needs comes to its end.
use operating_system_unix_li.Base.{
  ℕ, zero, suc, ◌^◌, ◌≤◌, ◌<◌, ◌≡◌, refl, sym, ap, subst, fun_ext, ◌∙◌, Bool, true, false, Option,
  none, some, List, [], ◌∷◌, ◌⊎◌, inl, inr, length, replicate, Bool-cases, arith,
}
use operating_system_unix_li.Paging.Bitmap.{Bitmap}
use operating_system_unix_li.Paging.Bitmap.Space.{Tracks}
use operating_system_unix_li.Paging.Machine.{Frame, Machine}
use operating_system_unix_li.Paging.Policies.{opt_init, pages_of}
use operating_system_unix_li.Paging.PageTable.{replay_trace}
use operating_system_unix_li.Paging.PageTable.Leads.{After, After-at, After-map, After-both}
use operating_system_unix_li.Paging.PageTable.Filled.{IsFilled, IsFilled-curr}
use operating_system_unix_li.Paging.PageTable.Checks.{ArePages}
use operating_system_unix_li.Paging.PageTable.Room.{IsReady, has_slot, waiting, occupied}
use operating_system_unix_li.Paging.PageTable.Written.{Writes}
use operating_system_unix_li.Paging.PageTable.Total.{IsTotal}
use operating_system_unix_li.Paging.PageTable.Replay.{AreListed, replay_trace_reached}
use operating_system_unix_li.Paging.Algs.{Alg, algs}
use operating_system_unix_li.Paging.Algs.Ends.{Lasts, rand-IsTotal, opt-IsTotal}
use operating_system_unix_li.Paging.Trace.{Text, is_skipped, scan_line, scan_trace}
use operating_system_unix_li.Paging.Simulator.{
  World, Settings, Flag, find_alg, choose_alg, init_fcn, lines_left, allocated_state, play, run,
  alg_names, read_flags, open_trace, unset, sim_main, frames_from,
}
use operating_system_unix_li.Paging.Simulator.Start.{started, started-IsFilled, run-After}
use operating_system_unix_li.Paging.Simulator.Outcome.{
  Succeeded, Success, replayed, left_lem, play-After, play_at, sim_main_at,
}

algs-IsTotal :
    (random : Machine → ℕ) (alg : Alg)
    → (alg ≡ Alg.rand) ⊎ (alg ≡ Alg.opt)
    → IsTotal (algs random alg) (Lasts alg)
algs-IsTotal random alg (inl is) =
    subst (λ k. IsTotal (algs random k) (Lasts k)) (sym is) (rand-IsTotal random)
algs-IsTotal random alg (inr is) =
    subst (λ k. IsTotal (algs random k) (Lasts k)) (sym is) (opt-IsTotal random)

-- `opt_init` makes a node for each access.
pages_of-length :
    (lines : List Text) (a b : ℕ × ℕ)
    → length (pages_of (scan_trace a lines)) ≡ length (scan_trace b lines)
unfolding pages_of scan_trace
pages_of-length [] a b = refl
pages_of-length (buf ∷ lines) a b = elim (Bool-cases (is_skipped buf)) [
  | inl e ↦ rw e (pages_of-length lines a b)
  | inr e ↦ rw e (ap suc (pages_of-length lines (scan_line buf a) (scan_line buf b)))
]

frames_from-length : (n i : ℕ) (frames : ℕ → Frame) → length (frames_from n i frames) ≡ n
frames_from-length zero i frames = refl
frames_from-length (suc n) i frames = ap suc (frames_from-length n (suc i) frames)

waiting-length : (slot : ℕ → Bool) (pages : List ℕ) → waiting slot pages ≤ length pages
waiting-length slot [] = omega arith
waiting-length slot (q ∷ qs) =
    let rest : waiting slot qs ≤ length qs = waiting-length slot qs in
    elim (Bool-cases (slot q)) [
      | inl e ↦ rw e (omega (arith, rest))
      | inr e ↦ rw e (omega (arith, rest))
    ]

occupied-replicate : (n : ℕ) → occupied (replicate n false) ≡ 0
occupied-replicate zero = refl
occupied-replicate (suc n) = omega (arith, occupied-replicate n)

length-free : (n : ℕ) → length (replicate n false) ≡ n
length-free zero = refl
length-free (suc n) = ap suc (length-free n)

-- The state at the start of the replay.
started-IsReady :
    (w : World) (memsize swapsize : ℕ) (b : Bitmap) (future pages : List ℕ) (K : List ℕ → Type 0)
    → Tracks (replicate swapsize false) b
    → 0 < memsize
    → length pages ≤ swapsize
    → swapsize ≤ 2 ^ 27
    → K future
    → IsReady pages K (record (started w memsize b) { curr = future })
unfolding allocated_state
started-IsReady w memsize swapsize b future pages K t memory fits small lasts_ =
    let m : Machine = record (started w memsize b) { curr = future } in
    let free : length (replicate swapsize false) ≡ swapsize = length-free swapsize in
    record {
      used = replicate swapsize false;
      tracks = t;
      room =
          omega (arith, waiting-length (has_slot m) pages, occupied-replicate swapsize, free, fits);
      small = omega (arith, free, small);
      listed = λ q valid. absurd (cc valid);
      slots = λ q o table off. absurd (cc off);
      memory = omega (arith, memory, frames_from-length memsize 0 w.frames);
      future = lasts_;
    }

module _ (w : World) (s : Settings) (lines : List Text) where
  opt-Lasts :
      (tracefile : Option Text)
      → length (scan_trace (w.type, 0) (lines_left Alg.opt tracefile lines))
        ≤ length (pages_of (scan_trace w.opt_start lines))
  unfolding lines_left scan_trace
  opt-Lasts none = omega arith
  opt-Lasts (some name) = omega (arith, pages_of-length lines w.opt_start (w.type, 0))

  init_fcn-Lasts :
      (alg : Alg) (m : Machine)
      → (future : List ℕ) × (init_fcn w alg lines m ≡ some (tt, record m { curr = future }))
        × Lasts alg (length (replayed w s lines alg)) future
  unfolding init_fcn opt_init lines_left scan_trace
  init_fcn-Lasts Alg.opt m = (pages_of (scan_trace w.opt_start lines), refl, opt-Lasts s.tracefile)
  init_fcn-Lasts Alg.rand m = (m.curr, refl, tt)
  init_fcn-Lasts Alg.lru m = (m.curr, refl, tt)
  init_fcn-Lasts Alg.fifo m = (m.curr, refl, tt)
  init_fcn-Lasts Alg.clock m = (m.curr, refl, tt)

  -- What the run needs: an algorithm that always picks a frame, a page table and a frame to start with,
  -- writes that succeed, and room in the swap file for the pages of the trace.
  module _ (alg : Alg) (name : Text) (pages : List ℕ)
      (addresses : ArePages (scan_trace (w.type, 0) lines)) (named : s.replacement_alg ≡ some name)
      (chosen : find_alg name alg_names ≡ some alg) (picks : (alg ≡ Alg.rand) ⊎ (alg ≡ Alg.opt))
      (listed : AreListed pages (scan_trace (w.type, 0) lines))
      (gives : (idx : ℕ) → w.memalign_gives idx ≡ true) (writes : Writes w.disk)
      (frames : 0 < s.memsize) (fits : length pages ≤ s.swapsize)
      (small : s.swapsize ≤ 2 ^ 27) where
    choose_alg_at : (m : Machine) → choose_alg s.replacement_alg m ≡ some (alg, m)
    unfolding choose_alg
    choose_alg_at m = simp (named, choose_alg, chosen) refl

    play_reached :
        (b : Bitmap)
        → IsFilled (started w s.memsize b)
        → Tracks (replicate s.swapsize false) b
        → After ⊥ (λ oks m1. IsFilled m1) (play w s lines (started w s.memsize b))
    play_reached b ok t =
        let m : Machine = started w s.memsize b in
        let (future, init, enough) = init_fcn-Lasts alg m in
        let m1 : Machine = record m { curr = future } in
        let all : w.memalign_gives ≡ (λ idx. true) = fun_ext gives in
        After-at ⊥ (λ oks m1. IsFilled m1) _ _
          (play_at w s lines addresses m alg future (choose_alg_at m) init
            ∙ ap (λ g. replay_trace (algs w.random alg) w.disk g (replayed w s lines alg) m1) all)
          (replay_trace_reached (algs w.random alg) w.disk writes (Lasts alg)
            (algs-IsTotal w.random alg picks) pages (replayed w s lines alg) m1
            (IsFilled-curr m future ok)
            (started-IsReady w s.memsize s.swapsize b future pages _ t frames fits small enough)
            (left_lem ArePages (w.type, 0) lines alg s.tracefile tt addresses)
            (left_lem (AreListed pages) (w.type, 0) lines alg s.tracefile tt listed))

reached :
    {A : Type 0} (Q : A → Machine → Type 0) (o : Option (A × Machine))
    → After ⊥ Q o
    → (a : A) × (m : Machine) × (o ≡ some (a, m)) × Q a m
reached Q none h = absurd h
reached Q (some (a, m)) h = (a, m, refl, h)

-- The settings choose one algorithm.
as_chosen :
    (w : World) (s : Settings) (lines : List Text) (alg : Alg) (name : Text) (oks : List Bool)
    (m : Machine)
    → s.replacement_alg ≡ some name
    → find_alg name alg_names ≡ some alg
    → Success w s lines oks m
    → Succeeded w s lines alg oks m
as_chosen w s lines alg name oks m named chosen (alg', succeeded) =
    let (name', named', chosen') = succeeded.chosen in
    let same : some alg' ≡ some alg =
      sym chosen'
      ∙ ap (λ o. elim o [ none ↦ none | some n ↦ find_alg n alg_names ]) (sym named' ∙ named)
      ∙ chosen in
    subst (λ k. Succeeded w s lines k oks m) (cc same) succeeded

-- A run of the simulator with the random or the optimal algorithm, on a trace of fewer than 2^31
-- accesses, the addresses of pages below 2^36, comes to its end, and it has used that algorithm, every
-- check has succeeded, the hits are the accesses whose page was in memory and the misses the others,
-- each access is a reference, and page table, coremap and memory agree. It has at least one frame and fewer than 2^19, none in use at
-- the start, the memory and the file that it asks for, and writes to the swap file succeed; the swap file
-- has a page for each page of the trace, and at most 2^27.
pub sim_main-ends :
    (w : World) (flags : List Flag) (s : Settings) (lines : List Text) (alg : Alg) (name : Text)
    (pages : List ℕ)
    → read_flags flags (unset w) ≡ some s
    → open_trace w s.tracefile ≡ some lines
    → s.replacement_alg ≡ some name
    → find_alg name alg_names ≡ some alg
    → (alg ≡ Alg.rand) ⊎ (alg ≡ Alg.opt)
    → ArePages (scan_trace (w.type, 0) lines)
    → length (scan_trace (w.type, 0) lines) < 2 ^ 31
    → AreListed pages (scan_trace (w.type, 0) lines)
    → length pages ≤ s.swapsize
    → s.swapsize ≤ 2 ^ 27
    → 0 < s.memsize
    → s.memsize < 2 ^ 19
    → ((i : ℕ) → (w.frames i).in_use ≡ false)
    → w.mkstemp_gives ≡ true
    → w.malloc_gives ≡ true
    → ((idx : ℕ) → w.memalign_gives idx ≡ true)
    → Writes w.disk
    → (oks : List Bool) × (m : Machine) × (sim_main w flags ≡ some (oks, m))
      × Succeeded w s lines alg oks m
sim_main-ends w flags s lines alg name pages e g named chosen picks addresses short listed fits
      small frames numbered unused file_there memory_there gives writes =
    let start : (b : Bitmap)
        → Tracks (replicate s.swapsize false) b
        → IsFilled (started w s.memsize b) =
      λ b t. started-IsFilled w s.memsize b (replicate s.swapsize false) unused t in
    let (oks, m, ends, succeeded) =
      reached (Success w s lines) (run w s lines (allocated_state w s.memsize)) (
        run-After w s lines ⊥ (Success w s lines) (omega (arith, small))
          (λ h. cc (sym file_there ∙ h)) (λ h. cc (sym memory_there ∙ h))
          (λ b t.
            After-map ⊥ (λ oks m. Success w s lines oks m × IsFilled m) (Success w s lines)
              (play w s lines (started w s.memsize b)) (λ oks m runs both. both.0)
              (After-both (Success w s lines) (λ oks m. IsFilled m)
                (play w s lines (started w s.memsize b))
                (play-After w s lines addresses b (start b t))
                (play_reached w s lines alg name pages addresses named chosen picks listed gives
                  writes frames fits small b (start b t) t)))) in
    (
      oks,
      m,
      sim_main_at w flags s lines e g ∙ ends,
      as_chosen w s lines alg name oks m named chosen succeeded,
    )

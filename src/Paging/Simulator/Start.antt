-- ===== src/Paging/Simulator/Start.antt =====
-- sim.c, `main`: the state at the start of the replay.
use operating_system_unix_li.Base.{
  ℕ, zero, suc, ◌+◌, ◌^◌, ◌<◌, ◌≡◌, refl, sym, ap, ◌∙◌, Bool, true, false, none, some, List, inl,
  inr, get_elem?, Bool-cases, ltb, if◌then◌else◌, replicate,
}
use operating_system_unix_li.Paging.Bitmap.{Bitmap, bitmap_create}
use operating_system_unix_li.Paging.Bitmap.Space.{Tracks}
use operating_system_unix_li.Paging.Bitmap.Create.{bitmap_create-Tracks}
use operating_system_unix_li.Paging.Machine.{Frame, Machine, ◌>>=◌}
use operating_system_unix_li.Paging.Swap.{swap_init}
use operating_system_unix_li.Paging.PageTable.{init_pagetable}
use operating_system_unix_li.Paging.PageTable.Leads.{After, After-at}
use operating_system_unix_li.Paging.PageTable.Filled.{IsFilled}
use operating_system_unix_li.Paging.Trace.{Text}
use operating_system_unix_li.Paging.Simulator.{
  World, Settings, frames_from, allocated_state, play, run,
}

-- The swap space is free, and there is no page table.
abbrev pub started : World → ℕ → Bitmap → Machine
started w memsize b = record (allocated_state w memsize) {
  swapmap = b;
  pgdir = λ idx. if ltb idx 4096 then false else false;
}

frames_from-unused :
    (frames : ℕ → Frame)
    → ((i : ℕ) → (frames i).in_use ≡ false)
    → (n i j : ℕ) (f : Frame) → get_elem? (frames_from n i frames) j ≡ some f
    → f.in_use ≡ false
frames_from-unused frames unused zero i j f at = cc at
frames_from-unused frames unused (suc n) i zero f at =
    let same : frames i ≡ f = cc at in ap (λ k. k.in_use) (sym same) ∙ unused i
frames_from-unused frames unused (suc n) i (suc j) f at =
    frames_from-unused frames unused n (suc i) j f at

pub started-IsFilled :
    (w : World) (memsize : ℕ) (b : Bitmap) (used : List Bool)
    → ((i : ℕ) → (w.frames i).in_use ≡ false)
    → Tracks used b
    → IsFilled (started w memsize b)
unfolding allocated_state
started-IsFilled w memsize b used unused t = record {
  coherent = record {
    frames =
        λ i f at in_use. absurd (cc (frames_from-unused w.frames unused memsize 0 i f at, in_use));
    entries = λ p valid. absurd (cc valid);
    tables = λ p valid. absurd (cc valid);
    no_onswap = λ p. refl;
    swap_space = (used, t);
  };
  filled = λ p valid. absurd (cc valid);
}

module _ (w : World) (s : Settings) (lines : List Text) where
  run-none_file : w.mkstemp_gives ≡ false → run w s lines (allocated_state w s.memsize) ≡ none
  unfolding run swap_init
  run-none_file e = simp (run, ◌>>=◌, swap_init, e) refl

  run-none_memory :
      w.mkstemp_gives ≡ true
      → w.malloc_gives ≡ false
      → run w s lines (allocated_state w s.memsize) ≡ none
  unfolding run swap_init bitmap_create
  run-none_memory e g = simp (run, ◌>>=◌, swap_init, e, g, bitmap_create) refl

  run-started :
      (b : Bitmap)
      → w.mkstemp_gives ≡ true
      → w.malloc_gives ≡ true
      → bitmap_create true s.swapsize ≡ some (some b)
      → run w s lines (allocated_state w s.memsize) ≡ play w s lines (started w s.memsize b)
  unfolding run swap_init init_pagetable allocated_state
  run-started b e g made = simp (run, ◌>>=◌, swap_init, e, g, made, init_pagetable) refl

  -- What holds from the choice of the algorithm on holds of the run.
  pub run-After :
      (F : Type 0) (R : List Bool → Machine → Type 0)
      → s.swapsize + 31 < 2 ^ 32
      → (w.mkstemp_gives ≡ false → F)
      → (w.malloc_gives ≡ false → F)
      → ((b : Bitmap)
          → Tracks (replicate s.swapsize false) b
          → After F R (play w s lines (started w s.memsize b)))
      → After F R (run w s lines (allocated_state w s.memsize))
  run-After F R small no_file no_memory rest = elim (Bool-cases w.mkstemp_gives) [
    | inr e ↦ After-at F R _ none (run-none_file e) (no_file e)
    | inl e ↦ elim (Bool-cases w.malloc_gives) [
      | inr g ↦ After-at F R _ none (run-none_memory e g) (no_memory g)
      | inl g ↦
          let (b, made, t) = bitmap_create-Tracks s.swapsize small in
          After-at F R _ _ (run-started b e g made) (rest b t)
    ]
  ]

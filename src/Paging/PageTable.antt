-- ===== src/Paging/PageTable.antt =====
-- pagetable.c and the loop of sim.c: the two-level page table, the allocation of frames, and the
-- accesses of a trace.
pub mod Invariant
pub mod Allocate
pub mod Kept
pub mod Coherence
pub mod Hit
pub mod Moves
pub mod Counts
pub mod Leads
pub mod Filled
pub mod Refilled
pub mod Miss
pub mod Checks
pub mod Room
pub mod Written
pub mod Ready
pub mod Slots
pub mod Total
pub mod Reached
pub mod Replay
pub mod Resident
mod Tests
use operating_system_unix_li.Base.{
  ℕ, zero, suc, ◌+◌, ◌*◌, ◌/◌, ◌%◌, ◌^◌, Bool, true, false, not, Option, none, some, List, [], ◌∷◌,
  ◌||◌, ◌==◌, ltb, if◌then◌else◌, length, update,
}
use operating_system_unix_li.Paging.Machine.{
  Pte, Frame, Page, Counters, Machine, M, ◌>>=◌, ◌>>◌, ret, done, stop, get_pte, set_pte, get_frame,
  set_frame, count,
}
use operating_system_unix_li.Paging.Swap.{Disk, swap_pageout, swap_pagein}

-- `struct functions`: what is called on each reference, and what picks a frame.
pub record Policy : Type 0 where
  pub ref_fcn : ℕ → M (Unit {0})
  pub evict_fcn : M ℕ

-- The loop of `allocate_frame` over the coremap, from index `i` on.
unfoldable pub first_free : ℕ → List Frame → Option ℕ
first_free i [] = none
first_free i (f ∷ fs) = let rest = first_free (i + 1) fs in if f.in_use then rest else some i

-- The loop over the 4096 entries of the page directory.
unfoldable pub init_pagetable : M (Unit {0})
init_pagetable m =
    some (tt, record m { pgdir = λ idx. if ltb idx 4096 then false else m.pgdir idx })

unfoldable pub init_second_level : Bool → ℕ → M (Unit {0})
init_second_level memalign_gives idx m =
    let fresh : Pte = record {
      number = 0;
      valid = false;
      dirty = false;
      ref = false;
      onswap = false;
      swap_off = none;
    } in
    if memalign_gives
    then some (
      tt,
      record m {
        pgdir = update m.pgdir idx true;
        ptes = λ p. if p / 4096 == idx then fresh else m.ptes p;
      },
    )
    else none

-- The page directory has 4096 entries.
unfoldable pub get_pgdir : ℕ → M Bool
get_pgdir idx m = if ltb idx 4096 then some (m.pgdir idx, m) else none

unfoldable pub init_frame : ℕ → ℕ → M (Unit {0})
init_frame frame vaddr m =
    if ltb frame (length m.coremap)
    then some (
      tt,
      record m { physmem = update m.physmem frame (record { version = 0; checkaddr = vaddr }) },
    )
    else none

-- A write reference is of type 'S' or 'M'.
abbrev pub writes : ℕ → Bool
writes type = type == 83 || type == 77

unfoldable pub get_page : ℕ → M Page
get_page frame m = if ltb frame (length m.coremap) then some (m.physmem frame, m) else none

unfoldable pub bump_version : ℕ → M (Unit {0})
bump_version frame m =
    let page : Page = m.physmem frame in
    some (
      tt,
      record m {
        physmem = update m.physmem frame (record page { version = (page.version + 1) % 2 ^ 32 });
      },
    )

-- What is recorded of a page in its frame, and in its page table entry.
unfoldable pub install : ℕ → ℕ → M (Unit {0})
install frame p = do
  set_frame frame (λ f. record { in_use = true; pte = p; distance = 0; vaddr = 0 })
  set_pte p (λ e. record {
    number = frame;
    valid = true;
    dirty = false;
    ref = false;
    onswap = false;
    swap_off = e.swap_off;
  })

module _ (disk : Disk) where
  -- Whether the victim could be written; the frame that is given to `swap_pageout` is shifted, as in
  -- the source.
  unfoldable pub write_back : ℕ → ℕ → M Bool
  write_back frame q = do
    e ← get_pte q
    offset ← swap_pageout disk (frame / 4096) e.swap_off
    set_pte q (λ e. record e { swap_off = offset })
    elim offset [
      | none ↦ ret false
      | some o ↦ do
        set_pte q (λ e. record e { dirty = not e.dirty })
        count (λ c. record c { evict_dirty_count = c.evict_dirty_count + 1 })
        ret true
    ]

  -- The page leaves the frame; the result is the frame by the victim's entry, or `none` for
  -- INVALID_SWAP.
  unfoldable pub turn_out : ℕ → M (Option ℕ)
  turn_out frame = do
    f ← get_frame frame
    set_pte f.pte (λ e. record e { valid = not e.valid })
    e ← get_pte f.pte
    written ←
        if e.dirty
        then write_back frame f.pte
        else (do count (λ c. record c { evict_clean_count = c.evict_clean_count + 1 }); ret true)
    e' ← get_pte f.pte
    ret (if written then some e'.number else none)

module _ (policy : Policy) (disk : Disk) where
  -- The result is the frame number, or `none` for INVALID_SWAP.
  unfoldable pub allocate_frame : ℕ → M (Option ℕ)
  allocate_frame p m = elim (first_free 0 m.coremap) [
    | some i ↦ (install i p >> ret (some i)) m
    | none ↦
        (do
          frame ← policy.evict_fcn
          found ← turn_out disk frame
          elim found [ none ↦ ret none | some i ↦ install i p >> ret (some i) ])
          m
  ]

  -- The entry is not valid. The index -1 after a failed write is outside the simulated memory.
  unfoldable pub miss : ℕ → ℕ → M (Unit {0})
  miss vaddr p = do
    count (λ c. record c { miss_count = c.miss_count + 1 })
    e ← get_pte p
    if not e.onswap
        then (do
          set_pte p (λ e. record e { dirty = true })
          frame ← allocate_frame p
          elim frame [ none ↦ stop | some i ↦ init_frame i vaddr ])
        else (do
          frame ← allocate_frame p
          e' ← get_pte p
          read ← swap_pagein disk e'.number e'.swap_off
          if read then done else stop)

  -- The end of `find_physpage`: the entry is marked, the algorithm is told, and the result is the frame
  -- by the entry, which is read again.
  unfoldable pub touch : ℕ → ℕ → ℕ → M ℕ
  touch p vaddr type = do
    set_pte p (λ e. record e { valid = true })
    if writes type then set_pte p (λ e. record e { dirty = true }) else done
    set_pte p (λ e. record e { ref = true })
    e ← get_pte p
    set_frame e.number (λ f. record f { vaddr = vaddr })
    policy.ref_fcn p
    count (λ c. record c { ref_count = c.ref_count + 1 })
    e' ← get_pte p
    ret e'.number

  -- The result is the frame that the pointer points to. The index into the page directory is an
  -- `unsigned`; `memalign_gives` says whether there is memory for the page table of an index.
  unfoldable pub find_physpage : (ℕ → Bool) → ℕ → ℕ → M ℕ
  find_physpage memalign_gives vaddr type = do
    let idx = vaddr / 2 ^ 24 % 2 ^ 32
    let p = idx * 4096 + vaddr / 4096 % 4096
    present ← get_pgdir idx
    if present then done else init_second_level (memalign_gives idx) idx
    e ← get_pte p
    if not e.valid then miss vaddr p else count (λ c. record c { hit_count = c.hit_count + 1 })
    touch p vaddr type

  -- Whether the page had the expected address; a write counts up the version, an `int`.
  unfoldable pub access_mem : (ℕ → Bool) → ℕ → ℕ → M Bool
  access_mem memalign_gives type vaddr = do
    frame ← find_physpage memalign_gives vaddr type
    page ← get_page frame
    if writes type then bump_version frame else done
    ret (page.checkaddr == vaddr)

  -- The lines of the trace that are not skipped, as type and address; the result is the check of each.
  unfoldable pub replay_trace : (ℕ → Bool) → List (ℕ × ℕ) → M (List Bool)
  replay_trace memalign_gives [] = ret []
  replay_trace memalign_gives ((type, vaddr) ∷ trace) = do
    ok ← access_mem memalign_gives type vaddr
    oks ← replay_trace memalign_gives trace
    ret (ok ∷ oks)

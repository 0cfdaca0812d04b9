-- ===== src/Paging/Tests.antt =====
-- The properties of the simulator at concrete inputs.
use operating_system_unix_li.Base.{
  ℕ, ◌/◌, ◌≡◌, refl, ◌⊎◌, Bool, true, false, none, some, List, [], ◌∷◌, ◌==◌, if◌then◌else◌,
  replicate, get_elem?, contains, map, arith,
}
use operating_system_unix_li.Paging.Machine.{Pte, Frame, Machine, IsTold, same_frame}
use operating_system_unix_li.Paging.Bitmap.{Bitmap, words_for, bitmap_alloc, no_space, allocated}
use operating_system_unix_li.Paging.Bitmap.Space.{claim, Tracks, bitmap_alloc-claims}
use operating_system_unix_li.Paging.Bitmap.Mark.{bitmap_mark-unmark}
use operating_system_unix_li.Paging.Bitmap.{bitmap_isset, bitmap_mark, bitmap_unmark}
use operating_system_unix_li.Paging.Algs.{Alg, algs}
use operating_system_unix_li.Paging.Algs.Own.{algs-LeavesPages}
use operating_system_unix_li.Paging.PageTable.Filled.{LeavesPages}
use operating_system_unix_li.Paging.Policies.{
  lru_ref, lru_evict, fifo_ref, fifo_evict, clock_evict, opt_evict, count_frame,
}
use operating_system_unix_li.Paging.Policies.Recency.{
  take, recent, lru_ref-recency, lru_evict-oldest,
}
use operating_system_unix_li.Paging.Policies.Queue.{IsQueue, fifo-IsQueue}
use operating_system_unix_li.Paging.Policies.Chance.{
  clear, clock_evict-second_chance, clock_evict-full_round,
}
use operating_system_unix_li.Paging.Policies.Farthest.{next_use, NotSooner, opt_evict-farthest}

abbrev two_pages : Bitmap
two_pages = record { nbits = 2; v = (true ∷ false ∷ replicate 30 true) ∷ [] }

two_pages-Tracks : Tracks (true ∷ false ∷ []) two_pages
unfolding words_for
two_pages-Tracks = record {
  counted = refl;
  small = omega arith;
  all_words = refl;
  words = (refl, tt);
  bits = refl;
}

bitmap_alloc_example :
    ((claim (true ∷ false ∷ []) ≡ none) × (bitmap_alloc two_pages ≡ some (no_space, two_pages)))
    ⊎ ((i : ℕ) × (used' : List Bool) × (b' : Bitmap) × (claim (true ∷ false ∷ []) ≡ some (i, used'))
        × (bitmap_alloc two_pages ≡ some (allocated i, b'))
        × Tracks used' b')
bitmap_alloc_example = bitmap_alloc-claims (true ∷ false ∷ []) two_pages two_pages-Tracks

bitmap_isset-two_pages : bitmap_isset two_pages 1 ≡ some false
unfolding bitmap_isset
bitmap_isset-two_pages = refl

bitmap_mark_example :
    (b' : Bitmap) × (bitmap_mark two_pages 1 ≡ some b')
    × (bitmap_isset b' 1 ≡ some true)
    × (bitmap_unmark b' 1 ≡ some two_pages)
bitmap_mark_example = bitmap_mark-unmark two_pages 1 (omega arith) bitmap_isset-two_pages

-- Entry `q` is in frame `q`; the pages up to `marked` were referred to.
abbrev entry : ℕ → ℕ → Pte
entry marked q = record {
  number = q;
  valid = true;
  dirty = false;
  ref = if q == marked then true else false;
  onswap = false;
  swap_off = none;
}

abbrev frame_with : ℕ → Frame
frame_with vaddr = record { in_use = true; pte = 0; distance = 0; vaddr = vaddr }

abbrev machine : ℕ → List ℕ → Machine
machine marked referlist = record {
  pgdir = λ idx. true;
  ptes = entry marked;
  coremap = frame_with 4100 ∷ frame_with 8200 ∷ [];
  physmem = λ i. record { version = 0; checkaddr = 0 };
  referlist = referlist;
  curr = 1 ∷ 2 ∷ 2 ∷ [];
  swapmap = two_pages;
  swapfile = [];
  counters = record {
    hit_count = 0;
    miss_count = 0;
    ref_count = 0;
    evict_clean_count = 0;
    evict_dirty_count = 0;
  };
}

machine-IsTold : (p : ℕ) (ps : List ℕ) → IsTold (machine 9 ps) p
unfolding same_frame
machine-IsTold p ps q h = ground arith

lru_ref_example :
    (lru_ref 2 (machine 9 (1 ∷ 2 ∷ []))).referlist
    ≡ take (if contains 2 (1 ∷ 2 ∷ []) then 2 else 3) (recent (2 ∷ 1 ∷ 2 ∷ 1 ∷ 3 ∷ []))
lru_ref_example =
    lru_ref-recency (1 ∷ 2 ∷ 1 ∷ 3 ∷ []) 2 2 (machine 9 (1 ∷ 2 ∷ []))
      (machine-IsTold 2 (1 ∷ 2 ∷ [])) refl

lru_evict_example :
    (q : ℕ) × (get_elem? (recent (1 ∷ 2 ∷ 1 ∷ 3 ∷ [])) 1 ≡ some q)
    × (lru_evict (machine 9 (1 ∷ 2 ∷ []))
        ≡ some (
          (entry 9 q).number,
          record (machine 9 (1 ∷ 2 ∷ [])) { referlist = take 1 (recent (1 ∷ 2 ∷ 1 ∷ 3 ∷ [])) },
        ))
lru_evict_example =
    lru_evict-oldest (1 ∷ 2 ∷ 1 ∷ 3 ∷ []) 0 (machine 9 (1 ∷ 2 ∷ [])) refl (omega arith)

fifo_example :
    IsQueue
      (if contains 4 (2 ∷ 1 ∷ []) then 2 ∷ 1 ∷ 3 ∷ [] else 4 ∷ 2 ∷ 1 ∷ 3 ∷ [])
      (3 ∷ [])
      (fifo_ref 4 (machine 9 (2 ∷ 1 ∷ [])))
    × ((q : ℕ) × (m' : Machine) × (fifo_evict (machine 9 (2 ∷ 1 ∷ []))
          ≡ some ((entry 9 q).number, m'))
        × IsQueue (2 ∷ 1 ∷ 3 ∷ []) (q ∷ 3 ∷ []) m')
fifo_example =
    fifo-IsQueue (2 ∷ 1 ∷ 3 ∷ []) (3 ∷ []) 4 (machine 9 (2 ∷ 1 ∷ []))
      (machine-IsTold 4 (2 ∷ 1 ∷ [])) refl (omega arith)

clock_second_chance_example :
    clock_evict (machine 1 (1 ∷ 2 ∷ 3 ∷ []))
    ≡ some (
      2,
      record (machine 1 (1 ∷ 2 ∷ 3 ∷ [])) {
        ptes = clear (1 ∷ []) (entry 1);
        referlist = 3 ∷ 1 ∷ [];
      },
    )
clock_second_chance_example =
    clock_evict-second_chance (machine 1 (1 ∷ 2 ∷ 3 ∷ [])) (1 ∷ []) (3 ∷ []) 2 refl (refl, tt)
      (refl, tt) refl (omega arith)

-- Both pages were referred to.
abbrev busy : Machine
busy = record (machine 1 (1 ∷ 2 ∷ [])) { ptes = λ q. record (entry 1 q) { ref = true } }

clock_full_round_example :
    clock_evict busy
    ≡ some (1, record busy { ptes = clear (1 ∷ 2 ∷ []) busy.ptes; referlist = 2 ∷ [] })
clock_full_round_example =
    clock_evict-full_round busy 1 2 [] refl (refl, (refl, tt)) (refl, (refl, tt))

opt_evict_example :
    (j : ℕ) × (f : Frame) × (opt_evict (machine 9 [])
      ≡ some (
        j,
        record (machine 9 []) { coremap = map (count_frame (2 ∷ 2 ∷ [])) (machine 9 []).coremap },
      ))
    × (get_elem? (machine 9 []).coremap j ≡ some f)
    × NotSooner (next_use (f.vaddr / 4096) (2 ∷ 2 ∷ [])) (next_use (8200 / 4096) (2 ∷ 2 ∷ []))
opt_evict_example = opt_evict-farthest (machine 9 []) 1 (2 ∷ 2 ∷ []) 1 (frame_with 8200) refl refl

algs_example : LeavesPages (algs (λ m. 0) Alg.lru)
algs_example = algs-LeavesPages (λ m. 0) Alg.lru

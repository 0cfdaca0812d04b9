-- ===== src/Paging/PageTable/Tests.antt =====
-- The properties of `allocate_frame` at concrete inputs.
use operating_system_unix_li.Base.{
  ℕ, zero, suc, ◌≡◌, refl, sym, ap, true, false, Option, none, some, [], ◌∷◌, ◌⊎◌, ◌==◌,
  if◌then◌else◌, replicate, get_elem?, arith,
}
use operating_system_unix_li.Paging.Bitmap.{Bitmap, words_for}
use operating_system_unix_li.Paging.Bitmap.Space.{Tracks}
use operating_system_unix_li.Paging.Machine.{Pte, Frame, Machine}
use operating_system_unix_li.Paging.Swap.{Disk}
use operating_system_unix_li.Paging.PageTable.{Policy, first_free, allocate_frame, find_physpage}
use operating_system_unix_li.Paging.PageTable.Hit.{counted_hit, touched, find_physpage-hit}
use operating_system_unix_li.Paging.PageTable.Allocate.{Failed}
use operating_system_unix_li.Paging.PageTable.Invariant.{IsCoherent}
use operating_system_unix_li.Paging.PageTable.Kept.{Kept}
use operating_system_unix_li.Paging.PageTable.Coherence.{Allocated, allocate_frame-evicts}

abbrev two_pages : Bitmap
two_pages = record { nbits = 2; v = (true ∷ false ∷ replicate 30 true) ∷ [] }

two_pages-Tracks : Tracks (true ∷ false ∷ []) two_pages
unfolding words_for
two_pages-Tracks = record {
  counted = refl;
  small = omega arith;
  all_words = refl;
  words = (refl, tt);
  bits = refl;
}

-- The one frame is picked, and nothing is kept.
abbrev only_frame : Policy
only_frame = record { ref_fcn = λ p m. some (tt, m); evict_fcn = λ m. some (0, m) }

abbrev disk : Disk
disk = record { write_ok = λ offset. true; read_page = λ file offset. none }

abbrev unused : Pte
unused = record {
  number = 0;
  valid = false;
  dirty = false;
  ref = false;
  onswap = false;
  swap_off = none;
}

abbrev free_frame : Frame
free_frame = record { in_use = false; pte = 0; distance = 0; vaddr = 0 }

-- One frame, which is free.
abbrev empty : Machine
empty = record {
  pgdir = λ idx. true;
  ptes = λ p. unused;
  coremap = free_frame ∷ [];
  physmem = λ i. record { version = 0; checkaddr = 0 };
  referlist = [];
  curr = [];
  swapmap = two_pages;
  swapfile = [];
  counters = record {
    hit_count = 0;
    miss_count = 0;
    ref_count = 0;
    evict_clean_count = 0;
    evict_dirty_count = 0;
  };
}

abbrev held : Frame
held = record { in_use = true; pte = 5; distance = 0; vaddr = 20480 }

abbrev dirty_entry : Pte
dirty_entry = record unused { valid = true; dirty = true }

-- The one frame holds the page of entry 5, which is dirty.
abbrev crowded : Machine
crowded = record empty { ptes = λ p. if p == 5 then dirty_entry else unused; coremap = held ∷ [] }

crowded-frame : (i : ℕ) (f : Frame) → get_elem? crowded.coremap i ≡ some f → (i ≡ 0) × (f.pte ≡ 5)
crowded-frame zero f at = let same : held ≡ f = cc at in (refl, ap (λ k. k.pte) (sym same))
crowded-frame (suc i) f at = cc at

crowded-entry : (p : ℕ) → (crowded.ptes p).valid ≡ true → p ≡ 5
crowded-entry p valid = ground arith

crowded-IsCoherent : IsCoherent crowded
crowded-IsCoherent = record {
  frames = λ i f at used. let (here, own) = crowded-frame i f at in rw (own, here) (refl, refl);
  entries = λ p valid. let five : p ≡ 5 = crowded-entry p valid in rw five (held, refl, refl, refl);
  tables = λ p valid. refl;
  no_onswap = λ p. ground arith;
  swap_space = (true ∷ false ∷ [], two_pages-Tracks);
}

first_free-crowded : first_free 0 crowded.coremap ≡ none
unfolding first_free
first_free-crowded = refl

allocate_evicts_example :
    (r : Option ℕ) × (m' : Machine) × (allocate_frame only_frame disk 7 crowded ≡ some (r, m'))
    × ((m'.ptes 5).valid ≡ false)
    × (((r ≡ none) × Failed disk 0 5 crowded)
        ⊎ ((r ≡ some 0) × Allocated 7 0 m' × Kept 7 crowded m'))
allocate_evicts_example =
    allocate_frame-evicts only_frame disk 7 0 held crowded crowded crowded-IsCoherent refl refl
      first_free-crowded refl refl refl

-- The page of address 20484 is in frame 0.
find_physpage_example :
    (m' : Machine) × (find_physpage only_frame disk (λ idx. true) 20484 83 crowded ≡ some (0, m'))
    × Allocated 5 0 m'
    × (m'.counters ≡ record crowded.counters { hit_count = 1; ref_count = 1 })
find_physpage_example =
    find_physpage-hit only_frame disk (λ idx. true) 20484 83 held crowded
      (touched 5 held 20484 83 (counted_hit crowded)) crowded-IsCoherent (omega arith) (omega arith)
      (omega arith) refl refl refl refl

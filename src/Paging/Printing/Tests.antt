-- ===== src/Paging/Printing/Tests.antt =====
-- What is printed of a page directory with one page table, in which one entry is valid.
use operating_system_unix_li.Base.{ℕ, ◌≡◌, refl, true, false, none, [], ◌∷◌, ◌==◌}
use operating_system_unix_li.Paging.Machine.{Pte, Machine}
use operating_system_unix_li.Paging.Printing.{Line, print_loop, Shown, show_pte}

abbrev entry : ℕ → Pte
entry p = record {
  number = 3;
  valid = p == 1;
  dirty = true;
  ref = false;
  onswap = false;
  swap_off = none;
}

-- The first four entries of a page table.
four_entries :
    print_loop 4 0 none (λ i. show_pte (entry i))
    ≡ Line.invalid_run 0 0 ∷ Line.shown_at 1 (Shown.in_frame true 3) ∷ Line.invalid_run 2 3 ∷ []
unfolding print_loop
four_entries = refl

abbrev machine : Machine
machine = record {
  pgdir = λ idx. idx == 0;
  ptes = entry;
  coremap = [];
  physmem = λ i. record { version = 0; checkaddr = 0 };
  referlist = [];
  curr = [];
  swapmap = record { nbits = 0; v = [] };
  swapfile = [];
  counters = record {
    hit_count = 0;
    miss_count = 0;
    ref_count = 0;
    evict_clean_count = 0;
    evict_dirty_count = 0;
  };
}

-- ===== src/Paging/Swap.antt =====
-- swap.c: pages that go to the swap file and come back.
use operating_system_unix_li.Base.{
  ℕ, ◌*◌, ◌%◌, ◌^◌, Bool, true, false, Option, none, some, List, ◌∷◌, ◌&&◌, ltb, if◌then◌else◌,
  length, update,
}
use operating_system_unix_li.Paging.Bitmap.{no_space, allocated, bitmap_alloc, bitmap_create}
use operating_system_unix_li.Paging.Machine.{Page, M, ◌>>=◌, ret}

-- The calls of the system on the swap file: whether lseek and write succeed at an offset, and what
-- lseek and read give after the given writes, `none` where `swap_pagein` fails: a read of no bytes, which
-- counts as a success there, is not described; no entry is ever PG_ONSWAP, so that nothing is read.
pub record Disk : Type 0 where
  pub write_ok : ℕ → Bool
  pub read_page : List (ℕ × Page) → ℕ → Option Page

-- The offset of the page, for which space is allocated if it has none; `none` is INVALID_SWAP.
unfoldable pub swap_slot : Option ℕ → M (Option ℕ)
swap_slot (some offset) m = some (some offset, m)
swap_slot none m = elim (bitmap_alloc m.swapmap) [
  | none ↦ none
  | some (no_space, b) ↦ some (none, record m { swapmap = b })
  | some (allocated idx, b) ↦ some (some (idx * 16 % 2 ^ 32), record m { swapmap = b })
]

-- The offset is an `int`: one that is negative as such is refused by lseek.
unfoldable pub write_slot : Disk → ℕ → ℕ → M (Option ℕ)
write_slot disk frame offset m =
    if ltb frame (length m.coremap)
    then (if ltb offset (2 ^ 31) && disk.write_ok offset
        then some (some offset, record m { swapfile = (offset, m.physmem frame) ∷ m.swapfile })
        else some (none, m))
    else none

unfoldable pub swap_pageout : Disk → ℕ → Option ℕ → M (Option ℕ)
unfolding swap_slot write_slot
swap_pageout disk frame swap_offset = do
  slot ← swap_slot swap_offset
  elim slot [ none ↦ ret none | some offset ↦ write_slot disk frame offset ]

-- Whether the page was read, which is that the result is 0.
unfoldable pub swap_pagein : Disk → ℕ → Option ℕ → M Bool
swap_pagein disk frame none m = none
swap_pagein disk frame (some offset) m =
    if ltb frame (length m.coremap)
    then elim (disk.read_page m.swapfile offset) [
      | none ↦ some (false, m)
      | some page ↦ some (true, record m { physmem = update m.physmem frame page })
    ]
    else none

-- `mkstemp_gives` and `malloc_gives` say whether the file and the memory are there; without one of them
-- the program ends.
unfoldable pub swap_init : Bool → Bool → ℕ → M (Unit {0})
swap_init mkstemp_gives malloc_gives swapsize m =
    if mkstemp_gives
    then elim (bitmap_create malloc_gives swapsize) [
      | none ↦ none
      | some none ↦ none
      | some (some b) ↦ some (tt, record m { swapmap = b })
    ]
    else none

-- ===== src/Paging/Machine.antt =====
-- pagetable.h, pagetable.c and sim.c: the state of the simulator.
use operating_system_unix_li.Base.{
  ℕ, ◌≡◌, Bool, true, false, Option, List, get_elem?, set, none, some, update, ◌&&◌, ◌==◌, contains,
}
use operating_system_unix_li.Paging.Bitmap.{Bitmap}

-- `pgtbl_entry_t`: the field `frame` is kept as the frame number (the word shifted by PAGE_SHIFT) and
-- the flags PG_VALID, PG_DIRTY, PG_REF and PG_ONSWAP; the bits between are never written. `none` as an
-- offset is INVALID_SWAP.
pub record Pte : Type 0 where
  pub number : ℕ
  pub valid : Bool
  pub dirty : Bool
  pub ref : Bool
  pub onswap : Bool
  pub swap_off : Option ℕ

-- `struct frame`: `pte` is the name of the page table entry, as below.
pub record Frame : Type 0 where
  pub in_use : Bool
  pub pte : ℕ
  pub distance : ℕ
  pub vaddr : ℕ

-- What a frame of the simulated memory holds: the version counter and the address behind it.
pub record Page : Type 0 where
  pub version : ℕ
  pub checkaddr : ℕ

-- Each is an `int` in the source. A number here has no bound, and what is said of it holds of the source
-- below 2^31.
pub record Counters : Type 0 where
  pub hit_count : ℕ
  pub miss_count : ℕ
  pub ref_count : ℕ
  pub evict_clean_count : ℕ
  pub evict_dirty_count : ℕ

-- A page table entry is named by PGDIR_INDEX * PTRS_PER_PGTBL + PGTBL_INDEX, and `ptes` is the memory
-- of all second-level tables; `pgdir` says which entries of the page directory are not 0. `referlist`
-- is the list from `referlist_head` on (once around, for the clock), `curr` the addresses in the trace
-- list from `curr` on, and `swapfile` what was written to the swap file, the latest write first.
pub record Machine : Type 0 where
  pub pgdir : ℕ → Bool
  pub ptes : ℕ → Pte
  pub coremap : List Frame
  pub physmem : ℕ → Page
  pub referlist : List ℕ
  pub curr : List ℕ
  pub swapmap : Bitmap
  pub swapfile : List (ℕ × Page)
  pub counters : Counters

abbrev pub eq_bool : Bool → Bool → Bool
eq_bool true b = b
eq_bool false true = false
eq_bool false false = true

-- `a->frame == b->frame`, on the whole word.
unfoldable pub same_frame : Pte → Pte → Bool
same_frame a b =
    a.number == b.number
    && eq_bool a.valid b.valid
    && eq_bool a.dirty b.dirty
    && eq_bool a.ref b.ref
    && eq_bool a.onswap b.onswap

-- The frame word of entry `p` tells it from all the pages in the list.
abbrev pub IsTold : Machine → ℕ → Type 0
IsTold m p = (q : ℕ) → contains q m.referlist ≡ true → same_frame (m.ptes q) (m.ptes p) ≡ (q == p)

-- Operations on the state; no result where the program stops: by exit, by an assertion, or by a read
-- or write outside an array.
abbrev pub M : Type 0 → Type 0
M A = Machine → Option (A × Machine)

infixl 5 ◌>>=◌ ◌>>◌
abbrev pub ◌>>=◌ : {A B : Type 0} → M A → (A → M B) → M B
◌>>=◌ x f m = elim (x m) [ none ↦ none | some (a, m') ↦ f a m' ]

abbrev pub ◌>>◌ : {B : Type 0} → M (Unit {0}) → M B → M B
x >> y = x >>= λ _. y

abbrev pub ret : {A : Type 0} → A → M A
ret a m = some (a, m)

abbrev pub done : M (Unit {0})
done m = some (tt, m)

abbrev pub stop : {A : Type 0} → M A
stop m = none

unfoldable pub get_pte : ℕ → M Pte
get_pte p m = some (m.ptes p, m)

unfoldable pub set_pte : ℕ → (Pte → Pte) → M (Unit {0})
set_pte p f m = some (tt, record m { ptes = update m.ptes p (f (m.ptes p)) })

unfoldable pub get_frame : ℕ → M Frame
get_frame i m = elim (get_elem? m.coremap i) [ none ↦ none | some f ↦ some (f, m) ]

unfoldable pub set_frame : ℕ → (Frame → Frame) → M (Unit {0})
set_frame i f m = elim (get_elem? m.coremap i) [
  | none ↦ none
  | some g ↦ some (tt, record m { coremap = set m.coremap i (f g) })
]

unfoldable pub count : (Counters → Counters) → M (Unit {0})
count f m = some (tt, record m { counters = f m.counters })

-- ===== src/Paging/Printing.antt =====
-- pagetable.c, `print_pagetbl` and `print_pagedirectory`: what is printed, line by line.
pub mod Told
mod Tests
use operating_system_unix_li.Base.{
  ℕ, zero, suc, ◌+◌, ◌-◌, ◌*◌, ◌≤◌, ◌≡◌, refl, sym, ap, ◌∙◌, Bool, true, false, not, ◌&&◌, Option,
  none, some, List, [], ◌∷◌, ◌++◌, inl, inr, Option-cases, if◌then◌else◌, arith,
}
use operating_system_unix_li.Paging.Machine.{Pte, Machine}

-- A line for a run of indices, or what is printed for one index.
pub data Line (A : Type 0) : Type 0 where
  invalid_run : ℕ → ℕ → Line A
  shown_at : ℕ → A → Line A

-- The run takes in index `i`; `none` is -1 for both first_invalid and last_invalid.
abbrev pub extended : ℕ → Option (ℕ × ℕ) → Option (ℕ × ℕ)
extended i none = some (i, i)
extended i (some (first_invalid, last_invalid)) = some (first_invalid, i)

module _ {A : Type 0} where
  -- The line for the run of invalid entries that is open.
  abbrev pub flush : Option (ℕ × ℕ) → List (Line A)
  flush none = []
  flush (some (first_invalid, last_invalid)) = Line.invalid_run first_invalid last_invalid ∷ []

  -- The loop that both functions have, from index `i` on, over what is printed for an index, `none` for
  -- an invalid one.
  unfoldable pub print_loop : ℕ → ℕ → Option (ℕ × ℕ) → (ℕ → Option A) → List (Line A)
  print_loop zero i run show = flush run
  print_loop (suc n) i run show = elim (show i) [
    | none ↦ print_loop n (i + 1) (extended i run) show
    | some a ↦ flush run ++ Line.shown_at i a ∷ print_loop n (i + 1) none show
  ]

-- "VALID" with "DIRTY" or not and the frame, or "ONSWAP" with the offset.
pub data Shown : Type 0 where
  in_frame : Bool → ℕ → Shown
  on_swap : Option ℕ → Shown

abbrev pub show_pte : Pte → Option Shown
show_pte e =
    if not e.valid && not e.onswap
    then none
    else some (if e.valid then Shown.in_frame e.dirty e.number else Shown.on_swap e.swap_off)

unfoldable pub print_pagetbl : (ℕ → Pte) → List (Line Shown)
unfolding print_loop
print_pagetbl pgtbl = print_loop 4096 0 none (λ i. show_pte (pgtbl i))

unfoldable pub print_pagedirectory : Machine → List (Line (List (Line Shown)))
unfolding print_loop
print_pagedirectory m =
    print_loop 4096 0 none
      (λ i. if m.pgdir i then some (print_pagetbl (λ j. m.ptes (i * 4096 + j))) else none)

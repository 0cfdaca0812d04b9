-- ===== src/Paging/Printing/Told.antt =====
-- pagetable.c: what the printed lines say of each entry.
use operating_system_unix_li.Base.{
  ℕ, zero, suc, ◌+◌, ◌-◌, ◌≤◌, ◌≡◌, Bool, true, false, Option, none, some, List, [], ◌∷◌, ◌++◌,
}
use operating_system_unix_li.Paging.Machine.{Pte, Machine}
use operating_system_unix_li.Paging.Printing.{Line, Shown}

-- A run ends before index `i`.
abbrev EndsAt : ℕ → Option (ℕ × ℕ) → Type 0
EndsAt i none = Unit
EndsAt i (some (first, last)) = (first ≤ last) × (last + 1 ≡ i)

module _ {A : Type 0} where
  abbrev pub invalid_from : ℕ → ℕ → List (ℕ × Option A)
  invalid_from zero first = []
  invalid_from (suc n) first = (first, none) ∷ invalid_from n (first + 1)

  -- What the lines say of each index in turn.
  abbrev pub told : List (Line A) → List (ℕ × Option A)
  told [] = []
  told (Line.invalid_run first last ∷ lines) = invalid_from (last + 1 - first) first ++ told lines
  told (Line.shown_at i a ∷ lines) = (i, some a) ∷ told lines

  -- The next `n` indices with what is to be said of them.
  abbrev pub each : ℕ → ℕ → (ℕ → Option A) → List (ℕ × Option A)
  each zero i show = []
  each (suc n) i show = (i, show i) ∷ each n (i + 1) show

-- What is to be said of an entry, by its flags: nothing if the page is nowhere, its frame and whether it
-- was written to if it is in memory, and else its place in the swap file.
abbrev said_by : (valid onswap dirty : Bool) → ℕ → Option ℕ → Option Shown
said_by true onswap true number swap_off = some (Shown.in_frame true number)
said_by true onswap false number swap_off = some (Shown.in_frame false number)
said_by false true dirty number swap_off = some (Shown.on_swap swap_off)
said_by false false dirty number swap_off = none

abbrev pub said_of : Pte → Option Shown
said_of e = said_by e.valid e.onswap e.dirty e.number e.swap_off

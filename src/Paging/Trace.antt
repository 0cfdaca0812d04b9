-- ===== src/Paging/Trace.antt =====
-- sim.c and opt.c: the lines of a trace file, and what sscanf with "%c %lx" takes from them.
pub mod Printed
mod Tests
use operating_system_unix_li.Base.{
  ℕ, zero, suc, ◌+◌, ◌-◌, ◌*◌, ◌/◌, ◌%◌, ◌^◌, Bool, true, false, ◌&&◌, ◌||◌, Option, none, some,
  List, [], ◌∷◌, ◌++◌, ◌==◌, ltb, leb, if◌then◌else◌,
}

-- The characters of a line, as fgets gives it.
abbrev pub Text : Type 0
Text = List ℕ

abbrev pub is_space : ℕ → Bool
is_space c = c == 32 || (leb 9 c && leb c 13)

unfoldable pub skip_spaces : Text → Text
skip_spaces [] = []
skip_spaces (c ∷ cs) = let rest = skip_spaces cs in if is_space c then rest else c ∷ cs

abbrev pub digit_of : ℕ → Option ℕ
digit_of c =
    if leb 48 c && leb c 57
    then some (c - 48)
    else if leb 97 c && leb c 102
    then some (c - 87)
    else if leb 65 c && leb c 70
    then some (c - 55)
    else none

-- The digits go on to the first other character.
unfoldable pub scan_digits : ℕ → Text → ℕ
scan_digits value [] = value
scan_digits value (c ∷ cs) = elim (digit_of c) [
  | none ↦ value
  | some d ↦ scan_digits (16 * value + d) cs
]

-- A number wants a digit. One of more than 64 bits is ULONG_MAX.
unfoldable pub scan_number : Text → Option ℕ
unfolding scan_digits
scan_number [] = none
scan_number (c ∷ cs) = elim (digit_of c) [
  | none ↦ none
  | some d ↦ let value = scan_digits d cs in some (if ltb value (2 ^ 64) then value else 2 ^ 64 - 1)
]

-- "0x" or "0X" may stand before the digits.
unfoldable pub scan_prefix : Text → Option ℕ
scan_prefix (c ∷ x ∷ cs) =
    if c == 48 && (x == 120 || x == 88) then scan_number cs else scan_number (c ∷ x ∷ cs)
scan_prefix cs = scan_number cs

-- A sign may stand before them; the negative of a number is taken modulo 2^64.
unfoldable pub scan_hex : Text → Option ℕ
scan_hex [] = none
scan_hex (c ∷ cs) =
    if c == 45
    then elim (scan_prefix cs) [ none ↦ none | some v ↦ some ((2 ^ 64 - v) % 2 ^ 64) ]
    else if c == 43
    then scan_prefix cs
    else scan_prefix (c ∷ cs)

-- The type and the address, which are kept if the line does not give them.
unfoldable pub scan_line : Text → ℕ × ℕ → ℕ × ℕ
scan_line [] last = last
scan_line (c ∷ cs) last = elim (scan_hex (skip_spaces cs)) [
  | none ↦ (c, last.1)
  | some vaddr ↦ (c, vaddr)
]

-- buf[0] is '='.
abbrev pub is_skipped : Text → Bool
is_skipped [] = false
is_skipped (c ∷ cs) = c == 61

-- The loop over the lines, as `fgets` has cut them, without a NUL in them: the type and the address of
-- each that is not skipped.
unfoldable pub scan_trace : ℕ × ℕ → List Text → List (ℕ × ℕ)
unfolding scan_line
scan_trace last [] = []
scan_trace last (buf ∷ lines) =
    if is_skipped buf
    then scan_trace last lines
    else scan_line buf last ∷ scan_trace (scan_line buf last) lines

-- The digit of a number below 16 in lower case.
abbrev pub hex_digit : ℕ → ℕ
hex_digit d = if ltb d 10 then 48 + d else 87 + d

-- The digits of a number as %lx prints it, at most as many as the rounds.
unfoldable pub show_hex : ℕ → ℕ → Text
show_hex zero n = []
show_hex (suc rounds) n =
    if ltb n 16 then hex_digit n ∷ [] else show_hex rounds (n / 16) ++ hex_digit (n % 16) ∷ []

-- The line that is printed of an access in debug mode; 64 bits have 16 digits.
unfoldable pub print_access : ℕ × ℕ → Text
unfolding show_hex
print_access (type, vaddr) = type ∷ 32 ∷ (show_hex 16 vaddr ++ 10 ∷ [])

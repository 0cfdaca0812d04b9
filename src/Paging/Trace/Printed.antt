-- ===== src/Paging/Trace/Printed.antt =====
-- sim.c: the accesses that are printed in debug mode, read back as a trace.
use operating_system_unix_li.Base.{
  ℕ, zero, suc, ◌+◌, ◌*◌, ◌/◌, ◌%◌, ◌^◌, ◌<◌, ◌≡◌, ◌≢◌, refl, sym, ap, subst, ◌∙◌, true, false,
  some, List, [], ◌∷◌, ◌++◌, map, inl, inr, ◌||◌, ◌==◌, ltb, lt→ltb, arith, Bool-cases,
}
use mathlib.Core.List.{append_assoc}
use operating_system_unix_li.Paging.Trace.{
  Text, is_space, skip_spaces, digit_of, scan_digits, scan_number, scan_prefix, scan_hex, scan_line,
  scan_trace, hex_digit, show_hex, print_access,
}

abbrev digit_count : ℕ → ℕ
digit_count zero = 1
digit_count (suc rounds) = 16 * digit_count rounds

-- The digit of a number below 16, and what it is not.
hex_digit_lem : (d : ℕ) → d < 16 → digit_of (hex_digit d) ≡ some d
hex_digit_lem d small = elim (Bool-cases (ltb d 10)) [
  | inl e ↦ ground (arith, small, e)
  | inr e ↦ ground (arith, small, e)
]

-- A digit in front is read first.
scan_digits_step :
    (value d : ℕ) (cs : Text)
    → d < 16
    → scan_digits value (hex_digit d ∷ cs) ≡ scan_digits (16 * value + d) cs
unfolding scan_digits
scan_digits_step value d cs small = rw (scan_digits, hex_digit_lem d small) refl

show_hex_one : (rounds n : ℕ) → ltb n 16 ≡ true → show_hex (suc rounds) n ≡ hex_digit n ∷ []
unfolding show_hex
show_hex_one rounds n e = rw (show_hex, e) refl

show_hex_more :
    (rounds n : ℕ)
    → ltb n 16 ≡ false
    → show_hex (suc rounds) n ≡ show_hex rounds (n / 16) ++ hex_digit (n % 16) ∷ []
unfolding show_hex
show_hex_more rounds n e = rw (show_hex, e) refl

scan_digits-show_hex :
    (rounds n : ℕ) (cs : Text)
    → n < digit_count rounds
    → scan_digits 0 (show_hex rounds n ++ cs) ≡ scan_digits n cs
unfolding show_hex
scan_digits-show_hex zero n cs small = ap (λ k. scan_digits k cs) (omega (arith, small))
scan_digits-show_hex (suc rounds) n cs small = elim (Bool-cases (ltb n 16)) [
  | inl e ↦
      ap (λ text. scan_digits 0 (text ++ cs)) (show_hex_one rounds n e)
      ∙ scan_digits_step 0 n cs (ground (arith, e))
      ∙ ap (λ k. scan_digits k cs) (omega arith)
  | inr e ↦
      ap (λ text. scan_digits 0 (text ++ cs)) (show_hex_more rounds n e)
      ∙ ap (scan_digits 0) (append_assoc (show_hex rounds (n / 16)) (hex_digit (n % 16) ∷ []) cs)
      ∙ scan_digits-show_hex rounds (n / 16) (hex_digit (n % 16) ∷ cs) (omega (arith, small))
      ∙ scan_digits_step (n / 16) (n % 16) cs (omega arith)
      ∙ ap (λ k. scan_digits k cs) (omega arith)
]

-- No character is an 'x' or 'X'.
abbrev IsPlain : Text → Type 0
IsPlain [] = Unit
IsPlain (c ∷ cs) = ((c == 120 || c == 88) ≡ false) × IsPlain cs

append-IsPlain : (cs ds : Text) → IsPlain cs → IsPlain ds → IsPlain (cs ++ ds)
append-IsPlain [] ds h k = k
append-IsPlain (c ∷ cs) ds (first, rest) k = (first, append-IsPlain cs ds rest k)

hex_digit_plain : (d : ℕ) → d < 16 → (hex_digit d == 120 || hex_digit d == 88) ≡ false
hex_digit_plain d small = elim (Bool-cases (ltb d 10)) [
  | inl e ↦ ground (arith, small, e)
  | inr e ↦ ground (arith, small, e)
]

show_hex-IsPlain : (rounds n : ℕ) → IsPlain (show_hex rounds n)
unfolding show_hex
show_hex-IsPlain zero n = tt
show_hex-IsPlain (suc rounds) n = elim (Bool-cases (ltb n 16)) [
  | inl e ↦
      subst IsPlain (sym (show_hex_one rounds n e)) (hex_digit_plain n (ground (arith, e)), tt)
  | inr e ↦ subst IsPlain (sym (show_hex_more rounds n e)) (
      append-IsPlain (show_hex rounds (n / 16)) (hex_digit (n % 16) ∷ [])
        (show_hex-IsPlain rounds (n / 16)) (hex_digit_plain (n % 16) (omega arith), tt))
]

-- A number has a first digit.
show_hex-first :
    (rounds n : ℕ)
    → n < digit_count (suc rounds)
    → (d : ℕ) × (cs : Text) × (d < 16) × (show_hex (suc rounds) n ≡ hex_digit d ∷ cs)
show_hex-first zero n small =
    (n, [], omega (arith, small), show_hex_one zero n (ground (arith, small)))
show_hex-first (suc rounds) n small = elim (Bool-cases (ltb n 16)) [
  | inl e ↦ (n, [], ground (arith, e), show_hex_one (suc rounds) n e)
  | inr e ↦
      let (d, cs, low, same) = show_hex-first rounds (n / 16) (omega (arith, small)) in
      (
        d,
        cs ++ hex_digit (n % 16) ∷ [],
        low,
        show_hex_more (suc rounds) n e ∙ ap (λ text. text ++ hex_digit (n % 16) ∷ []) same,
      )
]

scan_prefix_plain : (cs : Text) → IsPlain cs → scan_prefix cs ≡ scan_number cs
unfolding scan_prefix
scan_prefix_plain [] h = refl
scan_prefix_plain (c ∷ []) h = refl
scan_prefix_plain (c ∷ x ∷ cs) (first, (second, rest)) = elim (Bool-cases (c == 48)) [
  | inl e ↦ rw (scan_prefix, e, second) refl
  | inr e ↦ rw (scan_prefix, e) refl
]

scan_number_digit :
    (d n : ℕ) (cs : Text)
    → d < 16
    → scan_digits d cs ≡ n
    → n < 2 ^ 64
    → scan_number (hex_digit d ∷ cs) ≡ some n
unfolding scan_number
scan_number_digit d n cs low value small =
    let fits : ltb n (2 ^ 64) ≡ true = lt→ltb n (2 ^ 64) small in
    rw (scan_number, hex_digit_lem d low, value, fits) refl

-- What is below '0' is no digit.
hex_digit_not : (c d : ℕ) → d < 16 → c < 48 → (hex_digit d == c) ≡ false
hex_digit_not c d small below = elim (Bool-cases (ltb d 10)) [
  | inl e ↦ ground (arith, small, e, below)
  | inr e ↦ ground (arith, small, e, below)
]

scan_hex_digit :
    (d : ℕ) (cs : Text) → d < 16 → scan_hex (hex_digit d ∷ cs) ≡ scan_prefix (hex_digit d ∷ cs)
unfolding scan_hex
scan_hex_digit d cs low =
    let plus : (hex_digit d == 43) ≡ false = hex_digit_not 43 d low (omega arith) in
    let minus : (hex_digit d == 45) ≡ false = hex_digit_not 45 d low (omega arith) in
    rw (scan_hex, minus, plus) refl

-- What was printed of an address is read back.
scan_hex-show_hex : (n : ℕ) → n < 2 ^ 64 → scan_hex (show_hex 16 n ++ 10 ∷ []) ≡ some n
unfolding scan_digits
scan_hex-show_hex n small =
    let (d, cs, low, same) = show_hex-first 15 n small in
    let text : Text = cs ++ 10 ∷ [] in
    let plain : IsPlain (hex_digit d ∷ text) =
      append-IsPlain (hex_digit d ∷ cs) (10 ∷ []) (subst IsPlain same (show_hex-IsPlain 16 n))
        (refl, tt) in
    let value : scan_digits d text ≡ n =
      ap (λ k. scan_digits k text) (omega arith)
      ∙ sym (scan_digits_step 0 d text low)
      ∙ ap (λ t. scan_digits 0 (t ++ 10 ∷ [])) (sym same)
      ∙ scan_digits-show_hex 16 n (10 ∷ []) small in
    ap (λ t. scan_hex (t ++ 10 ∷ [])) same
    ∙ scan_hex_digit d text low
    ∙ scan_prefix_plain (hex_digit d ∷ text) plain
    ∙ scan_number_digit d n text low value small

hex_digit_space : (d : ℕ) → d < 16 → is_space (hex_digit d) ≡ false
hex_digit_space d small = elim (Bool-cases (ltb d 10)) [
  | inl e ↦ ground (arith, small, e)
  | inr e ↦ ground (arith, small, e)
]

skip_spaces_digit :
    (d : ℕ) (cs : Text) → d < 16 → skip_spaces (32 ∷ hex_digit d ∷ cs) ≡ hex_digit d ∷ cs
unfolding skip_spaces
skip_spaces_digit d cs low = rw (skip_spaces, hex_digit_space d low) refl

-- The accesses of which a trace may consist: a type is a byte that starts a line of its own, so it is
-- not NUL, not a newline and not '=', and an address has 64 bits.
abbrev pub IsType : ℕ → Type 0
IsType type = (0 < type) × (type < 256) × (type ≢ 10) × ((type == 61) ≡ false)

abbrev pub AreAccesses : List (ℕ × ℕ) → Type 0
AreAccesses [] = Unit
AreAccesses ((type, vaddr) ∷ trace) = IsType type × (vaddr < 2 ^ 64) × AreAccesses trace

scan_line_at :
    (c vaddr : ℕ) (cs : Text) (last : ℕ × ℕ)
    → scan_hex (skip_spaces cs) ≡ some vaddr
    → scan_line (c ∷ cs) last ≡ (c, vaddr)
unfolding scan_line
scan_line_at c vaddr cs last e = rw (scan_line, e) refl

scan_line-print_access :
    (type vaddr : ℕ) (last : ℕ × ℕ)
    → vaddr < 2 ^ 64
    → scan_line (print_access (type, vaddr)) last ≡ (type, vaddr)
unfolding print_access
scan_line-print_access type vaddr last small =
    let (d, cs, low, same) = show_hex-first 15 vaddr small in
    let skipped : skip_spaces (32 ∷ (show_hex 16 vaddr ++ 10 ∷ [])) ≡ show_hex 16 vaddr ++ 10 ∷ [] =
      ap (λ t. skip_spaces (32 ∷ (t ++ 10 ∷ []))) same
      ∙ skip_spaces_digit d (cs ++ 10 ∷ []) low
      ∙ ap (λ t. t ++ 10 ∷ []) (sym same) in
    let read : scan_hex (skip_spaces (32 ∷ (show_hex 16 vaddr ++ 10 ∷ []))) ≡ some vaddr =
      ap scan_hex skipped ∙ scan_hex-show_hex vaddr small in
    scan_line_at type vaddr (32 ∷ (show_hex 16 vaddr ++ 10 ∷ [])) last read

-- A trace that is printed line by line as in debug mode, whose types are bytes other than NUL, newline
-- and '=' and whose addresses have 64 bits, is read back as it was, whatever type and address the loop
-- starts with.
pub scan_trace-print_access :
    (trace : List (ℕ × ℕ)) (last : ℕ × ℕ)
    → AreAccesses trace
    → scan_trace last (map print_access trace) ≡ trace
unfolding scan_trace print_access
scan_trace-print_access [] last h = refl
scan_trace-print_access ((type, vaddr) ∷ trace) last
      ((some_byte, byte, one_line, plain), small, rest) =
    let read : scan_line (print_access (type, vaddr)) last ≡ (type, vaddr) =
      scan_line-print_access type vaddr last small in
    rw (plain, read) (ap (◌∷◌ (type, vaddr)) (scan_trace-print_access trace (type, vaddr) rest))

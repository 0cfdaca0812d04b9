-- ===== src/Paging/Trace/Tests.antt =====
-- A printed trace of two accesses.
use operating_system_unix_li.Base.{ℕ, ◌≡◌, refl, List, [], ◌∷◌, map, arith}
use operating_system_unix_li.Paging.Trace.{show_hex, print_access, scan_trace}
use operating_system_unix_li.Paging.Trace.Printed.{scan_trace-print_access}

-- "I 4a3f" and a new line.
print_access_I : print_access (73, 19007) ≡ 73 ∷ 32 ∷ 52 ∷ 97 ∷ 51 ∷ 102 ∷ 10 ∷ []
unfolding print_access show_hex
print_access_I = refl

abbrev trace : List (ℕ × ℕ)
trace = (73, 19007) ∷ (83, 0) ∷ []

scan_trace_example : scan_trace (0, 0) (map print_access trace) ≡ trace
scan_trace_example =
    scan_trace-print_access trace (0, 0)
      (
        (omega arith, omega arith, (λ e. absurd (omega (arith, e))), refl),
        omega arith,
        ((omega arith, omega arith, (λ e. absurd (omega (arith, e))), refl), omega arith, tt),
      )

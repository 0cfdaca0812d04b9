-- ===== src/Interceptor/Members.antt =====
-- interceptor.c, the list operations: which pids a list holds after each of them.
use operating_system_unix_li.Base.{
  ℕ, suc, ◌≡◌, refl, ap, sym, ==_iff, inl, inr, Bool-cases, true, false, none, some, List, [], ◌∷◌,
  ◌==◌, if◌then◌else◌, arith, length, contains, Distinct,
}
use operating_system_unix_li.Interceptor.PidList.{take_out, check_pid_monitored}

pub check_pid_monitored-contains :
    (ps : List ℕ) (pid : ℕ) → check_pid_monitored ps pid ≡ (if contains pid ps then 1 else 0)
unfolding check_pid_monitored
check_pid_monitored-contains [] pid = refl
check_pid_monitored-contains (p ∷ ps) pid = ground (arith, check_pid_monitored-contains ps pid)

-- `qs` is `ps` without `pid`.
pub record Removed (pid : ℕ) (ps qs : List ℕ) : Type 0 where
  pub shorter : length ps ≡ suc (length qs)
  pub members : (q : ℕ) → contains q qs ≡ (if q == pid then false else contains q ps)
  pub distinct : Distinct qs

pub contains_eq : (p q : ℕ) (ps : List ℕ) → (p == q) ≡ true → contains q ps ≡ contains p ps
contains_eq p q ps h = ap (λ (x : ℕ). contains x ps) (sym ((==_iff p q).0 h))

pub take_out-Removed :
    (pid : ℕ) (ps : List ℕ)
    → Distinct ps
    → contains pid ps ≡ true
    → (qs : List ℕ) × (take_out pid ps ≡ some qs) × Removed pid ps qs
unfolding take_out
take_out-Removed pid [] d h = cc
take_out-Removed pid (p ∷ ps) d h = elim (Bool-cases (p == pid)) [
  | inl hit ↦ (
    ps,
    rw (hit, take_out),
    record { shorter = refl; members = λ q. ground (arith, contains_eq p q ps); distinct = d.1 },
  )
  | inr miss ↦
      let (qs, e, r) = take_out-Removed pid ps d.1 (ground arith) in
      (
        p ∷ qs,
        rw (miss, e, take_out),
        record {
          shorter = omega (arith, r.shorter);
          members = λ q. ground (arith, r.members q);
          distinct = (ground (arith, r.members p), r.distinct);
        },
      )
]

pub take_out-none : (pid : ℕ) (ps : List ℕ) → contains pid ps ≡ false → take_out pid ps ≡ none
unfolding take_out
take_out-none pid [] h = refl
take_out-none pid (p ∷ ps) h = ground (arith, take_out-none pid ps)

-- ===== src/Paging/Policies/Chance.antt =====
-- clock.c: a page that was referred to gets a second chance.
use operating_system_unix_li.Base.{
  ℕ, suc, ◌+◌, ◌<◌, ◌≡◌, ◌≢◌, refl, sym, ap, subst, ◌∙◌, fun_ext, true, false, some, List, [], ◌∷◌,
  ◌++◌, ◌==◌, if◌then◌else◌, length, length-append, contains, Distinct, update, update_ne, arith,
  Bool-cases, inl, inr,
}
use native.Mathlib.Nat.{zero-add, suc-add}
use mathlib.Core.List.{append-nil, append_assoc}
use operating_system_unix_li.Paging.Machine.{Machine, Pte}
use operating_system_unix_li.Paging.Policies.{clock_loop, unlink, clock_evict}

-- The reference bits of the pages in the list are cleared.
abbrev pub clear : List ℕ → (ℕ → Pte) → ℕ → Pte
clear ps ptes q = if contains q ps then record (ptes q) { ref = false } else ptes q

abbrev pub AllReferred : (ℕ → Pte) → List ℕ → Type 0
AllReferred ptes [] = Unit
AllReferred ptes (p ∷ ps) = ((ptes p).ref ≡ true) × AllReferred ptes ps

clear-update :
    (p : ℕ) (ps : List ℕ) (ptes : ℕ → Pte)
    → contains p ps ≡ false
    → clear ps (update ptes p (record (ptes p) { ref = false })) ≡ clear (p ∷ ps) ptes
unfolding update
clear-update p ps ptes new = fun_ext (λ q. ground arith)

AllReferred-update :
    (p : ℕ) (v : Pte) (ps : List ℕ) (ptes : ℕ → Pte)
    → contains p ps ≡ false
    → AllReferred ptes ps
    → AllReferred (update ptes p v) ps
AllReferred-update p v [] ptes new all = tt
AllReferred-update p v (q ∷ ps) ptes new all =
    let other : q ≢ p = ground arith in
    (
      ap (λ pte. pte.ref) (update_ne ptes p v q other) ∙ all.0,
      AllReferred-update p v ps ptes (ground arith) all.1,
    )

clock_loop_skips :
    (rounds : ℕ) (ptes : ℕ → Pte) (passed front back : List ℕ)
    → Distinct front
    → AllReferred ptes front
    → clock_loop (length front + rounds) ptes passed (front ++ back)
      ≡ clock_loop rounds (clear front ptes) (passed ++ front) back
unfolding clock_loop
clock_loop_skips rounds ptes passed [] back distinct all = rw (append-nil, zero-add) refl
clock_loop_skips rounds ptes passed (p ∷ front) back distinct all =
    rw (suc-add, all.0)
      (clock_loop_skips rounds (update ptes p (record (ptes p) { ref = false })) (passed ++ p ∷ [])
          front back distinct.1
          (AllReferred-update p (record (ptes p) { ref = false }) front ptes distinct.0 all.1)
        ∙ rw (clear-update p front ptes distinct.0, append_assoc) refl)

AllReferred-absent :
    (ptes : ℕ → Pte) (ps : List ℕ) (q : ℕ)
    → AllReferred ptes ps
    → (ptes q).ref ≡ false
    → contains q ps ≡ false
AllReferred-absent ptes [] q all off = refl
AllReferred-absent ptes (p ∷ ps) q all off = elim (Bool-cases (p == q)) [
  | inl e ↦
      let same : p ≡ q = ground arith in absurd (cc (sym all.0 ∙ ap (λ k. (ptes k).ref) same ∙ off))
  | inr e ↦ rw (e, AllReferred-absent ptes ps q all.1 off) refl
]

clear-number : (ps : List ℕ) (ptes : ℕ → Pte) (q : ℕ) → (clear ps ptes q).number ≡ (ptes q).number
clear-number ps ptes q = ground arith

clear-ref :
    (ps : List ℕ) (ptes : ℕ → Pte) (q : ℕ) → contains q ps ≡ true → (clear ps ptes q).ref ≡ false
clear-ref ps ptes q h = ground arith

clear-absent :
    (ps : List ℕ) (ptes : ℕ → Pte) (q : ℕ) → contains q ps ≡ false → clear ps ptes q ≡ ptes q
clear-absent ps ptes q h = ground arith

clock_loop_stops :
    (rounds : ℕ) (ptes : ℕ → Pte) (passed : List ℕ) (p : ℕ) (ps : List ℕ)
    → (ptes p).ref ≡ false
    → clock_loop (suc rounds) ptes passed (p ∷ ps) ≡ some (ptes, passed, p ∷ ps)
unfolding clock_loop
clock_loop_stops rounds ptes passed p ps off = rw off refl

clock_loop_wraps :
    (rounds : ℕ) (ptes : ℕ → Pte) (passed : List ℕ)
    → clock_loop (suc rounds) ptes passed [] ≡ clock_loop rounds ptes [] passed
unfolding clock_loop
clock_loop_wraps rounds ptes passed = refl

unlink_lem :
    (ptes : ℕ → Pte) (passed : List ℕ) (p : ℕ) (ps : List ℕ) (m : Machine)
    → 0 < length passed + length ps
    → unlink ptes passed (p ∷ ps) m
      ≡ some ((ptes p).number, record m { ptes = ptes; referlist = ps ++ passed })
unlink_lem ptes [] p [] m h = absurd (omega (arith, h))
unlink_lem ptes [] p (q ∷ ps) m h = refl
unlink_lem ptes (q ∷ passed) p ps m h = refl

-- The rounds that `clock_evict` is given are enough to reach the victim.
reaches_victim :
    (ptes : ℕ → Pte) (front back : List ℕ) (victim : ℕ)
    → Distinct front
    → AllReferred ptes front
    → (ptes victim).ref ≡ false
    → clock_loop (length (front ++ victim ∷ back) + 2) ptes [] (front ++ victim ∷ back)
      ≡ some (clear front ptes, front, victim ∷ back)
reaches_victim ptes front back victim distinct all off =
    let rounds : length (front ++ victim ∷ back) + 2 ≡ length front + suc (length back + 2) =
      omega (arith, length-append front (victim ∷ back)) in
    let same : clear front ptes victim ≡ ptes victim =
      clear-absent front ptes victim (AllReferred-absent ptes front victim all off) in
    rw rounds (
      clock_loop_skips (suc (length back + 2)) ptes [] front (victim ∷ back) distinct all
      ∙ clock_loop_stops (length back + 2) (clear front ptes) front victim back
          (ap (λ pte. pte.ref) same ∙ off))

-- And they are enough to go round once.
reaches_head :
    (ptes : ℕ → Pte) (victim : ℕ) (ps : List ℕ)
    → Distinct (victim ∷ ps)
    → AllReferred ptes (victim ∷ ps)
    → clock_loop (length (victim ∷ ps) + 2) ptes [] (victim ∷ ps)
      ≡ some (clear (victim ∷ ps) ptes, [], victim ∷ ps)
reaches_head ptes victim ps distinct all =
    let circle : List ℕ = victim ∷ ps in
    let off : (clear circle ptes victim).ref ≡ false =
      clear-ref circle ptes victim (ground arith) in
    subst (λ qs. clock_loop (length circle + 2) ptes [] qs ≡ some (clear circle ptes, [], circle))
      (append-nil circle)
      (clock_loop_skips 2 ptes [] circle [] distinct all
        ∙ clock_loop_wraps 1 (clear circle ptes) circle
        ∙ clock_loop_stops 0 (clear circle ptes) [] victim ps off)

-- If some page of the circle was not referred to, then `clock_evict` takes the first such page from
-- the head on; the pages before it lose their reference bits and come last in the circle, and no
-- other page table entry changes. The circle has another page, and no page twice before the victim.
pub clock_evict-second_chance :
    (m : Machine) (front back : List ℕ) (victim : ℕ)
    → m.referlist ≡ front ++ victim ∷ back
    → Distinct front
    → AllReferred m.ptes front
    → (m.ptes victim).ref ≡ false
    → 0 < length front + length back
    → clock_evict m
      ≡ some (
        (m.ptes victim).number,
        record m { ptes = clear front m.ptes; referlist = back ++ front },
      )
unfolding clock_evict
clock_evict-second_chance m front back victim circle distinct all off enough =
    let found : clock_loop (length m.referlist + 2) m.ptes [] m.referlist
        ≡ some (clear front m.ptes, front, victim ∷ back) =
      subst
        (λ ps.
          clock_loop (length ps + 2) m.ptes [] ps ≡ some (clear front m.ptes, front, victim ∷ back))
        (sym circle) (reaches_victim m.ptes front back victim distinct all off) in
    rw (clock_evict, found)
      (unlink_lem (clear front m.ptes) front victim back m enough
        ∙ rw (clear-number front m.ptes victim) refl)

-- If all pages of a circle of two or more were referred to, then `clock_evict` goes round once: all
-- reference bits are cleared, and the page at the head is taken. No page is in the circle twice.
pub clock_evict-full_round :
    (m : Machine) (victim p : ℕ) (ps : List ℕ)
    → m.referlist ≡ victim ∷ p ∷ ps
    → Distinct (victim ∷ p ∷ ps)
    → AllReferred m.ptes (victim ∷ p ∷ ps)
    → clock_evict m
      ≡ some (
        (m.ptes victim).number,
        record m { ptes = clear (victim ∷ p ∷ ps) m.ptes; referlist = p ∷ ps },
      )
unfolding clock_evict
clock_evict-full_round m victim p ps circle distinct all =
    let cleared : ℕ → Pte = clear (victim ∷ p ∷ ps) m.ptes in
    let found : clock_loop (length m.referlist + 2) m.ptes [] m.referlist
        ≡ some (cleared, [], victim ∷ p ∷ ps) =
      subst (λ qs. clock_loop (length qs + 2) m.ptes [] qs ≡ some (cleared, [], victim ∷ p ∷ ps))
        (sym circle) (reaches_head m.ptes victim (p ∷ ps) distinct all) in
    rw (clock_evict, found)
      (unlink_lem cleared [] victim (p ∷ ps) m (omega arith)
        ∙ rw (append-nil, clear-number (victim ∷ p ∷ ps) m.ptes victim) refl)

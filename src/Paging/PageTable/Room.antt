-- ===== src/Paging/PageTable/Room.antt =====
-- The swap space is enough for the pages of a trace: what that says of a state.
use operating_system_unix_li.Base.{
  ℕ, ◌+◌, ◌/◌, ◌^◌, ◌≤◌, ◌<◌, ◌≡◌, refl, Bool, true, false, Option, none, some, List, [], ◌∷◌, inl,
  inr, contains, length, arith, Bool-cases, Option-cases, ◌==◌, ==_iff, if◌then◌else◌,
}
use operating_system_unix_li.Paging.Bitmap.Space.{Tracks, claim}
use operating_system_unix_li.Paging.Machine.{Machine}

-- The number of pages of the swap file that are in use.
abbrev pub occupied : List Bool → ℕ
occupied [] = 0
occupied (b ∷ bs) = (if b then 1 else 0) + occupied bs

abbrev is_some : Option ℕ → Bool
is_some none = false
is_some (some o) = true

-- The page of the entry has space in the swap file.
abbrev pub has_slot : Machine → ℕ → Bool
has_slot m q = if m.pgdir (q / 4096) then is_some (m.ptes q).swap_off else false

-- The number of the pages without.
abbrev pub waiting : (ℕ → Bool) → List ℕ → ℕ
waiting slot [] = 0
waiting slot (q ∷ qs) = (if slot q then 0 else 1) + waiting slot qs

-- The pages in memory are among the given ones, for which there is room in the swap file; `K` says what
-- is left of the trace list.
pub record IsReady (pages : List ℕ) (K : List ℕ → Type 0) (m : Machine) : Type 0 where
  pub used : List Bool
  pub tracks : Tracks used m.swapmap
  pub room : occupied used + waiting (has_slot m) pages ≤ length used
  pub small : length used ≤ 2 ^ 27
  pub listed : (q : ℕ) → (m.ptes q).valid ≡ true → contains q pages ≡ true
  pub slots : (q o : ℕ) → m.pgdir (q / 4096) ≡ true → (m.ptes q).swap_off ≡ some o → o < 2 ^ 31
  pub memory : 0 < length m.coremap
  pub future : K m.curr

pub waiting_mono :
    (slot slot' : ℕ → Bool) (qs : List ℕ)
    → ((q : ℕ) → slot q ≡ true → slot' q ≡ true)
    → waiting slot' qs ≤ waiting slot qs
waiting_mono slot slot' [] more = omega arith
waiting_mono slot slot' (q ∷ qs) more =
    let rest : waiting slot' qs ≤ waiting slot qs = waiting_mono slot slot' qs more in
    elim (Bool-cases (slot q)) [
      | inl e ↦ rw (e, more q e) (omega (arith, rest))
      | inr e ↦ elim (Bool-cases (slot' q)) [
        | inl g ↦ rw (e, g) (omega (arith, rest))
        | inr g ↦ rw (e, g) (omega (arith, rest))
      ]
    ]

pub waiting_drop :
    (slot slot' : ℕ → Bool) (p : ℕ) (qs : List ℕ)
    → ((q : ℕ) → slot q ≡ true → slot' q ≡ true)
    → slot p ≡ false
    → slot' p ≡ true
    → contains p qs ≡ true
    → waiting slot' qs + 1 ≤ waiting slot qs
waiting_drop slot slot' p [] more off on at = cc at
waiting_drop slot slot' p (q ∷ qs) more off on at = elim (Bool-cases (q == p)) [
  | inl here ↦
      let same : q ≡ p = (==_iff q p).0 here in
      let rest : waiting slot' qs ≤ waiting slot qs = waiting_mono slot slot' qs more in
      rw (same, off, on) (omega (arith, rest))
  | inr differ ↦
      let rest : waiting slot' qs + 1 ≤ waiting slot qs =
        waiting_drop slot slot' p qs more off on (rw differ at at) in
      elim (Bool-cases (slot q)) [
        | inl e ↦ rw (e, more q e) (omega (arith, rest))
        | inr e ↦ elim (Bool-cases (slot' q)) [
          | inl g ↦ rw (e, g) (omega (arith, rest))
          | inr g ↦ rw (e, g) (omega (arith, rest))
        ]
      ]
]

pub claim-occupied :
    (used : List Bool) (i : ℕ) (used' : List Bool)
    → claim used ≡ some (i, used')
    → (i < length used) × (length used' ≡ length used) × (occupied used' ≡ occupied used + 1)
unfolding claim
claim-occupied [] i used' h = cc h
claim-occupied (true ∷ bs) i used' h = elim (Option-cases (claim bs)) [
  | inl e ↦ cc (rw e at h)
  | inr ((j, cs), e) ↦
      let (inside, len, more) = claim-occupied bs j cs e in ground (arith, h, e, inside, len, more)
]
claim-occupied (false ∷ bs) i used' h = ground (arith, h)

pub claim-room : (used : List Bool) → claim used ≡ none → occupied used ≡ length used
unfolding claim
claim-room [] h = refl
claim-room (true ∷ bs) h = elim (Option-cases (claim bs)) [
  | inl e ↦ ground (arith, claim-room bs e)
  | inr ((j, cs), e) ↦ cc (rw e at h)
]
claim-room (false ∷ bs) h = cc h

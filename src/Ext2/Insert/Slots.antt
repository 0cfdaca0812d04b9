-- ===== src/Ext2/Insert/Slots.antt =====
-- The block in which the search for space ends.
use operating_system_unix_li.Base.{
  ℕ, suc, ◌+◌, ◌*◌, ◌≡◌, refl, sym, ap, ◌∙◌, subst, true, some, List, [], ◌∷◌, inl, inr, get_elem?,
  arith, Option-cases, Bool-cases,
}
use operating_system_unix_li.Ext2.Image.{Entry}
use operating_system_unix_li.Ext2.Insert.{Slot, place, no_place, off}
use operating_system_unix_li.Ext2.Insert.Places.{last_at, spare, slot_of, slot_in}

same_slot : (a b : ℕ) (x y : Entry) → place a x ≡ place b y → (a ≡ b) × (x ≡ y)
same_slot a b x y h =
    let of : Slot → ℕ × Entry =
      λ s. elim s [ place i e ↦ (i, e) | no_place ↦ (a, x) | off ↦ (a, x) ] in
    (ap (λ s. (of s).0) h, ap (λ s. (of s).1) h)

module _ (need : ℕ) (blocks : ℕ → ℕ) (a : ℕ) (e : Entry) where
  abbrev pub IsSlot : List (List Entry) → ℕ → Type 0
  IsSlot ess k =
      (j : ℕ) × (es : List Entry) × (get_elem? ess j ≡ some es)
      × (last_at (1024 * blocks (k + j)) es ≡ some (a, e))
      × (spare need e ≡ true)

  module _ (x : List Entry) (ess : List (List Entry)) (k : ℕ) where
    slot_later :
        slot_of need (last_at (1024 * blocks k) x) ≡ no_place
        → slot_in need blocks k (x ∷ ess) ≡ slot_in need blocks (suc k) ess
    slot_later h = rw (slot_in, h) refl

    slot_here :
        (b : ℕ) (y : Entry)
        → slot_of need (last_at (1024 * blocks k) x) ≡ place b y
        → slot_in need blocks k (x ∷ ess) ≡ place b y
    slot_here b y h = rw (slot_in, h) refl

    IsSlot-later : IsSlot ess (suc k) → IsSlot (x ∷ ess) k
    IsSlot-later (j, es, at, ends, room) =
        let same : suc k + j ≡ k + suc j = omega arith in
        (suc j, es, at, subst (λ i. last_at (1024 * blocks i) es ≡ some (a, e)) same ends, room)

  pub slot_in-IsSlot :
      (ess : List (List Entry)) (k : ℕ) → slot_in need blocks k ess ≡ place a e → IsSlot ess k
  slot_in-IsSlot [] k h = cc
  slot_in-IsSlot (x ∷ ess) k h = elim (Option-cases (last_at (1024 * blocks k) x)) [
    | inl none' ↦
        let later : slot_of need (last_at (1024 * blocks k) x) ≡ no_place =
          ap (slot_of need) none' in
        IsSlot-later x ess k (slot_in-IsSlot ess (suc k) (sym (slot_later x ess k later) ∙ h))
    | inr ((b, y), some') ↦ elim (Bool-cases (spare need y)) [
      | inl room ↦
          let here : slot_of need (last_at (1024 * blocks k) x) ≡ place b y =
            ap (slot_of need) some' ∙ rw (slot_of, room) refl in
          let (at, same) = same_slot b a y e (sym (slot_here x ess k b y here) ∙ h) in
          let zero_at : k ≡ k + 0 = omega arith in
          (
            0,
            x,
            refl,
            subst (λ i. last_at (1024 * blocks i) x ≡ some (a, e)) zero_at
                (some' ∙ ap (λ i. some (i, y)) at ∙ ap (λ z. some (a, z)) same),
            ap (spare need) (sym same) ∙ room,
          )
      | inr full ↦
          let later : slot_of need (last_at (1024 * blocks k) x) ≡ no_place =
            ap (slot_of need) some' ∙ rw (slot_of, full) refl in
          IsSlot-later x ess k (slot_in-IsSlot ess (suc k) (sym (slot_later x ess k later) ∙ h))
    ]
  ]

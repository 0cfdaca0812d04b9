-- ===== src/Ext2/Insert/Places.antt =====
-- The search for space against the last entry of a block.
use operating_system_unix_li.Base.{
  ℕ, zero, suc, ◌+◌, ◌-◌, ◌*◌, ◌%◌, ◌^◌, ◌<◌, ◌≤◌, ◌≡◌, refl, ap, ◌∙◌, Bool, true, false, not,
  Option, none, some, List, [], ◌∷◌, ◌==◌, ltb, lt→ltb, if◌then◌else◌, length, arith,
}
use operating_system_unix_li.Ext2.Image.{Entry, ext2_dir_rec_len}
use operating_system_unix_li.Ext2.Directory.Layout.{IsBlock, IsDir, at_end, not_at_end}
use operating_system_unix_li.Ext2.Insert.{Slot, place, no_place, off, find_place, find_place_in}

-- The last entry of a block, with its address.
abbrev pub last_at : ℕ → List Entry → Option (ℕ × Entry)
last_at addr [] = none
last_at addr (e ∷ []) = some (addr, e)
last_at addr (e ∷ e2 ∷ es) = last_at (addr + e.rec_len) (e2 ∷ es)

-- Behind the name of an entry there are `need` bytes that it does not use.
abbrev pub spare : ℕ → Entry → Bool
spare need e = not (ltb e.rec_len (need + ext2_dir_rec_len e.name_len))

abbrev pub slot_of : ℕ → Option (ℕ × Entry) → Slot
slot_of need none = no_place
slot_of need (some (addr, e)) = if spare need e then place addr e else no_place

-- The first block whose last entry has room.
abbrev pub slot_in : ℕ → (ℕ → ℕ) → ℕ → List (List Entry) → Slot
slot_in need blocks i [] = no_place
slot_in need blocks i (es ∷ ess) = elim (slot_of need (last_at (1024 * blocks i) es)) [
  | place addr e ↦ place addr e
  | no_place ↦ slot_in need blocks (suc i) ess
  | off ↦ off
]

module _ (need : ℕ) (entries : ℕ → Entry) where
  find_end :
      (rounds addr size : ℕ) → 1024 ≤ size → find_place need entries rounds addr size ≡ no_place
  unfolding find_place
  find_end zero addr size h = ground arith
  find_end (suc rounds) addr size h = ground arith

  module _ (rounds addr size : ℕ) (e : Entry) (more : size < 1024) (mapped : addr < 2 ^ 17)
      (there : entries addr ≡ e) where
    find_inside :
        ((size + e.rec_len) % 1024 == 0) ≡ false
        → find_place need entries (suc rounds) addr size
          ≡ find_place need entries rounds (addr + e.rec_len) (size + e.rec_len)
    unfolding find_place
    find_inside inside =
        simp (lt→ltb size 1024 more, lt→ltb addr (2 ^ 17) mapped, there, inside) refl

    find_last :
        ((size + e.rec_len) % 1024 == 0) ≡ true
        → 1024 ≤ size + e.rec_len
        → find_place need entries (suc rounds) addr size ≡ slot_of need (some (addr, e))
    unfolding find_place
    find_last over full =
        simp
          (
            lt→ltb size 1024 more,
            lt→ltb addr (2 ^ 17) mapped,
            there,
            over,
            find_end rounds (addr + e.rec_len) (size + e.rec_len) full,
          )
          refl

  find_place-last_at :
      (es : List Entry) (rounds addr left size : ℕ)
      → 0 < left
      → size + left ≡ 1024
      → left ≤ rounds
      → addr + left ≤ 2 ^ 17
      → IsBlock entries addr left es
      → find_place need entries rounds addr size ≡ slot_of need (last_at addr es)
  find_place-last_at [] rounds addr left size pos all enough inside b = absurd (omega (arith, b))
  find_place-last_at (e ∷ es) zero addr left size pos all enough inside b = absurd (omega arith)
  find_place-last_at (e ∷ []) (suc rounds) addr left size pos all enough inside
        (there, long, fits, b) =
      find_last rounds addr size e (omega arith) (omega arith) there
        (at_end (size + e.rec_len) 1 (omega (arith, b))) (omega (arith, b))
  find_place-last_at (e ∷ e2 ∷ es) (suc rounds) addr left size pos all enough inside
        (there, long, fits, b) =
      find_inside rounds addr size e (omega arith) (omega arith) there
        (not_at_end (size + e.rec_len) 0 (omega arith) (omega (arith, b.1, b.2)))
      ∙ find_place-last_at (e2 ∷ es) rounds (addr + e.rec_len) (left - e.rec_len) (size + e.rec_len)
          (omega (arith, b.1, b.2)) (omega arith) (omega arith) (omega arith) b

  none_in : (blocks : ℕ → ℕ) (i : ℕ) → find_place_in need entries blocks 0 i ≡ no_place
  unfolding find_place_in
  none_in blocks i = refl

  slots :
      (blocks : ℕ → ℕ) (es : List Entry) (ess : List (List Entry)) (i : ℕ)
      → find_place need entries 1024 (1024 * blocks i) 0
        ≡ slot_of need (last_at (1024 * blocks i) es)
      → find_place_in need entries blocks (length ess) (i + 1) ≡ slot_in need blocks (suc i) ess
      → find_place_in need entries blocks (suc (length ess)) i ≡ slot_in need blocks i (es ∷ ess)
  unfolding find_place_in
  slots blocks es ess i first rest =
      rw (find_place_in, first)
        (ap
          (λ r. elim (slot_of need (last_at (1024 * blocks i) es)) as (λ x. Slot) [
            | place addr e ↦ place addr e
            | no_place ↦ r
            | off ↦ off
          ])
          rest)

  -- In a directory whose entries fill its blocks, the search for space ends, at the last entry of the first
  -- block in which the last entry has `need` bytes to spare behind its name, or without a place if no
  -- block has.
  pub find_place_in-slot_in :
      (blocks : ℕ → ℕ) (i : ℕ) (ess : List (List Entry))
      → IsDir entries blocks i ess
      → find_place_in need entries blocks (length ess) i ≡ slot_in need blocks i ess
  find_place_in-slot_in blocks i [] dir = none_in blocks i
  find_place_in-slot_in blocks i (es ∷ ess) (on_disk, b, bs) =
      let next : i + 1 ≡ suc i = omega arith in
      slots blocks es ess i
        (find_place-last_at es 1024 (1024 * blocks i) 1024 0 (omega arith) (omega arith)
          (omega arith) (omega (arith, on_disk)) b)
        (ap (find_place_in need entries blocks (length ess)) next
          ∙ find_place_in-slot_in blocks (suc i) ess bs)

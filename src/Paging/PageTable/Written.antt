-- ===== src/Paging/PageTable/Written.antt =====
-- pagetable.c, the victim of `allocate_frame` when the swap file has room for it.
use operating_system_unix_li.Base.{
  ℕ, ◌+◌, ◌*◌, ◌/◌, ◌%◌, ◌^◌, ◌≤◌, ◌<◌, ◌≡◌, refl, sym, ap, subst, ◌∙◌, Bool, true, false, not,
  Option, none, some, List, ◌∷◌, ◌⊎◌, inl, inr, length, get_elem?, update_same, update-update,
  arith, Bool-cases, lt→ltb,
}
use operating_system_unix_li.Paging.Bitmap.{Bitmap}
use operating_system_unix_li.Paging.Bitmap.Space.{Tracks, bitmap_alloc-claims}
use operating_system_unix_li.Paging.Machine.{
  Frame, Page, Counters, Machine, ◌>>=◌, get_pte, set_pte, get_frame, count,
}
use operating_system_unix_li.Paging.Swap.{Disk, swap_slot, write_slot, swap_pageout}
use operating_system_unix_li.Paging.PageTable.{write_back, turn_out}
use operating_system_unix_li.Paging.PageTable.Allocate.{
  turned, swapped, invalid, rest, bind_some, turn_out_dirty,
}
use operating_system_unix_li.Paging.PageTable.Room.{occupied, claim-occupied, claim-room}

-- Every write to the swap file succeeds.
abbrev pub Writes : Disk → Type 0
Writes disk = (offset : ℕ) → disk.write_ok offset ≡ true

-- The pages of the swap file that an entry with this offset still needs.
abbrev pub needs : Option ℕ → ℕ
needs none = 1
needs (some o) = 0

-- The offset `o` is an `int` that is not negative, and the space for it is taken.
pub record Slotted (s : Option ℕ) (o : ℕ) (used used' : List Bool) (b : Bitmap) : Type 0 where
  pub tracks : Tracks used' b
  pub low : o < 2 ^ 31
  pub len : length used' ≡ length used
  pub more : occupied used' ≡ occupied used + needs s

-- There is room for an entry with this offset.
pub record HasRoom (s : Option ℕ) (used : List Bool) (b : Bitmap) : Type 0 where
  pub tracks : Tracks used b
  pub room : occupied used + needs s ≤ length used
  pub small : length used ≤ 2 ^ 27
  pub low : (o : ℕ) → s ≡ some o → o < 2 ^ 31

swap_slot_room :
    (used : List Bool) (m : Machine) (s : Option ℕ)
    → HasRoom s used m.swapmap
    → (o : ℕ) × (b : Bitmap) × (used' : List Bool) × (swap_slot s m
        ≡ some (some o, record m { swapmap = b }))
      × Slotted s o used used' b
unfolding swap_slot
swap_slot_room used m (some o) h = (
  o,
  m.swapmap,
  used,
  refl,
  record { tracks = h.tracks; low = h.low o refl; len = refl; more = omega arith },
)
swap_slot_room used m none h = elim (bitmap_alloc-claims used m.swapmap h.tracks) [
  | inl (full, out) ↦ absurd (omega (arith, claim-room used full, h.room))
  | inr (i, used', b, first, out, t') ↦
      let (inside, len, more) = claim-occupied used i used' first in
      let low : i * 16 < 2 ^ 31 = omega (arith, inside, h.small) in
      (
        i * 16 % 2 ^ 32,
        b,
        used',
        rw (swap_slot, out) refl,
        record { tracks = t'; low = omega (arith, low); len = len; more = more },
      )
]

swap_pageout_room :
    (disk : Disk) (frame : ℕ) (s : Option ℕ) (used : List Bool) (m : Machine)
    → Writes disk
    → frame < length m.coremap
    → HasRoom s used m.swapmap
    → (o : ℕ) × (b : Bitmap) × (file : List (ℕ × Page)) × (used' : List Bool) × (swap_pageout disk
          frame s m
        ≡ some (some o, swapped b file m))
      × Slotted s o used used' b
unfolding swap_pageout write_slot
swap_pageout_room disk frame s used m writes inside h =
    let (o, b, used', out, slotted) = swap_slot_room used m s h in
    (
      o,
      b,
      (o, m.physmem frame) ∷ m.swapfile,
      used',
      simp
          (
            swap_pageout,
            ◌>>=◌,
            out,
            write_slot,
            lt→ltb frame (length m.coremap) inside,
            lt→ltb o (2 ^ 31) slotted.low,
            writes o,
          )
          refl,
      slotted,
    )

write_back_room :
    (disk : Disk) (frame q : ℕ) (used : List Bool) (m : Machine)
    → Writes disk
    → frame < length m.coremap
    → HasRoom (m.ptes q).swap_off used m.swapmap
    → (o : ℕ) × (b : Bitmap) × (file : List (ℕ × Page)) × (c : Counters) × (used' : List Bool)
      × (write_back disk frame q m
          ≡ some (
            true,
            turned q
                (record (m.ptes q) { dirty = not (m.ptes q).dirty; swap_off = some o })
                b
                file
                c
                m,
          ))
      × Slotted (m.ptes q).swap_off o used used' b
unfolding write_back get_pte set_pte count
write_back_room disk frame q used m writes inside h =
    let (o, b, file, used', out, slotted) =
      swap_pageout_room disk (frame / 4096) (m.ptes q).swap_off used m writes
        (omega (arith, inside)) h in
    (
      o,
      b,
      file,
      record m.counters { evict_dirty_count = m.counters.evict_dirty_count + 1 },
      used',
      simp (write_back, ◌>>=◌, get_pte, out, set_pte, count, update_same, update-update) refl,
      slotted,
    )

-- The entry keeps its offset and the swap space is as before, or it has one now.
abbrev pub SlotAfter : Option ℕ → Option ℕ → List Bool → List Bool → Bitmap → Type 0
SlotAfter s s' used used' b =
    ((s' ≡ s) × (used' ≡ used) × Tracks used' b)
    ⊎ ((o : ℕ) × (s' ≡ some o) × Slotted s o used used' b)

turn_out_written :
    (disk : Disk) (i : ℕ) (f : Frame) (m : Machine) (d : Bool) (s : Option ℕ) (b : Bitmap)
    (file : List (ℕ × Page)) (c : Counters)
    → get_elem? m.coremap i ≡ some f
    → (m.ptes f.pte).valid ≡ true
    → (m.ptes f.pte).dirty ≡ true
    → write_back disk i f.pte (invalid f.pte m)
      ≡ some (
        true,
        turned f.pte
            (record ((invalid f.pte m).ptes f.pte) { dirty = d; swap_off = s })
            b
            file
            c
            (invalid f.pte m),
      )
    → turn_out disk i m
      ≡ some (
        some (m.ptes f.pte).number,
        turned f.pte (record (m.ptes f.pte) { valid = false; dirty = d; swap_off = s }) b file c m,
      )
unfolding get_pte
turn_out_written disk i f m d s b file c at valid e out =
    turn_out_dirty disk i f m at e
    ∙ bind_some (write_back disk i f.pte) (rest f.pte) (invalid f.pte m)
        (turned f.pte (record ((invalid f.pte m).ptes f.pte) { dirty = d; swap_off = s }) b file c
          (invalid f.pte m))
        true out
    ∙ simp (update_same, update-update, valid) refl

pub turn_out_room :
    (disk : Disk) (i : ℕ) (f : Frame) (used : List Bool) (m : Machine)
    → Writes disk
    → get_elem? m.coremap i ≡ some f
    → i < length m.coremap
    → (m.ptes f.pte).valid ≡ true
    → HasRoom (m.ptes f.pte).swap_off used m.swapmap
    → (d : Bool) × (s : Option ℕ) × (b : Bitmap) × (file : List (ℕ × Page)) × (c : Counters)
      × (used' : List Bool) × (turn_out disk i m
          ≡ some (
            some (m.ptes f.pte).number,
            turned f.pte
                (record (m.ptes f.pte) { valid = false; dirty = d; swap_off = s })
                b
                file
                c
                m,
          ))
      × SlotAfter (m.ptes f.pte).swap_off s used used' b
unfolding turn_out get_pte set_pte get_frame count
turn_out_room disk i f used m writes at inside valid h = elim (Bool-cases (m.ptes f.pte).dirty) [
  | inl e ↦
      let same : ((invalid f.pte m).ptes f.pte).swap_off ≡ (m.ptes f.pte).swap_off =
        ap (λ k. k.swap_off) (update_same m.ptes f.pte _) in
      let (o, b, file, c, used', out, slotted) =
        write_back_room disk i f.pte used (invalid f.pte m) writes inside
          (subst (λ k. HasRoom k used m.swapmap) (sym same) h) in
      (
        not ((invalid f.pte m).ptes f.pte).dirty,
        some o,
        b,
        file,
        c,
        used',
        turn_out_written disk i f m (not ((invalid f.pte m).ptes f.pte).dirty) (some o) b file c at
            valid e out,
        inr (o, refl, subst (λ k. Slotted k o used used' b) same slotted),
      )
  | inr e ↦ (
    false,
    (m.ptes f.pte).swap_off,
    m.swapmap,
    m.swapfile,
    record m.counters { evict_clean_count = m.counters.evict_clean_count + 1 },
    used,
    simp (turn_out, ◌>>=◌, get_frame, at, set_pte, get_pte, count, update_same, valid, e) refl,
    inl (refl, refl, h.tracks),
  )
]

-- ===== src/Paging/PageTable/Allocate.antt =====
-- pagetable.c, `allocate_frame`: a frame is always found, and page table and coremap still agree.
use operating_system_unix_li.Base.{
  ℕ, zero, suc, ◌+◌, ◌*◌, ◌/◌, ◌%◌, ◌^◌, ◌<◌, ◌≡◌, refl, sym, ap, ◌∙◌, Bool, true, false, not,
  Option, none, some, List, [], ◌∷◌, inl, inr, ◌&&◌, ltb, lt→ltb, if◌then◌else◌, length, get_elem?,
  update, update_same, update-update, arith, Bool-cases, Option-cases,
}
use operating_system_unix_li.Paging.Bitmap.{Bitmap}
use operating_system_unix_li.Paging.Bitmap.Space.{Tracks, bitmap_alloc-claims}
use operating_system_unix_li.Paging.Machine.{
  Pte, Frame, Page, Counters, Machine, M, ◌>>=◌, ret, get_pte, set_pte, get_frame, set_frame, count,
}
use operating_system_unix_li.Paging.Swap.{Disk, swap_slot, write_slot, swap_pageout}
use operating_system_unix_li.Paging.PageTable.{
  Policy, first_free, install, write_back, turn_out, allocate_frame,
}
use operating_system_unix_li.Paging.PageTable.Invariant.{installed}

-- What a write to the swap file changes.
abbrev pub swapped : Bitmap → List (ℕ × Page) → Machine → Machine
swapped b file m = record m { swapmap = b; swapfile = file }

write_slot_total :
    (disk : Disk) (frame offset : ℕ) (m : Machine)
    → frame < length m.coremap
    → (r : Option ℕ) × (file : List (ℕ × Page)) × (write_slot disk frame offset m
        ≡ some (r, record m { swapfile = file }))
unfolding write_slot
write_slot_total disk frame offset m inside =
    elim (Bool-cases (ltb offset (2 ^ 31) && disk.write_ok offset)) [
      | inl e ↦ (
        some offset,
        (offset, m.physmem frame) ∷ m.swapfile,
        rw (lt→ltb frame (length m.coremap) inside, e) refl,
      )
      | inr e ↦ (none, m.swapfile, rw (lt→ltb frame (length m.coremap) inside, e) refl)
    ]

swap_slot_total :
    (used : List Bool) (m : Machine) (offset : Option ℕ)
    → Tracks used m.swapmap
    → (r : Option ℕ) × (b : Bitmap) × (used' : List Bool) × (swap_slot offset m
        ≡ some (r, record m { swapmap = b }))
      × Tracks used' b
unfolding swap_slot
swap_slot_total used m (some offset) t = (some offset, m.swapmap, used, refl, t)
swap_slot_total used m none t = elim (bitmap_alloc-claims used m.swapmap t) [
  | inl (full, out) ↦ (none, m.swapmap, used, rw (swap_slot, out) refl, t)
  | inr (i, used', b, first, out, t') ↦
      (some (i * 16 % 2 ^ 32), b, used', rw (swap_slot, out) refl, t')
]

swap_pageout_total :
    (disk : Disk) (frame : ℕ) (offset : Option ℕ) (used : List Bool) (m : Machine)
    → frame < length m.coremap
    → Tracks used m.swapmap
    → (r : Option ℕ) × (b : Bitmap) × (file : List (ℕ × Page)) × (used' : List Bool) × (swap_pageout
          disk frame offset m
        ≡ some (r, swapped b file m))
      × Tracks used' b
unfolding swap_pageout
swap_pageout_total disk frame offset used m inside t =
    let (slot, b, used', out, t') = swap_slot_total used m offset t in
    elim (Option-cases slot) [
      | inl e ↦ (none, b, m.swapfile, used', simp (swap_pageout, ◌>>=◌, out, e) refl, t')
      | inr (o, e) ↦
          let (r, file, wrote) = write_slot_total disk frame o (record m { swapmap = b }) inside in
          (r, b, file, used', simp (swap_pageout, ◌>>=◌, out, e) wrote, t')
    ]

pub first_free_found :
    (k i : ℕ) (fs : List Frame)
    → first_free k fs ≡ some i
    → (j : ℕ) × (f : Frame) × (i ≡ k + j) × (get_elem? fs j ≡ some f) × (f.in_use ≡ false)
unfolding first_free
first_free_found k i [] h = cc
first_free_found k i (f ∷ fs) h = elim (Bool-cases f.in_use) [
  | inl e ↦
      let (j, g, same, at, free) = first_free_found (k + 1) i fs (rw e at h) in
      (suc j, g, omega arith, at, free)
  | inr e ↦ (0, f, ground arith, refl, e)
]

pub first_free_full :
    (k : ℕ) (fs : List Frame) (j : ℕ) (f : Frame)
    → first_free k fs ≡ none
    → get_elem? fs j ≡ some f
    → f.in_use ≡ true
unfolding first_free
first_free_full k [] j f h at = cc
first_free_full k (g ∷ fs) zero f h at = ground arith
first_free_full k (g ∷ fs) (suc j) f h at = first_free_full (k + 1) fs j f (ground arith) at

-- The state after a page has left: its entry is `e`, and the swap space and the counters may differ.
abbrev pub turned : ℕ → Pte → Bitmap → List (ℕ × Page) → Counters → Machine → Machine
turned q e b file c m = record m {
  ptes = update m.ptes q e;
  swapmap = b;
  swapfile = file;
  counters = c;
}

-- `write_back` ends, and only the entry, the swap space and the counters change.
write_back_total :
    (disk : Disk) (frame q : ℕ) (used : List Bool) (m : Machine)
    → frame < length m.coremap
    → Tracks used m.swapmap
    → (r : Bool) × (d : Bool) × (o : Option ℕ) × (b : Bitmap) × (file : List (ℕ × Page))
      × (c : Counters) × (used' : List Bool) × (write_back disk frame q m
          ≡ some (r, turned q (record (m.ptes q) { dirty = d; swap_off = o }) b file c m))
      × Tracks used' b
      × (r ≡ false
          → (m2 : Machine) × (swap_pageout disk (frame / 4096) (m.ptes q).swap_off m
              ≡ some (none, m2)))
unfolding write_back get_pte set_pte count
write_back_total disk frame q used m inside t =
    let (r, b, file, used', out, t') =
      swap_pageout_total disk (frame / 4096) (m.ptes q).swap_off used m (omega (arith, inside)) t in
    elim (Option-cases r) [
      | inl e ↦ (
        false,
        (m.ptes q).dirty,
        none,
        b,
        file,
        m.counters,
        used',
        simp (write_back, ◌>>=◌, get_pte, out, e, set_pte) refl,
        t',
        λ is. (swapped b file m, out ∙ ap (λ k. some (k, swapped b file m)) e),
      )
      | inr (o, e) ↦ (
        true,
        not (m.ptes q).dirty,
        some o,
        b,
        file,
        record m.counters { evict_dirty_count = m.counters.evict_dirty_count + 1 },
        used',
        simp (write_back, ◌>>=◌, get_pte, out, e, set_pte, count, update_same, update-update) refl,
        t',
        λ is. cc is,
      )
    ]

pub bind_some :
    {A B : Type 0} (x : M A) (k : A → M B) (m m' : Machine) (a : A)
    → x m ≡ some (a, m')
    → (x >>= k) m ≡ k a m'
bind_some x k m m' a h = simp (◌>>=◌, h) refl

-- The entry loses PG_VALID.
abbrev pub invalid : ℕ → Machine → Machine
invalid q m = record m {
  ptes = update m.ptes q (record (m.ptes q) { valid = not (m.ptes q).valid });
}

abbrev pub rest : ℕ → Bool → M (Option ℕ)
rest q written = get_pte q >>= λ e. ret (if written then some e.number else none)

pub turn_out_dirty :
    (disk : Disk) (i : ℕ) (f : Frame) (m : Machine)
    → get_elem? m.coremap i ≡ some f
    → (m.ptes f.pte).dirty ≡ true
    → turn_out disk i m ≡ (write_back disk i f.pte >>= rest f.pte) (invalid f.pte m)
unfolding turn_out get_pte set_pte get_frame
turn_out_dirty disk i f m at e =
    simp (turn_out, ◌>>=◌, get_frame, at, set_pte, get_pte, update_same, e) refl

-- The victim is dirty, and `swap_pageout` has failed for it.
abbrev pub Failed : Disk → ℕ → ℕ → Machine → Type 0
Failed disk i q m =
    ((m.ptes q).dirty ≡ true)
    × ((m2 : Machine) × (swap_pageout disk (i / 4096) (m.ptes q).swap_off (invalid q m)
          ≡ some (none, m2)))

-- What `turn_out` does with the frame `i`: the result is the frame unless the page could not be written,
-- and then, too, the entry is no more valid.
pub turn_out_total :
    (disk : Disk) (i : ℕ) (f : Frame) (used : List Bool) (m : Machine)
    → get_elem? m.coremap i ≡ some f
    → i < length m.coremap
    → (m.ptes f.pte).valid ≡ true
    → Tracks used m.swapmap
    → (r : Bool) × (d : Bool) × (o : Option ℕ) × (b : Bitmap) × (file : List (ℕ × Page))
      × (c : Counters) × (used' : List Bool) × (turn_out disk i m
          ≡ some (
            if r then some (m.ptes f.pte).number else none,
            turned f.pte
                (record (m.ptes f.pte) { valid = false; dirty = d; swap_off = o })
                b
                file
                c
                m,
          ))
      × Tracks used' b
      × (r ≡ false → Failed disk i f.pte m)
unfolding turn_out get_pte set_pte get_frame count
turn_out_total disk i f used m at inside valid t = elim (Bool-cases (m.ptes f.pte).dirty) [
  | inl e ↦
      let (r, d, o, b, file, c, used', out, t', failed) =
        write_back_total disk i f.pte used (invalid f.pte m) inside t in
      (
        r,
        d,
        o,
        b,
        file,
        c,
        used',
        turn_out_dirty disk i f m at e
            ∙ bind_some (write_back disk i f.pte) (rest f.pte) (invalid f.pte m)
                (turned f.pte (record ((invalid f.pte m).ptes f.pte) { dirty = d; swap_off = o }) b
                  file c (invalid f.pte m))
                r out
            ∙ simp (update_same, update-update, valid) refl,
        t',
        λ is.
            let (m2, wrong) = failed is in
            (
              e,
              (
                m2,
                ap (λ o'. swap_pageout disk (i / 4096) o' (invalid f.pte m))
                      (sym (
                        ap (λ x. x.swap_off)
                          (update_same m.ptes f.pte
                            (record (m.ptes f.pte) { valid = not (m.ptes f.pte).valid }))))
                    ∙ wrong,
              ),
            ),
      )
  | inr e ↦ (
    true,
    false,
    (m.ptes f.pte).swap_off,
    m.swapmap,
    m.swapfile,
    record m.counters { evict_clean_count = m.counters.evict_clean_count + 1 },
    used,
    simp (turn_out, ◌>>=◌, get_frame, at, set_pte, get_pte, count, update_same, valid, e) refl,
    t,
    λ is. cc is,
  )
]

abbrev pub fresh_frame : ℕ → Frame
fresh_frame p = record { in_use = true; pte = p; distance = 0; vaddr = 0 }

abbrev pub fresh_pte : ℕ → Pte → Pte
fresh_pte i e = record {
  number = i;
  valid = true;
  dirty = false;
  ref = false;
  onswap = false;
  swap_off = e.swap_off;
}

install_lem :
    (i p : ℕ) (f : Frame) (m : Machine)
    → get_elem? m.coremap i ≡ some f
    → install i p m ≡ some (tt, installed m i p (fresh_frame p) (fresh_pte i (m.ptes p)))
unfolding install set_frame set_pte
install_lem i p f m at = simp (install, ◌>>=◌, set_frame, at, set_pte) refl

module _ (policy : Policy) (disk : Disk) (p : ℕ) (m : Machine) where
  pub allocate_free :
      (i : ℕ) (f : Frame)
      → first_free 0 m.coremap ≡ some i
      → get_elem? m.coremap i ≡ some f
      → allocate_frame policy disk p m
        ≡ some (some i, installed m i p (fresh_frame p) (fresh_pte i (m.ptes p)))
  unfolding allocate_frame
  allocate_free i f free at = simp (allocate_frame, free, ◌>>=◌, install_lem i p f m at) refl

  pub allocate_stuck :
      (i : ℕ) (m1 m2 : Machine)
      → first_free 0 m.coremap ≡ none
      → policy.evict_fcn m ≡ some (i, m1)
      → turn_out disk i m1 ≡ some (none, m2)
      → allocate_frame policy disk p m ≡ some (none, m2)
  unfolding allocate_frame
  allocate_stuck i m1 m2 full picked out = simp (allocate_frame, full, ◌>>=◌, picked, out) refl

  pub allocate_evicts :
      (i : ℕ) (f : Frame) (m1 m2 : Machine)
      → first_free 0 m.coremap ≡ none
      → policy.evict_fcn m ≡ some (i, m1)
      → turn_out disk i m1 ≡ some (some i, m2)
      → get_elem? m2.coremap i ≡ some f
      → allocate_frame policy disk p m
        ≡ some (some i, installed m2 i p (fresh_frame p) (fresh_pte i (m2.ptes p)))
  unfolding allocate_frame
  allocate_evicts i f m1 m2 full picked out at =
      simp (allocate_frame, full, ◌>>=◌, picked, out, install_lem i p f m2 at) refl

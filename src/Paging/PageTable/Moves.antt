-- ===== src/Paging/PageTable/Moves.antt =====
-- How far pagetable.c and sim.c move the counters, put together as the code is.
use operating_system_unix_li.Base.{
  ℕ, ◌+◌, ◌*◌, ◌%◌, ◌^◌, ◌≡◌, refl, ap, ◌∙◌, Bool, true, false, Option, none, some, ◌&&◌, ltb,
  if◌then◌else◌, length, get_elem?, update, arith,
}
use operating_system_unix_li.Paging.Bitmap.{Alloc, Bitmap, no_space, allocated, bitmap_alloc}
use operating_system_unix_li.Paging.Machine.{
  Pte, Frame, Page, Counters, Machine, M, ◌>>=◌, ret, get_pte, set_pte, get_frame, set_frame, count,
}
use operating_system_unix_li.Paging.Swap.{Disk, swap_slot, write_slot, swap_pageout, swap_pagein}
use operating_system_unix_li.Paging.PageTable.{
  init_second_level, get_pgdir, init_frame, get_page, bump_version,
}

abbrev pub accesses : Machine → ℕ
accesses m = m.counters.hit_count + m.counters.miss_count

-- Hits and misses together have gone up by `n` and the references by `r`, if there is a result, and the
-- hits only with them.
abbrev pub Ends : {A : Type 0} → ℕ → ℕ → Machine → Option (A × Machine) → Type 0
Ends n r m none = Unit
Ends n r m (some (a, m1)) =
    (accesses m1 ≡ accesses m + n)
    × (m1.counters.ref_count ≡ m.counters.ref_count + r)
    × (n ≡ 0 → m1.counters.hit_count ≡ m.counters.hit_count)

abbrev pub Moves : {A : Type 0} → ℕ → ℕ → M A → Type 0
Moves n r x = (m : Machine) → Ends n r m (x m)

Ends-later :
    {A : Type 0} (n r n' r' : ℕ) (m m1 : Machine) (o : Option (A × Machine))
    → accesses m1 ≡ accesses m + n
    → m1.counters.ref_count ≡ m.counters.ref_count + r
    → (n ≡ 0 → m1.counters.hit_count ≡ m.counters.hit_count)
    → Ends n' r' m1 o
    → Ends (n + n') (r + r') m o
Ends-later n r n' r' m m1 none h k l e = tt
Ends-later n r n' r' m m1 (some (a, m2)) h k l (e, f, g) =
    (omega arith, omega arith, λ no. g (omega (arith, no)) ∙ l (omega (arith, no)))

pub Ends-bind :
    {A B : Type 0} (n r n' r' : ℕ) (m : Machine) (o : Option (A × Machine)) (f : A → M B)
    → Ends n r m o
    → ((a : A) → Moves n' r' (f a))
    → Ends (n + n') (r + r') m (elim o [ none ↦ none | some (a, m') ↦ f a m' ])
Ends-bind n r n' r' m none f h rest = tt
Ends-bind n r n' r' m (some (a, m1)) f (h, k, l) rest =
    Ends-later n r n' r' m m1 (f a m1) h k l (rest a m1)

pub bind-Moves :
    {A B : Type 0} (n r n' r' : ℕ) (x : M A) (f : A → M B)
    → Moves n r x
    → ((a : A) → Moves n' r' (f a))
    → Moves (n + n') (r + r') (x >>= f)
bind-Moves n r n' r' x f first rest m = Ends-bind n r n' r' m (x m) f (first m) rest

pub if-Moves :
    {A : Type 0} (n r : ℕ) (b : Bool) (x y : M A)
    → Moves n r x
    → Moves n r y
    → Moves n r (if b then x else y)
if-Moves n r true x y hx hy = hx
if-Moves n r false x y hx hy = hy

pub option-Moves :
    {A B : Type 0} (n r : ℕ) (o : Option B) (x : M A) (f : B → M A)
    → Moves n r x
    → ((b : B) → Moves n r (f b))
    → Moves n r (elim o [ none ↦ x | some b ↦ f b ])
option-Moves n r none x f hx hf = hx
option-Moves n r (some b) x f hx hf = hf b

-- The counters are as before.
pub still :
    {A : Type 0} (m m1 : Machine) (a : A) → m1.counters ≡ m.counters → Ends 0 0 m (some (a, m1))
still m m1 a same =
    let h : accesses m1 ≡ accesses m = ap (λ c. c.hit_count + c.miss_count) same in
    let k : m1.counters.ref_count ≡ m.counters.ref_count = ap (λ c. c.ref_count) same in
    (omega (arith, h), omega (arith, k), λ no. ap (λ c. c.hit_count) same)

Ends-if :
    {A : Type 0} (n r : ℕ) (m : Machine) (b : Bool) (x y : Option (A × Machine))
    → Ends n r m x
    → Ends n r m y
    → Ends n r m (if b then x else y)
Ends-if n r m true x y hx hy = hx
Ends-if n r m false x y hx hy = hy

Ends-option :
    {A B : Type 0} (n r : ℕ) (m : Machine) (o : Option B) (f : B → Option (A × Machine))
    → ((b : B) → Ends n r m (f b))
    → Ends n r m (elim o [ none ↦ none | some b ↦ f b ])
Ends-option n r m none f h = tt
Ends-option n r m (some b) f h = h b

pub ret-Moves : {A : Type 0} (a : A) → Moves 0 0 (ret a)
ret-Moves a m = still m m a refl

pub get_pte-Moves : (p : ℕ) → Moves 0 0 (get_pte p)
unfolding get_pte
get_pte-Moves p m = (omega arith, omega arith, λ no. refl)

pub set_pte-Moves : (p : ℕ) (f : Pte → Pte) → Moves 0 0 (set_pte p f)
unfolding set_pte
set_pte-Moves p f m = (omega arith, omega arith, λ no. refl)

pub get_frame-Moves : (i : ℕ) → Moves 0 0 (get_frame i)
unfolding get_frame
get_frame-Moves i m =
    Ends-option 0 0 m (get_elem? m.coremap i) (λ f. some (f, m)) (λ f. still m m f refl)

pub set_frame-Moves : (i : ℕ) (f : Frame → Frame) → Moves 0 0 (set_frame i f)
unfolding set_frame
set_frame-Moves i f m =
    Ends-option 0 0 m (get_elem? m.coremap i) _ (λ g. (omega arith, omega arith, λ no. refl))

pub count-Moves :
    (n r : ℕ) (f : Counters → Counters)
    → ((c : Counters) → (f c).hit_count + (f c).miss_count ≡ c.hit_count + c.miss_count + n)
    → ((c : Counters) → (f c).ref_count ≡ c.ref_count + r)
    → (n ≡ 0 → (c : Counters) → (f c).hit_count ≡ c.hit_count)
    → Moves n r (count f)
unfolding count
count-Moves n r f h k l m = (h m.counters, k m.counters, λ no. l no m.counters)

pub get_pgdir-Moves : (idx : ℕ) → Moves 0 0 (get_pgdir idx)
unfolding get_pgdir
get_pgdir-Moves idx m =
    Ends-if 0 0 m (ltb idx 4096) (some (m.pgdir idx, m)) none (still m m (m.pgdir idx) refl) tt

pub init_second_level-Moves : (gives : Bool) (idx : ℕ) → Moves 0 0 (init_second_level gives idx)
unfolding init_second_level
init_second_level-Moves true idx m = (omega arith, omega arith, λ no. refl)
init_second_level-Moves false idx m = tt

pub init_frame-Moves : (frame vaddr : ℕ) → Moves 0 0 (init_frame frame vaddr)
unfolding init_frame
init_frame-Moves frame vaddr m =
    Ends-if 0 0 m (ltb frame (length m.coremap)) _ none (omega arith, omega arith, λ no. refl) tt

pub get_page-Moves : (frame : ℕ) → Moves 0 0 (get_page frame)
unfolding get_page
get_page-Moves frame m =
    Ends-if 0 0 m (ltb frame (length m.coremap)) (some (m.physmem frame, m)) none
      (still m m (m.physmem frame) refl) tt

pub bump_version-Moves : (frame : ℕ) → Moves 0 0 (bump_version frame)
unfolding bump_version
bump_version-Moves frame m = (omega arith, omega arith, λ no. refl)

slot-Ends :
    (m : Machine) (o : Option (Alloc × Bitmap))
    → Ends 0 0 m (elim o [
      | none ↦ none
      | some (no_space, b) ↦ some (none, record m { swapmap = b })
      | some (allocated idx, b) ↦ some (some (idx * 16 % 2 ^ 32), record m { swapmap = b })
    ])
slot-Ends m none = tt
slot-Ends m (some (no_space, b)) = (omega arith, omega arith, λ no. refl)
slot-Ends m (some (allocated idx, b)) = (omega arith, omega arith, λ no. refl)

swap_slot-Moves : (offset : Option ℕ) → Moves 0 0 (swap_slot offset)
unfolding swap_slot
swap_slot-Moves (some offset) m = still m m (some offset) refl
swap_slot-Moves none m = slot-Ends m (bitmap_alloc m.swapmap)

write_slot-Moves : (disk : Disk) (frame offset : ℕ) → Moves 0 0 (write_slot disk frame offset)
unfolding write_slot
write_slot-Moves disk frame offset m =
    Ends-if 0 0 m (ltb frame (length m.coremap)) _ none
      (Ends-if 0 0 m (ltb offset (2 ^ 31) && disk.write_ok offset) _ (some (none, m))
        (omega arith, omega arith, λ no. refl) (still {A = Option ℕ} m m none refl))
      tt

pub swap_pageout-Moves :
    (disk : Disk) (frame : ℕ) (offset : Option ℕ) → Moves 0 0 (swap_pageout disk frame offset)
unfolding swap_pageout
swap_pageout-Moves disk frame offset =
    bind-Moves 0 0 0 0 (swap_slot offset) _ (swap_slot-Moves offset) (λ slot.
      option-Moves 0 0 slot (ret none) (write_slot disk frame) (ret-Moves {A = Option ℕ} none)
        (write_slot-Moves disk frame))

read-Ends :
    (m : Machine) (frame : ℕ) (o : Option Page)
    → Ends 0 0 m (elim o [
      | none ↦ some (false, m)
      | some page ↦ some (true, record m { physmem = update m.physmem frame page })
    ])
read-Ends m frame none = still m m false refl
read-Ends m frame (some page) = (omega arith, omega arith, λ no. refl)

pub swap_pagein-Moves :
    (disk : Disk) (frame : ℕ) (offset : Option ℕ) → Moves 0 0 (swap_pagein disk frame offset)
unfolding swap_pagein
swap_pagein-Moves disk frame none m = tt
swap_pagein-Moves disk frame (some offset) m =
    Ends-if 0 0 m (ltb frame (length m.coremap)) _ none
      (read-Ends m frame (disk.read_page m.swapfile offset)) tt

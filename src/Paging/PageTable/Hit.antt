-- ===== src/Paging/PageTable/Hit.antt =====
-- pagetable.c, `find_physpage` for a page that is in memory.
use operating_system_unix_li.Base.{
  ℕ, ◌+◌, ◌*◌, ◌/◌, ◌%◌, ◌^◌, ◌<◌, ◌≡◌, refl, sym, ap, ◌∙◌, Bool, true, some, inl, inr, ◌==◌,
  ==_iff, if◌then◌else◌, ltb, lt→ltb, get_elem?, set, get-set_same, get-set_ne, update, update_same,
  update_ne, update-update, arith, Bool-cases,
}
use operating_system_unix_li.Paging.Machine.{
  Pte, Frame, Counters, Machine, ◌>>=◌, get_pte, set_pte, set_frame, count,
}
use operating_system_unix_li.Paging.Swap.{Disk}
use operating_system_unix_li.Paging.PageTable.{Policy, writes, touch, get_pgdir, find_physpage}
use operating_system_unix_li.Paging.PageTable.Invariant.{
  IsCoherent, SameShape, IsCoherent-SameShape,
}
use operating_system_unix_li.Paging.PageTable.Coherence.{
  common, same_pte, IsCoherent-common, Allocated,
}

-- The entry as an access of the type leaves it.
abbrev pub marked : ℕ → Pte → Pte
marked type e = record e { valid = true; dirty = if writes type then true else e.dirty; ref = true }

-- What the algorithm is told about: the entry is marked, and its frame `f` has the address.
abbrev pub touched : ℕ → Frame → ℕ → ℕ → Machine → Machine
touched p f vaddr type m = record m {
  ptes = update m.ptes p (marked type (m.ptes p));
  coremap = set m.coremap (m.ptes p).number (record f { vaddr = vaddr });
}

pub touch_lem :
    (policy : Policy) (disk : Disk) (p vaddr type : ℕ) (f : Frame) (m m2 : Machine)
    → get_elem? m.coremap (m.ptes p).number ≡ some f
    → policy.ref_fcn p (touched p f vaddr type m) ≡ some (tt, m2)
    → touch policy disk p vaddr type m
      ≡ some (
        (m2.ptes p).number,
        record m2 { counters = record m2.counters { ref_count = m2.counters.ref_count + 1 } },
      )
unfolding touch get_pte set_pte set_frame count
touch_lem policy disk p vaddr type f m m2 at told = elim (Bool-cases (writes type)) [
  | inl e ↦
      let told' = simp (e) at told in
      simp
        (touch, ◌>>=◌, set_pte, get_pte, e, update_same, update-update, set_frame, at, told', count)
        refl
  | inr e ↦
      let told' = simp (e) at told in
      simp
        (touch, ◌>>=◌, set_pte, get_pte, e, update_same, update-update, set_frame, at, told', count)
        refl
]

module _ (m : Machine) (p vaddr type : ℕ) (f : Frame)
    (at : get_elem? m.coremap (m.ptes p).number ≡ some f) (valid : (m.ptes p).valid ≡ true) where
  same_field :
      {A : Type 0} (field : Pte → A)
      → field (marked type (m.ptes p)) ≡ field (m.ptes p)
      → (q : ℕ) → field (update m.ptes p (marked type (m.ptes p)) q) ≡ field (m.ptes q)
  same_field field like q = elim (Bool-cases (q == p)) [
    | inl here ↦
        let same : q ≡ p = (==_iff q p).0 here in
        ap field (
          ap (update m.ptes p (marked type (m.ptes p))) same
          ∙ update_same m.ptes p (marked type (m.ptes p)))
        ∙ like
        ∙ ap (λ k. field (m.ptes k)) (sym same)
    | inr differ ↦ ap field (update_ne m.ptes p (marked type (m.ptes p)) q (ground arith))
  ]

  pub SameShape-touched : SameShape m (touched p f vaddr type m)
  SameShape-touched = record {
    pgdir = refl;
    swapmap = refl;
    valid = same_field (λ e. e.valid) (sym valid);
    number = same_field (λ e. e.number) refl;
    onswap = same_field (λ e. e.onswap) refl;
    forth = λ i g there. elim (Bool-cases (i == (m.ptes p).number)) [
      | inl here ↦
          let there_n : i ≡ (m.ptes p).number = (==_iff i (m.ptes p).number).0 here in
          let same : record f { vaddr = vaddr } ≡ g = cc (
            sym (get-set_same m.coremap (m.ptes p).number f (record f { vaddr = vaddr }) at)
            ∙ ap (get_elem? (touched p f vaddr type m).coremap) (sym there_n)
            ∙ there) in
          (f, ap (get_elem? m.coremap) there_n ∙ at, ap (λ k. k.in_use) same, ap (λ k. k.pte) same)
      | inr differ ↦ (
        g,
        sym (get-set_ne m.coremap (m.ptes p).number i (record f { vaddr = vaddr }) (ground arith))
            ∙ there,
        refl,
        refl,
      )
    ];
    back = λ i g there. elim (Bool-cases (i == (m.ptes p).number)) [
      | inl here ↦
          let there_n : i ≡ (m.ptes p).number = (==_iff i (m.ptes p).number).0 here in
          let same : f ≡ g = cc (sym at ∙ ap (get_elem? m.coremap) (sym there_n) ∙ there) in
          (
            record f { vaddr = vaddr },
            ap (get_elem? (touched p f vaddr type m).coremap) there_n
                ∙ get-set_same m.coremap (m.ptes p).number f (record f { vaddr = vaddr }) at,
            ap (λ k. k.in_use) same,
            ap (λ k. k.pte) same,
          )
      | inr differ ↦ (
        g,
        get-set_ne m.coremap (m.ptes p).number i (record f { vaddr = vaddr }) (ground arith)
            ∙ there,
        refl,
        refl,
      )
    ];
  }

-- The name of the page table entry for an address.
abbrev pub entry_of : ℕ → ℕ
entry_of vaddr = vaddr / 2 ^ 24 % 2 ^ 32 * 4096 + vaddr / 4096 % 4096

abbrev pub counted_hit : Machine → Machine
counted_hit m = record m { counters = record m.counters { hit_count = m.counters.hit_count + 1 } }

pub find_physpage_hit :
    (policy : Policy) (disk : Disk) (memalign_gives : ℕ → Bool) (vaddr type : ℕ) (m : Machine)
    → vaddr < 2 ^ 36
    → m.pgdir (vaddr / 2 ^ 24 % 2 ^ 32) ≡ true
    → (m.ptes (entry_of vaddr)).valid ≡ true
    → find_physpage policy disk memalign_gives vaddr type m
      ≡ touch policy disk (entry_of vaddr) vaddr type (counted_hit m)
unfolding find_physpage get_pgdir get_pte count
find_physpage_hit policy disk memalign_gives vaddr type m small present valid =
    let inside : ltb (vaddr / 2 ^ 24 % 2 ^ 32) 4096 ≡ true =
      lt→ltb (vaddr / 2 ^ 24 % 2 ^ 32) 4096 (omega arith) in
    simp (find_physpage, ◌>>=◌, get_pgdir, inside, present, get_pte, valid, count) refl

pub IsCoherent-counters :
    (m : Machine) (c : Counters) → IsCoherent m → IsCoherent (record m { counters = c })
IsCoherent-counters m c ok = record {
  frames = ok.frames;
  entries = ok.entries;
  tables = ok.tables;
  no_onswap = ok.no_onswap;
  swap_space = ok.swap_space;
}

-- A reference to a page that is in memory, by an address below 2^36, when page table and coremap
-- agree, the replacement algorithm changes only its own data, and neither the hits nor the references
-- have reached 2^31 - 1: `find_physpage` gives the frame of the
-- page, which the page keeps; page table and coremap agree; one hit and one reference are counted, and
-- nothing else.
pub find_physpage-hit :
    (policy : Policy) (disk : Disk) (memalign_gives : ℕ → Bool) (vaddr type : ℕ) (f : Frame)
    (m m2 : Machine)
    → IsCoherent m
    → vaddr < 2 ^ 36
    → m.counters.hit_count + 1 < 2 ^ 31
    → m.counters.ref_count + 1 < 2 ^ 31
    → (m.ptes (entry_of vaddr)).valid ≡ true
    → get_elem? m.coremap (m.ptes (entry_of vaddr)).number ≡ some f
    → policy.ref_fcn (entry_of vaddr) (touched (entry_of vaddr) f vaddr type (counted_hit m))
      ≡ some (tt, m2)
    → common m2 ≡ common (touched (entry_of vaddr) f vaddr type (counted_hit m))
    → (m' : Machine) × (find_physpage policy disk memalign_gives vaddr type m
        ≡ some ((m.ptes (entry_of vaddr)).number, m'))
      × Allocated (entry_of vaddr) (m.ptes (entry_of vaddr)).number m'
      × (m'.counters ≡ record m.counters {
        hit_count = m.counters.hit_count + 1;
        ref_count = m.counters.ref_count + 1;
      })
find_physpage-hit policy disk memalign_gives vaddr type f m m2 ok small hits_fit refs_fit valid at
      told same =
    let p : ℕ = entry_of vaddr in
    let shape : SameShape (counted_hit m) (touched p f vaddr type (counted_hit m)) =
      SameShape-touched (counted_hit m) p vaddr type f at valid in
    let ok2 : IsCoherent m2 = IsCoherent-common (touched p f vaddr type (counted_hit m)) m2 same (
      IsCoherent-SameShape (counted_hit m) (touched p f vaddr type (counted_hit m)) shape
        (IsCoherent-counters m (counted_hit m).counters ok)) in
    let present : m.pgdir (vaddr / 2 ^ 24 % 2 ^ 32) ≡ true =
      ap m.pgdir (omega arith) ∙ ok.tables p valid in
    let kept : (m2.ptes p).number ≡ (m.ptes p).number =
      ap (λ e. e.number) (same_pte (touched p f vaddr type (counted_hit m)) m2 same p)
      ∙ shape.number p in
    let counters : m2.counters ≡ (counted_hit m).counters = ap (λ k. k.counters) same in
    (
      record m2 { counters = record m2.counters { ref_count = m2.counters.ref_count + 1 } },
      find_physpage_hit policy disk memalign_gives vaddr type m small present valid
          ∙ touch_lem policy disk p vaddr type f (counted_hit m) m2 at told
          ∙ rw kept refl,
      record {
        coherent =
            IsCoherent-counters m2 (record m2.counters { ref_count = m2.counters.ref_count + 1 })
              ok2;
        valid =
            ap (λ e. e.valid) (same_pte (touched p f vaddr type (counted_hit m)) m2 same p)
            ∙ shape.valid p
            ∙ valid;
        number = kept;
      },
      rw counters refl,
    )

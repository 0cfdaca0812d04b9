-- ===== src/Paging/PageTable/Filled.antt =====
-- pagetable.c: each page in memory has the content that sim.c checks.
use operating_system_unix_li.Base.{
  ℕ, ◌*◌, ◌/◌, ◌≡◌, refl, sym, ap, ◌∙◌, Bool, true, false, none, some, List, inl, inr, get_elem?,
  update, update_same, update_ne, arith, Bool-cases, Option-cases, ◌==◌, ==_iff, if◌then◌else◌,
  update-update,
}
use operating_system_unix_li.Paging.Machine.{
  Pte, Frame, Counters, Machine, ◌>>=◌, get_pte, set_pte, set_frame, count,
}
use operating_system_unix_li.Paging.Swap.{Disk}
use operating_system_unix_li.Paging.PageTable.{Policy, touch, writes, init_second_level}
use operating_system_unix_li.Paging.PageTable.Invariant.{
  IsCoherent, SameShape, IsCoherent-SameShape,
}
use operating_system_unix_li.Paging.PageTable.Coherence.{common, SameShape-common}
use operating_system_unix_li.Paging.PageTable.Hit.{
  touched, touch_lem, SameShape-touched, IsCoherent-counters,
}
use operating_system_unix_li.Paging.PageTable.Leads.{After, After-at}

-- Page table and coremap agree, and the frame of a valid entry holds the address of its page.
pub record IsFilled (m : Machine) : Type 0 where
  pub coherent : IsCoherent m
  pub filled :
      (p : ℕ) → (m.ptes p).valid ≡ true → (m.physmem (m.ptes p).number).checkaddr ≡ p * 4096

-- The page of entry `p` is in frame `r`.
pub record Loaded (p r : ℕ) (m : Machine) : Type 0 where
  pub filled : IsFilled m
  pub valid : (m.ptes p).valid ≡ true
  pub number : (m.ptes p).number ≡ r

-- A replacement algorithm that changes only its own data.
pub record LeavesPages (policy : Policy) : Type 0 where
  pub ref_fcn : (p : ℕ) (m m1 : Machine) → policy.ref_fcn p m ≡ some (tt, m1) → common m1 ≡ common m
  pub evict_fcn :
      (m : Machine) (i : ℕ) (m1 : Machine)
      → policy.evict_fcn m ≡ some (i, m1)
      → common m1 ≡ common m

pub IsFilled-SameShape :
    (m m1 : Machine) → SameShape m m1 → m1.physmem ≡ m.physmem → IsFilled m → IsFilled m1
IsFilled-SameShape m m1 same memory ok = record {
  coherent = IsCoherent-SameShape m m1 same ok.coherent;
  filled = λ p valid. rw (memory, same.number p) (ok.filled p (sym (same.valid p) ∙ valid));
}

pub IsFilled-counters :
    (m : Machine) (c : Counters) → IsFilled m → IsFilled (record m { counters = c })
IsFilled-counters m c ok = record {
  coherent = IsCoherent-counters m c ok.coherent;
  filled = ok.filled;
}

pub IsFilled-curr :
    (m : Machine) (future : List ℕ) → IsFilled m → IsFilled (record m { curr = future })
IsFilled-curr m future ok = record {
  coherent = record {
    frames = ok.coherent.frames;
    entries = ok.coherent.entries;
    tables = ok.coherent.tables;
    no_onswap = ok.coherent.no_onswap;
    swap_space = ok.coherent.swap_space;
  };
  filled = ok.filled;
}

touch-none :
    (policy : Policy) (disk : Disk) (p vaddr type : ℕ) (f : Frame) (m : Machine)
    → get_elem? m.coremap (m.ptes p).number ≡ some f
    → policy.ref_fcn p (touched p f vaddr type m) ≡ none
    → touch policy disk p vaddr type m ≡ none
unfolding touch get_pte set_pte set_frame count
touch-none policy disk p vaddr type f m at told = elim (Bool-cases (writes type)) [
  | inl e ↦
      let told' = simp (e) at told in
      simp
        (touch, ◌>>=◌, set_pte, get_pte, e, update_same, update-update, set_frame, at, told', count)
        refl
  | inr e ↦
      let told' = simp (e) at told in
      simp
        (touch, ◌>>=◌, set_pte, get_pte, e, update_same, update-update, set_frame, at, told', count)
        refl
]

-- The end of `find_physpage` keeps the page that was found.
pub touch-After :
    (policy : Policy) (disk : Disk) (p vaddr type : ℕ) (m : Machine)
    → LeavesPages policy
    → IsFilled m
    → (m.ptes p).valid ≡ true
    → After Unit (λ r. Loaded p r) (touch policy disk p vaddr type m)
touch-After policy disk p vaddr type m leaves ok valid =
    let (f, at, used, own) = ok.coherent.entries p valid in
    let t : Machine = touched p f vaddr type m in
    elim (Option-cases (policy.ref_fcn p t)) [
      | inl e ↦
          After-at Unit (λ r. Loaded p r) _ none (touch-none policy disk p vaddr type f m at e) tt
      | inr ((tt, m2), e) ↦
          let shape : SameShape m t = SameShape-touched m p vaddr type f at valid in
          let same : common m2 ≡ common t = leaves.ref_fcn p t m2 e in
          let shape2 : SameShape t m2 = SameShape-common t m2 same in
          let ok2 : IsFilled m2 =
            IsFilled-SameShape t m2 shape2 (ap (λ k. k.physmem) same)
              (IsFilled-SameShape m t shape refl ok) in
          After-at Unit (λ r. Loaded p r) _ _ (touch_lem policy disk p vaddr type f m m2 at e)
            (record {
              filled = IsFilled-counters m2 _ ok2;
              valid = shape2.valid p ∙ shape.valid p ∙ valid;
              number = refl;
            })
    ]

-- Entries that are not valid may change.
pub repaged-IsFilled :
    (m : Machine) (pgdir : ℕ → Bool) (ptes : ℕ → Pte)
    → IsFilled m
    → ((q : ℕ) → (m.ptes q).valid ≡ true → ptes q ≡ m.ptes q)
    → ((q : ℕ) → (ptes q).valid ≡ true → ptes q ≡ m.ptes q)
    → ((q : ℕ) → (m.ptes q).valid ≡ true → pgdir (q / 4096) ≡ true)
    → ((q : ℕ) → (ptes q).onswap ≡ false)
    → IsFilled (record m { pgdir = pgdir; ptes = ptes })
repaged-IsFilled m pgdir ptes ok stays was tables no_onswap =
    let old : (q : ℕ) → (ptes q).valid ≡ true → (m.ptes q).valid ≡ true =
      λ q valid. sym (ap (λ e. e.valid) (was q valid)) ∙ valid in
    record {
      coherent = record {
        frames = λ i f at used.
            let (valid, number) = ok.coherent.frames i f at used in
            rw (stays f.pte valid) (valid, number);
        entries = λ q valid. rw (was q valid) (ok.coherent.entries q (old q valid));
        tables = λ q valid. tables q (old q valid);
        no_onswap = no_onswap;
        swap_space = ok.coherent.swap_space;
      };
      filled = λ q valid. rw (was q valid) (ok.filled q (old q valid));
    }

added_table-tables :
    (m : Machine) (idx : ℕ)
    → IsFilled m
    → (q : ℕ) → (m.ptes q).valid ≡ true
    → update m.pgdir idx true (q / 4096) ≡ true
added_table-tables m idx ok q valid = elim (Bool-cases (q / 4096 == idx)) [
  | inl here ↦
      ap (update m.pgdir idx true) ((==_iff (q / 4096) idx).0 here) ∙ update_same m.pgdir idx true
  | inr differ ↦ update_ne m.pgdir idx true (q / 4096) (ground arith) ∙ ok.coherent.tables q valid
]

-- A new page table has no valid entry, and there was none where it is put.
pub init_second_level-After :
    (gives : Bool) (idx : ℕ) (m : Machine)
    → IsFilled m
    → m.pgdir idx ≡ false
    → After Unit (λ u m1. IsFilled m1 × (m1.pgdir idx ≡ true)) (init_second_level gives idx m)
unfolding init_second_level
init_second_level-After false idx m ok absent = tt
init_second_level-After true idx m ok absent =
    let fresh : Pte = record {
      number = 0;
      valid = false;
      dirty = false;
      ref = false;
      onswap = false;
      swap_off = none;
    } in
    (
      repaged-IsFilled m (update m.pgdir idx true)
          (λ p. if p / 4096 == idx then fresh else m.ptes p) ok
          (λ q valid. elim (Bool-cases (q / 4096 == idx)) [
            | inl here ↦
                absurd (cc (ok.coherent.tables q valid, (==_iff (q / 4096) idx).0 here, absent))
            | inr differ ↦ rw differ refl
          ])
          (λ q valid. elim (Bool-cases (q / 4096 == idx)) [
            | inl here ↦ absurd (cc (rw here at valid))
            | inr differ ↦ rw differ refl
          ])
          (added_table-tables m idx ok)
          (λ q. elim (Bool-cases (q / 4096 == idx)) [
            | inl here ↦ rw here refl
            | inr differ ↦ rw differ (ok.coherent.no_onswap q)
          ]),
      update_same m.pgdir idx true,
    )

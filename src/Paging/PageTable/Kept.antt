-- ===== src/Paging/PageTable/Kept.antt =====
-- pagetable.c, `allocate_frame`: what the pages that stay in memory keep.
use operating_system_unix_li.Base.{
  ℕ, ◌≡◌, ◌≢◌, refl, sym, ap, ◌∙◌, true, false, List, inl, inr, update, update_same, update_ne,
  arith, Bool-cases, ◌==◌, ==_iff,
}
use operating_system_unix_li.Paging.Bitmap.{Bitmap}
use operating_system_unix_li.Paging.Machine.{Pte, Frame, Machine, Page, Counters}
use operating_system_unix_li.Paging.PageTable.Invariant.{SameShape, installed}
use operating_system_unix_li.Paging.PageTable.Allocate.{turned}

-- The simulated memory is as before, and a page but that of entry `p` that is in memory was there
-- before, in the same frame.
pub record Kept (p : ℕ) (m m' : Machine) : Type 0 where
  pub physmem : m'.physmem ≡ m.physmem
  pub others :
      (q : ℕ)
      → q ≢ p
      → (m'.ptes q).valid ≡ true
      → ((m.ptes q).valid ≡ true) × ((m'.ptes q).number ≡ (m.ptes q).number)

pub Kept-SameShape :
    (p : ℕ) (m m1 m' : Machine)
    → SameShape m m1
    → m1.physmem ≡ m.physmem
    → Kept p m1 m'
    → Kept p m m'
Kept-SameShape p m m1 m' same memory kept = record {
  physmem = kept.physmem ∙ memory;
  others = λ q ne valid.
      let (valid1, number1) = kept.others q ne valid in
      (sym (same.valid q) ∙ valid1, number1 ∙ same.number q);
}

pub installed-Kept :
    (m : Machine) (i p : ℕ) (fresh : Frame) (e : Pte) → Kept p m (installed m i p fresh e)
installed-Kept m i p fresh e = record {
  physmem = refl;
  others = λ q ne valid.
      let same : update m.ptes p e q ≡ m.ptes q = update_ne m.ptes p e q ne in
      (sym (ap (λ x. x.valid) same) ∙ valid, ap (λ x. x.number) same);
}

-- The page of entry `v` has left, and entry `p` has its frame.
pub replaced-Kept :
    (m : Machine) (i p v : ℕ) (fresh : Frame) (e e' : Pte) (b : Bitmap) (file : List (ℕ × Page))
    (c : Counters)
    → e.valid ≡ false
    → Kept p m (installed (turned v e b file c m) i p fresh e')
replaced-Kept m i p v fresh e e' b file c off =
    let kept : Kept p (turned v e b file c m) (installed (turned v e b file c m) i p fresh e') =
      installed-Kept (turned v e b file c m) i p fresh e' in
    record {
      physmem = kept.physmem;
      others = λ q ne valid.
          let (valid1, number1) = kept.others q ne valid in
          elim (Bool-cases (q == v)) [
            | inl here ↦
                let at_v : update m.ptes v e q ≡ e =
                  ap (update m.ptes v e) ((==_iff q v).0 here) ∙ update_same m.ptes v e in
                absurd (cc (sym valid1 ∙ ap (λ x. x.valid) at_v ∙ off))
            | inr differ ↦
                let same : update m.ptes v e q ≡ m.ptes q = update_ne m.ptes v e q (ground arith) in
                (sym (ap (λ x. x.valid) same) ∙ valid1, number1 ∙ ap (λ x. x.number) same)
          ];
    }

-- ===== src/Paging/PageTable/Refilled.antt =====
-- pagetable.c: the content of memory when a page is loaded.
use operating_system_unix_li.Base.{
  ℕ, ◌*◌, ◌≡◌, ◌≢◌, sym, ap, ◌∙◌, true, false, inl, inr, get_elem?, update, update_same, update_ne,
  arith, Bool-cases, ◌==◌, ==_iff,
}
use operating_system_unix_li.Paging.Machine.{Pte, Page, Machine}
use operating_system_unix_li.Paging.PageTable.Invariant.{IsCoherent}
use operating_system_unix_li.Paging.PageTable.Kept.{Kept}
use operating_system_unix_li.Paging.PageTable.Coherence.{Allocated}
use operating_system_unix_li.Paging.PageTable.Filled.{IsFilled, repaged-IsFilled}

-- A frame that is given by a coherent state to two entries is given to one.
number_once :
    (m : Machine) (p q : ℕ)
    → IsCoherent m
    → (m.ptes p).valid ≡ true
    → (m.ptes q).valid ≡ true
    → (m.ptes q).number ≡ (m.ptes p).number
    → q ≡ p
number_once m p q ok p_valid q_valid same =
    let (f, at, used, own) = ok.entries p p_valid in
    let (g, at', used', own') = ok.entries q q_valid in
    let same_f : f ≡ g = cc (sym at ∙ ap (get_elem? m.coremap) (sym same) ∙ at') in
    sym own' ∙ ap (λ k. k.pte) (sym same_f) ∙ own

-- The frame that was allocated for the entry gets the address, and no other page is changed.
pub IsFilled-frame :
    (p i : ℕ) (m m1 : Machine) (page : Page)
    → IsFilled m
    → page.checkaddr ≡ p * 4096
    → Allocated p i m1
    → Kept p m m1
    → IsFilled (record m1 { physmem = update m1.physmem i page })
IsFilled-frame p i m m1 page ok content allocated kept =
    let ok1 : IsCoherent m1 = allocated.coherent in
    record {
      coherent = record {
        frames = ok1.frames;
        entries = ok1.entries;
        tables = ok1.tables;
        no_onswap = ok1.no_onswap;
        swap_space = ok1.swap_space;
      };
      filled = λ q valid. elim (Bool-cases (q == p)) [
        | inl here ↦
            let same : q ≡ p = (==_iff q p).0 here in
            let at : (m1.ptes q).number ≡ i =
              ap (λ k. (m1.ptes k).number) same ∙ allocated.number in
            ap (λ k. k.checkaddr) (ap (update m1.physmem i page) at ∙ update_same m1.physmem i page)
            ∙ content
            ∙ ap (λ k. k * 4096) (sym same)
        | inr differ ↦
            let ne : q ≢ p = ground arith in
            let away : (m1.ptes q).number ≢ i = λ same.
              ne (number_once m1 p q ok1 allocated.valid valid (same ∙ sym allocated.number)) in
            let (valid0, number0) = kept.others q ne valid in
            ap (λ k. k.checkaddr)
              (update_ne m1.physmem i page (m1.ptes q).number away
                ∙ ap (λ f. f (m1.ptes q).number) kept.physmem
                ∙ ap m.physmem number0)
            ∙ ok.filled q valid0
      ];
    }

-- The entry that is to be loaded is marked.
pub unloaded-IsFilled :
    (m : Machine) (p : ℕ) (e : Pte)
    → IsFilled m
    → (m.ptes p).valid ≡ false
    → e.valid ≡ false
    → e.onswap ≡ false
    → IsFilled (record m { ptes = update m.ptes p e })
unloaded-IsFilled m p e ok absent off off_swap =
    repaged-IsFilled m m.pgdir (update m.ptes p e) ok
      (λ q valid.
        update_ne m.ptes p e q (λ same. cc (sym valid ∙ ap (λ k. (m.ptes k).valid) same ∙ absent)))
      (λ q valid. update_ne m.ptes p e q (λ same. cc (
        sym valid
        ∙ ap (λ k. (update m.ptes p e k).valid) same
        ∙ ap (λ k. k.valid) (update_same m.ptes p e)
        ∙ off)))
      ok.coherent.tables
      (λ q. elim (Bool-cases (q == p)) [
        | inl here ↦
            ap (λ k. k.onswap)
              (ap (update m.ptes p e) ((==_iff q p).0 here) ∙ update_same m.ptes p e)
            ∙ off_swap
        | inr differ ↦
            ap (λ k. k.onswap) (update_ne m.ptes p e q (ground arith)) ∙ ok.coherent.no_onswap q
      ])

-- ===== src/Ext2/Insert/Blocks.antt =====
-- A directory in which one block is replaced.
use operating_system_unix_li.Base.{
  ℕ, zero, suc, ◌+◌, ◌-◌, ◌*◌, ◌<◌, ◌≤◌, ◌≡◌, ◌≢◌, ◌⊎◌, sym, ap, ◌∙◌, subst, Bool, Option, none,
  some, List, [], ◌∷◌, inl, inr, length, get_elem?, set, arith, Option-cases, Bool-cases, ltb,
  ltb→lt,
}
use operating_system_unix_li.Ext2.Image.{Entry}
use operating_system_unix_li.Ext2.Directory.Layout.{IsBlock, IsDir, locate, locate_in}
use operating_system_unix_li.Ext2.Directory.Place.{locate_in_later, locate_in_here}

-- A byte of one block is outside another.
apart :
    (m n x : ℕ)
    → m ≢ n
    → 1024 * m ≤ x
    → x < 1024 * m + 1024
    → (x < 1024 * n) ⊎ (1024 * n + 1024 ≤ x)
apart m n x ne low high = elim (Bool-cases (ltb x (1024 * n))) [
  | inl h ↦ inl (ltb→lt x (1024 * n) h)
  | inr h ↦ let above : 1024 * n ≤ x = ground (arith, h) in inr (omega arith)
]

module _ (entries : ℕ → Entry) (blocks : ℕ → ℕ) where
  pub nth-IsBlock :
      (ess : List (List Entry)) (es : List Entry) (k j : ℕ)
      → IsDir entries blocks k ess
      → get_elem? ess j ≡ some es
      → (blocks (k + j) < 128) × IsBlock entries (1024 * blocks (k + j)) 1024 es
  nth-IsBlock [] es k j dir h = cc
  nth-IsBlock (x ∷ ess) es k zero (on_disk, b, bs) h =
      let same : x ≡ es = cc in
      let at : k ≡ k + 0 = omega arith in
      subst (λ i. (blocks i < 128) × IsBlock entries (1024 * blocks i) 1024 es) at
        (on_disk, subst (IsBlock entries (1024 * blocks k) 1024) same b)
  nth-IsBlock (x ∷ ess) es k (suc j) (on_disk, b, bs) h =
      let at : suc k + j ≡ k + suc j = omega arith in
      subst (λ i. (blocks i < 128) × IsBlock entries (1024 * blocks i) 1024 es) at
        (nth-IsBlock ess es (suc k) j bs h)

  module _ (entries' : ℕ → Entry) where
    same-IsBlock :
        (es : List Entry) (addr left : ℕ)
        → ((x : ℕ) → addr ≤ x → x < addr + left → entries' x ≡ entries x)
        → IsBlock entries addr left es
        → IsBlock entries' addr left es
    same-IsBlock [] addr left same b = b
    same-IsBlock (e ∷ es) addr left same (there, long, fits, b) = (
      same addr (omega arith) (omega arith) ∙ there,
      long,
      fits,
      same-IsBlock es (addr + e.rec_len) (left - e.rec_len)
          (λ x low high. same x (omega arith) (omega arith)) b,
    )

    -- A block number that none of the blocks has.
    pub same-IsDir :
        (ess : List (List Entry)) (k n : ℕ)
        → ((x : ℕ) → (x < 1024 * n) ⊎ (1024 * n + 1024 ≤ x) → entries' x ≡ entries x)
        → ((i : ℕ) → i < length ess → blocks (k + i) ≢ n)
        → IsDir entries blocks k ess
        → IsDir entries' blocks k ess
    same-IsDir [] k n same other dir = tt
    same-IsDir (es ∷ ess) k n same other (on_disk, b, bs) =
        let at : k + 0 ≡ k = omega arith in
        let ne : blocks k ≢ n = subst (λ i. blocks i ≢ n) at (other 0 (omega arith)) in
        (
          on_disk,
          same-IsBlock es (1024 * blocks k) 1024
              (λ x low high. same x (apart (blocks k) n x ne low high)) b,
          same-IsDir ess (suc k) n same
              (λ i h. subst (λ m. blocks m ≢ n) (omega arith) (other (suc i) (omega arith))) bs,
        )

    -- Block `k + j` is replaced, and its number is that of no other.
    pub set-IsDir :
        (ess : List (List Entry)) (es es' : List Entry) (k j : ℕ)
        → IsDir entries blocks k ess
        → get_elem? ess j ≡ some es
        → IsBlock entries' (1024 * blocks (k + j)) 1024 es'
        → ((x : ℕ)
            → (x < 1024 * blocks (k + j)) ⊎ (1024 * blocks (k + j) + 1024 ≤ x)
            → entries' x ≡ entries x)
        → ((i : ℕ) → i < length ess → i ≢ j → blocks (k + i) ≢ blocks (k + j))
        → IsDir entries' blocks k (set ess j es')
    set-IsDir [] es es' k j dir h b' same other = cc
    set-IsDir (x ∷ ess) es es' k zero (on_disk, b, bs) h b' same other =
        let at : k + 0 ≡ k = omega arith in
        (
          on_disk,
          subst (λ i. IsBlock entries' (1024 * blocks i) 1024 es') at b',
          same-IsDir ess (suc k) (blocks (k + 0)) same
              (λ i h.
                subst (λ m. blocks m ≢ blocks (k + 0)) (omega arith)
                  (other (suc i) (omega arith) (omega arith)))
              bs,
        )
    set-IsDir (x ∷ ess) es es' k (suc j) (on_disk, b, bs) h b' same other =
        let at : k + suc j ≡ suc k + j = omega arith in
        let n = blocks (k + suc j) in
        let ne : blocks k ≢ n =
          subst (λ m. blocks m ≢ n) (omega arith) (other 0 (omega arith) (omega arith)) in
        (
          on_disk,
          same-IsBlock x (1024 * blocks k) 1024
              (λ y low high. same y (apart (blocks k) n y ne low high)) b,
          set-IsDir ess es es' (suc k) j bs h
              (subst (λ i. IsBlock entries' (1024 * blocks i) 1024 es') at b')
              (subst
                (λ i.
                  (y : ℕ)
                  → (y < 1024 * blocks i) ⊎ (1024 * blocks i + 1024 ≤ y)
                  → entries' y ≡ entries y)
                at same)
              (λ i h ne' e.
                other (suc i) (omega arith) (omega arith)
                  (ap blocks (omega arith) ∙ e ∙ ap blocks (sym at))),
        )

none-some : {A : Type 0} (o : Option A) (a : A) → o ≡ none → o ≡ some a → ⊥
none-some o a h k = cc

module _ (hit : Entry → Bool) (blocks : ℕ → ℕ) where
  -- What is missing in the directory is missing in each block.
  locate_first :
      (es : List Entry) (ess : List (List Entry)) (k : ℕ)
      → locate_in hit blocks k (es ∷ ess) ≡ none
      → (locate hit (1024 * blocks k) es ≡ none) × (locate_in hit blocks (suc k) ess ≡ none)
  locate_first es ess k h = elim (Option-cases (locate hit (1024 * blocks k) es)) [
    | inl none' ↦ (none', sym (locate_in_later hit es ess blocks k none') ∙ h)
    | inr (p, some') ↦ absurd (
        none-some (locate_in hit blocks k (es ∷ ess)) p h
          (locate_in_here hit es ess blocks k p some'))
  ]

  pub locate_missing :
      (ess : List (List Entry)) (es : List Entry) (k j : ℕ)
      → locate_in hit blocks k ess ≡ none
      → get_elem? ess j ≡ some es
      → locate hit (1024 * blocks (k + j)) es ≡ none
  locate_missing [] es k j h g = cc
  locate_missing (x ∷ ess) es k zero h g =
      let same : x ≡ es = cc in
      let at : k ≡ k + 0 = omega arith in
      subst (λ i. locate hit (1024 * blocks i) es ≡ none) at
        (subst (λ y. locate hit (1024 * blocks k) y ≡ none) same (locate_first x ess k h).0)
  locate_missing (x ∷ ess) es k (suc j) h g =
      let at : suc k + j ≡ k + suc j = omega arith in
      subst (λ i. locate hit (1024 * blocks i) es ≡ none) at
        (locate_missing ess es (suc k) j (locate_first x ess k h).1 g)

  pub locate-set :
      (ess : List (List Entry)) (es es' : List Entry) (k j : ℕ) (p : ℕ × Entry)
      → locate_in hit blocks k ess ≡ none
      → get_elem? ess j ≡ some es
      → locate hit (1024 * blocks (k + j)) es' ≡ some p
      → locate_in hit blocks k (set ess j es') ≡ some p
  locate-set [] es es' k j p h g l = cc
  locate-set (x ∷ ess) es es' k zero p h g l =
      let at : k + 0 ≡ k = omega arith in
      locate_in_here hit es' ess blocks k p
        (subst (λ i. locate hit (1024 * blocks i) es' ≡ some p) at l)
  locate-set (x ∷ ess) es es' k (suc j) p h g l =
      let at : k + suc j ≡ suc k + j = omega arith in
      locate_in_later hit x (set ess j es') blocks k (locate_first x ess k h).0
      ∙ locate-set ess es es' (suc k) j p (locate_first x ess k h).1 g
          (subst (λ i. locate hit (1024 * blocks i) es' ≡ some p) at l)

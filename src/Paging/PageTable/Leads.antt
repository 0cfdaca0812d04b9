-- ===== src/Paging/PageTable/Leads.antt =====
-- What holds of a result of pagetable.c or sim.c, put together as the code is. Without a result `F`
-- holds: `Unit` says nothing of it, and `⊥` says that there is one.
use operating_system_unix_li.Base.{
  Bool, true, false, Option, none, some, if◌then◌else◌, ◌≡◌, refl, sym, subst,
}
use operating_system_unix_li.Paging.Machine.{Machine, M, ◌>>=◌}

abbrev pub After : {A : Type 0} → Type 0 → (A → Machine → Type 0) → Option (A × Machine) → Type 0
After F Q none = F
After F Q (some (a, m)) = Q a m

module _ (F : Type 0) where
  elim-After :
      {A B : Type 0} (Q : A → Machine → Type 0) (R : B → Machine → Type 0)
      (o : Option (A × Machine)) (f : A → M B)
      → After F Q o
      → ((a : A) (m1 : Machine) → Q a m1 → After F R (f a m1))
      → After F R (elim o [ none ↦ none | some (a, m1) ↦ f a m1 ])
  elim-After Q R none f first rest = first
  elim-After Q R (some (a, m1)) f first rest = rest a m1 first

  pub bind-After :
      {A B : Type 0} (Q : A → Machine → Type 0) (R : B → Machine → Type 0) (x : M A) (f : A → M B)
      (m : Machine)
      → After F Q (x m)
      → ((a : A) (m1 : Machine) → Q a m1 → After F R (f a m1))
      → After F R ((x >>= f) m)
  bind-After Q R x f m first rest = elim-After Q R (x m) f first rest

  pub if-After :
      {A : Type 0} (Q : A → Machine → Type 0) (b : Bool) (x y : Option (A × Machine))
      → (b ≡ true → After F Q x)
      → (b ≡ false → After F Q y)
      → After F Q (if b then x else y)
  if-After Q true x y hx hy = hx refl
  if-After Q false x y hx hy = hy refl

  pub branch-After :
      {A : Type 0} (Q : A → Machine → Type 0) (b : Bool) (x y : M A) (m : Machine)
      → (b ≡ true → After F Q (x m))
      → (b ≡ false → After F Q (y m))
      → After F Q ((if b then x else y) m)
  branch-After Q true x y m hx hy = hx refl
  branch-After Q false x y m hx hy = hy refl

  pub After-at :
      {A : Type 0} (Q : A → Machine → Type 0) (o o' : Option (A × Machine))
      → o ≡ o'
      → After F Q o'
      → After F Q o
  After-at Q o o' same h = subst (After F Q) (sym same) h

  pub After-map :
      {A : Type 0} (Q R : A → Machine → Type 0) (o : Option (A × Machine))
      → ((a : A) (m : Machine) → o ≡ some (a, m) → Q a m → R a m)
      → After F Q o
      → After F R o
  After-map Q R none step h = h
  After-map Q R (some (a, m)) step h = step a m refl h

pub After-both :
    {A : Type 0} (Q R : A → Machine → Type 0) (o : Option (A × Machine))
    → After Unit Q o
    → After ⊥ R o
    → After ⊥ (λ a m. Q a m × R a m) o
After-both Q R none q r = r
After-both Q R (some (a, m)) q r = (q, r)

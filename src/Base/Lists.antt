-- ===== src/Base/Lists.antt =====
-- Lists measured, indexed and searched by native numbers.
use Prim.Native.Nat.{ℕ, zero, suc, ◌+◌, ◌<◌}
use mathlib.Core.Path.{◌≡◌, refl, ap, fun_ext}
use mathlib.Core.Logic.{◌≢◌}
use mathlib.Core.Bool.{Bool, true, false, ◌||◌}
use mathlib.Core.List.{List, [], ◌∷◌, ◌++◌, map}
use mathlib.Core.Option.{Option, none, some}
use native.Mathlib.Omega.{arith}
use operating_system_unix_li.Base.Tests.{◌==◌, if◌then◌else◌}

module _ {ℓ} {A : Type ℓ} where
  abbrev pub length : List A → ℕ
  length [] = 0
  length (x ∷ xs) = suc (length xs)

  abbrev pub get_elem? : List A → ℕ → Option A
  get_elem? [] i = none
  get_elem? (x ∷ xs) zero = some x
  get_elem? (x ∷ xs) (suc i) = get_elem? xs i

  -- A write out of bounds changes nothing.
  abbrev pub set : List A → ℕ → A → List A
  set [] i v = []
  set (x ∷ xs) zero v = v ∷ xs
  set (x ∷ xs) (suc i) v = x ∷ set xs i v

  abbrev pub replicate : ℕ → A → List A
  replicate zero a = []
  replicate (suc n) a = a ∷ replicate n a

  pub length-append : (xs ys : List A) → length (xs ++ ys) ≡ length xs + length ys
  length-append [] ys = omega arith
  length-append (x ∷ xs) ys = omega (arith, length-append xs ys)

  pub length-set : (xs : List A) (i : ℕ) (v : A) → length (set xs i v) ≡ length xs
  length-set [] i v = refl
  length-set (x ∷ xs) zero v = refl
  length-set (x ∷ xs) (suc i) v = ap suc (length-set xs i v)

  pub get-set_same :
      (xs : List A) (i : ℕ) (x v : A) → get_elem? xs i ≡ some x → get_elem? (set xs i v) i ≡ some v
  get-set_same [] i x v h = cc
  get-set_same (y ∷ xs) zero x v h = refl
  get-set_same (y ∷ xs) (suc i) x v h = get-set_same xs i x v h

  pub get-set_ne :
      (xs : List A) (i j : ℕ) (v : A) → j ≢ i → get_elem? (set xs i v) j ≡ get_elem? xs j
  get-set_ne [] i j v h = refl
  get-set_ne (y ∷ xs) zero zero v h = absurd (h refl)
  get-set_ne (y ∷ xs) zero (suc j) v h = refl
  get-set_ne (y ∷ xs) (suc i) zero v h = refl
  get-set_ne (y ∷ xs) (suc i) (suc j) v h = get-set_ne xs i j v (λ e. h (ap suc e))

pub get-map :
    {A B : Type 0} (h : A → B) (xs : List A) (k : ℕ) (y : B)
    → get_elem? (map h xs) k ≡ some y
    → (x : A) × (get_elem? xs k ≡ some x) × (h x ≡ y)
get-map h [] k y at = cc
get-map h (x ∷ xs) zero y at = (x, refl, cc)
get-map h (x ∷ xs) (suc k) y at = get-map h xs k y at

pub map-get :
    {A B : Type 0} (h : A → B) (xs : List A) (k : ℕ) (x : A)
    → get_elem? xs k ≡ some x
    → get_elem? (map h xs) k ≡ some (h x)
map-get h [] k x at = cc
map-get h (y ∷ xs) zero x at = cc
map-get h (y ∷ xs) (suc k) x at = map-get h xs k x at

pub get-length {ℓ} :
    {A : Type ℓ} (xs : List A) (i : ℕ) (x : A) → get_elem? xs i ≡ some x → i < length xs
get-length [] i x h = cc
get-length (y ∷ xs) zero x h = omega arith
get-length (y ∷ xs) (suc i) x h = omega (arith, get-length xs i x h)

-- A point-wise change of a map from numbers.
unfoldable pub update {ℓ} : {A : Type ℓ} → (ℕ → A) → ℕ → A → ℕ → A
update f i v j = if j == i then v else f j

abbrev pub contains : ℕ → List ℕ → Bool
contains a [] = false
contains a (x ∷ xs) = x == a || contains a xs

pub contains_head : (x : ℕ) (xs : List ℕ) → contains x (x ∷ xs) ≡ true
contains_head x xs = ground arith

pub contains_tail : (q x : ℕ) (xs : List ℕ) → contains q xs ≡ true → contains q (x ∷ xs) ≡ true
contains_tail q x xs h = ground arith

-- No number occurs twice.
abbrev pub Distinct : List ℕ → Type 0
Distinct [] = Unit
Distinct (x ∷ xs) = (contains x xs ≡ false) × Distinct xs

module _ {ℓ} {A : Type ℓ} (f : ℕ → A) (i : ℕ) where
  pub update_self : update f i (f i) ≡ f
  unfolding update
  update_self = fun_ext (λ j. ground arith)

  pub update_same : (v : A) → update f i v i ≡ v
  unfolding update
  update_same v = ground arith

  pub update_ne : (v : A) (j : ℕ) → j ≢ i → update f i v j ≡ f j
  unfolding update
  update_ne v j h = ground arith

  pub update-update : (v w : A) → update (update f i v) i w ≡ update f i w
  unfolding update
  update-update v w = fun_ext (λ j. ground arith)

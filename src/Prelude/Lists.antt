-- ===== src/Prelude/Lists.antt =====
-- Lists measured and indexed by native numbers, under the library's names, and membership as a test.
use Prim.Native.Nat.{ℕ, zero, suc, ◌+◌, ◌<◌, ◌≤◌}
use mathlib.Core.Path.{◌≡◌, refl, ap}
use mathlib.Core.Logic.{◌≢◌, ◌⊎◌, inl, inr}
use mathlib.Core.Bool.{Bool, true, false, ◌||◌}
use mathlib.Core.List.{List, [], ◌∷◌, ◌++◌}
use mathlib.Core.Option.{Option, none, some}
use native.Mathlib.Omega.{arith}
use domino_library.Prelude.Tests.{◌==◌, if◌then◌else◌}

module _ {ℓ} {A : Type ℓ} where
  abbrev pub length : List A → ℕ
  length [] = 0
  length (x ∷ xs) = suc (length xs)

  abbrev pub get_or : List A → ℕ → A → A
  get_or [] i d = d
  get_or (x ∷ xs) zero d = x
  get_or (x ∷ xs) (suc i) d = get_or xs i d

  abbrev pub get_elem? : List A → ℕ → Option A
  get_elem? [] i = none
  get_elem? (x ∷ xs) zero = some x
  get_elem? (x ∷ xs) (suc i) = get_elem? xs i

  abbrev pub is_empty : List A → Bool
  is_empty [] = true
  is_empty (x ∷ xs) = false

  -- A write out of bounds changes nothing.
  abbrev pub set : List A → ℕ → A → List A
  set [] i v = []
  set (x ∷ xs) zero v = v ∷ xs
  set (x ∷ xs) (suc i) v = x ∷ set xs i v

  abbrev pub replicate : ℕ → A → List A
  replicate zero a = []
  replicate (suc n) a = a ∷ replicate n a

  pub length-append : (xs ys : List A) → length (xs ++ ys) ≡ length xs + length ys
  length-append [] ys = omega arith
  length-append (x ∷ xs) ys = omega (arith, length-append xs ys)

  pub length-concat : (xs : List A) (x : A) → length (xs ++ x ∷ []) ≡ suc (length xs)
  length-concat xs x = omega (arith, length-append xs (x ∷ []))

  pub length-set : (xs : List A) (i : ℕ) (v : A) → length (set xs i v) ≡ length xs
  length-set [] i v = refl
  length-set (x ∷ xs) zero v = refl
  length-set (x ∷ xs) (suc i) v = ap suc (length-set xs i v)

  pub length-replicate : (n : ℕ) (a : A) → length (replicate n a) ≡ n
  length-replicate zero a = refl
  length-replicate (suc n) a = ap suc (length-replicate n a)

  pub get_or-set_self :
      (xs : List A) (i : ℕ) (v d : A) → i < length xs → get_or (set xs i v) i d ≡ v
  get_or-set_self [] i v d h = absurd (omega arith)
  get_or-set_self (x ∷ xs) zero v d h = refl
  get_or-set_self (x ∷ xs) (suc i) v d h = get_or-set_self xs i v d (omega arith)

  pub get_or-set_ne :
      (xs : List A) (i j : ℕ) (v d : A) → i ≢ j → get_or (set xs i v) j d ≡ get_or xs j d
  get_or-set_ne [] i j v d h = refl
  get_or-set_ne (x ∷ xs) zero zero v d h = absurd (h refl)
  get_or-set_ne (x ∷ xs) zero (suc j) v d h = refl
  get_or-set_ne (x ∷ xs) (suc i) zero v d h = refl
  get_or-set_ne (x ∷ xs) (suc i) (suc j) v d h = get_or-set_ne xs i j v d (λ e. h (ap suc e))

  pub get_or-beyond : (xs : List A) (i : ℕ) (d : A) → length xs ≤ i → get_or xs i d ≡ d
  get_or-beyond [] i d h = refl
  get_or-beyond (x ∷ xs) zero d h = absurd (omega arith)
  get_or-beyond (x ∷ xs) (suc i) d h = get_or-beyond xs i d (omega arith)

  -- A slot that holds the default reads as if it were not there.
  pub get_or-concat_default :
      (xs : List A) (i : ℕ) (d : A) → get_or (xs ++ d ∷ []) i d ≡ get_or xs i d
  get_or-concat_default [] zero d = refl
  get_or-concat_default [] (suc i) d = refl
  get_or-concat_default (x ∷ xs) zero d = refl
  get_or-concat_default (x ∷ xs) (suc i) d = get_or-concat_default xs i d

  get_or-append_left :
      (xs ys : List A) (i : ℕ) (d : A) → i < length xs → get_or (xs ++ ys) i d ≡ get_or xs i d
  get_or-append_left [] ys i d h = absurd (omega arith)
  get_or-append_left (x ∷ xs) ys zero d h = refl
  get_or-append_left (x ∷ xs) ys (suc i) d h = get_or-append_left xs ys i d (omega arith)

  pub get_or-replicate : (n i : ℕ) (d : A) → get_or (replicate n d) i d ≡ d
  get_or-replicate zero i d = refl
  get_or-replicate (suc n) zero d = refl
  get_or-replicate (suc n) (suc i) d = get_or-replicate n i d

-- `if (i >= xs.size()) xs.resize(i + 1); xs[i] = v;` where new slots hold `d`
abbrev pub put {ℓ} : {A : Type ℓ} → A → List A → ℕ → A → List A
put d [] zero v = v ∷ []
put d [] (suc i) v = d ∷ put d [] i v
put d (x ∷ xs) zero v = v ∷ xs
put d (x ∷ xs) (suc i) v = x ∷ put d xs i v

pub get_or-put {ℓ} :
    {A : Type ℓ} (d : A) (xs : List A) (i j : ℕ) (v : A)
    → get_or (put d xs i v) j d ≡ (if i == j then v else get_or xs j d)
get_or-put d [] zero zero v = refl
get_or-put d [] zero (suc j) v = ground arith
get_or-put d [] (suc i) zero v = ground arith
get_or-put d [] (suc i) (suc j) v = ground (arith, get_or-put d [] i j v)
get_or-put d (x ∷ xs) zero zero v = refl
get_or-put d (x ∷ xs) zero (suc j) v = ground arith
get_or-put d (x ∷ xs) (suc i) zero v = ground arith
get_or-put d (x ∷ xs) (suc i) (suc j) v = ground (arith, get_or-put d xs i j v)

-- A write of the default, bounds or not
pub get_or-set_default {ℓ} :
    {A : Type ℓ} (xs : List A) (i j : ℕ) (d : A)
    → get_or (set xs i d) j d ≡ (if i == j then d else get_or xs j d)
get_or-set_default [] i j d = ground arith
get_or-set_default (x ∷ xs) zero zero d = refl
get_or-set_default (x ∷ xs) zero (suc j) d = ground arith
get_or-set_default (x ∷ xs) (suc i) zero d = ground arith
get_or-set_default (x ∷ xs) (suc i) (suc j) d = ground (arith, get_or-set_default xs i j d)

pub List-cases {ℓ} :
    {A : Type ℓ} (xs : List A) → (xs ≡ []) ⊎ ((y : A) × (ys : List A) × (xs ≡ y ∷ ys))
List-cases [] = inl refl
List-cases (y ∷ ys) = inr (y, ys, refl)

-- `find(xs.begin(), xs.end(), a) != xs.end()`
abbrev pub elem : ℕ → List ℕ → Bool
elem a [] = false
elem a (x ∷ xs) = (a == x) || elem a xs

pub elem-append : (a : ℕ) (xs ys : List ℕ) → elem a (xs ++ ys) ≡ (elem a xs || elem a ys)
elem-append a [] ys = refl
elem-append a (x ∷ xs) ys = ground (arith, elem-append a xs ys)

pub elem-get_or : (xs : List ℕ) (i d : ℕ) → i < length xs → elem (get_or xs i d) xs ≡ true
elem-get_or [] i d h = absurd (omega arith)
elem-get_or (x ∷ xs) zero d h = ground arith
elem-get_or (x ∷ xs) (suc i) d h = ground (arith, elem-get_or xs i d)

-- One copy of each item.
abbrev pub Distinct : List ℕ → Type 0
Distinct [] = Unit {0}
Distinct (x ∷ xs) = (elem x xs ≡ false) × Distinct xs

-- A new last item that was not there
pub Distinct-concat :
    (x : ℕ) (xs : List ℕ) → elem x xs ≡ false → Distinct xs → Distinct (xs ++ x ∷ [])
Distinct-concat x [] out h = (refl, tt)
Distinct-concat x (y ∷ xs) out h =
    (ground (arith, elem-append y xs (x ∷ [])), Distinct-concat x xs (ground arith) h.1)

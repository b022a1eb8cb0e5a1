-- ===== src/Tests/SafePtr.antt =====
-- safe_mem/SafePtr.hpp at two classes, as in ut/safe_mem/SafePtrTest.cpp.
use domino_library.Prelude.{
  ℕ, ◌+◌, ◌*◌, ◌↔◌, ◌⊎◌, false, ◌≡◌, ◌≢◌, refl, true, ◌&&◌, ◌||◌, none, some, if◌then◌else◌, ◌==◌,
  arith,
}
use domino_library.SafePtr.{
  void, Casts, SafePtr, null_ptr, make_safe, convert, safe_cast, to_weak, lock,
}
use domino_library.SafePtr.Types.{CastLaws, IsValid}
use domino_library.SafePtr.Made.{
  Made, new_made, cast_made, convert_made, Made-IsValid, safe_cast-convert,
}
use domino_library.SafePtr.Keys.{Places, safe_eq, safe_ne, safe_lt, safe_hash, safe_lt_lem}

-- Class 2 derives from class 1, which stands 4 bytes into it.
abbrev classes : Casts ℕ
classes = record {
  convertible = λ t u. (t == u) || ((u == 0) || ((t == 2) && (u == 1)));
  base_of = λ t u. (t == 1) && (u == 2);
  polymorphic = λ t. true;
  up = λ t u p. if (t == 2) && (u == 1) then p + 4 else p;
  dyn = λ t u p. if (t == 1) && (u == 2) then (if p == 104 then some 100 else none) else none;
  down = λ t p. p;
}

-- One object of class 2, at 100
abbrev Points : ℕ → ℕ → Type 0
Points t p = (((t == 2) && (p == 100)) || ((t == 1) && (p == 104))) ≡ true

laws : CastLaws classes Points
laws = record {
  to_void = λ t. ground arith;
  from_void = λ t e. ground arith;
  up_void = λ p. refl;
  up_sound = λ t u p class converts there. ground arith;
  down_up = λ t p there. ground arith;
  base_of_class = λ t u base. ground arith;
  dyn_sound = λ t u p q there found. ground arith;
}

-- Down again from class 1: the object is found at its own address.
abbrev as_base : SafePtr ℕ
as_base = record { ptr = some 104; last_type = 0 }

abbrev as_derived : SafePtr ℕ
as_derived = record { ptr = some 100; last_type = 0 }

cast_down : safe_cast classes 1 2 as_base ≡ some as_derived
unfolding safe_cast
cast_down = refl

derived-Made : Made classes Points 2 as_derived
unfolding convert make_safe
derived-Made =
    cast_made {t = 1} {s = as_base}
      (convert_made {t = 2} {s = as_derived} (new_made (some 100) refl (λ p e. ground arith)) refl)
      cast_down

Made-IsValid_example : IsValid classes Points 2 as_derived
Made-IsValid_example = Made-IsValid classes Points laws 2 as_derived derived-Made

safe_cast-convert_example :
    (safe_cast classes void 2 (convert classes 2 void (make_safe (some 100)))
      ≡ some (make_safe (some 100)))
    × (safe_cast classes void 1 (convert classes 2 void (make_safe (some 100))) ≡ some null_ptr)
safe_cast-convert_example = safe_cast-convert classes Points laws 2 1 100 refl refl refl refl

-- A pointer to void that is locked after the object expired is null.
lock_expired :
    lock void (to_weak void (convert classes 2 void (make_safe (some 100)))) true ≡ null_ptr
unfolding lock to_weak convert make_safe
lock_expired = refl

-- Another object of class 2, at 200
abbrev second : SafePtr ℕ
second = record { ptr = some 200; last_type = 0 }

abbrev places : Places ℕ
places = record { address = λ p. p; block = λ p. p; hash = λ n. n * 3 }

-- The pointer to class 2 and the one to its base are equal, but have different hashes.
equal_across :
    (safe_eq places classes 2 1 as_derived as_base ≡ some true)
    × (safe_hash places as_derived ≢ safe_hash places as_base)
unfolding safe_eq safe_hash
equal_across = (refl, λ e. ground (arith, e))

safe_lt_lem_example :
    ((safe_lt places classes 2 2 null_ptr as_derived ≡ some true)
      → (safe_lt places classes 2 2 as_derived second ≡ some true)
      → safe_lt places classes 2 2 null_ptr second ≡ some true)
    × (safe_lt places classes 2 2 null_ptr null_ptr ≡ some false)
    × ((safe_eq places classes 2 2 null_ptr as_derived ≡ some true) ↔ (
        (safe_lt places classes 2 2 null_ptr as_derived ≡ some false)
        × (safe_lt places classes 2 2 as_derived null_ptr ≡ some false)))
    × ((safe_ne places classes 2 2 null_ptr as_derived ≡ some true) ↔ (
        (safe_lt places classes 2 2 null_ptr as_derived ≡ some true)
        ⊎ (safe_lt places classes 2 2 as_derived null_ptr ≡ some true)))
    × ((safe_eq places classes 2 2 null_ptr as_derived ≡ some true)
        → safe_hash places null_ptr ≡ safe_hash places as_derived)
    × (safe_eq places classes 2 1 null_ptr as_base
        ≡ safe_eq places classes 1 1 (convert classes 2 1 null_ptr) as_base)
    × (safe_lt places classes 2 1 null_ptr as_base
        ≡ safe_lt places classes 1 1 (convert classes 2 1 null_ptr) as_base)
safe_lt_lem_example =
    safe_lt_lem places classes (λ t. ground arith) (λ t p. ground arith) 2 1 null_ptr as_derived
      second as_base refl

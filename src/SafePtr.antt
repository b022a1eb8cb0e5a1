-- ===== src/SafePtr.antt =====
-- safe_mem/SafePtr.hpp: shared pointers that are only cast when that is safe. A type is the number of
-- its type_index, and `void` is 0; a static type is an argument. Null is `none`.
pub mod Types
pub mod Made
pub mod Keys
use domino_library.Prelude.{ℕ, Bool, true, false, Option, none, some, if◌then◌else◌, ◌==◌}

abbrev pub void : ℕ
void = 0

-- What the compiler and std know of types and pointers: `convertible T U` is
-- `is_convertible_v<T*, U*>`, `up` the implicit conversion, `dyn` dynamic_pointer_cast and `down`
-- static_pointer_cast from void.
pub record Casts {ℓ} (P : Type ℓ) : Type ℓ where
  pub convertible : ℕ → ℕ → Bool
  pub base_of : ℕ → ℕ → Bool
  pub polymorphic : ℕ → Bool
  pub up : ℕ → ℕ → P → P
  pub dyn : ℕ → ℕ → P → Option P
  pub down : ℕ → P → P

-- `pT_` is `ptr`; `lastType_` is `last_type`, which is read for `SafePtr<void>` only.
pub record SafePtr {ℓ} (P : Type ℓ) : Type ℓ where
  pub ptr : Option P
  pub last_type : ℕ

-- SafeWeak, with the same fields
pub record SafeWeak {ℓ} (P : Type ℓ) : Type ℓ where
  pub weak : Option P
  pub last_type : ℕ

module _ {ℓ} {P : Type ℓ} where
  -- `SafePtr(nullptr)`
  abbrev pub null_ptr : SafePtr P
  null_ptr = record { ptr = none; last_type = void }

  -- `lastType()`
  unfoldable pub last_type_of : ℕ → SafePtr P → ℕ
  last_type_of t s = if t == void then s.last_type else t

  -- The private constructor
  unfoldable pub from_shared : ℕ → Option P → ℕ → SafePtr P
  from_shared t none last = null_ptr
  from_shared t (some p) last = record {
    ptr = some p;
    last_type = if t == void then last else void;
  }

  -- `make_safe` and `new_safe`; `none` if the constructor or the allocation throws
  unfoldable pub make_safe : Option P → SafePtr P
  make_safe made = record { ptr = made; last_type = void }

  -- The move constructor: the new pointer, and what is left of the source
  unfoldable pub move_ptr : ℕ → SafePtr P → SafePtr P × SafePtr P
  move_ptr t src = (
    record { ptr = src.ptr; last_type = if t == void then src.last_type else void },
    record { ptr = none; last_type = if t == void then void else src.last_type },
  )

  -- Move assignment; `self` if both are one object
  unfoldable pub move_assign : ℕ → (self : Bool) → SafePtr P → SafePtr P → SafePtr P × SafePtr P
  unfolding move_ptr
  move_assign t self dst src = if self then (dst, src) else (
    record { ptr = src.ptr; last_type = if t == void then src.last_type else dst.last_type },
    (move_ptr t src).1,
  )

  unfoldable pub swap : ℕ → SafePtr P → SafePtr P → SafePtr P × SafePtr P
  swap t s u = (
    record { ptr = u.ptr; last_type = if t == void then u.last_type else s.last_type },
    record { ptr = s.ptr; last_type = if t == void then s.last_type else u.last_type },
  )

  -- `SafeWeak(SafePtr)`, and `lock`, which gives null when the object has `expired`
  unfoldable pub to_weak : ℕ → SafePtr P → SafeWeak P
  unfolding last_type_of
  to_weak t s = record { weak = s.ptr; last_type = if t == void then last_type_of t s else void }

  unfoldable pub lock : ℕ → SafeWeak P → (expired : Bool) → SafePtr P
  unfolding from_shared
  lock t w expired =
      from_shared t (if expired then none else w.weak) (if t == void then w.last_type else t)

  module _ (k : Casts P) where
    unfoldable pub convert_each : ℕ → ℕ → Option P → Option P
    convert_each from to none = none
    convert_each from to (some p) = some (k.up from to p)

    -- The converting constructor, which compiles if `From*` converts to `T*`
    unfoldable pub convert : ℕ → ℕ → SafePtr P → SafePtr P
    unfolding convert_each last_type_of
    convert from to s = elim s.ptr [
      | none ↦ null_ptr
      | some p ↦ record {
        ptr = some (k.up from to p);
        last_type = if to == void then last_type_of from s else void;
      }
    ]

    unfoldable pub dyn_each : ℕ → ℕ → Option P → Option P
    dyn_each from to none = none
    dyn_each from to (some p) = k.dyn from to p

    unfoldable pub down_each : ℕ → Option P → Option P
    down_each to none = none
    down_each to (some p) = some (k.down to p)

    -- `cast`; the outer `none` is code that does not compile.
    unfoldable pub cast : ℕ → ℕ → SafePtr P → Option (Option P)
    unfolding convert_each dyn_each down_each
    cast from to s =
        if k.convertible from to
        then some (convert_each from to s.ptr)
        else if k.base_of from to
        then if k.polymorphic from then some (dyn_each from to s.ptr) else none
        else if from == void
        then (if s.last_type == to then some (down_each to s.ptr) else some none)
        else none

    -- `safe_cast`
    unfoldable pub safe_cast : ℕ → ℕ → SafePtr P → Option (SafePtr P)
    unfolding cast from_shared last_type_of
    safe_cast from to s = elim (cast from to s) [
      | none ↦ none
      | some p ↦ some (from_shared to p (last_type_of from s))
    ]

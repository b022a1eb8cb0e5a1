-- ===== src/SafePtr/Made.antt =====
-- The pointers that a program can make with safe_mem/SafePtr.hpp point to objects of their types.
use domino_library.Prelude.{
  ℕ, ◌≡◌, refl, ◌∙◌, ap, inl, inr, Bool, true, false, Option, some, if◌then◌else◌, ◌==◌, arith,
  Bool-cases,
}
use domino_library.SafePtr.{
  void, Casts, SafePtr, null_ptr, last_type_of, from_shared, make_safe, move_ptr, move_assign, swap,
  to_weak, lock, convert, down_each, cast, safe_cast,
}
use domino_library.SafePtr.Types.{
  CastLaws, IsSound, IsValid, null-IsValid, from_shared-IsValid, convert-IsValid, safe_cast-IsValid,
}

module _ {ℓ κ} {P : Type ℓ} (k : Casts P) (points : ℕ → P → Type κ) where
  -- The pointers that a program can make
  pub data Made : ℕ → SafePtr P → Type (ℓ ⊔ κ) where
    null_made : {t : ℕ} → Made t null_ptr
    new_made :
        {t : ℕ} (made : Option P)
        → (t == void) ≡ false
        → ((p : P) → made ≡ some p → points t p)
        → Made t (make_safe made)
    convert_made :
        {t u : ℕ} {s : SafePtr P} → Made t s → k.convertible t u ≡ true → Made u (convert k t u s)
    cast_made : {t u : ℕ} {s r : SafePtr P} → Made t s → safe_cast k t u s ≡ some r → Made u r
    move_made : {t : ℕ} {s : SafePtr P} → Made t s → Made t (move_ptr t s).0
    moved_made : {t : ℕ} {s : SafePtr P} → Made t s → Made t (move_ptr t s).1
    assign_made :
        {t : ℕ} {s r : SafePtr P} (self : Bool)
        → Made t s
        → Made t r
        → Made t (move_assign t self s r).0
    swap_made : {t : ℕ} {s r : SafePtr P} → Made t s → Made t r → Made t (swap t s r).0
    lock_made :
        {t : ℕ} {s : SafePtr P} (expired : Bool) → Made t s → Made t (lock t (to_weak t s) expired)

  IsSound-last :
      (t last other : ℕ) (p : P)
      → IsSound k points t last p
      → IsSound k points t (if t == void then last else other) p
  unfolding IsSound
  IsSound-last t last other p sound = elim (Bool-cases (t == void)) [
    | inl voided ↦ rw voided (rw voided at sound)
    | inr class ↦ elim sound [
      | inl (typed, there) ↦ inl (typed, there)
      | inr (voided, _, _, _) ↦ absurd (ground arith)
    ]
  ]

  module _ (laws : CastLaws k points) where
    IsValid-IsSound :
        (t : ℕ) (s : SafePtr P) (p : P)
        → IsValid k points t s
        → s.ptr ≡ some p
        → IsSound k points t s.last_type p
    unfolding IsValid
    IsValid-IsSound t s p valid e = valid p e

    lock-IsValid :
        (t : ℕ) (s : SafePtr P) (expired : Bool)
        → IsValid k points t s
        → IsValid k points t (lock t (to_weak t s) expired)
    unfolding lock to_weak last_type_of
    lock-IsValid t s expired valid = elim (Bool-cases expired) [
      | inl gone ↦ rw (lock, gone) (null-IsValid k points laws t void)
      | inr still ↦ elim (Bool-cases (t == void)) [
        | inl voided ↦
            rw (lock, to_weak, last_type_of, still, voided)
              (from_shared-IsValid k points laws t s.last_type s.ptr
                (λ p e. IsSound-last t s.last_type void p (IsValid-IsSound t s p valid e)))
        | inr class ↦
            rw (lock, to_weak, last_type_of, still, class)
              (from_shared-IsValid k points laws t t s.ptr (λ p e.
                let sound = IsSound-last t s.last_type void p (IsValid-IsSound t s p valid e) in
                rw class (rw class at sound)))
      ]
    ]

    -- Type safety: whatever a program does with `make_safe`, `new_safe`, the converting constructor,
    -- `safe_cast`, moves, `swap`, SafeWeak and `lock`, a pointer that is not null points to an object
    -- of its static type, and a pointer to void comes from a pointer to an object of its
    -- `lastType_`.
    pub Made-IsValid : (t : ℕ) (s : SafePtr P) → Made t s → IsValid k points t s
    unfolding IsValid make_safe move_ptr move_assign swap lock to_weak last_type_of
    Made-IsValid t s null_made = null-IsValid k points laws t void
    Made-IsValid t s (new_made made class there) = λ p e. unfold IsSound in inl (class, there p e)
    Made-IsValid u s (convert_made {t} {s = r} m converts) =
        convert-IsValid k points laws t u r (Made-IsValid t r m) converts
    Made-IsValid u s (cast_made {t} {s = r} m e) =
        safe_cast-IsValid k points laws t u r s (Made-IsValid t r m) e
    Made-IsValid t s (move_made {s = r} m) =
        λ p e. IsSound-last t r.last_type void p (Made-IsValid t r m p e)
    Made-IsValid t s (moved_made m) = null-IsValid k points laws t _
    Made-IsValid t s (assign_made {s = d} {r} self m n) = elim (Bool-cases self) [
      | inl same ↦ rw (move_assign, same) (Made-IsValid t d m)
      | inr other ↦
          rw (move_assign, other)
            (λ p e. IsSound-last t r.last_type d.last_type p (Made-IsValid t r n p e))
    ]
    Made-IsValid t s (swap_made {s = d} {r} m n) =
        λ p e. IsSound-last t r.last_type d.last_type p (Made-IsValid t r n p e)
    Made-IsValid t s (lock_made {s = r} expired m) = lock-IsValid t r expired (Made-IsValid t r m)

    -- void converts to no other type, and is no base.
    not_up : (t : ℕ) → (t == void) ≡ false → k.convertible void t ≡ false
    not_up t class = elim (Bool-cases (k.convertible void t)) [
      | inl converts ↦ absurd (ground (arith, laws.from_void t converts, class))
      | inr other ↦ other
    ]

    not_base : (t : ℕ) → k.base_of void t ≡ false
    not_base t = elim (Bool-cases (k.base_of void t)) [
      | inl base ↦ absurd (ground (arith, laws.base_of_class void t base))
      | inr other ↦ other
    ]

    void_cast :
        (last u : ℕ) (p : P)
        → (u == void) ≡ false
        → safe_cast k void u (record { ptr = some p; last_type = last })
          ≡ some (if last == u then make_safe (some (k.down u p)) else null_ptr)
    unfolding safe_cast cast make_safe from_shared down_each
    void_cast last u p class = elim (Bool-cases (last == u)) [
      | inl same ↦ rw (safe_cast, cast, not_up u class, not_base u, same, class) refl
      | inr apart ↦ rw (safe_cast, cast, not_up u class, not_base u, apart) refl
    ]

    -- A pointer to an object of type `t` that was converted to void is cast back to the same pointer,
    -- and `safe_cast` to any other type but void gives null.
    pub safe_cast-convert :
        (t u : ℕ) (p : P)
        → points t p
        → (t == void) ≡ false
        → (u == void) ≡ false
        → (t == u) ≡ false
        → (safe_cast k void t (convert k t void (make_safe (some p))) ≡ some (make_safe (some p)))
          × (safe_cast k void u (convert k t void (make_safe (some p))) ≡ some null_ptr)
    unfolding convert make_safe last_type_of
    safe_cast-convert t u p there class class' apart =
        let back = void_cast t t (k.up t void p) class in
        let away = void_cast t u (k.up t void p) class' in
        let same : (t == t) ≡ true = ground arith in
        let path = ap (λ q. some (make_safe (some q))) (laws.down_up t p there) in
        (
          rw (last_type_of, class) (rw same at back ∙ path),
          rw (last_type_of, class) (rw apart at away),
        )

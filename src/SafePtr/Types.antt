-- ===== src/SafePtr/Types.antt =====
-- The casts of safe_mem/SafePtr.hpp keep a pointer on an object of its type.
use domino_library.Prelude.{
  ℕ, ◌≡◌, ◌⊎◌, refl, sym, ◌∙◌, ap, subst, inl, inr, true, false, ◌||◌, Option, none, some,
  some-injective, if◌then◌else◌, ◌==◌, arith, Bool-cases, Option-cases,
}
use domino_library.SafePtr.{
  void, Casts, SafePtr, last_type_of, from_shared, convert_each, convert, dyn_each, down_each, cast,
  safe_cast,
}

-- What std and the compiler promise, where `points t p` says that `p` points to an object that is
-- alive and a `t`
pub record CastLaws {ℓ κ} {P : Type ℓ} (k : Casts P) (points : ℕ → P → Type κ) : Type (ℓ ⊔ κ) where
  pub to_void : (t : ℕ) → k.convertible t void ≡ true
  pub from_void : (t : ℕ) → k.convertible void t ≡ true → (t == void) ≡ true
  pub up_void : (p : P) → k.up void void p ≡ p
  pub up_sound :
      (t u : ℕ) (p : P)
      → (u == void) ≡ false
      → k.convertible t u ≡ true
      → points t p
      → points u (k.up t u p)
  pub down_up : (t : ℕ) (p : P) → points t p → k.down t (k.up t void p) ≡ p
  pub base_of_class : (t u : ℕ) → k.base_of t u ≡ true → ((t == void) || (u == void)) ≡ false
  pub dyn_sound : (t u : ℕ) (p q : P) → points t p → k.dyn t u p ≡ some q → points u q

module _ {ℓ κ} {P : Type ℓ} (k : Casts P) (points : ℕ → P → Type κ) where
  -- A pointer of the static type to an object of that type; a pointer to void comes from one to an
  -- object of the last type.
  unfoldable pub IsSound : ℕ → ℕ → P → Type (ℓ ⊔ κ)
  IsSound t last p =
      (((t == void) ≡ false) × points t p)
      ⊎ (((t == void) ≡ true) × (q : P) × points last q × (p ≡ k.up last void q))

  unfoldable pub IsValid : ℕ → SafePtr P → Type (ℓ ⊔ κ)
  unfolding IsSound
  IsValid t s = (p : P) → s.ptr ≡ some p → IsSound t s.last_type p

  module _ (laws : CastLaws k points) where
    pub null-IsValid : (t last : ℕ) → IsValid t (record { ptr = none; last_type = last })
    unfolding IsValid
    null-IsValid t last p e = absurd (ground arith)

    up-IsSound :
        (t u last : ℕ) (p : P)
        → IsSound t last p
        → k.convertible t u ≡ true
        → IsSound u (if u == void then (if t == void then last else t) else void) (k.up t u p)
    unfolding IsSound
    up-IsSound t u last p sound converts = elim (Bool-cases (u == void)) [
      | inr class ↦ elim sound [
        | inl (typed, there) ↦ inl (class, laws.up_sound t u p class converts there)
        | inr (voided, q, there, from) ↦
            let zero_t : t ≡ void = ground arith in
            absurd (
              ground (
                arith,
                laws.from_void u (ap (λ x. k.convertible x u) (sym zero_t) ∙ converts),
                class,
              ))
      ]
      | inl to_void ↦ elim sound [
        | inl (typed, there) ↦
            let zero_u : u ≡ void = ground arith in
            rw (to_void, typed) (inr (refl, p, there, ap (λ x. k.up t x p) zero_u))
        | inr (voided, q, there, from) ↦
            let zero_u : u ≡ void = ground arith in
            let zero_t : t ≡ void = ground arith in
            rw (to_void, voided)
              (inr (
                refl,
                q,
                there,
                ap (λ x. k.up t x p) zero_u
                    ∙ ap (λ x. k.up x void p) zero_t
                    ∙ laws.up_void p
                    ∙ from,
              ))
      ]
    ]

    pub from_shared-IsValid :
        (t last : ℕ) (o : Option P)
        → ((p : P) → o ≡ some p → IsSound t (if t == void then last else void) p)
        → IsValid t (from_shared t o last)
    unfolding IsValid from_shared
    from_shared-IsValid t last none sound = null-IsValid t void
    from_shared-IsValid t last (some q) sound = sound

    pub convert-IsValid :
        (t u : ℕ) (s : SafePtr P)
        → IsValid t s
        → k.convertible t u ≡ true
        → IsValid u (convert k t u s)
    unfolding IsValid convert last_type_of
    convert-IsValid t u s valid converts = elim (Option-cases s.ptr) [
      | inl null ↦ rw (convert, null) (null-IsValid u void)
      | inr (p, has) ↦
          rw (convert, has)
            (λ q e.
              subst (IsSound u (if u == void then (if t == void then s.last_type else t) else void))
                (some-injective _ _ e) (up-IsSound t u s.last_type p (valid p has) converts))
    ]

    convert_each-some :
        (t u : ℕ) (o : Option P) (p : P)
        → convert_each k t u o ≡ some p
        → (q : P) × (o ≡ some q) × (k.up t u q ≡ p)
    unfolding convert_each
    convert_each-some t u none p e = absurd (ground arith)
    convert_each-some t u (some q) p e = (q, refl, some-injective _ _ e)

    dyn_each-some :
        (t u : ℕ) (o : Option P) (p : P)
        → dyn_each k t u o ≡ some p
        → (q : P) × (o ≡ some q) × (k.dyn t u q ≡ some p)
    unfolding dyn_each
    dyn_each-some t u none p e = absurd (ground arith)
    dyn_each-some t u (some q) p e = (q, refl, e)

    down_each-some :
        (u : ℕ) (o : Option P) (p : P)
        → down_each k u o ≡ some p
        → (q : P) × (o ≡ some q) × (k.down u q ≡ p)
    unfolding down_each
    down_each-some u none p e = absurd (ground arith)
    down_each-some u (some q) p e = (q, refl, some-injective _ _ e)

    -- A downcast is sound, and so is a cast from void to the last type.
    dyn-IsSound :
        (t u last last' : ℕ) (q p : P)
        → IsSound t last q
        → k.base_of t u ≡ true
        → k.dyn t u q ≡ some p
        → IsSound u last' p
    unfolding IsSound
    dyn-IsSound t u last last' q p sound base found = elim sound [
      | inl (typed, there) ↦
          inl (ground (arith, laws.base_of_class t u base), laws.dyn_sound t u q p there found)
      | inr (voided, _, _, _) ↦ absurd (ground (arith, laws.base_of_class t u base, voided))
    ]

    down-IsSound :
        (t u last last' : ℕ) (q p : P)
        → IsSound t last q
        → (t == void) ≡ true
        → k.convertible t u ≡ false
        → (last == u) ≡ true
        → k.down u q ≡ p
        → IsSound u last' p
    unfolding IsSound
    down-IsSound t u last last' q p sound from_void not_up same_last is_down = elim sound [
      | inl (typed, there) ↦ absurd (ground arith)
      | inr (voided, r, there, from) ↦
          let is : last ≡ u = ground arith in
          let class : (u == void) ≡ false = elim (Bool-cases (u == void)) [
            | inr away ↦ away
            | inl here ↦
                let zero_u : u ≡ void = ground arith in
                ground (arith, laws.to_void t, ap (k.convertible t) zero_u, not_up)
          ] in
          let mine = subst (λ x. points x r) is there in
          let path =
            sym is_down
            ∙ ap (k.down u) (from ∙ ap (λ x. k.up x void r) is)
            ∙ laws.down_up u r mine in
          inl (class, subst (points u) (sym path) mine)
    ]

    -- What `cast` gives
    cast-IsSound :
        (t u : ℕ) (s : SafePtr P) (o : Option P) (p : P)
        → IsValid t s
        → cast k t u s ≡ some o
        → o ≡ some p
        → IsSound u (if u == void then last_type_of t s else void) p
    unfolding cast IsValid last_type_of
    cast-IsSound t u s o p valid e has = elim (Bool-cases (k.convertible t u)) [
      | inl converts ↦
          let (q, full, is) =
            convert_each-some t u s.ptr p (some-injective _ _ (rw (cast, converts) at e) ∙ has) in
          subst (IsSound u (if u == void then last_type_of t s else void)) is
            (up-IsSound t u s.last_type q (valid q full) converts)
      | inr not_up ↦ elim (Bool-cases (k.base_of t u)) [
        | inl base ↦ elim (Bool-cases (k.polymorphic t)) [
          | inl has_virtual ↦
              let (q, full, found) =
                dyn_each-some t u s.ptr p
                  (some-injective _ _ (rw (cast, not_up, base, has_virtual) at e) ∙ has) in
              dyn-IsSound t u s.last_type _ q p (valid q full) base found
          | inr plain ↦ absurd (ground (arith, rw (cast, not_up, base, plain) at e))
        ]
        | inr unrelated ↦ elim (Bool-cases (t == void)) [
          | inl from_void ↦ elim (Bool-cases (s.last_type == u)) [
            | inl same_last ↦
                let (q, full, is) = down_each-some u s.ptr p (
                  some-injective _ _ (rw (cast, not_up, unrelated, from_void, same_last) at e)
                  ∙ has) in
                down-IsSound t u s.last_type _ q p (valid q full) from_void not_up same_last is
            | inr other ↦
                absurd (ground (arith, rw (cast, not_up, unrelated, from_void, other) at e, has))
          ]
          | inr class ↦ absurd (ground (arith, rw (cast, not_up, unrelated, class) at e))
        ]
      ]
    ]

    pub safe_cast-IsValid :
        (t u : ℕ) (s r : SafePtr P) → IsValid t s → safe_cast k t u s ≡ some r → IsValid u r
    unfolding safe_cast
    safe_cast-IsValid t u s r valid e = elim (Option-cases (cast k t u s)) [
      | inl refused ↦ absurd (ground (arith, rw (safe_cast, refused) at e))
      | inr (o, compiles) ↦ subst (IsValid u) (some-injective _ _ (rw (safe_cast, compiles) at e)) (
          from_shared-IsValid u (last_type_of t s) o
            (λ p has. cast-IsSound t u s o p valid compiles has))
    ]

-- ===== src/SafePtr/Keys.antt =====
-- safe_mem/SafePtr.hpp: pointers as keys of std::map and std::unordered_map.
use domino_library.Prelude.{
  ℕ, suc, ◌≡◌, ◌↔◌, ◌⊎◌, refl, Bool, true, false, not, Option, none, some, ◌==◌, ltb, arith, ap,
  ◌∙◌, sym, inl, inr, if◌then◌else◌, ◌>>=◌, Option-cases,
}
use domino_library.SafePtr.{
  Casts, SafePtr, SafeWeak, convert, convert_each, to_weak, lock, from_shared,
}

-- What std knows of pointers: the raw address that std::less orders, which is 0 for null only; the
-- place of the control block among those, by which shared_ptr orders its owners; std::hash.
pub record Places {ℓ} (P : Type ℓ) : Type ℓ where
  pub address : P → ℕ
  pub block : P → ℕ
  pub hash : ℕ → ℕ

module _ {ℓ} {P : Type ℓ} (k : Places P) where
  -- `pT_.get()`
  unfoldable pub raw : Option P → ℕ
  raw none = 0
  raw (some p) = suc (k.address p)

  unfoldable pub block_of : Option P → ℕ
  block_of none = 0
  block_of (some p) = suc (k.block p)

  module _ (c : Casts P) where
    -- The composite pointer type of `T*` and `U*`, to which the operators convert both; without one
    -- the comparison does not compile.
    unfoldable pub common : ℕ → ℕ → Option ℕ
    common t u = if c.convertible t u then some u else if c.convertible u t then some t else none

    unfoldable pub safe_eq : (t u : ℕ) → SafePtr P → SafePtr P → Option Bool
    unfolding raw common convert_each
    safe_eq t u lhs rhs = common t u >>= λ w.
        some (raw (convert_each c t w lhs.ptr) == raw (convert_each c u w rhs.ptr))

    unfoldable pub safe_ne : (t u : ℕ) → SafePtr P → SafePtr P → Option Bool
    unfolding safe_eq
    safe_ne t u lhs rhs = safe_eq t u lhs rhs >>= λ same. some (not same)

    unfoldable pub safe_lt : (t u : ℕ) → SafePtr P → SafePtr P → Option Bool
    unfolding raw common convert_each
    safe_lt t u lhs rhs = common t u >>= λ w.
        some (ltb (raw (convert_each c t w lhs.ptr)) (raw (convert_each c u w rhs.ptr)))

  unfoldable pub safe_hash : SafePtr P → ℕ
  unfolding raw
  safe_hash s = k.hash (raw s.ptr)

  unfoldable pub owner_before : SafePtr P → SafePtr P → Bool
  unfolding block_of
  owner_before s other = ltb (block_of s.ptr) (block_of other.ptr)

  unfoldable pub weak_owner_before : SafeWeak P → SafeWeak P → Bool
  unfolding block_of
  weak_owner_before w other = ltb (block_of w.weak) (block_of other.weak)

  -- A pointer converts to its own type, and is not changed by that.
  module _ (c : Casts P) (own_type : (t : ℕ) → c.convertible t t ≡ true)
      (unchanged : (t : ℕ) (p : P) → c.up t t p ≡ p) where
    convert_each_self : (t : ℕ) (o : Option P) → convert_each c t t o ≡ o
    unfolding convert_each
    convert_each_self t none = refl
    convert_each_self t (some p) = ap some (unchanged t p)

    ptr-convert : (t u : ℕ) (s : SafePtr P) → (convert c t u s).ptr ≡ convert_each c t u s.ptr
    unfolding convert convert_each
    ptr-convert t u s = elim (Option-cases s.ptr) [
      | inl null ↦ rw (convert, null) refl
      | inr (p, has) ↦ rw (convert, has) refl
    ]

    safe_eq-converts :
        (t u : ℕ) (s s' : SafePtr P)
        → c.convertible t u ≡ true
        → safe_eq c t u s s' ≡ some (raw (convert_each c t u s.ptr) == raw s'.ptr)
    unfolding safe_eq common
    safe_eq-converts t u s s' ok =
        rw (safe_eq, common, ok)
          (ap (λ o. some (raw (convert_each c t u s.ptr) == raw o)) (convert_each_self u s'.ptr))

    safe_lt-converts :
        (t u : ℕ) (s s' : SafePtr P)
        → c.convertible t u ≡ true
        → safe_lt c t u s s' ≡ some (ltb (raw (convert_each c t u s.ptr)) (raw s'.ptr))
    unfolding safe_lt common
    safe_lt-converts t u s s' ok =
        rw (safe_lt, common, ok)
          (ap (λ o. some (ltb (raw (convert_each c t u s.ptr)) (raw o)))
            (convert_each_self u s'.ptr))

    safe_eq_self : (t : ℕ) (s s' : SafePtr P) → safe_eq c t t s s' ≡ some (raw s.ptr == raw s'.ptr)
    safe_eq_self t s s' =
        safe_eq-converts t t s s' (own_type t)
        ∙ ap (λ o. some (raw o == raw s'.ptr)) (convert_each_self t s.ptr)

    safe_lt_self :
        (t : ℕ) (s s' : SafePtr P) → safe_lt c t t s s' ≡ some (ltb (raw s.ptr) (raw s'.ptr))
    safe_lt_self t s s' =
        safe_lt-converts t t s s' (own_type t)
        ∙ ap (λ o. some (ltb (raw o) (raw s'.ptr))) (convert_each_self t s.ptr)

    safe_ne_self :
        (t : ℕ) (s s' : SafePtr P) → safe_ne c t t s s' ≡ some (not (raw s.ptr == raw s'.ptr))
    unfolding safe_ne
    safe_ne_self t s s' = ap (λ o. o >>= λ same. some (not same)) (safe_eq_self t s s')

    -- Pointers of one type can be keys of std::map and of std::unordered_map: `<` is a strict order
    -- in which the pointers that stand at one place are those that are equal, `!=` says that two are
    -- not equal, and equal pointers have one hash. To compare a pointer with one of a type that its
    -- own converts to is to convert it first. All this holds if each pointer converts to its own
    -- type, and is not changed by that.
    pub safe_lt_lem :
        (t u : ℕ) (x y z other : SafePtr P)
        → c.convertible t u ≡ true
        → ((safe_lt c t t x y ≡ some true)
            → (safe_lt c t t y z ≡ some true)
            → safe_lt c t t x z ≡ some true)
          × (safe_lt c t t x x ≡ some false)
          × ((safe_eq c t t x y ≡ some true)
              ↔ ((safe_lt c t t x y ≡ some false) × (safe_lt c t t y x ≡ some false)))
          × ((safe_ne c t t x y ≡ some true)
              ↔ ((safe_lt c t t x y ≡ some true) ⊎ (safe_lt c t t y x ≡ some true)))
          × ((safe_eq c t t x y ≡ some true) → safe_hash x ≡ safe_hash y)
          × (safe_eq c t u x other ≡ safe_eq c u u (convert c t u x) other)
          × (safe_lt c t u x other ≡ safe_lt c u u (convert c t u x) other)
    unfolding safe_hash
    safe_lt_lem t u x y z other ok =
        let xy = safe_lt_self t x y in
        let yx = safe_lt_self t y x in
        let same = safe_eq_self t x y in
        (
          λ a b. ground (arith, xy, safe_lt_self t y z, safe_lt_self t x z),
          safe_lt_self t x x ∙ ap some (ground arith),
          ground (arith, xy, yx, same),
          ground (arith, xy, yx, safe_ne_self t x y),
          λ e. ap k.hash (ground (arith, same)),
          safe_eq-converts t u x other ok
              ∙ ap (λ o. some (raw o == raw other.ptr)) (sym (ptr-convert t u x))
              ∙ sym (safe_eq_self u (convert c t u x) other),
          safe_lt-converts t u x other ok
              ∙ ap (λ o. some (ltb (raw o) (raw other.ptr))) (sym (ptr-convert t u x))
              ∙ sym (safe_lt_self u (convert c t u x) other),
        )

  -- SafeWeak keeps the order of the owners, and a pointer that is locked again has it too.
  owner_before-to_weak :
      (from to : ℕ) (s t : SafePtr P)
      → (weak_owner_before (to_weak from s) (to_weak to t) ≡ owner_before s t)
        × (owner_before (lock from (to_weak from s) false) (lock to (to_weak to t) false)
            ≡ owner_before s t)
  unfolding owner_before weak_owner_before to_weak lock from_shared
  owner_before-to_weak from to s t = (refl, ground arith)

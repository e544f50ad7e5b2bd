-- ===== src/Field/Laws.antt =====
-- Consequences of the field laws.
use human_network.Prelude.{
  ℕ, zero, suc, ◌+◌, ◌*◌, ap₂, arith, ◌≡◌, ◌≢◌, none, some, sym, ap, ◌∙◌, ◌≡⟨◌⟩◌, ◌∎,
}
use human_network.Field.{Field, ◌⊕◌, ◌⊖◌, ◌⊗◌}

module _ {F : Type 0} ⦃k : Field F⦄ where
  pub add_assoc : (a b c : F) → a ⊕ b ⊕ c ≡ a ⊕ (b ⊕ c)
  add_assoc = k.add_assoc

  pub add_comm : (a b : F) → a ⊕ b ≡ b ⊕ a
  add_comm = k.add_comm

  pub add_left_comm : (a b c : F) → a ⊕ (b ⊕ c) ≡ b ⊕ (a ⊕ c)
  add_left_comm a b c =
      sym (k.add_assoc a b c) ∙ ap (λ t. t ⊕ c) (k.add_comm a b) ∙ k.add_assoc b a c

  pub mul_assoc : (a b c : F) → a ⊗ b ⊗ c ≡ a ⊗ (b ⊗ c)
  mul_assoc = k.mul_assoc

  pub mul_comm : (a b : F) → a ⊗ b ≡ b ⊗ a
  mul_comm = k.mul_comm

  pub mul_left_comm : (a b c : F) → a ⊗ (b ⊗ c) ≡ b ⊗ (a ⊗ c)
  mul_left_comm a b c =
      sym (k.mul_assoc a b c) ∙ ap (λ t. t ⊗ c) (k.mul_comm a b) ∙ k.mul_assoc b a c

  pub zero-add : (a : F) → k.zero ⊕ a ≡ a
  zero-add = k.zero-add

  pub add-zero : (a : F) → a ⊕ k.zero ≡ a
  add-zero a = k.add_comm a k.zero ∙ k.zero-add a

  pub one-mul : (a : F) → k.one ⊗ a ≡ a
  one-mul = k.one-mul

  pub mul-one : (a : F) → a ⊗ k.one ≡ a
  mul-one a = k.mul_comm a k.one ∙ k.one-mul a

  pub mul-add : (a b c : F) → a ⊗ (b ⊕ c) ≡ a ⊗ b ⊕ a ⊗ c
  mul-add = k.mul-add

  pub add-mul : (a b c : F) → (a ⊕ b) ⊗ c ≡ a ⊗ c ⊕ b ⊗ c
  add-mul a b c = simp (k.mul_comm _ c, k.mul-add)

  pub add-neg : (a : F) → a ⊕ k.neg a ≡ k.zero
  add-neg = k.add-neg

  pub add_right_cancel : (a b c : F) → a ⊕ c ≡ b ⊕ c → a ≡ b
  add_right_cancel a b c h =
      a
      ≡⟨ sym (add-zero a) ⟩ a ⊕ k.zero
      ≡⟨ ap (◌⊕◌ a) (sym (k.add-neg c)) ⟩ a ⊕ (c ⊕ k.neg c)
      ≡⟨ sym (k.add_assoc a c (k.neg c)) ⟩ a ⊕ c ⊕ k.neg c
      ≡⟨ ap (λ t. t ⊕ k.neg c) h ⟩ b ⊕ c ⊕ k.neg c
      ≡⟨ k.add_assoc b c (k.neg c) ⟩ b ⊕ (c ⊕ k.neg c)
      ≡⟨ ap (◌⊕◌ b) (k.add-neg c) ⟩ b ⊕ k.zero
      ≡⟨ add-zero b ⟩ b ∎

  pub mul-zero : (a : F) → a ⊗ k.zero ≡ k.zero
  mul-zero a =
      add_right_cancel (a ⊗ k.zero) k.zero (a ⊗ k.zero)
        (sym (k.mul-add a k.zero k.zero) ∙ ap (◌⊗◌ a) (k.zero-add k.zero) ∙ sym (k.zero-add _))

  pub zero-mul : (a : F) → k.zero ⊗ a ≡ k.zero
  zero-mul a = k.mul_comm k.zero a ∙ mul-zero a

  pub sub-add : (a b : F) → a ⊖ b ⊕ b ≡ a
  sub-add a b =
      a ⊖ b ⊕ b
      ≡⟨ ap (λ t. t ⊕ b) (k.sub_eq a b) ⟩ a ⊕ k.neg b ⊕ b
      ≡⟨ k.add_assoc a (k.neg b) b ⟩ a ⊕ (k.neg b ⊕ b)
      ≡⟨ ap (◌⊕◌ a) (k.add_comm (k.neg b) b ∙ k.add-neg b) ⟩ a ⊕ k.zero
      ≡⟨ add-zero a ⟩ a ∎

  -- An equation with a difference is one without it.
  pub sub_of_add : (a b c : F) → a ≡ c ⊕ b → a ⊖ b ≡ c
  sub_of_add a b c h = add_right_cancel (a ⊖ b) c b (sub-add a b ∙ h)

  pub eq_of_sub : (a b : F) → a ⊖ b ≡ k.zero → a ≡ b
  eq_of_sub a b h = sym (sub-add a b) ∙ ap (λ t. t ⊕ b) h ∙ k.zero-add b

  -- The inverse, and zero for zero.
  unfoldable pub recip : F → F
  recip a = elim (k.invert a) [ some b ↦ b | none ↦ k.zero ]

  pub invert-recip : (a : F) → a ≢ k.zero → k.invert a ≡ some (recip a)
  unfolding recip
  invert-recip a h = let (b, e, p) = k.invert_some a h in rw (e, recip)

  pub mul-recip : (a : F) → a ≢ k.zero → a ⊗ recip a ≡ k.one
  unfolding recip
  mul-recip a h = let (b, e, p) = k.invert_some a h in rw (recip, e) p

  from_u128-add : (m n : ℕ) → k.from_u128 (m + n) ≡ k.from_u128 m ⊕ k.from_u128 n
  from_u128-add zero n =
      ap k.from_u128 (omega arith)
      ∙ sym (ap (λ t. t ⊕ k.from_u128 n) k.from_u128-zero ∙ k.zero-add _)
  from_u128-add (suc m) n =
      ap k.from_u128 {y = suc (m + n)} (omega arith)
      ∙ k.from_u128-suc (m + n)
      ∙ ap (◌⊕◌ k.one) (from_u128-add m n)
      ∙ sym (k.add_assoc _ _ _)
      ∙ ap (λ t. t ⊕ k.from_u128 n) (sym (k.from_u128-suc m))

  pub from_u128-mul : (m n : ℕ) → k.from_u128 (m * n) ≡ k.from_u128 m ⊗ k.from_u128 n
  from_u128-mul zero n =
      ap k.from_u128 {y = zero} (omega arith)
      ∙ k.from_u128-zero
      ∙ sym (ap (λ t. t ⊗ k.from_u128 n) k.from_u128-zero ∙ zero-mul _)
  from_u128-mul (suc m) n =
      ap k.from_u128 {y = n + m * n} (omega arith)
      ∙ from_u128-add n (m * n)
      ∙ ap₂ ◌⊕◌ (sym (k.one-mul _)) (from_u128-mul m n)
      ∙ sym (add-mul k.one (k.from_u128 m) (k.from_u128 n))
      ∙ ap (λ t. t ⊗ k.from_u128 n) (sym (k.from_u128-suc m))

  pub from_u128-one : k.from_u128 1 ≡ k.one
  from_u128-one = k.from_u128-suc 0 ∙ ap (◌⊕◌ k.one) k.from_u128-zero ∙ add-zero k.one

pub ruleset sums = (add_assoc, add_comm, add_left_comm, zero-add, add-zero)

pub ruleset products =
    (mul_assoc, mul_comm, mul_left_comm, one-mul, mul-one, zero-mul, mul-zero, mul-add, add-mul)

pub ruleset ring = (sums, products)

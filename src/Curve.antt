-- ===== src/Curve.antt =====
-- The traits `Curve`, `PointTrait` and `ScalarTrait` of network/crates/cryptography/src/curve.rs.
-- Their two implementations pass every operation on to the crates `k256` and `ark_ed_on_bn254`, so a
-- curve is a record of the operations with the documented laws of a group of prime order: points
-- are a commutative group on which scalars act, and field elements and scalars are two
-- representations of the same field. The laws hold for every point of secp256k1. On Baby Jubjub they
-- hold for the points of the subgroup of prime order other than 0: there `encode` panics at 0,
-- and `from_encoded` admits points outside of the subgroup.
pub mod Laws
use human_network.Prelude.{ℕ, ◌≡◌, ◌↔◌, Bool, true, List, Option, some, Outcome, ok}
use human_network.Field.{Field, ◌⊕◌, ◌⊗◌}

pub record Curve (F : Type 0) (S : Type 0) (P : Type 0) ⦃k : Field F⦄ : Type 0 where
  -- `Self::Scalar` and its conversions from and to `Self::FieldEl`
  pub into : F → S
  pub from : S → F
  pub s_add : S → S → S
  pub s_sub : S → S → S
  pub s_mul : S → S → S
  -- its answer is a panic at 0 of Baby Jubjub, and none at 0 of secp256k1
  pub mul_inv : S → Outcome (Option S)
  pub s_eq : S → S → Bool
  pub from_biguint_vartime : ℕ → Outcome S
  -- `Self::Point`
  pub zero : P
  pub base_point_or_generator : P
  pub add_self : P → P → P
  pub scalar_mul : P → S → P
  pub p_eq : P → P → Bool
  pub encode : P → List ℕ
  pub from_encoded : List ℕ → Outcome P
  pub hash_to_curve : List ℕ → Outcome P
  pub hash_from_curve : P → ℕ
  pub field_modulus : ℕ
  pub s_eq_iff : (a b : S) → (s_eq a b ≡ true) ↔ (a ≡ b)
  pub p_eq_iff : (p q : P) → (p_eq p q ≡ true) ↔ (p ≡ q)
  pub from-into : (a : F) → from (into a) ≡ a
  pub into-from : (s : S) → into (from s) ≡ s
  pub into-add : (a b : F) → into (a ⊕ b) ≡ s_add (into a) (into b)
  pub into-mul : (a b : F) → into (a ⊗ b) ≡ s_mul (into a) (into b)
  pub s_sub-add : (a b : S) → s_add (s_sub a b) b ≡ a
  pub mul_inv_some : (s t : S) → mul_inv s ≡ ok (some t) → s_mul s t ≡ into k.one
  pub add_self_assoc : (p q r : P) → add_self (add_self p q) r ≡ add_self p (add_self q r)
  pub add_self_comm : (p q : P) → add_self p q ≡ add_self q p
  pub zero-add_self : (p : P) → add_self zero p ≡ p
  pub scalar_mul-add :
      (p : P) (s t : S) → scalar_mul p (s_add s t) ≡ add_self (scalar_mul p s) (scalar_mul p t)
  pub scalar_mul-mul : (p : P) (s t : S) → scalar_mul p (s_mul s t) ≡ scalar_mul (scalar_mul p s) t
  pub scalar_mul-zero : (p : P) → scalar_mul p (into k.zero) ≡ zero
  pub scalar_mul-one : (p : P) → scalar_mul p (into k.one) ≡ p
  -- The generator's order is that of the field.
  pub generator_injective :
      (a b : F)
      → scalar_mul base_point_or_generator (into a) ≡ scalar_mul base_point_or_generator (into b)
      → a ≡ b
  pub from_encoded-encode : (p : P) → from_encoded (encode p) ≡ ok p

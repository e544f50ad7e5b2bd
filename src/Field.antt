-- ===== src/Field.antt =====
-- `ff::PrimeField`, the scalar field of a curve, which network/crates/cryptography takes from the
-- crate `ff`. Its documented behaviour is the record below; every polynomial and every Lagrange
-- coefficient of the program is computed by these operations alone.
pub mod Laws
use human_network.Prelude.{ℕ, zero, suc, ◌≡◌, ◌≢◌, ◌<◌, Option, none, some}

pub record Field (F : Type 0) : Type 0 where
  pub zero : F
  pub one : F
  pub add : F → F → F
  pub neg : F → F
  pub sub : F → F → F
  pub mul : F → F → F
  -- `none` at zero
  pub invert : F → Option F
  pub pow : F → ℕ → F
  pub from_u128 : ℕ → F
  -- the decimal text of a number
  pub from_str_vartime : ℕ → Option F
  -- the modulus
  pub order : ℕ
  pub add_assoc : (a b c : F) → add (add a b) c ≡ add a (add b c)
  pub add_comm : (a b : F) → add a b ≡ add b a
  pub zero-add : (a : F) → add zero a ≡ a
  pub add-neg : (a : F) → add a (neg a) ≡ zero
  pub sub_eq : (a b : F) → sub a b ≡ add a (neg b)
  pub mul_assoc : (a b c : F) → mul (mul a b) c ≡ mul a (mul b c)
  pub mul_comm : (a b : F) → mul a b ≡ mul b a
  pub one-mul : (a : F) → mul one a ≡ a
  pub mul-add : (a b c : F) → mul a (add b c) ≡ add (mul a b) (mul a c)
  pub invert_some : (a : F) → a ≢ zero → (b : F) × (invert a ≡ some b) × (mul a b ≡ one)
  pub pow-zero : (a : F) → pow a 0 ≡ one
  pub pow-suc : (a : F) (n : ℕ) → pow a (suc n) ≡ mul a (pow a n)
  pub from_u128-zero : from_u128 0 ≡ zero
  pub from_u128-suc : (n : ℕ) → from_u128 (suc n) ≡ add one (from_u128 n)
  pub from_u128_injective : (m n : ℕ) → m < order → n < order → from_u128 m ≡ from_u128 n → m ≡ n
  pub from_str_eq : (n : ℕ) → from_str_vartime n ≡ some (from_u128 n)

module _ {F : Type 0} ⦃k : Field F⦄ where
  infixl 65 ◌⊕◌ ◌⊖◌
  infixl 70 ◌⊗◌
  abbrev pub ◌⊕◌ : F → F → F
  ◌⊕◌ = k.add

  abbrev pub ◌⊖◌ : F → F → F
  ◌⊖◌ = k.sub

  abbrev pub ◌⊗◌ : F → F → F
  ◌⊗◌ = k.mul

-- ===== src/Examples/Group.antt =====
-- The residues as scalars and as points: a curve in which a point is its discrete logarithm.
use human_network.Prelude.{
  ok_injective, ℕ, ◌+◌, ◌≡◌, refl, sym, ap, ◌∙◌, List, [], ◌∷◌, some, Outcome, ok, err,
  invalid_input, arith,
}
use human_network.Curve.{Curve}
use human_network.Examples.Residue.{
  Residue, r0, r1, r2, r3, r4, r5, r6, val, residue, add, sub, mul, invert, beq, beq_iff, residues,
  all7, check₂,
}

abbrev pub decode : List ℕ → Outcome Residue
decode (n ∷ []) = ok (residue n)
decode _ = err invalid_input

abbrev hash_point : List ℕ → Outcome Residue
hash_point (n ∷ _) = ok (residue (n + 1))
hash_point [] = err invalid_input

pub decode-val : (p : Residue) → ok (residue (val p)) ≡ ok p
decode-val r0 = refl
decode-val r1 = refl
decode-val r2 = refl
decode-val r3 = refl
decode-val r4 = refl
decode-val r5 = refl
decode-val r6 = refl

pub sub-add_lem : (a b : Residue) → add (sub a b) b ≡ a
unfolding all7
sub-add_lem = check₂ (λ a b. add (sub a b) b) (λ a b. a) refl

-- Multiplication by 5 undoes that by the base point 3.
pub times_5 : (a : Residue) → mul (mul r3 a) r5 ≡ a
unfolding all7
times_5 a = check₂ (λ _ a. mul (mul r3 a) r5) (λ _ a. a) refl r0 a

pub invert_mul : (s t : Residue) → invert s ≡ some t → mul s t ≡ r1
invert_mul s t h = ground arith

pub mul_one : (a : Residue) → mul a r1 ≡ a
unfolding all7
mul_one a = check₂ (λ _ a. mul a r1) (λ _ a. a) refl r0 a

pub mul_zero : (a : Residue) → mul a r0 ≡ r0
unfolding all7
mul_zero a = check₂ (λ _ a. mul a r0) (λ _ a. r0) refl r0 a

abbrev pub group : Curve Residue Residue Residue
group = record {
  into = λ a. a;
  from = λ a. a;
  s_add = add;
  s_sub = sub;
  s_mul = mul;
  mul_inv = λ s. ok (invert s);
  s_eq = beq;
  from_biguint_vartime = λ n. ok (residue n);
  zero = r0;
  base_point_or_generator = r3;
  add_self = add;
  scalar_mul = mul;
  p_eq = beq;
  encode = λ p. val p ∷ [];
  from_encoded = decode;
  hash_to_curve = hash_point;
  hash_from_curve = val;
  field_modulus = 7;
  s_eq_iff = beq_iff;
  p_eq_iff = beq_iff;
  from-into = λ a. refl;
  into-from = λ a. refl;
  into-add = λ a b. refl;
  into-mul = λ a b. refl;
  s_sub-add = sub-add_lem;
  mul_inv_some = λ s t h. invert_mul s t (ok_injective h);
  add_self_assoc = residues.add_assoc;
  add_self_comm = residues.add_comm;
  zero-add_self = residues.zero-add;
  scalar_mul-add = residues.mul-add;
  scalar_mul-mul = λ p s t. sym (residues.mul_assoc p s t);
  scalar_mul-zero = mul_zero;
  scalar_mul-one = mul_one;
  generator_injective = λ a b h. sym (times_5 a) ∙ ap (λ t. mul t r5) h ∙ times_5 b;
  from_encoded-encode = decode-val;
}

-- ===== src/Examples/Residue.antt =====
-- The field of seven elements, which meets every law that `Field` asks for.
use human_network.Prelude.{
  ℕ, zero, suc, ◌+◌, ◌*◌, ◌%◌, ◌<◌, ◌≡◌, ◌≢◌, ◌↔◌, refl, sym, ap, ◌∙◌, Bool, true, ◌&&◌, Option,
  none, some, ◌==◌, arith,
}
use human_network.Field.{Field}

pub data Residue : Type 0 where
  r0 r1 r2 r3 r4 r5 r6 : Residue

abbrev pub val : Residue → ℕ
val r0 = 0
val r1 = 1
val r2 = 2
val r3 = 3
val r4 = 4
val r5 = 5
val r6 = 6

abbrev below_7 : ℕ → Residue
below_7 zero = r0
below_7 (suc zero) = r1
below_7 (suc (suc zero)) = r2
below_7 (suc (suc (suc zero))) = r3
below_7 (suc (suc (suc (suc zero)))) = r4
below_7 (suc (suc (suc (suc (suc zero))))) = r5
below_7 (suc (suc (suc (suc (suc (suc n)))))) = r6

abbrev pub residue : ℕ → Residue
residue n = below_7 (n % 7)

abbrev pub add : Residue → Residue → Residue
add a b = residue (val a + val b)

abbrev pub mul : Residue → Residue → Residue
mul a b = residue (val a * val b)

abbrev pub neg : Residue → Residue
neg a = residue (val a * 6)

abbrev pub sub : Residue → Residue → Residue
sub a b = add a (neg b)

abbrev pub invert : Residue → Option Residue
invert r0 = none
invert r1 = some r1
invert r2 = some r4
invert r3 = some r5
invert r4 = some r2
invert r5 = some r3
invert r6 = some r6

abbrev pub pow : Residue → ℕ → Residue
pow a zero = r1
pow a (suc n) = mul a (pow a n)

abbrev pub beq : Residue → Residue → Bool
beq a b = val a == val b

pub beq_iff : (a b : Residue) → (beq a b ≡ true) ↔ (a ≡ b)
beq_iff a b = ground arith

-- A test of all residues.
unfoldable pub all7 : (Residue → Bool) → Bool
all7 p = p r0 && (p r1 && (p r2 && (p r3 && (p r4 && (p r5 && p r6)))))

pub all7_sound : (p : Residue → Bool) → all7 p ≡ true → (a : Residue) → p a ≡ true
unfolding all7
all7_sound p h a = ground arith

pub check₂ :
    (f g : Residue → Residue → Residue)
    → all7 (λ a. all7 (λ b. beq (f a b) (g a b))) ≡ true
    → (a b : Residue) → f a b ≡ g a b
check₂ f g h a b = (beq_iff _ _).0 (
    all7_sound (λ b. beq (f a b) (g a b)) (all7_sound (λ a. all7 (λ b. beq (f a b) (g a b))) h a) b)

check₃ :
    (f g : Residue → Residue → Residue → Residue)
    → all7 (λ a. all7 (λ b. all7 (λ c. beq (f a b c) (g a b c)))) ≡ true
    → (a b c : Residue) → f a b c ≡ g a b c
check₃ f g h a =
    check₂ (f a) (g a) (all7_sound (λ a. all7 (λ b. all7 (λ c. beq (f a b c) (g a b c)))) h a)

residue-step : (n r : ℕ) → n < 7 → r ≡ suc n % 7 → below_7 r ≡ add r1 (below_7 n)
residue-step zero r h e = rw e refl
residue-step (suc zero) r h e = rw e refl
residue-step (suc (suc zero)) r h e = rw e refl
residue-step (suc (suc (suc zero))) r h e = rw e refl
residue-step (suc (suc (suc (suc zero)))) r h e = rw e refl
residue-step (suc (suc (suc (suc (suc zero))))) r h e = rw e refl
residue-step (suc (suc (suc (suc (suc (suc zero)))))) r h e = rw e refl
residue-step (suc (suc (suc (suc (suc (suc (suc n))))))) r h e = absurd (omega arith)

val-residue : (n : ℕ) → n < 7 → val (below_7 n) ≡ n
val-residue zero h = refl
val-residue (suc zero) h = refl
val-residue (suc (suc zero)) h = refl
val-residue (suc (suc (suc zero))) h = refl
val-residue (suc (suc (suc (suc zero)))) h = refl
val-residue (suc (suc (suc (suc (suc zero))))) h = refl
val-residue (suc (suc (suc (suc (suc (suc zero)))))) h = refl
val-residue (suc (suc (suc (suc (suc (suc (suc n))))))) h = absurd (omega arith)

pub add_assoc_lem : (a b c : Residue) → add (add a b) c ≡ add a (add b c)
unfolding all7
add_assoc_lem = check₃ (λ a b c. add (add a b) c) (λ a b c. add a (add b c)) refl

pub mul_assoc_lem : (a b c : Residue) → mul (mul a b) c ≡ mul a (mul b c)
unfolding all7
mul_assoc_lem = check₃ (λ a b c. mul (mul a b) c) (λ a b c. mul a (mul b c)) refl

pub mul-add_lem : (a b c : Residue) → mul a (add b c) ≡ add (mul a b) (mul a c)
unfolding all7
mul-add_lem = check₃ (λ a b c. mul a (add b c)) (λ a b c. add (mul a b) (mul a c)) refl

pub add_comm_lem : (a b : Residue) → add a b ≡ add b a
unfolding all7
add_comm_lem = check₂ add (λ a b. add b a) refl

pub mul_comm_lem : (a b : Residue) → mul a b ≡ mul b a
unfolding all7
mul_comm_lem = check₂ mul (λ a b. mul b a) refl

pub invert_lem : (a : Residue) → a ≢ r0 → (b : Residue) × (invert a ≡ some b) × (mul a b ≡ r1)
invert_lem r0 h = absurd (h refl)
invert_lem r1 h = (r1, refl, refl)
invert_lem r2 h = (r4, refl, refl)
invert_lem r3 h = (r5, refl, refl)
invert_lem r4 h = (r2, refl, refl)
invert_lem r5 h = (r3, refl, refl)
invert_lem r6 h = (r6, refl, refl)

pub zero-add_lem : (a : Residue) → add r0 a ≡ a
unfolding all7
zero-add_lem a = check₂ (λ _ a. add r0 a) (λ _ a. a) refl r0 a

pub add-neg_lem : (a : Residue) → add a (neg a) ≡ r0
unfolding all7
add-neg_lem a = check₂ (λ _ a. add a (neg a)) (λ _ _. r0) refl r0 a

pub one-mul_lem : (a : Residue) → mul r1 a ≡ a
unfolding all7
one-mul_lem a = check₂ (λ _ a. mul r1 a) (λ _ a. a) refl r0 a

pub from_suc : (n : ℕ) → residue (suc n) ≡ add r1 (residue n)
from_suc n = residue-step (n % 7) (suc n % 7) (omega arith) (omega arith)

pub from_injective : (m n : ℕ) → m < 7 → n < 7 → residue m ≡ residue n → m ≡ n
from_injective m n hm hn e =
    let p : m % 7 ≡ m = omega arith in
    let q : n % 7 ≡ n = omega arith in
    sym (ap val (ap below_7 p) ∙ val-residue m hm)
    ∙ ap val e
    ∙ ap val (ap below_7 q)
    ∙ val-residue n hn

instance abbrev pub residues : Field Residue
residues = record {
  zero = r0;
  one = r1;
  add = add;
  neg = neg;
  sub = sub;
  mul = mul;
  invert = invert;
  pow = pow;
  from_u128 = residue;
  from_str_vartime = λ n. some (residue n);
  order = 7;
  add_assoc = add_assoc_lem;
  add_comm = add_comm_lem;
  zero-add = zero-add_lem;
  add-neg = add-neg_lem;
  sub_eq = λ a b. refl;
  mul_assoc = mul_assoc_lem;
  mul_comm = mul_comm_lem;
  one-mul = one-mul_lem;
  mul-add = mul-add_lem;
  invert_some = invert_lem;
  pow-zero = λ a. refl;
  pow-suc = λ a n. refl;
  from_u128-zero = refl;
  from_u128-suc = from_suc;
  from_u128_injective = from_injective;
  from_str_eq = λ n. refl;
}

-- ===== src/Curve/Laws.antt =====
-- Field elements act on points through their scalars.
use human_network.Prelude.{◌≡◌, sym, ap, ap₂, ◌∙◌, ◌≡⟨◌⟩◌, ◌∎}
use human_network.Field.{Field, ◌⊕◌, ◌⊗◌}
use human_network.Field.Laws.{mul_comm}
use human_network.Curve.{Curve}

module _ {F S P : Type 0} ⦃k : Field F⦄ (c : Curve F S P) where
  -- The multiple of a point by a field element.
  abbrev pub act : P → F → P
  act p a = c.scalar_mul p (c.into a)

  pub act-add : (p : P) (a b : F) → act p (a ⊕ b) ≡ c.add_self (act p a) (act p b)
  act-add p a b = ap (c.scalar_mul p) (c.into-add a b) ∙ c.scalar_mul-add p _ _

  pub act-mul : (p : P) (a b : F) → act p (a ⊗ b) ≡ act (act p a) b
  act-mul p a b = ap (c.scalar_mul p) (c.into-mul a b) ∙ c.scalar_mul-mul p _ _

  pub act_comm : (p : P) (a b : F) → act (act p a) b ≡ act (act p b) a
  act_comm p a b = sym (act-mul p a b) ∙ ap (act p) (mul_comm a b) ∙ act-mul p b a

  pub add_self-zero : (p : P) → c.add_self p c.zero ≡ p
  add_self-zero p = c.add_self_comm p c.zero ∙ c.zero-add_self p

  pub s_mul_comm : (s t : S) → c.s_mul s t ≡ c.s_mul t s
  s_mul_comm s t =
      ap₂ c.s_mul (sym (c.into-from s)) (sym (c.into-from t))
      ∙ sym (c.into-mul (c.from s) (c.from t))
      ∙ ap c.into (mul_comm (c.from s) (c.from t))
      ∙ c.into-mul (c.from t) (c.from s)
      ∙ ap₂ c.s_mul (c.into-from t) (c.into-from s)

  pub scalar_mul_comm :
      (p : P) (s t : S) → c.scalar_mul (c.scalar_mul p s) t ≡ c.scalar_mul (c.scalar_mul p t) s
  scalar_mul_comm p s t =
      sym (c.scalar_mul-mul p s t) ∙ ap (c.scalar_mul p) (s_mul_comm s t) ∙ c.scalar_mul-mul p t s

  neg : P → P
  neg p = act p (k.neg k.one)

  add_self-neg : (p : P) → c.add_self p (neg p) ≡ c.zero
  unfolding neg
  add_self-neg p =
      ap (λ q. c.add_self q (neg p)) (sym (c.scalar_mul-one p))
      ∙ sym (act-add p k.one (k.neg k.one))
      ∙ ap (act p) (k.add-neg k.one)
      ∙ c.scalar_mul-zero p

  pub add_self_right_cancel : (p q r : P) → c.add_self p r ≡ c.add_self q r → p ≡ q
  add_self_right_cancel p q r h =
      p
      ≡⟨ sym (add_self-zero p) ∙ ap (c.add_self p) (sym (add_self-neg r)) ⟩
        c.add_self p (c.add_self r (neg r))
      ≡⟨ sym (c.add_self_assoc p r (neg r)) ∙ ap (λ t. c.add_self t (neg r)) h ⟩
        c.add_self (c.add_self q r) (neg r)
      ≡⟨ c.add_self_assoc q r (neg r) ∙ ap (c.add_self q) (add_self-neg r) ⟩ c.add_self q c.zero
      ≡⟨ add_self-zero q ⟩ q ∎

  pub add_self_left_comm :
      (p q r : P) → c.add_self p (c.add_self q r) ≡ c.add_self q (c.add_self p r)
  add_self_left_comm p q r =
      sym (c.add_self_assoc p q r)
      ∙ ap (λ t. c.add_self t r) (c.add_self_comm p q)
      ∙ c.add_self_assoc q p r

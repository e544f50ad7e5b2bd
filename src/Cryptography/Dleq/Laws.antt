-- ===== src/Cryptography/Dleq/Laws.antt =====
-- Which proofs `DLEQProof` accepts.
use human_network.Prelude.{
  ℕ, ◌≡◌, ◌≢◌, ◌↔◌, refl, sym, ap, ap₂, ◌∙◌, ◌≡⟨◌⟩◌, ◌∎, Bool, true, ◌&&◌, List, ok, ◌>>=◌, ensure,
  invalid_dleq_proof, >>=-eq-ok, arith, subst, ok_injective,
}
use human_network.Field.{Field, ◌⊖◌, ◌⊗◌}
use human_network.Curve.{Curve}
use human_network.Field.Laws.{recip, mul-recip, eq_of_sub, sub-add}
use human_network.Curve.Laws.{
  add_self_right_cancel, add_self_left_comm, act-add, act-mul, act, s_mul_comm,
}
use human_network.Cryptography.Dleq.{
  DleqProof, challenge_hash, prove, should_be_r_a, should_be_r_b, verify_and_get_output,
}

module _ {F S P : Type 0} ⦃k : Field F⦄ (c : Curve F S P) (hash512 : List ℕ → List ℕ) where
  -- The response r - e x undoes the challenge: p (r - e x) + (p x) e = p r.
  response_cancels :
      (p : P) (r e x : S)
      → c.add_self (c.scalar_mul p (c.s_sub r (c.s_mul e x))) (c.scalar_mul (c.scalar_mul p x) e)
        ≡ c.scalar_mul p r
  response_cancels p r e x =
      ap (c.add_self (c.scalar_mul p (c.s_sub r (c.s_mul e x))))
        (sym (c.scalar_mul-mul p x e) ∙ ap (c.scalar_mul p) (s_mul_comm c x e))
      ∙ sym (c.scalar_mul-add p (c.s_sub r (c.s_mul e x)) (c.s_mul e x))
      ∙ ap (c.scalar_mul p) (c.s_sub-add r (c.s_mul e x))

  guards_hold :
      (a b : S) (p q u v : P)
      → a ≡ b
      → p ≡ q
      → u ≡ v
      → (c.s_eq a b && (c.p_eq p q && c.p_eq u v)) ≡ true
  guards_hold a b p q u v h i j =
      rw ((c.s_eq_iff a b).1 h, (c.p_eq_iff p q).1 i, (c.p_eq_iff u v).1 j)

  guards_held :
      (b₁ b₂ b₃ : Bool) (o out : P)
      → (ensure (b₁ && (b₂ && b₃)) invalid_dleq_proof >>= λ _. ok o) ≡ ok out
      → (b₁ ≡ true) × (b₂ ≡ true) × (b₃ ≡ true) × (o ≡ out)
  guards_held b₁ b₂ b₃ o out h = ground arith

  -- What `prove` returns for the challenge `e`.
  abbrev honest : S → P → S → S → DleqProof S P
  honest r input_point x e = record {
    input_point = input_point;
    pubkey = c.scalar_mul c.base_point_or_generator x;
    output_point = c.scalar_mul input_point x;
    r_pub = c.scalar_mul c.base_point_or_generator r;
    r_in = c.scalar_mul input_point r;
    challenge = e;
    response = c.s_sub r (c.s_mul e x);
  }

  honest_verifies :
      (r : S) (input_point : P) (x e : S)
      → challenge_hash c hash512 input_point
          (c.scalar_mul c.base_point_or_generator x)
          (c.scalar_mul input_point x)
          (c.scalar_mul c.base_point_or_generator r)
          (c.scalar_mul input_point r)
        ≡ ok e
      → verify_and_get_output c hash512
          (honest r input_point x e)
          (c.scalar_mul c.base_point_or_generator x)
          input_point
        ≡ ok (c.scalar_mul input_point x)
  unfolding verify_and_get_output
  honest_verifies r input_point x e h = rw (
    response_cancels c.base_point_or_generator r e x,
    response_cancels input_point r e x,
    h,
    guards_hold e e input_point input_point (c.scalar_mul c.base_point_or_generator x) _ refl refl
        refl,
  )

  -- A proof that `DLEQProof::new` makes with a secret passes the check against the secret's public
  -- key and the point that was multiplied, and the check returns the secret times this point.
  pub verify-prove :
      (r : S) (input_point : P) (secret_key : S) {proof : DleqProof S P}
      → prove c hash512 r input_point secret_key ≡ ok proof
      → verify_and_get_output c hash512 proof
          (c.scalar_mul c.base_point_or_generator secret_key)
          input_point
        ≡ ok (c.scalar_mul input_point secret_key)
  unfolding prove
  verify-prove r input_point secret_key h =
      let (e, he, hp) =
        >>=-eq-ok
          (challenge_hash c hash512 input_point (c.scalar_mul c.base_point_or_generator secret_key)
            (c.scalar_mul input_point secret_key) (c.scalar_mul c.base_point_or_generator r)
            (c.scalar_mul input_point r))
          _ h in
      subst
        (λ p.
          verify_and_get_output c hash512 p (c.scalar_mul c.base_point_or_generator secret_key)
            input_point
          ≡ ok (c.scalar_mul input_point secret_key))
        (ok_injective hp) (honest_verifies r input_point secret_key e he)

  -- The check accepts exactly when the recomputed challenge is the proof's own and the proof speaks
  -- of the expected point and public key, and then it returns the output point of the proof.
  pub verify-ok_iff :
      (proof : DleqProof S P) (pubkey point_to_multiply out : P)
      → (verify_and_get_output c hash512 proof pubkey point_to_multiply ≡ ok out) ↔ (
          (challenge_hash c hash512 point_to_multiply proof.pubkey proof.output_point
              (should_be_r_a c hash512 proof)
              (should_be_r_b c hash512 proof)
            ≡ ok proof.challenge)
          × (proof.input_point ≡ point_to_multiply)
          × (proof.pubkey ≡ pubkey)
          × (proof.output_point ≡ out))
  unfolding verify_and_get_output
  verify-ok_iff proof pubkey pt out = (accepted, accepts)
    where
      accepted :
          verify_and_get_output c hash512 proof pubkey pt ≡ ok out
          → (challenge_hash c hash512 pt proof.pubkey proof.output_point
                (should_be_r_a c hash512 proof)
                (should_be_r_b c hash512 proof)
              ≡ ok proof.challenge)
            × (proof.input_point ≡ pt)
            × (proof.pubkey ≡ pubkey)
            × (proof.output_point ≡ out)
      accepted h =
          let (e, he, hc) =
            >>=-eq-ok
              (challenge_hash c hash512 pt proof.pubkey proof.output_point
                (should_be_r_a c hash512 proof) (should_be_r_b c hash512 proof))
              _ h in
          let (b₁, b₂, b₃, o) = guards_held _ _ _ proof.output_point out hc in
          (he ∙ ap ok ((c.s_eq_iff _ _).0 b₁), (c.p_eq_iff _ _).0 b₂, (c.p_eq_iff _ _).0 b₃, o)

      accepts :
          (challenge_hash c hash512 pt proof.pubkey proof.output_point
                (should_be_r_a c hash512 proof)
                (should_be_r_b c hash512 proof)
              ≡ ok proof.challenge)
            × (proof.input_point ≡ pt)
            × (proof.pubkey ≡ pubkey)
            × (proof.output_point ≡ out)
          → verify_and_get_output c hash512 proof pubkey pt ≡ ok out
      accepts (he, hi, hp, ho) =
          rw (he, guards_hold proof.challenge proof.challenge _ _ _ _ refl hi hp) (ap ok ho)

  -- One equation of two accepted responses to the challenges e₁ and e₂ gives R as a multiple of Q.
  extract :
      (q r : P) (s₁ s₂ e₁ e₂ : F)
      → e₁ ≢ e₂
      → c.add_self (act c q s₁) (act c r e₁) ≡ c.add_self (act c q s₂) (act c r e₂)
      → r ≡ act c q ((s₂ ⊖ s₁) ⊗ recip (e₁ ⊖ e₂))
  extract q r s₁ s₂ e₁ e₂ ne h =
      r
      ≡⟨ sym (c.scalar_mul-one r)
        ∙ ap (act c r) (sym (mul-recip (e₁ ⊖ e₂) (λ z. ne (eq_of_sub e₁ e₂ z)))) ⟩
        act c r ((e₁ ⊖ e₂) ⊗ recip (e₁ ⊖ e₂))
      ≡⟨ act-mul c r (e₁ ⊖ e₂) _ ∙ ap (λ t. act c t (recip (e₁ ⊖ e₂))) multiple ⟩
        act c (act c q (s₂ ⊖ s₁)) (recip (e₁ ⊖ e₂))
      ≡⟨ sym (act-mul c q (s₂ ⊖ s₁) _) ⟩ act c q ((s₂ ⊖ s₁) ⊗ recip (e₁ ⊖ e₂)) ∎
    where
      multiple : act c r (e₁ ⊖ e₂) ≡ act c q (s₂ ⊖ s₁)
      multiple = add_self_right_cancel c _ _ (c.add_self (act c q s₁) (act c r e₂)) (
          c.add_self (act c r (e₁ ⊖ e₂)) (c.add_self (act c q s₁) (act c r e₂))
          ≡⟨ add_self_left_comm c _ _ _
            ∙ ap (c.add_self (act c q s₁))
                (sym (act-add c r (e₁ ⊖ e₂) e₂) ∙ ap (act c r) (sub-add e₁ e₂)) ⟩
            c.add_self (act c q s₁) (act c r e₁)
          ≡⟨ h ⟩ c.add_self (act c q s₂) (act c r e₂)
          ≡⟨ ap (λ t. c.add_self (act c q t) (act c r e₂)) (sym (sub-add s₂ s₁))
            ∙ ap (λ t. c.add_self t (act c r e₂)) (act-add c q (s₂ ⊖ s₁) s₁)
            ∙ c.add_self_assoc _ _ _ ⟩
            c.add_self (act c q (s₂ ⊖ s₁)) (c.add_self (act c q s₁) (act c r e₂)) ∎)

  -- Two proofs about the same points whose recomputed commitments agree and whose challenges differ give a
  -- secret that is behind both the public key and the output point.
  common_secret :
      (π₁ π₂ : DleqProof S P)
      → π₁.input_point ≡ π₂.input_point
      → π₁.pubkey ≡ π₂.pubkey
      → π₁.output_point ≡ π₂.output_point
      → should_be_r_a c hash512 π₁ ≡ should_be_r_a c hash512 π₂
      → should_be_r_b c hash512 π₁ ≡ should_be_r_b c hash512 π₂
      → π₁.challenge ≢ π₂.challenge
      → (x : S) × (π₁.pubkey ≡ c.scalar_mul c.base_point_or_generator x)
        × (π₁.output_point ≡ c.scalar_mul π₁.input_point x)
  common_secret π₁ π₂ hi hp ho hA hB ne = (
    c.into (
        (c.from π₂.response ⊖ c.from π₁.response)
        ⊗ recip (c.from π₁.challenge ⊖ c.from π₂.challenge)),
    extract c.base_point_or_generator π₁.pubkey _ _ _ _ differ (
        lift _ _ _ _ _ _ (
          hA
          ∙ ap
              (λ t.
                c.add_self (c.scalar_mul c.base_point_or_generator π₂.response)
                  (c.scalar_mul t π₂.challenge))
              (sym hp))),
    extract π₁.input_point π₁.output_point _ _ _ _ differ (
        lift _ _ _ _ _ _ (
          hB
          ∙ ap₂ (λ t u. c.add_self (c.scalar_mul t π₂.response) (c.scalar_mul u π₂.challenge))
              (sym hi) (sym ho))),
  )
    where
      differ : c.from π₁.challenge ≢ c.from π₂.challenge
      differ e = ne (sym (c.into-from _) ∙ ap c.into e ∙ c.into-from _)

      lift :
          (q r : P) (s₁ e₁ s₂ e₂ : S)
          → c.add_self (c.scalar_mul q s₁) (c.scalar_mul r e₁)
            ≡ c.add_self (c.scalar_mul q s₂) (c.scalar_mul r e₂)
          → c.add_self (act c q (c.from s₁)) (act c r (c.from e₁))
            ≡ c.add_self (act c q (c.from s₂)) (act c r (c.from e₂))
      lift q r s₁ e₁ s₂ e₂ h =
          ap₂ c.add_self (act-from q s₁) (act-from r e₁)
          ∙ h
          ∙ sym (ap₂ c.add_self (act-from q s₂) (act-from r e₂))
        where
          act-from : (q : P) (s : S) → act c q (c.from s) ≡ c.scalar_mul q s
          act-from q s = ap (c.scalar_mul q) (c.into-from s)

module _ {F S P : Type 0} ⦃k : Field F⦄ (c : Curve F S P) where
  -- Special soundness, with the hash as a random oracle that is programmed in two ways: when
  -- `verify_and_get_output` accepts two proofs for one public key and one point with the same output, each
  -- under its own hash function, and their recomputed commitments agree while their challenges differ,
  -- there is a secret that is behind both the public key and the returned output.
  pub verify_special_soundness :
      (hash₁ hash₂ : List ℕ → List ℕ) (π₁ π₂ : DleqProof S P) (pubkey point_to_multiply out : P)
      → verify_and_get_output c hash₁ π₁ pubkey point_to_multiply ≡ ok out
      → verify_and_get_output c hash₂ π₂ pubkey point_to_multiply ≡ ok out
      → should_be_r_a c hash₁ π₁ ≡ should_be_r_a c hash₂ π₂
      → should_be_r_b c hash₁ π₁ ≡ should_be_r_b c hash₂ π₂
      → π₁.challenge ≢ π₂.challenge
      → (x : S) × (pubkey ≡ c.scalar_mul c.base_point_or_generator x)
        × (out ≡ c.scalar_mul point_to_multiply x)
  verify_special_soundness hash₁ hash₂ π₁ π₂ pubkey pt out accepted₁ accepted₂ hA hB ne =
      let (e₁, i₁, p₁, o₁) = (verify-ok_iff c hash₁ π₁ pubkey pt out).0 accepted₁ in
      let (e₂, i₂, p₂, o₂) = (verify-ok_iff c hash₂ π₂ pubkey pt out).0 accepted₂ in
      let (x, of_key, of_output) =
        common_secret c hash₁ π₁ π₂ (i₁ ∙ sym i₂) (p₁ ∙ sym p₂) (o₁ ∙ sym o₂) hA hB ne in
      (x, sym p₁ ∙ of_key, sym o₁ ∙ of_output ∙ ap (λ q. c.scalar_mul q x) i₁)

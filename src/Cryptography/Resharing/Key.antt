-- ===== src/Cryptography/Resharing/Key.antt =====
-- The group's key over a resharing.
use mathlib.Core.List.{foldl}
use human_network.Prelude.{
  ℕ, suc, ◌≤◌, ◌≡◌, refl, sym, ap, ◌∙◌, List, [], ◌∷◌, map, ok, ensure, group_key_mismatch, assert,
  Outcome, ◌>>=◌, Bool, true, ◌==◌, ◌&&◌, >>=-eq-ok, ok_injective, length, length-map, Assoc,
  values, err, Bool-cases, inl, inr, subst, ◌≢◌, ==-of_eq,
}
use human_network.Field.{Field, ◌⊕◌, ◌⊗◌}
use human_network.Field.Laws.{mul_comm}
use human_network.Curve.{Curve}
use human_network.Curve.Laws.{act, act-add, add_self-zero}
use human_network.Cryptography.Polynomial.{from_coeffs, eval}
use human_network.Cryptography.Polynomial.Lagrange.{IsNodeSet, basis, weighted}
use human_network.Cryptography.Polynomial.Lagrange.Interpolation.{weighted-eval, eval-zero}
use human_network.Cryptography.Dkg.{
  Rsa, Node, Network, all_committed, decrypt_all, verify_all, sum_commitments,
}
use human_network.Cryptography.Resharing.{resharing_round_2}

-- What a chain of the form of round 2 has gone through when it returns a value.
module _ {Y G T : Type 0} (ver : Y → Outcome (Unit {0})) (sum : Outcome G) (test : G → Bool)
    (fin : Y → G → T) where
  compared : Y → G → Outcome T
  compared y g = ensure (test g) group_key_mismatch >>= λ _. ok (fin y g)

  verified : Y → Outcome T
  verified y = ver y >>= λ _. sum >>= compared y

  compared-ok : (y : Y) (g : G) (t : T) → compared y g ≡ ok t → (test g ≡ true) × (fin y g ≡ t)
  unfolding compared
  compared-ok y g t h = elim (Bool-cases (test g)) [
    | inl e ↦ (
      e,
      ok_injective (subst (λ b. (ensure b group_key_mismatch >>= λ _. ok (fin y g)) ≡ ok t) e h),
    )
    | inr e ↦
        absurd
          (err-ne-ok (subst (λ b. (ensure b group_key_mismatch >>= λ _. ok (fin y g)) ≡ ok t) e h))
  ]
    where
      err-ne-ok : {t : T} → err group_key_mismatch ≢ ok t
      err-ne-ok h = cc

  verified-ok :
      (y : Y) (t : T)
      → verified y ≡ ok t
      → (ver y ≡ ok tt) × ((g : G) × (sum ≡ ok g) × (test g ≡ true) × (fin y g ≡ t))
  unfolding verified
  verified-ok y t h =
      let (u, e, h₁) = >>=-eq-ok (ver y) (λ _. sum >>= compared y) h in
      let (g, e₂, h₂) = >>=-eq-ok sum (compared y) h₁ in
      let (same, eq) = compared-ok y g t h₂ in (e, (g, e₂, same, eq))

  round-ok :
      (first second : Outcome (Unit {0})) (dec : Outcome Y) (t : T)
      → (first >>= λ _. second >>= λ _. dec >>= verified) ≡ ok t
      → (y : Y) × (g : G) × (dec ≡ ok y) × (ver y ≡ ok tt) × (test g ≡ true) × (fin y g ≡ t)
  round-ok first second dec t h =
      let (u, e, h₁) = >>=-eq-ok first (λ _. second >>= λ _. dec >>= verified) h in
      let (u₂, e₂, h₂) = >>=-eq-ok second (λ _. dec >>= verified) h₁ in
      let (y, e₃, h₃) = >>=-eq-ok dec verified h₂ in
      let (v, (g, e₄, same, eq)) = verified-ok y t h₃ in (y, g, e₃, v, same, eq)

module _ {F S P Pk Sk : Type 0} ⦃k : Field F⦄ (c : Curve F S P) (rsa : Rsa Pk Sk) where
  module _ (to_repr : F → List ℕ) (from_bytes_be : List ℕ → ℕ) where
    -- What the old nodes commit to: the additive share of each, followed by other points.
    abbrev pub committed : List ℕ → List ℕ → (ℕ → F) → (ℕ → List P) → Assoc (List P)
    committed ps all f rest =
        map (λ i. (i, act c c.base_point_or_generator (f i ⊗ basis i all) ∷ rest i)) ps

    sum_commitments-weighted :
        (ps all : List ℕ) (f : ℕ → F) (rest : ℕ → List P) (acc : P)
        → sum_commitments c rsa to_repr from_bytes_be acc (committed ps all f rest)
          ≡ ok (c.add_self acc (act c c.base_point_or_generator (weighted ps all f)))
    unfolding sum_commitments weighted
    sum_commitments-weighted [] all f rest acc = ap ok (
        sym
          (ap (c.add_self acc) (c.scalar_mul-zero c.base_point_or_generator) ∙ add_self-zero c acc))
    sum_commitments-weighted (p ∷ ps) all f rest acc =
        sum_commitments-weighted ps all f rest _
        ∙ ap ok (
            c.add_self_assoc acc _ _
            ∙ ap (c.add_self acc) (
                sym (act-add c c.base_point_or_generator _ _)
                ∙ ap (λ t. act c c.base_point_or_generator (t ⊕ weighted ps all f))
                    (mul_comm (f p) (basis p all))))

    -- When every node of the old quorum commits to its share of a polynomial, with at most as many
    -- coefficients as there are nodes, times its Lagrange coefficient, and the new node's shares can
    -- be decrypted and pass their verification, round 2 of the resharing returns the sum of the
    -- shares, its public key and the public key of the old secret, which it is given for comparison.
    pub resharing_round_2-shares :
        (node : Node Pk Sk F P) (t_star new_quorum : Network Pk) (input_y : Assoc (List ℕ))
        (ps : List ℕ) (secret : F) (coeffs : List F) (rest : ℕ → List P) (y : Assoc F)
        → IsNodeSet k ps
        → suc (length coeffs) ≤ length ps
        → length ps ≡ t_star.total_nodes
        → length input_y ≡ t_star.total_nodes
        → all_committed c rsa to_repr from_bytes_be new_quorum.threshold
            (committed ps ps (λ i. eval (from_coeffs (secret ∷ coeffs)) (k.from_u128 i)) rest)
          ≡ true
        → decrypt_all c rsa to_repr from_bytes_be node.rsa_seckey input_y [] ≡ ok y
        → verify_all c rsa to_repr from_bytes_be node.id y
            (committed ps ps (λ i. eval (from_coeffs (secret ∷ coeffs)) (k.from_u128 i)) rest)
            y
          ≡ ok tt
        → resharing_round_2 c rsa to_repr from_bytes_be node t_star new_quorum input_y
            (committed ps ps (λ i. eval (from_coeffs (secret ∷ coeffs)) (k.from_u128 i)) rest)
            (act c c.base_point_or_generator secret)
          ≡ ok (
            foldl ◌⊕◌ k.zero (values y),
            act c c.base_point_or_generator (foldl ◌⊕◌ k.zero (values y)),
            act c c.base_point_or_generator secret,
          )
    unfolding resharing_round_2 from_coeffs
    resharing_round_2-shares node t_star new_quorum input_y ps secret coeffs rest y set enough n m
          all dec ver =
        let f = λ (i : ℕ). eval (from_coeffs (secret ∷ coeffs)) (k.from_u128 i) in
        let group = act c c.base_point_or_generator secret in
        let sum : c.add_self c.zero (act c c.base_point_or_generator (weighted ps ps f)) ≡ group =
          c.zero-add_self _
          ∙ ap (act c c.base_point_or_generator) (
              weighted-eval ps (from_coeffs (secret ∷ coeffs)) set enough
              ∙ eval-zero (from_coeffs (secret ∷ coeffs)) secret coeffs refl) in
        rw
          (
            ==-of_eq (length (committed ps ps f rest)) t_star.total_nodes (length-map _ ps ∙ n),
            ==-of_eq (length input_y) t_star.total_nodes m,
            all,
            dec,
            ver,
            sum_commitments-weighted ps ps f rest c.zero,
            sum,
            (c.p_eq_iff group group).1 refl,
          )
          refl

    -- Whatever the nodes sent, when round 2 of the resharing returns, the group's key is the one it
    -- was given, the public share belongs to the private one, and every share that it decrypted
    -- passed its verification.
    pub resharing_round_2-ok :
        (node : Node Pk Sk F P) (t_star new_quorum : Network Pk) (input_y : Assoc (List ℕ))
        (input_v : Assoc (List P)) (K_dkg : P) (ki : F) (Ki group : P)
        → resharing_round_2 c rsa to_repr from_bytes_be node t_star new_quorum input_y input_v K_dkg
          ≡ ok (ki, Ki, group)
        → (group ≡ K_dkg)
          × (Ki ≡ act c c.base_point_or_generator ki)
          × ((y : Assoc F) × (decrypt_all c rsa to_repr from_bytes_be node.rsa_seckey input_y []
                ≡ ok y)
              × (verify_all c rsa to_repr from_bytes_be node.id y input_v y ≡ ok tt)
              × (ki ≡ foldl ◌⊕◌ k.zero (values y)))
    unfolding resharing_round_2 verified compared
    resharing_round_2-ok node t_star new_quorum input_y input_v K_dkg ki Ki group h =
        let (y, g, dec, ver, test, eq) =
          round-ok (λ y. verify_all c rsa to_repr from_bytes_be node.id y input_v y)
            (sum_commitments c rsa to_repr from_bytes_be c.zero input_v) (λ g. c.p_eq g K_dkg)
            (λ y g. (
              foldl ◌⊕◌ k.zero (values y),
              act c c.base_point_or_generator (foldl ◌⊕◌ k.zero (values y)),
              g,
            ))
            (assert
              ((length input_v == t_star.total_nodes) && (length input_y == t_star.total_nodes)))
            (assert (all_committed c rsa to_repr from_bytes_be new_quorum.threshold input_v))
            (decrypt_all c rsa to_repr from_bytes_be node.rsa_seckey input_y []) (ki, Ki, group)
            h in
        (
          sym (ap (λ t. t.2) eq) ∙ (c.p_eq_iff g K_dkg).0 test,
          sym (ap (λ t. t.1) eq) ∙ ap (act c c.base_point_or_generator) (ap (λ t. t.0) eq),
          (y, dec, ver, sym (ap (λ t. t.0) eq)),
        )

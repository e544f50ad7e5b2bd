-- ===== src/Cryptography/Dkg/Rounds.antt =====
-- Round 3 of the key generation between honest nodes, and when a network is admitted.
use native.Mathlib.Nat.{mod-eq_of_lt}
use mathlib.Core.List.{append-nil, append_assoc}
use human_network.Prelude.{
  ℕ, suc, ◌%◌, ◌≤◌, ◌<◌, ◌≡◌, ◌≢◌, refl, sym, ap, ap₂, ◌∙◌, List, [], ◌∷◌, ◌++◌, map, Option, none,
  some, ok_or, rsa_error, ok_injective, ok, length, Assoc, get, keys, All, All-map, All-zip,
  or_insert-fresh, All-keys-snoc, ==-of_eq,
}
use human_network.Field.{Field}
use human_network.Curve.{Curve}
use human_network.Curve.Laws.{act, add_self-zero}
use human_network.Cryptography.Polynomial.{u32_mod, from_coeffs, eval}
use human_network.Cryptography.Polynomial.Lagrange.{
  Distinct, IsNodeSet, IsReady, IsNodeSet-IsReady, basis, weighted, lagrange_basis_at_0-basis,
}
use human_network.Cryptography.Polynomial.Lagrange.Interpolation.{weighted-eval, eval-zero}
use human_network.Cryptography.Reconstruct.Laws.{act-weighted}
use human_network.Cryptography.Dkg.{Rsa, Node, Network, lambdas, combine, dkg_round_3}

sent : (o : Option (List ℕ)) (ct : List ℕ) → ok_or rsa_error o ≡ ok ct → o ≡ some ct
sent none ct h = cc
sent (some x) ct h = ap some (ok_injective h)

map-small : (xs : List ℕ) → All (λ x. x < u32_mod) xs → map (λ key. key % u32_mod) xs ≡ xs
map-small [] h = refl
map-small (x ∷ xs) (h, hs) = ap₂ ◌∷◌ (mod-eq_of_lt h) (map-small xs hs)

module _ {F S P Pk Sk : Type 0} ⦃k : Field F⦄ (c : Curve F S P) (rsa : Rsa Pk Sk) where
  -- The coefficient of every key.
  abbrev coefficients : List ℕ → List ℕ → Assoc F
  coefficients ps all = map (λ p. (p, basis p all)) ps

  lambdas-coefficients :
      (all : List ℕ) (set : Assoc Pk) (acc : Assoc F)
      → Distinct (keys set)
      → All (λ key. All (λ j. j ≢ key) (keys acc)) (keys set)
      → All (λ key. key < u32_mod) (keys set)
      → All (IsReady k all) (keys set)
      → lambdas c rsa all set acc ≡ ok (acc ++ coefficients (keys set) all)
  unfolding lambdas
  lambdas-coefficients all [] acc d f s r = ap ok (sym (append-nil acc))
  lambdas-coefficients all ((key, value) ∷ set) acc (dk, d) (fk, f) (sk, s) (rk, r) =
      rw
        (
          mod-eq_of_lt sk,
          lagrange_basis_at_0-basis key all rk.0 rk.1,
          or_insert-fresh key (basis key all) acc fk,
        )
        (lambdas-coefficients all set (acc ++ (key, basis key all) ∷ []) d
            (All-zip (λ j. key ≢ j) (λ j. All (λ i. i ≢ j) (keys acc)) _
              (λ j ne h. All-keys-snoc (λ i. i ≢ j) acc key (basis key all) h ne) (keys set) dk f)
            s r
          ∙ ap ok (append_assoc acc _ _))

  combine-weighted :
      (all ps : List ℕ) (Kj : Assoc P) (f : ℕ → F) (acc : P)
      → All (λ p. get p Kj ≡ some (act c c.base_point_or_generator (f p))) ps
      → combine c rsa Kj acc (coefficients ps all)
        ≡ ok (c.add_self acc (act c c.base_point_or_generator (weighted ps all f)))
  unfolding combine weighted
  combine-weighted all [] Kj f acc h = ap ok (
      sym (ap (c.add_self acc) (c.scalar_mul-zero c.base_point_or_generator) ∙ add_self-zero c acc))
  combine-weighted all (p ∷ ps) Kj f acc (h, hs) = rw h (
      combine-weighted all ps Kj f
        (c.add_self acc
          (c.scalar_mul (act c c.base_point_or_generator (f p)) (c.into (basis p all))))
        hs
      ∙ ap ok (act-weighted c c.base_point_or_generator p ps all f acc))

  -- When every node of the network published the public key of its share of a polynomial with at
  -- most as many coefficients as there are nodes, and the node holds the public key of its free
  -- term as that of the network, round 3 of the key generation returns that key.
  pub dkg_round_3-shares :
      (node : Node Pk Sk F P) (network : Network Pk) (Kj : Assoc P) (secret : F) (coeffs : List F)
      → IsNodeSet k (keys network.public_keys)
      → All (λ key. key < u32_mod) (keys network.public_keys)
      → length Kj ≡ network.total_nodes
      → suc (length coeffs) ≤ length (keys network.public_keys)
      → All
          (λ key.
            get key Kj
            ≡ some (
                act c c.base_point_or_generator
                  (eval (from_coeffs (secret ∷ coeffs)) (k.from_u128 key))))
          (keys network.public_keys)
      → node.network_pubkey ≡ act c c.base_point_or_generator secret
      → dkg_round_3 c rsa node network Kj ≡ ok (act c c.base_point_or_generator secret)
  unfolding dkg_round_3 from_coeffs
  dkg_round_3-shares node network Kj secret coeffs set small total enough published pubkey =
      let ids = keys network.public_keys in
      let f = λ (i : ℕ). eval (from_coeffs (secret ∷ coeffs)) (k.from_u128 i) in
      let group = act c c.base_point_or_generator secret in
      let sum : c.add_self c.zero (act c c.base_point_or_generator (weighted ids ids f)) ≡ group =
        c.zero-add_self _
        ∙ ap (act c c.base_point_or_generator) (
            weighted-eval ids (from_coeffs (secret ∷ coeffs)) set enough
            ∙ eval-zero (from_coeffs (secret ∷ coeffs)) secret coeffs refl) in
      rw
        (
          ==-of_eq (length Kj) network.total_nodes total,
          map-small ids small,
          lambdas-coefficients ids network.public_keys [] set.0
              (All-map (λ x. x < u32_mod) _ (λ x h. tt) ids small) small
              (IsNodeSet-IsReady k ids set),
          combine-weighted ids ids Kj f c.zero published,
          sum,
          (c.p_eq_iff group node.network_pubkey).1 (sym pubkey),
        )
        refl

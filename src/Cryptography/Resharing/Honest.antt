-- ===== src/Cryptography/Resharing/Honest.antt =====
-- Round 2 of the resharing at a new node, after every node of the old quorum has followed round 1.
use mathlib.Core.List.{foldl, append-nil, append_assoc}
use human_network.Prelude.{
  ℕ, suc, ◌^◌, ◌<◌, ◌≤◌, ◌≡◌, ◌≢◌, refl, sym, ap, ◌∙◌, List, [], ◌∷◌, ◌++◌, map, some, ok, true,
  Bool-cases, inl, inr, ◌==◌, ==-of_eq, arith, length, length-map, Assoc, get, keys, values, All,
  All-map, All-zip, or_insert-fresh, All-keys-snoc,
}
use human_network.Field.{Field, ◌⊕◌, ◌⊗◌}
use human_network.Curve.{Curve}
use human_network.Curve.Laws.{act}
use human_network.Cryptography.Polynomial.{from_coeffs, eval, verify_vss, u128_mod}
use human_network.Cryptography.Polynomial.Lagrange.{Distinct, IsNodeSet, basis}
use human_network.Cryptography.Polynomial.Vss.{commit, verify_vss-eval}
use human_network.Cryptography.Dkg.{
  Rsa, Node, Network, all_committed, decrypt_share, decrypt_all, verify_all,
}
use human_network.Cryptography.Resharing.{resharing_round_2}
use human_network.Cryptography.Resharing.Key.{resharing_round_2-shares}

-- The entries of the nodes.
abbrev pub entries {ℓ} : {V : Type ℓ} → (ℕ → V) → List ℕ → Assoc V
entries f ps = map (λ i. (i, f i)) ps

values-entries {ℓ} : {V : Type ℓ} (f : ℕ → V) (ps : List ℕ) → values (entries f ps) ≡ map f ps
values-entries f [] = refl
values-entries f (p ∷ ps) = ap (◌∷◌ (f p)) (values-entries f ps)

eq_by_test : (a b : ℕ) → (a == b) ≡ true → a ≡ b
eq_by_test a b h = ground arith

get-entries {ℓ} :
    {V : Type ℓ} (f : ℕ → V) (ps : List ℕ) → All (λ i. get i (entries f ps) ≡ some (f i)) ps
get-entries f [] = tt
get-entries f (p ∷ ps) = (
  rw (==-of_eq p p refl) refl,
  All-map (λ i. get i (entries f ps) ≡ some (f i)) (λ i. get i (entries f (p ∷ ps)) ≡ some (f i))
      (λ i h. elim (Bool-cases (p == i)) [
        | inl e ↦ rw e (ap (λ j. some (f j)) (eq_by_test p i e))
        | inr e ↦ rw e h
      ])
      ps (get-entries f ps),
)

no_keys : (js : List ℕ) → All (λ key. All (λ j. j ≢ key) []) js
no_keys [] = tt
no_keys (j ∷ js) = (tt, no_keys js)

module _ {F S P Pk Sk : Type 0} ⦃k : Field F⦄ (c : Curve F S P) (rsa : Rsa Pk Sk)
    (to_repr : F → List ℕ) (from_bytes_be : List ℕ → ℕ) where
  decrypt_all-entries :
      (sk : Sk) (ciphertext : ℕ → List ℕ) (share : ℕ → F) (ps : List ℕ) (y : Assoc F)
      → Distinct ps
      → All (λ key. All (λ j. j ≢ key) (keys y)) ps
      → All (λ i. decrypt_share c rsa to_repr from_bytes_be sk (ciphertext i) ≡ ok (share i)) ps
      → decrypt_all c rsa to_repr from_bytes_be sk (entries ciphertext ps) y
        ≡ ok (y ++ entries share ps)
  unfolding decrypt_all
  decrypt_all-entries sk ciphertext share [] y d fresh h = ap ok (sym (append-nil y))
  decrypt_all-entries sk ciphertext share (p ∷ ps) y (ne, d) (fresh, others) (h, hs) =
      rw (decrypt_all, h, or_insert-fresh p (share p) y fresh)
        (decrypt_all-entries sk ciphertext share ps (y ++ (p, share p) ∷ []) d
            (All-zip (λ j. p ≢ j) (λ j. All (λ i. i ≢ j) (keys y)) _
              (λ j e f. All-keys-snoc (λ i. i ≢ j) y p (share p) f e) ps ne others)
            hs
          ∙ ap ok (append_assoc y ((p, share p) ∷ []) (entries share ps)))

  verify_all-entries :
      (id : ℕ) (y : Assoc F) (input_v : Assoc (List P)) (share : ℕ → F) (points : ℕ → List P)
      (ps : List ℕ)
      → All (λ i. get i y ≡ some (share i)) ps
      → All (λ i. get i input_v ≡ some (points i)) ps
      → All (λ i. verify_vss c id (share i) (points i) ≡ ok true) ps
      → verify_all c rsa to_repr from_bytes_be id y input_v (entries share ps) ≡ ok tt
  unfolding verify_all
  verify_all-entries id y input_v share points [] a b v = refl
  verify_all-entries id y input_v share points (p ∷ ps) (a, a') (b, b') (v, v') =
      rw (verify_all, a, b, v) (verify_all-entries id y input_v share points ps a' b' v')

  all_committed-entries :
      (threshold : ℕ) (points : ℕ → List P) (ps : List ℕ)
      → All (λ i. length (points i) ≡ threshold) ps
      → all_committed c rsa to_repr from_bytes_be threshold (entries points ps) ≡ true
  unfolding all_committed
  all_committed-entries threshold points [] h = refl
  all_committed-entries threshold points (p ∷ ps) (h, hs) =
      rw (all_committed, ==-of_eq (length (points p)) threshold h)
        (all_committed-entries threshold points ps hs)

  module _ (ps : List ℕ) (secret : F) (coeffs : List F) (further : ℕ → List F) where
    -- The share of the old secret that a node of the old quorum holds.
    abbrev pub old_share : ℕ → F
    old_share i = eval (from_coeffs (secret ∷ coeffs)) (k.from_u128 i)

    -- What a node of the old quorum shares out: its own share times its Lagrange coefficient.
    abbrev pub part : ℕ → F
    part i = old_share i ⊗ basis i ps

    -- The share that a node of the old quorum computes for a new node.
    abbrev pub share_for : ℕ → ℕ → F
    share_for id i = eval (from_coeffs (part i ∷ further i)) (k.from_u128 id)

    -- A node of the old quorum has a polynomial of the new threshold's degree, with powers of the new
    -- node's index that fit into 128 bits, and what it sends decrypts to the new node's share of it.
    abbrev pub Honest : Node Pk Sk F P → ℕ → (ℕ → List ℕ) → ℕ → Type 0
    Honest node threshold ciphertext i =
        (suc (length (further i)) ≡ threshold)
        × (node.id ^ length (further i) < u128_mod)
        × (decrypt_share c rsa to_repr from_bytes_be node.rsa_seckey (ciphertext i)
            ≡ ok (share_for node.id i))

    -- When the nodes of an old quorum hold shares of a polynomial, with at most as many coefficients as
    -- there are nodes, and each commits to a polynomial of the new threshold's degree whose free term
    -- is its share times its Lagrange coefficient and sends the new node a ciphertext that decrypts to
    -- that polynomial's value, then round 2 of the resharing returns the sum of these values, its
    -- public key and the unchanged public key of the old secret. The powers of the new node's index are
    -- to fit into 128 bits.
    pub resharing_round_2-honest :
        (node : Node Pk Sk F P) (t_star new_quorum : Network Pk) (ciphertext : ℕ → List ℕ)
        → IsNodeSet k ps
        → suc (length coeffs) ≤ length ps
        → length ps ≡ t_star.total_nodes
        → All (Honest node new_quorum.threshold ciphertext) ps
        → resharing_round_2 c rsa to_repr from_bytes_be node t_star new_quorum
            (entries ciphertext ps)
            (entries (λ i. map (commit c) (part i ∷ further i)) ps)
            (act c c.base_point_or_generator secret)
          ≡ ok (
            foldl ◌⊕◌ k.zero (map (share_for node.id) ps),
            act c c.base_point_or_generator (foldl ◌⊕◌ k.zero (map (share_for node.id) ps)),
            act c c.base_point_or_generator secret,
          )
    resharing_round_2-honest node t_star new_quorum ciphertext set enough n honest =
        let share = share_for node.id in
        let points = λ (i : ℕ). map (commit c) (part i ∷ further i) in
        let kept =
          All-map (Honest node new_quorum.threshold ciphertext)
            (λ i. length (points i) ≡ new_quorum.threshold)
            (λ i h. ap suc (length-map (commit c) (further i)) ∙ h.0) ps honest in
        let valid =
          All-map (Honest node new_quorum.threshold ciphertext)
            (λ i. verify_vss c node.id (share i) (points i) ≡ ok true)
            (λ i h. (verify_vss-eval c node.id (share i) (part i) (further i) (h.1)).1 refl) ps
            honest in
        let decrypted =
          All-map (Honest node new_quorum.threshold ciphertext)
            (λ i.
              decrypt_share c rsa to_repr from_bytes_be node.rsa_seckey (ciphertext i)
              ≡ ok (share i))
            (λ i h. h.2) ps honest in
        resharing_round_2-shares c rsa to_repr from_bytes_be node t_star new_quorum
          (entries ciphertext ps) ps secret coeffs (λ i. map (commit c) (further i))
          (entries share ps) set enough n (length-map (λ i. (i, ciphertext i)) ps ∙ n)
          (all_committed-entries new_quorum.threshold points ps kept)
          (decrypt_all-entries node.rsa_seckey ciphertext share ps [] set.0 (no_keys ps) decrypted)
          (verify_all-entries node.id (entries share ps) (entries points ps) share points ps
            (get-entries share ps) (get-entries points ps) valid)
        ∙ ap
            (λ v. ok (
              foldl ◌⊕◌ k.zero v,
              act c c.base_point_or_generator (foldl ◌⊕◌ k.zero v),
              act c c.base_point_or_generator secret,
            ))
            (values-entries share ps)

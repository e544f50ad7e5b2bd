-- ===== src/Cryptography/Dkg.antt =====
-- network/crates/cryptography/src/dkg.rs: the nodes, the network, and the three rounds of the
-- distributed generation of a key. RSA of the crate `rsa`, random draws and the conversion of a field
-- element to bytes and back to a number are arguments. A `HashMap` is an association list in the
-- order of iteration; what is logged is left out.
pub mod Rounds
use mathlib.Core.List.{foldl}
use human_network.Prelude.{
  ℕ, ◌+◌, ◌-◌, ◌%◌, Bool, true, false, not, ◌&&◌, ◌||◌, List, [], ◌∷◌, map, Option, none, some,
  Outcome, ok, err, panic, invalid_parameters, key_generation_failed, rsa_error, key_not_found,
  not_a_scalar, vss_not_verified, ◌>>=◌, ◌>>◌, assert, ensure, unwrap, ok_or, map_err, ltb, leb,
  ◌==◌, if◌then◌else◌, length, Assoc, get, insert, or_insert, keys, values,
}
use human_network.Field.{Field, ◌⊕◌}
use human_network.Curve.{Curve}
use human_network.Cryptography.Polynomial.{
  u32_mod, random_polynomials_with_secret, feldman_vss, verify_vss, lagrange_basis_at_0,
}

-- What the crate `rsa` offers: the public key of a secret key, and encryption, which can fail.
pub record Rsa (Pk Sk : Type 0) : Type 0 where
  pub public_key : Sk → Pk
  pub encrypt : Pk → List ℕ → Option (List ℕ)
  pub decrypt : Sk → List ℕ → Option (List ℕ)

pub record Node (Pk Sk F P : Type 0) : Type 0 where
  pub id : ℕ
  pub rsa_pubkey : Pk
  pub rsa_seckey : Sk
  pub init_pub_share : P
  pub private_share : F
  pub network_pubkey : P
  pub own_partial_share : F

pub record Network (Pk : Type 0) : Type 0 where
  pub threshold : ℕ
  pub total_nodes : ℕ
  pub public_keys : Assoc Pk

unfoldable pub invalid_network : ℕ → ℕ → Bool → Bool
invalid_network t n is_tstar =
    if is_tstar then ltb n t || ltb n 2 || (t == 0) else leb n t || leb n 2 || (t == 0)

module _ {Pk : Type 0} where
  -- `Network::new`
  unfoldable pub new_network : ℕ → ℕ → Bool → Outcome (Network Pk)
  unfolding invalid_network
  new_network t n is_tstar =
      if invalid_network t n is_tstar
      then err invalid_parameters
      else ok (record { threshold = t; total_nodes = n; public_keys = [] })

  -- `Network::add_node`
  unfoldable pub add_node : {Sk F P : Type 0} → Network Pk → Node Pk Sk F P → Network Pk
  add_node network node = record network {
    public_keys = or_insert node.id node.rsa_pubkey network.public_keys;
  }

module _ {F S P Pk Sk : Type 0} ⦃k : Field F⦄ (c : Curve F S P) (rsa : Rsa Pk Sk) where
  -- `Node::new`, for the secret key that `RsaPrivateKey::new` made and the two random field elements.
  unfoldable pub new_node : Option Sk → F → F → ℕ → Outcome (Node Pk Sk F P)
  new_node rsa_key random₁ random₂ id = do
    rsa_seckey ← ok_or key_generation_failed rsa_key
    ok (record {
      id = id;
      rsa_pubkey = rsa.public_key rsa_seckey;
      rsa_seckey = rsa_seckey;
      init_pub_share = c.zero;
      private_share = random₁;
      network_pubkey = c.zero;
      own_partial_share = random₂;
    })

  -- `Node::with_rsa_key`
  unfoldable pub with_rsa_key : F → F → ℕ → Sk → Node Pk Sk F P
  with_rsa_key random₁ random₂ id rsa_seckey = record {
    id = id;
    rsa_pubkey = rsa.public_key rsa_seckey;
    rsa_seckey = rsa_seckey;
    init_pub_share = c.zero;
    private_share = random₁;
    network_pubkey = c.zero;
    own_partial_share = random₂;
  }

  -- `Node::with_rsa_key_and_keyshare`, where `from_bytes` is the conversion of bytes to a scalar.
  unfoldable pub with_rsa_key_and_keyshare :
      (List ℕ → Option S) → F → ℕ → Sk → List ℕ → List ℕ → Outcome (Node Pk Sk F P)
  with_rsa_key_and_keyshare from_bytes random id rsa_seckey keyshare network_pubkey = do
    scalar ← unwrap (from_bytes keyshare)
    point ← c.from_encoded network_pubkey
    ok (record {
      id = id;
      rsa_pubkey = rsa.public_key rsa_seckey;
      rsa_seckey = rsa_seckey;
      init_pub_share = c.zero;
      private_share = c.from scalar;
      network_pubkey = point;
      own_partial_share = random;
    })

  -- `to_repr` of a field element, and `BigUint::from_bytes_be`.
  module _ (to_repr : F → List ℕ) (from_bytes_be : List ℕ → ℕ) where
    -- `value.encrypt(y.get(key))`
    unfoldable pub encrypt_share : Assoc F → ℕ → Pk → Outcome (List ℕ)
    encrypt_share y key value = do
      share ← ok_or key_not_found (get key y)
      ok_or rsa_error (rsa.encrypt value (to_repr share))

    -- Step 5: the loop over the public keys of the network, the node's own left out.
    unfoldable pub encrypt_others :
        ℕ → Assoc F → Assoc Pk → Assoc (List ℕ) → Outcome (Assoc (List ℕ))
    unfolding encrypt_share
    encrypt_others id y [] y_ct = ok y_ct
    encrypt_others id y ((key, value) ∷ public_keys) y_ct =
        let skip = encrypt_others id y public_keys y_ct in
        let next = λ (ct : List ℕ). encrypt_others id y public_keys (insert key ct y_ct) in
        if not (key == id) then encrypt_share y key value >>= next else skip

    unfoldable pub dkg_round_1 :
        Node Pk Sk F P → F → (ℕ → F) → Network Pk → Outcome (Assoc (List ℕ) × List P × F)
    unfolding encrypt_others
    dkg_round_1 node ai0 random network = do
      let fi = random_polynomials_with_secret random (network.threshold - 1) ai0
      (y, v) ← feldman_vss c fi network.public_keys network.threshold
      y_ct ← encrypt_others node.id y network.public_keys []
      yii ← ok_or key_not_found (get node.id y)
      ok (y_ct, v, yii)

    -- `for (_, j) in input_v`: each commitment has as many points as the threshold.
    unfoldable pub all_committed : ℕ → Assoc (List P) → Bool
    all_committed threshold [] = true
    all_committed threshold ((key, j) ∷ input_v) =
        (length j == threshold) && all_committed threshold input_v

    -- Step 8
    unfoldable pub decrypt_share : Sk → List ℕ → Outcome F
    decrypt_share rsa_seckey value = do
      m ← ok_or rsa_error (rsa.decrypt rsa_seckey value)
      scalar ← map_err not_a_scalar (c.from_biguint_vartime (from_bytes_be m))
      ok (c.from scalar)

    unfoldable pub decrypt_all : Sk → Assoc (List ℕ) → Assoc F → Outcome (Assoc F)
    unfolding decrypt_share
    decrypt_all rsa_seckey [] y = ok y
    decrypt_all rsa_seckey ((key, value) ∷ input_y) y = do
      share ← decrypt_share rsa_seckey value
      decrypt_all rsa_seckey input_y (or_insert key share y)

    -- Step 9: the loop over the keys of `y`, each with its value looked up again.
    unfoldable pub verify_all : ℕ → Assoc F → Assoc (List P) → Assoc F → Outcome (Unit {0})
    verify_all id y input_v [] = ok tt
    verify_all id y input_v ((key, value) ∷ rest) = do
      eval ← ok_or key_not_found (get key y)
      input_v_value ← ok_or key_not_found (get key input_v)
      valid ← verify_vss c id eval input_v_value
      ensure valid vss_not_verified
      verify_all id y input_v rest

    -- Step 10: the sum of the commitments to the free terms, `x[0]`.
    unfoldable pub sum_commitments : P → Assoc (List P) → Outcome P
    sum_commitments acc [] = ok acc
    sum_commitments acc ((key, []) ∷ input_v) = panic
    sum_commitments acc ((key, x ∷ xs) ∷ input_v) = sum_commitments (c.add_self acc x) input_v

    unfoldable pub dkg_round_2 :
        Node Pk Sk F P → Network Pk → Assoc (List ℕ) → Assoc (List P) → Outcome (F × P × P)
    unfolding decrypt_all verify_all sum_commitments
    dkg_round_2 node network input_y input_v = do
      assert (
          (length input_v == network.total_nodes - 1)
          && (length input_y == network.total_nodes - 1))
      assert (all_committed network.threshold input_v)
      y ← decrypt_all node.rsa_seckey input_y []
      verify_all node.id y input_v y
      group ← sum_commitments node.init_pub_share input_v
      let ki = foldl ◌⊕◌ node.own_partial_share (values y)
      ok (ki, c.scalar_mul c.base_point_or_generator (c.into ki), group)

  -- Step 15: `acc.entry(*key).or_insert(lagrange_basis_at_0(*key as u32, &indices))`
  unfoldable pub lambdas : List ℕ → Assoc Pk → Assoc F → Outcome (Assoc F)
  lambdas indices [] acc = ok acc
  lambdas indices ((key, value) ∷ public_keys) acc = do
    at_zero ← lagrange_basis_at_0 (key % u32_mod) indices
    lambdas indices public_keys (or_insert key at_zero acc)

  -- Step 16: the fold over the coefficients.
  unfoldable pub combine : Assoc P → P → Assoc F → Outcome P
  combine Kj acc [] = ok acc
  combine Kj acc ((key, value) ∷ lambda) = do
    K_j ← ok_or key_not_found (get key Kj)
    combine Kj (c.add_self acc (c.scalar_mul K_j (c.into value))) lambda

  unfoldable pub dkg_round_3 : Node Pk Sk F P → Network Pk → Assoc P → Outcome P
  unfolding lambdas combine
  dkg_round_3 node network Kj = do
    assert (length Kj == network.total_nodes)
    let indices = map (λ key. key % u32_mod) (keys network.public_keys)
    lambda ← lambdas indices network.public_keys []
    res ← combine Kj c.zero lambda
    assert (c.p_eq res node.network_pubkey)
    ok res

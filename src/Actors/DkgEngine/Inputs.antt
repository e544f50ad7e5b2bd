-- ===== src/Actors/DkgEngine/Inputs.antt =====
-- The inputs of the first round over any sequence of operations.
use human_network.Prelude.{
  ℕ, suc, ◌≡◌, refl, sym, ap, ◌∙◌, inl, inr, List, [], ◌∷◌, Outcome, ok, err, panic, Assoc, get,
  insert, keys, Outcome-cases, Option-cases, Bool-cases, ◌==◌, length, get_elem?,
}
use human_network.Field.{Field}
use human_network.Curve.{Curve}
use human_network.Cryptography.Dkg.{Rsa, Network, dkg_round_1}
use human_network.Actors.DkgEngine.{
  Data, NodeData, decode_points, register_round_1, register_resharing_round_1,
  store_pubshare_for_node, clear_inputs, keep_shares, engine_dkg_round_1, engine_dkg_round_2,
  engine_resharing_round_2, new_node_data, get_no_of_inputs,
}

-- An operation that changes the state, with what it is given.
pub data Call (Pk F S : Type 0) : Type 0 where
  register : ℕ → ℕ → Assoc (List ℕ) → List (List ℕ) → Call Pk F S
  register_resharing : ℕ → ℕ → Assoc (List ℕ) → List (List ℕ) → Call Pk F S
  store : ℕ → List ℕ → Call Pk F S
  clear : Call Pk F S
  round_1 : (S → List ℕ) → F → (ℕ → F) → Network Pk → Call Pk F S
  round_2 : Network Pk → Call Pk F S
  reshare_2 : Network Pk → Network Pk → List ℕ → Call Pk F S

keys-insert :
    {A B : Type 0} (id : ℕ) (a : A) (b : B) (m : Assoc A) (n : Assoc B)
    → keys m ≡ keys n
    → keys (insert id a m) ≡ keys (insert id b n)
keys-insert id a b [] [] h = refl
keys-insert id a b [] ((j, y) ∷ n) h = cc
keys-insert id a b ((i, x) ∷ m) [] h = cc
keys-insert id a b ((i, x) ∷ m) ((j, y) ∷ n) h =
    keys-insert_cons id a b i j x y m n (cons_head h) (keys-insert id a b m n (cons_tail h))
      (cons_tail h)
  where
    cons_head : {i j : ℕ} {xs ys : List ℕ} → i ∷ xs ≡ j ∷ ys → i ≡ j
    cons_head h = cc

    cons_tail : {i j : ℕ} {xs ys : List ℕ} → i ∷ xs ≡ j ∷ ys → xs ≡ ys
    cons_tail h = cc

    keys-insert_cons :
        {A B : Type 0} (id : ℕ) (a : A) (b : B) (i j : ℕ) (x : A) (y : B) (m : Assoc A)
        (n : Assoc B)
        → i ≡ j
        → keys (insert id a m) ≡ keys (insert id b n)
        → keys m ≡ keys n
        → keys (insert id a ((i, x) ∷ m)) ≡ keys (insert id b ((j, y) ∷ n))
    keys-insert_cons id a b i j x y m n e rest h = elim (Bool-cases (j == id)) [
      | inl t ↦ rw (e, t) (ap (λ l. id ∷ l) h)
      | inr f ↦ rw (e, f) (ap (λ l. j ∷ l) rest)
    ]

-- Both inputs came from the same nodes.
abbrev pub Paired : {Pk Sk F P : Type 0} → NodeData Pk Sk F P → Type 0
Paired d = keys d.input_y ≡ keys d.input_v

length-keys : {A : Type 0} (m : Assoc A) → length (keys m) ≡ length m
length-keys [] = refl
length-keys ((i, x) ∷ m) = ap suc (length-keys m)

module _ {F S P Pk Sk : Type 0} ⦃k : Field F⦄ (c : Curve F S P) (rsa : Rsa Pk Sk) where
  register-Paired :
      (my_node_id other_node_idx : ℕ) (output : Assoc (List ℕ) × List (List ℕ)) (d : Data c rsa)
      → Paired d
      → Paired (register_round_1 c rsa my_node_id other_node_idx output d).0
  unfolding register_round_1
  register-Paired my_node_id other_node_idx output d h =
      elim (Outcome-cases (decode_points c rsa (output.1))) [
        | inl v ↦ elim (Option-cases (get my_node_id (output.0))) [
          | inl n ↦ rw (register_round_1, v.1, n) h
          | inr y ↦
              rw (register_round_1, v.1, y.1)
                (keys-insert other_node_idx y.0 v.0 d.input_y d.input_v h)
        ]
        | inr (inl e) ↦ rw (register_round_1, e.1) h
        | inr (inr e) ↦ rw (register_round_1, e) h
      ]

  store-Paired :
      (idx : ℕ) (pubshare : List ℕ) (d : Data c rsa)
      → Paired d
      → Paired (store_pubshare_for_node c rsa idx pubshare d).0
  unfolding store_pubshare_for_node
  store-Paired idx pubshare d h = elim (Outcome-cases (c.from_encoded pubshare)) [
    | inl p ↦ rw (store_pubshare_for_node, p.1) h
    | inr (inl e) ↦ rw (store_pubshare_for_node, e.1) h
    | inr (inr e) ↦ rw (store_pubshare_for_node, e) h
  ]

  module _ (to_repr : F → List ℕ) (from_bytes_be : List ℕ → ℕ) where
    keep_shares-Paired :
        (round : Outcome (F × P × P)) (d : Data c rsa)
        → Paired d
        → Paired (keep_shares c rsa to_repr from_bytes_be round d).0
    unfolding keep_shares
    keep_shares-Paired (ok (ki, Ki, group)) d h = h
    keep_shares-Paired (err e) d h = h
    keep_shares-Paired panic d h = h

    round_1-Paired :
        (to_bytes : S → List ℕ) (ai0 : F) (random : ℕ → F) (network : Network Pk) (d : Data c rsa)
        → Paired d
        → Paired (engine_dkg_round_1 c rsa to_repr from_bytes_be to_bytes ai0 random network d).0
    unfolding engine_dkg_round_1
    round_1-Paired to_bytes ai0 random network d h =
        elim (Outcome-cases (dkg_round_1 c rsa to_repr from_bytes_be d.node ai0 random network)) [
          | inl r ↦ elim (Option-cases (get_elem? (r.0).1 0)) [
            | inl n ↦ rw (engine_dkg_round_1, r.1, n) h
            | inr v ↦ rw (engine_dkg_round_1, r.1, v.1) h
          ]
          | inr (inl e) ↦ rw (engine_dkg_round_1, e.1) h
          | inr (inr e) ↦ rw (engine_dkg_round_1, e) h
        ]

    -- The state after an operation.
    unfoldable pub after_call : Call Pk F S → Data c rsa → Data c rsa
    after_call (register my_node_id other_node_idx y v) d =
        (register_round_1 c rsa my_node_id other_node_idx (y, v) d).0
    after_call (register_resharing my_node_id other_node_idx y v) d =
        (register_resharing_round_1 c rsa my_node_id other_node_idx (y, v) d).0
    after_call (store idx pubshare) d = (store_pubshare_for_node c rsa idx pubshare d).0
    after_call clear d = clear_inputs c rsa d
    after_call (round_1 to_bytes ai0 random network) d =
        (engine_dkg_round_1 c rsa to_repr from_bytes_be to_bytes ai0 random network d).0
    after_call (round_2 network) d = (engine_dkg_round_2 c rsa to_repr from_bytes_be network d).0
    after_call (reshare_2 tstar_network new_network k_dkg) d =
        (engine_resharing_round_2 c rsa to_repr from_bytes_be tstar_network new_network k_dkg d).0

    unfoldable pub after_calls : List (Call Pk F S) → Data c rsa → Data c rsa
    unfolding after_call
    after_calls [] d = d
    after_calls (call ∷ calls) d = after_calls calls (after_call call d)

    after_call-Paired :
        (call : Call Pk F S) (d : Data c rsa) → Paired d → Paired (after_call call d)
    unfolding after_call register_resharing_round_1 engine_dkg_round_2 engine_resharing_round_2
        clear_inputs
    after_call-Paired (register m o y v) d h = register-Paired m o (y, v) d h
    after_call-Paired (register_resharing m o y v) d h = register-Paired m o (y, v) d h
    after_call-Paired (store idx pubshare) d h = store-Paired idx pubshare d h
    after_call-Paired clear d h = refl
    after_call-Paired (round_1 to_bytes ai0 random network) d h =
        round_1-Paired to_bytes ai0 random network d h
    after_call-Paired (round_2 network) d h = keep_shares-Paired _ d h
    after_call-Paired (reshare_2 t n k_dkg) d h = keep_shares-Paired _ d h

    after_calls-Paired :
        (calls : List (Call Pk F S)) (d : Data c rsa) → Paired d → Paired (after_calls calls d)
    unfolding after_calls
    after_calls-Paired [] d h = h
    after_calls-Paired (call ∷ calls) d h =
        after_calls-Paired calls (after_call call d) (after_call-Paired call d h)

    -- After any sequence of operations on a new node, the encrypted shares and the commitments that it
    -- holds came from the same nodes, and `get_no_of_inputs` counts as many of the ones as of the
    -- others.
    pub new_node_data-Paired :
        (random₁ random₂ : F) (rsa_private_key : Sk) (idx : ℕ) (calls : List (Call Pk F S))
        → Paired (after_calls calls (new_node_data c rsa random₁ random₂ rsa_private_key idx))
          × ((get_no_of_inputs c rsa
                (after_calls calls (new_node_data c rsa random₁ random₂ rsa_private_key idx))).0
              ≡ (get_no_of_inputs c rsa
                  (after_calls calls (new_node_data c rsa random₁ random₂ rsa_private_key idx))).1)
    unfolding new_node_data get_no_of_inputs
    new_node_data-Paired random₁ random₂ rsa_private_key idx calls =
        let d = new_node_data c rsa random₁ random₂ rsa_private_key idx in
        let h = after_calls-Paired calls d refl in
        (
          h,
          sym (length-keys (after_calls calls d).input_v)
              ∙ ap length (sym h)
              ∙ length-keys (after_calls calls d).input_y,
        )

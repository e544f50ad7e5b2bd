-- ===== src/Actors/DkgEngine/Shares.antt =====
-- The public share that a second round broadcasts, and the private share that the node keeps.
use human_network.Prelude.{
  ℕ, ◌≡◌, refl, subst, ap, ◌⊎◌, inl, inr, List, [], Outcome, ok, err, panic, ◌>>=◌, ok_injective,
  assert, length, values, ◌==◌, ◌&&◌, ◌-◌, map_err, invalid_input, Bool, true, false, some, ◌∙◌,
  get, get-insert,
}
use mathlib.Core.List.{foldl}
use human_network.Field.{Field, ◌⊕◌}
use human_network.Curve.{Curve}
use human_network.Curve.Laws.{act}
use human_network.Cryptography.Dkg.{
  Rsa, Node, Network, dkg_round_2, all_committed, decrypt_all, verify_all, sum_commitments,
}
use human_network.Cryptography.Resharing.{resharing_round_2}
use human_network.Cryptography.Resharing.Key.{resharing_round_2-ok}
use human_network.Actors.DkgEngine.{
  NodeData, Data, keep_shares, get_pub_share, engine_dkg_round_2, engine_resharing_round_2,
}

-- What holds of the value, if there is one.
abbrev Holds : {T : Type 0} → (T → Type 0) → Outcome T → Type 0
Holds {T} Q o = (t : T) → o ≡ ok t → Q t

Holds-bind :
    {A T : Type 0} (Q : T → Type 0) (m : Outcome A) (f : A → Outcome T)
    → ((a : A) → Holds Q (f a))
    → Holds Q (m >>= f)
Holds-bind Q (ok a) f h = h a
Holds-bind Q (err e) f h = λ t e. cc
Holds-bind Q panic f h = λ t e. cc

Holds-ok : {T : Type 0} (Q : T → Type 0) (t : T) → Q t → Holds Q (ok t)
Holds-ok Q t q = λ u e. subst Q (ok_injective e) q

module _ {F S P Pk Sk : Type 0} ⦃k : Field F⦄ (c : Curve F S P) (rsa : Rsa Pk Sk) where
  -- The public share is that of the private one.
  abbrev Matches : F × P × P → Type 0
  Matches (ki, Ki, group) = Ki ≡ act c c.base_point_or_generator ki

  module _ (to_repr : F → List ℕ) (from_bytes_be : List ℕ → ℕ) where
    dkg_round_2-Matches :
        (network : Network Pk) (d : Data c rsa)
        → Holds Matches (dkg_round_2 c rsa to_repr from_bytes_be d.node network d.input_y d.input_v)
    unfolding dkg_round_2
    dkg_round_2-Matches network d =
        let input_v = d.input_v in
        Holds-bind Matches
          (assert (
            (length input_v == network.total_nodes - 1)
            && (length d.input_y == network.total_nodes - 1)))
          _
          λ _.
            Holds-bind Matches
              (assert (all_committed c rsa to_repr from_bytes_be network.threshold input_v)) _
              λ _.
                Holds-bind Matches
                  (decrypt_all c rsa to_repr from_bytes_be d.node.rsa_seckey d.input_y []) _
                  λ y.
                    Holds-bind Matches
                      (verify_all c rsa to_repr from_bytes_be d.node.id y input_v y) _
                      λ _.
                        Holds-bind Matches
                          (sum_commitments c rsa to_repr from_bytes_be d.node.init_pub_share
                            input_v)
                          _
                          λ g.
                            Holds-ok Matches
                              (
                                foldl ◌⊕◌ d.node.own_partial_share (values y),
                                act c c.base_point_or_generator
                                    (foldl ◌⊕◌ d.node.own_partial_share (values y)),
                                g,
                              )
                              refl

    resharing_round_2-Matches :
        (tstar_network new_network : Network Pk) (d : Data c rsa) (point : P)
        → Holds Matches (
            resharing_round_2 c rsa to_repr from_bytes_be d.node tstar_network new_network d.input_y
              d.input_v point)
    resharing_round_2-Matches tstar_network new_network d point (ki, Ki, group) e =
        (resharing_round_2-ok c rsa to_repr from_bytes_be d.node tstar_network new_network d.input_y
          d.input_v point ki Ki group e).1

    abbrev is_sent : Outcome (List ℕ) → Bool
    is_sent (ok share) = true
    is_sent (err e) = false
    is_sent panic = false

    -- Either the public share of the state's private share is sent and entered among those of the
    -- others, or nothing is sent and the state is as before.
    abbrev pub Sends : Data c rsa → Data c rsa × Outcome (List ℕ) → Type 0
    Sends d r =
        ((r.1 ≡ ok (get_pub_share c rsa r.0))
          × (get d.node.id (NodeData.other_pubshares r.0)
              ≡ some (act c c.base_point_or_generator (Node.private_share (NodeData.node r.0)))))
        ⊎ ((is_sent r.1 ≡ false) × (r.0 ≡ d))

    keep_shares-Sends :
        (round : Outcome (F × P × P)) (d : Data c rsa)
        → Holds Matches round
        → Sends d (keep_shares c rsa to_repr from_bytes_be round d)
    unfolding keep_shares get_pub_share
    keep_shares-Sends (ok (ki, Ki, group)) d h =
        let own : Ki ≡ act c c.base_point_or_generator ki = h (ki, Ki, group) refl in
        inl (ap (λ p. ok (c.encode p)) own, get-insert d.node.id Ki d.other_pubshares ∙ ap some own)
    keep_shares-Sends (err e) d h = inr (refl, refl)
    keep_shares-Sends panic d h = inr (refl, refl)

    -- The second round of the key generation sends the public share of the private share that the
    -- node then keeps, and enters it among the public shares of the others, or it ends in an error or a
    -- panic, sends nothing and leaves the node's state as it was.
    pub engine_dkg_round_2-Sends :
        (network : Network Pk) (d : Data c rsa)
        → Sends d (engine_dkg_round_2 c rsa to_repr from_bytes_be network d)
    unfolding engine_dkg_round_2
    engine_dkg_round_2-Sends network d = keep_shares-Sends _ d (dkg_round_2-Matches network d)

    -- The second round of the resharing sends the public share of the private share that the node
    -- then keeps, and enters it among the public shares of the others, or it ends in an error or a panic,
    -- sends nothing and leaves the node's state as it was.
    pub engine_resharing_round_2-Sends :
        (tstar_network new_network : Network Pk) (k_dkg : List ℕ) (d : Data c rsa)
        → Sends d
            (engine_resharing_round_2 c rsa to_repr from_bytes_be tstar_network new_network k_dkg d)
    unfolding engine_resharing_round_2
    engine_resharing_round_2-Sends tstar_network new_network k_dkg d = keep_shares-Sends _ d (
        Holds-bind Matches (map_err invalid_input (c.from_encoded k_dkg)) _
          (resharing_round_2-Matches tstar_network new_network d))

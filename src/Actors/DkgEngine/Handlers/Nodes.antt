-- ===== src/Actors/DkgEngine/Handlers/Nodes.antt =====
-- network/crates/actors/src/dkg_engine_actor.rs: the engine that the handlers use, over the two curves.
use human_network.Prelude.{ℕ, List, [], Option, String}
use human_network.Field.{Field}
use human_network.Curve.{Curve}
use human_network.Cryptography.Dkg.{Rsa}
use human_network.Actors.DkgEngine.{clear_inputs, get_no_of_inputs, parse_rsa_keys}
use human_network.Actors.DkgEngine.State.{
  NodeDataVariant, secp256k1, baby_jub_jub, keys_of, dkg_init, restore_old_resharing_state,
}
use human_network.Actors.DkgEngine.Handlers.{Engine}

module _ {F₁ S₁ P₁ F₂ S₂ P₂ Pk Sk : Type 0} ⦃k₁ : Field F₁⦄ ⦃k₂ : Field F₂⦄ (c₁ : Curve F₁ S₁ P₁)
    (c₂ : Curve F₂ S₂ P₂) (rsa : Rsa Pk Sk) (from_pem : List ℕ → Option Pk) where
  clear_variant : NodeDataVariant Pk Sk F₁ P₁ F₂ P₂ → NodeDataVariant Pk Sk F₁ P₁ F₂ P₂
  unfolding clear_inputs
  clear_variant (secp256k1 node) = secp256k1 (clear_inputs c₁ rsa node)
  clear_variant (baby_jub_jub node) = baby_jub_jub (clear_inputs c₂ rsa node)

  inputs_of_variant : NodeDataVariant Pk Sk F₁ P₁ F₂ P₂ → ℕ × ℕ
  unfolding get_no_of_inputs
  inputs_of_variant (secp256k1 node) = get_no_of_inputs c₁ rsa node
  inputs_of_variant (baby_jub_jub node) = get_no_of_inputs c₂ rsa node

  -- The draws are those of a node's random share and polynomial.
  unfoldable pub engine_of_nodes :
      (List ℕ → Option S₁)
      → (List ℕ → Option S₂)
      → (String → F₁ × F₁)
      → (String → F₂ × F₂)
      → Engine Pk Sk (NodeDataVariant Pk Sk F₁ P₁ F₂ P₂)
  unfolding clear_variant inputs_of_variant dkg_init restore_old_resharing_state parse_rsa_keys
  engine_of_nodes from_bytes₁ from_bytes₂ draws₁ draws₂ = record {
    init = dkg_init c₁ c₂ rsa from_pem draws₁ draws₂;
    restore =
        restore_old_resharing_state c₁ c₂ rsa from_pem from_bytes₁ from_bytes₂
          (λ key. (draws₁ key).0) (λ key. (draws₂ key).0);
    rsa_keys = λ provers. parse_rsa_keys from_pem (keys_of provers) [];
    clear = clear_variant;
    no_of_inputs = inputs_of_variant;
  }

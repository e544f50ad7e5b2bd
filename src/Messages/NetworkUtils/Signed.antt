-- ===== src/Messages/NetworkUtils/Signed.antt =====
-- What a signed request says of its signer.
use human_network.Prelude.{
  ℕ, ◌≡◌, subst, List, Option, none, some, Outcome, ok, >>=-eq-ok, ok_injective,
}
use human_network.Messages.NetworkUtils.{RequestToNetwork, sign_request, signed, recover}

module _ (serialize : RequestToNetwork → Outcome (List ℕ))
    (sign_message : List ℕ → Outcome (List ℕ)) (recover_signer : List ℕ → List ℕ → Outcome ℕ) where
  recover-signature :
      (wallet : ℕ) (request request' : RequestToNetwork) (signature : Option (List ℕ))
      → ((message sig : List ℕ)
          → sign_message message ≡ ok sig
          → recover_signer sig message ≡ ok wallet)
      → signed serialize sign_message recover_signer (record request { signature = signature })
        ≡ ok request'
      → recover serialize sign_message recover_signer request' ≡ ok wallet
  unfolding signed sign_request recover
  recover-signature wallet request request' (some s) signs h = cc
  recover-signature wallet request request' none signs h =
      let unsigned : RequestToNetwork = record request { signature = none } in
      let (sig, made, same) =
        >>=-eq-ok (sign_request serialize sign_message recover_signer unsigned)
          (λ sig. ok (record request { signature = some sig })) h in
      let (message, serialized, signed_message) =
        >>=-eq-ok (serialize unsigned) sign_message made in
      subst (λ r. recover serialize sign_message recover_signer r ≡ ok wallet) (ok_injective same)
        (rw serialized (signs message sig signed_message))

  -- The address that `recover` finds in a request that `signed` returns is that of the wallet, if what
  -- the wallet signs is recovered as its address.
  pub recover-signed :
      (wallet : ℕ) (request request' : RequestToNetwork)
      → ((message sig : List ℕ)
          → sign_message message ≡ ok sig
          → recover_signer sig message ≡ ok wallet)
      → signed serialize sign_message recover_signer request ≡ ok request'
      → recover serialize sign_message recover_signer request' ≡ ok wallet
  recover-signed wallet request request' signs h =
      recover-signature wallet request request' request.signature signs h

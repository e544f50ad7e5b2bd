-- ===== src/Examples/Saved.antt =====
-- A relay and a prover that save their state and roll back to it, in a database of small JSON values.
use human_network.Prelude.{ℕ, ◌≡◌, refl, true, List, [], ◌∷◌, some, none, Option, subst}
use human_network.Actors.AppState.{Relay, Prover, QuorumMap}
use human_network.Actors.AppState.Saved.{
  Json, Codecs, Disk, Database, save_current_state, rollback_to_previous_state, backup_state,
  save_prover_state, rollback_prover_state,
}
use human_network.Actors.AppState.Saved.Restored.{Kept, rollback-save}
use human_network.Examples.Relay.{relay, info}

abbrev empty_database : Database
empty_database _ = none

abbrev prover : Prover
prover = record {
  current_epoch = 0;
  my_node_idx = 1;
  n = 3;
  t = 2;
  epsilon = 1;
  private_keyshares = [];
  new_provers = (13, (info 3, 3)) ∷ [];
}

abbrev later : Relay
later = record relay { n = 5; t = 4; pubkey_shares = []; ready_nodes = [] }

same_bytes : {x y : List ℕ} → some x ≡ some y → x ≡ y
same_bytes h = cc

-- JSON that writes numbers, and maps of at most one prover.
abbrev read_number : List ℕ → Option ℕ
read_number [] = none
read_number (n ∷ rest) = some n

abbrev numbers : Json ℕ
numbers = record {
  to_string = λ n. some (n ∷ []);
  from_slice = read_number;
  from_slice-to_string = λ n bytes e. subst (λ b. read_number b ≡ some n) (same_bytes e) refl;
}

-- Only empty collections can be written.
abbrev write_empty : {A : Type 0} → List A → Option (List ℕ)
write_empty [] = some []
write_empty (x ∷ xs) = none

abbrev empty : {A : Type 0} → List ℕ → Option (List A)
empty bytes = some []

read_empty-write_empty :
    {A : Type 0} (xs : List A) (bytes : List ℕ)
    → write_empty xs ≡ some bytes
    → empty bytes ≡ some xs
read_empty-write_empty [] bytes e = refl
read_empty-write_empty (x ∷ xs) bytes e = cc

abbrev empty_json : {A : Type 0} → Json (List A)
empty_json = record {
  to_string = write_empty;
  from_slice = empty;
  from_slice-to_string = read_empty-write_empty;
}

abbrev write_quorum : QuorumMap → Option (List ℕ)
write_quorum [] = some []
write_quorum ((key, (info, idx)) ∷ []) = some (
    key ∷ info.evm_address ∷ info.peer_id ∷ info.address ∷ info.voting_power ∷ info.idx ∷ idx
    ∷ info.rsa_pub_key)
write_quorum (x ∷ y ∷ rest) = none

abbrev read_quorum : List ℕ → Option QuorumMap
read_quorum [] = some []
read_quorum (key ∷ evm_address ∷ peer_id ∷ address ∷ voting_power ∷ own ∷ idx ∷ rsa_pub_key) =
    some (
      (
        key,
        (
          record {
            evm_address = evm_address;
            peer_id = peer_id;
            address = address;
            rsa_pub_key = rsa_pub_key;
            voting_power = voting_power;
            idx = own;
          },
          idx,
        ),
      )
      ∷ [])
read_quorum _ = none

read_quorum-write_quorum :
    (q : QuorumMap) (bytes : List ℕ) → write_quorum q ≡ some bytes → read_quorum bytes ≡ some q
read_quorum-write_quorum [] bytes e = subst (λ b. read_quorum b ≡ some []) (same_bytes e) refl
read_quorum-write_quorum ((key, (info, idx)) ∷ []) bytes e =
    subst (λ b. read_quorum b ≡ some ((key, (info, idx)) ∷ [])) (same_bytes e) refl
read_quorum-write_quorum (x ∷ y ∷ rest) bytes e = cc

abbrev codecs : Codecs
codecs = record {
  numbers = numbers;
  peers = numbers;
  quorums = record {
    to_string = write_quorum;
    from_slice = read_quorum;
    from_slice-to_string = read_quorum-write_quorum;
  };
  shares = empty_json;
  keys = empty_json;
}

abbrev disk : Disk
disk = record { opens = true; inserts = λ key. true; gets = λ key. true }

abbrev saved : Relay
saved = record relay { new_provers = (11, (info 1, 1)) ∷ []; pubkey_shares = [] }

rollback-save_example :
    Kept saved (
      rollback_to_previous_state codecs disk
        (λ q. none)
        (save_current_state codecs disk saved empty_database)
        later)
    × (Relay.tstar_provers (
          rollback_to_previous_state codecs disk
            (λ q. none)
            (save_current_state codecs disk saved empty_database)
            later)
        ≡ [])
    × Kept saved (
        rollback_to_previous_state codecs disk
          (λ q. none)
          (backup_state codecs disk 7 8 saved empty_database)
          later)
    × (Relay.tstar_provers (
          rollback_to_previous_state codecs disk
            (λ q. none)
            (backup_state codecs disk 7 8 saved empty_database)
            later)
        ≡ Relay.tstar_provers
            (rollback_to_previous_state codecs disk (λ q. none) empty_database later))
    × (rollback_prover_state codecs disk
          (save_prover_state codecs disk prover empty_database)
          (record prover { current_epoch = 9; n = 8; new_provers = [] })
        ≡ record prover { current_epoch = 9 })
rollback-save_example =
    rollback-save codecs disk (refl, (λ key. refl), (λ key. refl)) (λ q. none) 7 8 saved later
      prover (record prover { current_epoch = 9; n = 8; new_provers = [] }) empty_database
      (
        (3 ∷ [], refl),
        (2 ∷ [], refl),
        (1 ∷ [], refl),
        ([], refl),
        ([], refl),
        (11 ∷ 1 ∷ 11 ∷ 1 ∷ 1 ∷ 1 ∷ 1 ∷ [], refl),
        ([], refl),
      )
      (7 ∷ [], refl) (8 ∷ [], refl) (0 ∷ [], refl)
      (
        (3 ∷ [], refl),
        (2 ∷ [], refl),
        (1 ∷ [], refl),
        (1 ∷ [], refl),
        (13 ∷ 3 ∷ 13 ∷ 3 ∷ 1 ∷ 3 ∷ 3 ∷ [], refl),
        ([], refl),
      )

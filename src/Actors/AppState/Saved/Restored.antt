-- ===== src/Actors/AppState/Saved/Restored.antt =====
-- A rollback brings back what was saved.
use human_network.Prelude.{
  ℕ, ◌<◌, ◌≡◌, refl, sym, ◌∙◌, ap, subst, true, false, List, [], ◌∷◌, Option, some, values, String,
  leb-of_gt, Option-cases, inl, inr,
}
use human_network.Actors.AppState.{QuorumMap, Relay, Prover}
use human_network.Actors.AppState.Quorum.{clear_shares}
use human_network.Actors.AppState.Saved.{
  Json, Codecs, Disk, Database, save_state, get_state, reachable, save_current_state, backup_state,
  save_prover_state, rollback_to_previous_state, rollback_prover_state, saved_number, infos, number,
  put, entries_or_none,
}

-- The fields of the relay that a rollback sets from the database.
abbrev pub Kept : Relay → Relay → Type 0
Kept s s' =
    (s'.n ≡ s.n)
    × (s'.t ≡ s.t)
    × (s'.epsilon ≡ s.epsilon)
    × (s'.new_provers ≡ s.new_provers)
    × (s'.pubkey_shares ≡ s.pubkey_shares)
    × (s'.finalized_group_public_keys ≡ s.finalized_group_public_keys)
    × (s'.active_provers ≡ infos (values s.new_provers))

-- The value can be written as JSON.
abbrev pub Printable : {A : Type 0} → Json A → A → Type 0
Printable json a = (bytes : List ℕ) × (json.to_string a ≡ some bytes)

-- The database opens, and every key can be written and read.
abbrev pub Works : Disk → Type 0
Works disk =
    (disk.opens ≡ true)
    × ((key : String) → disk.inserts key ≡ true)
    × ((key : String) → disk.gets key ≡ true)

module _ {A : Type 0} (disk : Disk) (json : Json A) where
  save_state-put :
      (key : String) (a : A) (db : Database)
      → Works disk
      → (p : Printable json a) → save_state disk json key a db ≡ put key p.0 db
  unfolding save_state
  save_state-put key a db (o, i, g) (bytes, e) = rw (save_state, o, e, i key) refl

  -- What was written under a key is read.
  get_state-put :
      (key : String) (a : A) (db : Database) (p : Printable json a)
      → Works disk
      → db key ≡ some p.0
      → get_state disk json key db ≡ some a
  unfolding get_state
  get_state-put key a db (bytes, e) (o, i, g) found =
      rw (get_state, o, g key, found) (json.from_slice-to_string a bytes e)

module _ (codecs : Codecs) (disk : Disk) where
  abbrev pub PrintableRelay : Relay → Type 0
  PrintableRelay s =
      Printable codecs.numbers s.n
      × Printable codecs.numbers s.t
      × Printable codecs.numbers s.epsilon
      × Printable codecs.keys s.finalized_group_public_keys
      × Printable codecs.shares s.pubkey_shares
      × Printable codecs.quorums s.new_provers
      × Printable codecs.quorums s.tstar_provers

  abbrev pub PrintableProver : Prover → Type 0
  PrintableProver p =
      Printable codecs.numbers p.n
      × Printable codecs.numbers p.t
      × Printable codecs.numbers p.epsilon
      × Printable codecs.numbers p.my_node_idx
      × Printable codecs.quorums p.new_provers
      × Printable codecs.keys p.private_keyshares

  abbrev saved_in : (s : Relay) → PrintableRelay s → Database → Database
  saved_in s p db = put "tstar_provers" (p.6.0) (
      put "new_provers" (p.5.0) (
        put "pubkey_shares" (p.4.0) (
          put "finalized_group_public_keys" (p.3.0)
            (put "epsilon" (p.2.0) (put "t" (p.1.0) (put "n" (p.0.0) db))))))

  abbrev backed_in : (s : Relay) → PrintableRelay s → List ℕ → List ℕ → List ℕ → Database → Database
  backed_in s p own relay epoch db = put "pubkey_shares" (p.4.0) (
      put "finalized_group_public_keys" (p.3.0) (
        put "epsilon" (p.2.0) (
          put "t" (p.1.0) (
            put "n" (p.0.0) (
              put "current_epoch" epoch
                (put "relay_peer_id" relay (put "peer_id" own (put "new_provers" (p.5.0) db))))))))

  module _ (works : Works disk) where
    save_current_state-put :
        (s : Relay) (db : Database) (p : PrintableRelay s)
        → save_current_state codecs disk s db ≡ saved_in s p db
    unfolding save_current_state
    save_current_state-put s db (n, t, e, k, h, q, r) =
        rw
          (
            save_current_state,
            save_state-put disk codecs.numbers "n" s.n db works n,
            save_state-put disk codecs.numbers "t" s.t _ works t,
            save_state-put disk codecs.numbers "epsilon" s.epsilon _ works e,
            save_state-put disk codecs.keys "finalized_group_public_keys"
                s.finalized_group_public_keys _ works k,
            save_state-put disk codecs.shares "pubkey_shares" s.pubkey_shares _ works h,
            save_state-put disk codecs.quorums "new_provers" s.new_provers _ works q,
            save_state-put disk codecs.quorums "tstar_provers" s.tstar_provers _ works r,
          )
          refl

    backup_state-put :
        (peer_id relay_peer_id : ℕ) (s : Relay) (db : Database) (p : PrintableRelay s)
        (own : Printable codecs.peers peer_id) (relay : Printable codecs.peers relay_peer_id)
        (epoch : Printable codecs.numbers s.current_epoch)
        → backup_state codecs disk peer_id relay_peer_id s db
          ≡ backed_in s p own.0 relay.0 epoch.0 db
    unfolding backup_state
    backup_state-put peer_id relay_peer_id s db (n, t, e, k, h, q, r) own relay epoch =
        rw
          (
            backup_state,
            save_state-put disk codecs.quorums "new_provers" s.new_provers db works q,
            save_state-put disk codecs.peers "peer_id" peer_id _ works own,
            save_state-put disk codecs.peers "relay_peer_id" relay_peer_id _ works relay,
            save_state-put disk codecs.numbers "current_epoch" s.current_epoch _ works epoch,
            save_state-put disk codecs.numbers "n" s.n _ works n,
            save_state-put disk codecs.numbers "t" s.t _ works t,
            save_state-put disk codecs.numbers "epsilon" s.epsilon _ works e,
            save_state-put disk codecs.keys "finalized_group_public_keys"
                s.finalized_group_public_keys _ works k,
            save_state-put disk codecs.shares "pubkey_shares" s.pubkey_shares _ works h,
          )
          refl

    save_prover_state-put :
        (s : Prover) (db : Database) (p : PrintableProver s)
        → save_prover_state codecs disk s db
          ≡ put "private_keyshares" (p.5.0) (
              put "new_provers"
                (p.4.0)
                (put "idx" (p.3.0) (put "epsilon" (p.2.0) (put "t" (p.1.0) (put "n" (p.0.0) db)))))
    unfolding save_prover_state
    save_prover_state-put s db (n, t, e, i, q, k) =
        rw
          (
            save_prover_state,
            save_state-put disk codecs.numbers "n" s.n db works n,
            save_state-put disk codecs.numbers "t" s.t _ works t,
            save_state-put disk codecs.numbers "epsilon" s.epsilon _ works e,
            save_state-put disk codecs.numbers "idx" s.my_node_idx _ works i,
            save_state-put disk codecs.quorums "new_provers" s.new_provers _ works q,
            save_state-put disk codecs.keys "private_keyshares" s.private_keyshares _ works k,
          )
          refl

    -- A relay that is rolled back to a database with what it had under each key.
    rollback-Kept :
        (ping_nodes : QuorumMap → Option (List ℕ)) (s s' : Relay) (db : Database)
        (p : PrintableRelay s)
        → db "n" ≡ some (p.0.0)
        → db "t" ≡ some (p.1.0)
        → db "epsilon" ≡ some (p.2.0)
        → db "finalized_group_public_keys" ≡ some (p.3.0)
        → db "pubkey_shares" ≡ some (p.4.0)
        → db "new_provers" ≡ some (p.5.0)
        → Kept s (rollback_to_previous_state codecs disk ping_nodes db s')
    unfolding rollback_to_previous_state
    rollback-Kept ping_nodes s s' db (n, t, e, k, h, q, r) dn dt de dk dh dq =
        let eq = get_state-put disk codecs.quorums "new_provers" s.new_provers db q works dq in
        (
          ap number (get_state-put disk codecs.numbers "n" s.n db n works dn),
          ap number (get_state-put disk codecs.numbers "t" s.t db t works dt),
          ap number (get_state-put disk codecs.numbers "epsilon" s.epsilon db e works de),
          ap entries_or_none eq,
          ap entries_or_none
              (get_state-put disk codecs.shares "pubkey_shares" s.pubkey_shares db h works dh),
          ap entries_or_none (
              get_state-put disk codecs.keys "finalized_group_public_keys"
                s.finalized_group_public_keys db k works dk),
          ap (λ o. infos (values (entries_or_none o))) eq,
        )

    rollback-prover :
        (s s' : Prover) (db : Database) (p : PrintableProver s)
        → db "n" ≡ some (p.0.0)
        → db "t" ≡ some (p.1.0)
        → db "epsilon" ≡ some (p.2.0)
        → db "idx" ≡ some (p.3.0)
        → db "new_provers" ≡ some (p.4.0)
        → db "private_keyshares" ≡ some (p.5.0)
        → rollback_prover_state codecs disk db s' ≡ record s { current_epoch = s'.current_epoch }
    unfolding rollback_prover_state
    rollback-prover s s' db (n, t, e, i, q, k) dn dt de di dq dk =
        rw
          (
            rollback_prover_state,
            get_state-put disk codecs.numbers "n" s.n db n works dn,
            get_state-put disk codecs.numbers "t" s.t db t works dt,
            get_state-put disk codecs.numbers "epsilon" s.epsilon db e works de,
            get_state-put disk codecs.numbers "idx" s.my_node_idx db i works di,
            get_state-put disk codecs.quorums "new_provers" s.new_provers db q works dq,
            get_state-put disk codecs.keys "private_keyshares" s.private_keyshares db k works dk,
          )
          refl

    -- When the database works and the values can be written as JSON, a relay that is rolled back to what it
    -- saved, from whatever state it is in then, has the parameters, the two quorums, the shares and the
    -- group's keys that it saved, and the provers of the new quorum as the active ones. After a backup
    -- the same holds except for the old quorum, which is that of the database before; a prover gets back
    -- its parameters, its index, its shares and its quorum.
    pub rollback-save :
        (ping_nodes : QuorumMap → Option (List ℕ)) (peer_id relay_peer_id : ℕ) (s s' : Relay)
        (p p' : Prover) (db : Database)
        → PrintableRelay s
        → Printable codecs.peers peer_id
        → Printable codecs.peers relay_peer_id
        → Printable codecs.numbers s.current_epoch
        → PrintableProver p
        → Kept s (
            rollback_to_previous_state codecs disk ping_nodes
              (save_current_state codecs disk s db)
              s')
          × (Relay.tstar_provers (
                rollback_to_previous_state codecs disk ping_nodes
                  (save_current_state codecs disk s db)
                  s')
              ≡ s.tstar_provers)
          × Kept s (
              rollback_to_previous_state codecs disk ping_nodes
                (backup_state codecs disk peer_id relay_peer_id s db)
                s')
          × (Relay.tstar_provers (
                rollback_to_previous_state codecs disk ping_nodes
                  (backup_state codecs disk peer_id relay_peer_id s db)
                  s')
              ≡ Relay.tstar_provers (rollback_to_previous_state codecs disk ping_nodes db s'))
          × (rollback_prover_state codecs disk (save_prover_state codecs disk p db) p'
              ≡ record p { current_epoch = p'.current_epoch })
    unfolding rollback_to_previous_state get_state
    rollback-save ping_nodes peer_id relay_peer_id s s' p p' db ps own relay epoch pp =
        let saved = save_current_state-put s db ps in
        let backed = backup_state-put peer_id relay_peer_id s db ps own relay epoch in
        let written = save_prover_state-put p db pp in
        (
          subst (λ d. Kept s (rollback_to_previous_state codecs disk ping_nodes d s')) (sym saved)
              (rollback-Kept ping_nodes s s' (saved_in s ps db) ps refl refl refl refl refl refl),
          ap entries_or_none (
              ap (get_state disk codecs.quorums "tstar_provers") saved
              ∙ get_state-put disk codecs.quorums "tstar_provers" s.tstar_provers (saved_in s ps db)
                  (ps.6) works refl),
          subst (λ d. Kept s (rollback_to_previous_state codecs disk ping_nodes d s')) (sym backed)
              (rollback-Kept ping_nodes s s' (backed_in s ps own.0 relay.0 epoch.0 db) ps refl refl
                refl refl refl refl),
          ap (λ d. entries_or_none (get_state disk codecs.quorums "tstar_provers" d)) backed,
          subst
              (λ d.
                rollback_prover_state codecs disk d p'
                ≡ record p { current_epoch = p'.current_epoch })
              (sym written) (rollback-prover p p' _ pp refl refl refl refl refl refl),
        )

reachable-none :
    (ping_nodes : QuorumMap → Option (List ℕ)) (t : ℕ) (quorum : QuorumMap)
    → 0 < t
    → (reachable ping_nodes t [] quorum).1 ≡ false
unfolding reachable
reachable-none ping_nodes t [] h = refl
reachable-none ping_nodes t (p ∷ ps) h = elim (Option-cases (ping_nodes (p ∷ ps))) [
  | inl e ↦ rw (reachable, e) refl
  | inr e ↦ rw (reachable, e.1) (leb-of_gt t 0 h)
]

-- After the shares were cleared, a rollback to a positive threshold never marks the relay as ready,
-- however many nodes answer.
pub rollback-clear_shares :
    (codecs : Codecs) (disk : Disk) (ping_nodes : QuorumMap → Option (List ℕ)) (s : Relay)
    (db : Database)
    → 0 < saved_number codecs disk "t" db
    → Relay.ready (rollback_to_previous_state codecs disk ping_nodes db (clear_shares s)) ≡ false
unfolding rollback_to_previous_state clear_shares
rollback-clear_shares codecs disk ping_nodes s db h =
    reachable-none ping_nodes (saved_number codecs disk "t" db)
      (entries_or_none (get_state disk codecs.quorums "new_provers" db)) h

-- ===== src/Messages/ActorType.antt =====
-- network/crates/messages/src/actor_type.rs: the actors of a node and the names they are registered under.
use human_network.Prelude.{◌≡◌, refl, Outcome, ok, panic, String}
use human_network.Prelude.{str_eq, if◌then◌else◌}

pub data ActorType : Type 0 where
  gossip_engine election_engine relay dkg_engine app_state_engine rpc : ActorType

pub data SupervisorType : Type 0 where
  app_engine_state_super_visor election_engine_super_visor : SupervisorType
  dkg_engine_super_visor gossip_engine_super_visor : SupervisorType

-- `fmt` of the `Display` of the two types
unfoldable pub name_of : ActorType → String
name_of gossip_engine = "gossip_engine"
name_of election_engine = "election_engine"
name_of relay = "relay"
name_of dkg_engine = "dkg_engine"
name_of app_state_engine = "app_state_engine"
name_of rpc = "rpc"

unfoldable pub supervisor_name : SupervisorType → String
supervisor_name app_engine_state_super_visor = "app_engine_state_supervisor"
supervisor_name election_engine_super_visor = "election_engine_supervisor"
supervisor_name dkg_engine_super_visor = "dkg_engine_supervisor"
supervisor_name gossip_engine_super_visor = "gossip_engine_supervisor"

unfoldable pub resolve_actor_type : String → Outcome ActorType
resolve_actor_type s =
    if str_eq s "gossip_engine"
    then ok gossip_engine
    else if str_eq s "election_engine"
    then ok election_engine
    else if str_eq s "relay"
    then ok relay
    else if str_eq s "dkg_engine"
    then ok dkg_engine
    else if str_eq s "rpc"
    then ok rpc
    else if str_eq s "app_state_engine"
    then ok app_state_engine
    else panic

-- Every actor is found by its name.
pub resolve_actor_type-name_of : (actor : ActorType) → resolve_actor_type (name_of actor) ≡ ok actor
unfolding resolve_actor_type name_of
resolve_actor_type-name_of gossip_engine = refl
resolve_actor_type-name_of election_engine = refl
resolve_actor_type-name_of relay = refl
resolve_actor_type-name_of dkg_engine = refl
resolve_actor_type-name_of app_state_engine = refl
resolve_actor_type-name_of rpc = refl

-- ===== src/Session/Proto.antt =====
-- acktor-ipc-proto/src/message.rs and utils.rs: the messages between two sessions, as prost gives
-- them: a message without its content is read too.
use acktor.Base.{ℕ, Option, some, Result, ok, err, String}

pub data ActorRefType : Type 0 where
  index : ℕ → ActorRefType
  label : String → ActorRefType

-- The type and the label of the actor, its configuration, and the tag of the answer; or a reference
-- to the actor and the tag.
pub data NodeMessageType : Type 0 where
  create_actor : ℕ → String → String → ℕ → NodeMessageType
  get_actor : Option (Option ActorRefType) → ℕ → NodeMessageType

-- `B` is `Bytes`.
pub data IpcMessageType (B : Type 0) : Type 0 where
  node_message : Option NodeMessageType → IpcMessageType B
  actor_message : ℕ → ℕ → B → Option ℕ → IpcMessageType B
  message_response : ℕ → Option (Result B String) → IpcMessageType B

pub data ResultAddressType : Type 0 where
  address : ℕ → ResultAddressType
  failure : String → ResultAddressType

abbrev pub result_address : {G : Type 0} → (G → String) → Result ℕ G → Option ResultAddressType
result_address report (ok i) = some (address i)
result_address report (err e) = some (failure (report e))

-- ===== src/ControlMessage/Proto.antt =====
-- acktor-ipc-proto/src/control_message.rs: the protobuf messages, and their bytes.
use acktor.Base.{ℕ, Option, String}

pub data SupervisorType : Type 0 where
  set : ℕ → SupervisorType
  unset : SupervisorType

pub data ObserverType : Type 0 where
  register unregister : ℕ → ObserverType

pub data SupervisionEventType : Type 0 where
  warn : ℕ → String → SupervisionEventType
  terminated : ℕ → Option String → SupervisionEventType
  panicked : ℕ → String → SupervisionEventType
  state : ℕ → ℕ → SupervisionEventType

-- ===== src/ControlMessage.antt =====
-- acktor/src/codec/control_message.rs: the control messages on the wire. The bytes are those of
-- the prost crate, which is not in the repository: an interface, one for each protobuf message.
pub mod Proto
pub mod Signals
pub mod Laws
pub mod Refusals
use acktor.Base.{
  ℕ, ◌%◌, ◌^◌, ◌≡◌, Option, none, some, map_option, Result, ok, err, String, Bool, if◌then◌else◌,
}
use acktor.Codec.{
  DecodeContext, DecodeError, EncodeContext, EncodeError, Wire, and_then, decode_remote_address,
  encode_remote_address, invalid_value, malformed, missing_decode_context, missing_encode_context,
  missing_field, missing_remote_proxy, new_with_decode_context, not_remote_addressable, ok_or,
  other, register_with, registered, unknown_message_id,
}
use acktor.Actor.{ActorState, Signal, CronSignal}
use acktor.Actor.Codes.{
  state_code, state_try_from, signal_code, signal_try_from, cron_signal_code, cron_signal_try_from,
}
use acktor.Actor.Index.{ActorId, as_local, is_remote, new_remote}
use acktor.Context.{Supervisor, set, unset}
use acktor.Observer.{Observer, register, unregister}
use Proto.{SupervisorType, ObserverType, SupervisionEventType}
use Proto

-- supervisor.rs, with the address of the sender and the text of a panic, which the wire carries.
pub data SupervisionEvent (E : Type 0) : Type 0 where
  warn : ActorId → E → SupervisionEvent E
  terminated : ActorId → Option E → SupervisionEvent E
  panicked : ActorId → String → SupervisionEvent E
  state : ActorId → ActorState → SupervisionEvent E

module _ (resolved : ℕ → Result ActorId DecodeError) where
  unfoldable pub supervisor_of : Option SupervisorType → Result Supervisor DecodeError
  supervisor_of none = err (missing_field "supervisor")
  supervisor_of (some (Proto.set i)) = and_then (resolved i) (λ a. ok (set a))
  supervisor_of (some Proto.unset) = ok unset

  unfoldable pub observer_of : Option ObserverType → Result Observer DecodeError
  observer_of none = err (missing_field "observer")
  observer_of (some (Proto.register i)) = and_then (resolved i) (λ a. ok (register a))
  observer_of (some (Proto.unregister i)) = and_then (resolved i) (λ a. ok (unregister a))

module _ {B : Type 0} where
  -- An `i32` is its bits as a number: `as i32` keeps a code, and `as u8` drops all but 8 bits.
  unfoldable pub encode_signal : Wire B ℕ → Signal → B
  encode_signal w s = w.encode (signal_code s)

  unfoldable pub encode_cron_signal : Wire B ℕ → CronSignal → B
  encode_cron_signal w s = w.encode (cron_signal_code s)

module _ {B : Type 0} where
  unfoldable pub decode_signal : Wire B ℕ → B → Result Signal DecodeError
  decode_signal w b =
      and_then (ok_or (w.decode b) malformed)
        (λ v. ok_or (signal_try_from (v % 2 ^ 8)) invalid_value)

  unfoldable pub decode_cron_signal : Wire B ℕ → B → Result CronSignal DecodeError
  decode_cron_signal w b =
      and_then (ok_or (w.decode b) malformed)
        (λ v. ok_or (cron_signal_try_from (v % 2 ^ 8)) invalid_value)

  unfoldable pub encode_supervisor :
      {G : Type 0}
      → (ActorId → Bool)
      → Wire B (Option SupervisorType)
      → Option (EncodeContext G)
      → Supervisor
      → Result B (EncodeError G)
  encode_supervisor remote_mailbox w ctx (set recipient) =
      and_then (registered remote_mailbox ctx recipient)
        (λ u. ok (w.encode (some (Proto.set (as_local recipient)))))
  encode_supervisor remote_mailbox w ctx unset = ok (w.encode (some Proto.unset))

  unfoldable pub decode_supervisor :
      Wire B (Option SupervisorType) → Option DecodeContext → B → Result Supervisor DecodeError
  unfolding supervisor_of
  decode_supervisor w ctx b =
      and_then (ok_or ctx missing_decode_context)
        (λ f. and_then (ok_or (w.decode b) malformed) (supervisor_of (new_with_decode_context f)))

  unfoldable pub encode_observer :
      {G : Type 0}
      → (ActorId → Bool)
      → Wire B (Option ObserverType)
      → Option (EncodeContext G)
      → Observer
      → Result B (EncodeError G)
  encode_observer remote_mailbox w ctx (register recipient) =
      and_then (registered remote_mailbox ctx recipient)
        (λ u. ok (w.encode (some (Proto.register (as_local recipient)))))
  encode_observer remote_mailbox w ctx (unregister recipient) =
      and_then (registered remote_mailbox ctx recipient)
        (λ u. ok (w.encode (some (Proto.unregister (as_local recipient)))))

  unfoldable pub decode_observer :
      Wire B (Option ObserverType) → Option DecodeContext → B → Result Observer DecodeError
  unfolding observer_of
  decode_observer w ctx b =
      and_then (ok_or ctx missing_decode_context)
        (λ f. and_then (ok_or (w.decode b) malformed) (observer_of (new_with_decode_context f)))

unfoldable pub build_supervision_event_message :
    {E : Type 0} → (E → String) → SupervisionEvent E → SupervisionEventType × ActorId
build_supervision_event_message to_string (warn a e) = (Proto.warn (as_local a) (to_string e), a)
build_supervision_event_message to_string (terminated a e) =
    (Proto.terminated (as_local a) (map_option to_string e), a)
build_supervision_event_message to_string (panicked a info) = (Proto.panicked (as_local a) info, a)
build_supervision_event_message to_string (state a s) = (Proto.state (as_local a) (state_code s), a)

unfoldable pub event_of :
    {E : Type 0}
    → (ℕ → Result ActorId DecodeError)
    → (String → E)
    → Option SupervisionEventType
    → Result (SupervisionEvent E) DecodeError
event_of resolved from_string none = err (missing_field "event")
event_of resolved from_string (some (Proto.warn i e)) =
    and_then (resolved i) (λ a. ok (warn a (from_string e)))
event_of resolved from_string (some (Proto.terminated i e)) =
    and_then (resolved i) (λ a. ok (terminated a (map_option from_string e)))
event_of resolved from_string (some (Proto.panicked i info)) =
    and_then (resolved i) (λ a. ok (panicked a info))
event_of resolved from_string (some (Proto.state i v)) =
    and_then (resolved i)
      (λ a. and_then (ok_or (state_try_from (v % 2 ^ 8)) invalid_value) (λ s. ok (state a s)))

module _ {B E : Type 0} where
  unfoldable pub encode_event :
      {G : Type 0}
      → (ActorId → Bool)
      → (E → String)
      → Wire B (Option SupervisionEventType)
      → Option (EncodeContext G)
      → SupervisionEvent E
      → Result B (EncodeError G)
  unfolding build_supervision_event_message
  encode_event remote_mailbox to_string w ctx event =
      let m = build_supervision_event_message to_string event in
      and_then (registered remote_mailbox ctx m.1) (λ u. ok (w.encode (some m.0)))

  unfoldable pub decode_event :
      (String → E)
      → Wire B (Option SupervisionEventType)
      → Option DecodeContext
      → B
      → Result (SupervisionEvent E) DecodeError
  unfolding event_of
  decode_event from_string w ctx b = and_then (ok_or ctx missing_decode_context) (λ f.
      and_then (ok_or (w.decode b) malformed) (event_of (new_with_decode_context f) from_string))

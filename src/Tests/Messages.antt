-- ===== src/Tests/Messages.antt =====
-- acktor/src/codec/control_message.rs: messages between two processes, the bytes of a protobuf
-- message standing for themselves.
use acktor.Base.{ℕ, Bool, true, ◌≡◌, refl, Option, none, some, ok, err, String}
use acktor.Codec.{EncodeContext, Wire, encode_remote_address}
use acktor.Actor.{Signal}
use acktor.Actor.Codes.{signal_code}
use acktor.Actor.Index.{ActorId, is_remote, new_remote}
use acktor.Context.{set, unset}
use acktor.Observer.{register, unregister}
use acktor.ControlMessage.{
  terminated, decode_signal, encode_supervisor, decode_supervisor, encode_observer, encode_event,
  decode_event,
}
use acktor.ControlMessage.Proto.{SupervisorType, ObserverType, SupervisionEventType}
use acktor.ControlMessage.Signals.{decode_signal_iff}
use acktor.ControlMessage.Refusals.{remote, encode_fails}
use acktor.ControlMessage.Laws.{
  Reads, IsShared, decode_supervisor-encode_supervisor, decode_event-encode_event,
}

abbrev plain : {T : Type 0} → Wire T T
plain = record { encode = λ t. t; decode = λ t. some t; decode-encode = λ t. refl }

abbrev every_actor : ActorId → Bool
every_actor a = true

abbrev accepts : EncodeContext ℕ
accepts a = ok tt

abbrev local_actor : ActorId
local_actor = record { index = 7; session = 0 }

shared : IsShared every_actor accepts local_actor
unfolding is_remote
shared = record { is_local = refl; has_mailbox = refl; enters = refl }

-- 256 is no signal, and it stops the actor.
decode_signal_iff_example : decode_signal plain 256 ≡ ok Signal.stop
unfolding signal_code
decode_signal_iff_example = (decode_signal_iff plain 256 Signal.stop).1 refl

decode_supervisor-encode_supervisor_example :
    Reads
      (encode_supervisor every_actor plain (some accepts) (set local_actor))
      (decode_supervisor plain (some (some 3)))
      (set (new_remote 7 3))
    × Reads
        (encode_supervisor {G = ℕ} every_actor plain none unset)
        (decode_supervisor plain (some (some 3)))
        unset
decode_supervisor-encode_supervisor_example =
    decode_supervisor-encode_supervisor every_actor accepts plain 3 local_actor shared

decode_event-encode_event_example :
    Reads
      (encode_event {E = String} every_actor
        (λ e. e)
        plain
        (some accepts)
        (terminated local_actor none))
      (decode_event (λ e. e) plain (some (some 3)))
      (terminated (new_remote 7 3) none)
decode_event-encode_event_example =
    decode_event-encode_event every_actor accepts (λ e. e) (λ e. e) plain 3
      (terminated local_actor none) shared

abbrev remote_actor : ActorId
remote_actor = record { index = 7; session = 2 }

-- The bytes of the three messages.
data Bytes : Type 0 where
  of_supervisor : Option SupervisorType → Bytes
  of_observer : Option ObserverType → Bytes
  of_event : Option SupervisionEventType → Bytes

abbrev supervisor_wire : Wire Bytes (Option SupervisorType)
supervisor_wire = record { encode = of_supervisor; decode = read; decode-encode = λ t. refl }
  where
    read : Bytes → Option (Option SupervisorType)
    read (of_supervisor t) = some t
    read (of_observer t) = none
    read (of_event t) = none

abbrev observer_wire : Wire Bytes (Option ObserverType)
observer_wire = record { encode = of_observer; decode = read; decode-encode = λ t. refl }
  where
    read : Bytes → Option (Option ObserverType)
    read (of_supervisor t) = none
    read (of_observer t) = some t
    read (of_event t) = none

abbrev event_wire : Wire Bytes (Option SupervisionEventType)
event_wire = record { encode = of_event; decode = read; decode-encode = λ t. refl }
  where
    read : Bytes → Option (Option SupervisionEventType)
    read (of_supervisor t) = none
    read (of_observer t) = none
    read (of_event t) = some t

-- An actor of another process is not passed on.
encode_fails_example :
    (encode_supervisor every_actor supervisor_wire (some accepts) (set remote_actor)
      ≡ err encode_remote_address)
    × (encode_observer every_actor observer_wire (some accepts) (register remote_actor)
        ≡ err encode_remote_address)
    × (encode_observer every_actor observer_wire (some accepts) (unregister remote_actor)
        ≡ err encode_remote_address)
    × (encode_event {E = String} every_actor
          (λ e. e)
          event_wire
          (some accepts)
          (terminated remote_actor none)
        ≡ err encode_remote_address)
unfolding is_remote
encode_fails_example =
    encode_fails every_actor (λ e. e) supervisor_wire observer_wire event_wire (some accepts)
      (terminated remote_actor none) encode_remote_address (remote accepts remote_actor refl)

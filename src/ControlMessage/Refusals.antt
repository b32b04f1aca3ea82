-- ===== src/ControlMessage/Refusals.antt =====
-- acktor/src/codec/control_message.rs: the addresses that the control messages do not carry.
use acktor.Base.{Bool, true, false, ◌≡◌, refl, Option, none, some, err, String}
use acktor.Codec.{
  EncodeContext, EncodeError, Wire, encode_remote_address, missing_encode_context,
  not_remote_addressable, register_with, registered,
}
use acktor.Actor.Index.{ActorId, is_remote}
use acktor.Context.{set}
use acktor.Observer.{register, unregister}
use acktor.ControlMessage.{SupervisionEvent, encode_supervisor, encode_observer, encode_event}
use acktor.ControlMessage.Laws.{sender, sender_of_build}
use acktor.ControlMessage.Proto.{SupervisorType, ObserverType, SupervisionEventType}

module _ {G : Type 0} (remote_mailbox : ActorId → Bool) where
  -- Why an actor may not be registered: there is no context, the actor is another process's, it
  -- has no remote mailbox, or the context refuses it.
  pub data Refused : Option (EncodeContext G) → ActorId → EncodeError G → Type 0 where
    no_context : (a : ActorId) → Refused none a missing_encode_context
    remote :
        (ctx : EncodeContext G) (a : ActorId)
        → is_remote a ≡ true
        → Refused (some ctx) a encode_remote_address
    no_mailbox :
        (ctx : EncodeContext G) (a : ActorId)
        → is_remote a ≡ false
        → remote_mailbox a ≡ false
        → Refused (some ctx) a not_remote_addressable
    by_context :
        (ctx : EncodeContext G) (a : ActorId) (e : EncodeError G)
        → is_remote a ≡ false
        → remote_mailbox a ≡ true
        → ctx a ≡ err e
        → Refused (some ctx) a e

  registered_fails :
      (ctx : Option (EncodeContext G)) (a : ActorId) (e : EncodeError G)
      → Refused ctx a e
      → registered remote_mailbox ctx a ≡ err e
  unfolding register_with
  registered_fails none a _ (no_context _) = refl
  registered_fails (some ctx) a _ (remote _ _ r) = rw r refl
  registered_fails (some ctx) a _ (no_mailbox _ _ r n) = rw (r, n) refl
  registered_fails (some ctx) a e (by_context _ _ _ r m h) = rw (r, m) h

module _ {B E G : Type 0} (remote_mailbox : ActorId → Bool) (to_string : E → String) where
  -- A supervisor, an observer or an event whose actor may not be registered is not encoded, and the
  -- error tells why: a missing context, an actor of another process, an actor without a remote
  -- mailbox, or the error of the context.
  pub encode_fails :
      (ws : Wire B (Option SupervisorType)) (wo : Wire B (Option ObserverType))
      (we : Wire B (Option SupervisionEventType)) (ctx : Option (EncodeContext G))
      (event : SupervisionEvent E) (e : EncodeError G)
      → Refused remote_mailbox ctx (sender event) e
      → (encode_supervisor remote_mailbox ws ctx (set (sender event)) ≡ err e)
        × (encode_observer remote_mailbox wo ctx (register (sender event)) ≡ err e)
        × (encode_observer remote_mailbox wo ctx (unregister (sender event)) ≡ err e)
        × (encode_event remote_mailbox to_string we ctx event ≡ err e)
  unfolding encode_supervisor encode_observer encode_event
  encode_fails ws wo we ctx event e h =
      let fails = registered_fails remote_mailbox ctx (sender event) e h in
      (
        rw fails refl,
        rw fails refl,
        rw fails refl,
        rw (sender_of_build to_string event) (rw fails refl),
      )

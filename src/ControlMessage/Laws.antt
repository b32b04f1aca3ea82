-- ===== src/ControlMessage/Laws.antt =====
-- acktor/src/codec/control_message.rs: what the receiver of a control message reads.
use acktor.Base.{
  ℕ, Bool, true, false, ◌%◌, ◌^◌, ◌≡◌, refl, ◌∙◌, ap, sym, Option, none, some, map_option, Result,
  ok, String,
}
use mathlib.Core.Path.{subst}
use acktor.Codec.{
  DecodeError, EncodeContext, Wire, and_then, invalid_value, malformed, new_with_decode_context,
  ok_or, register_with, registered,
}
use acktor.Actor.{ActorState, unstarted, starting, running, stopping, stopped}
use acktor.Actor.Codes.{state_code, state_try_from}
use acktor.Actor.Index.{ActorId, as_local, is_remote, new_remote}
use acktor.Context.{set, unset}
use acktor.Observer.{register, unregister}
use acktor.ControlMessage.{
  SupervisionEvent, warn, terminated, panicked, state, encode_supervisor, decode_supervisor,
  encode_observer, decode_observer, encode_event, decode_event, build_supervision_event_message,
  supervisor_of, observer_of, event_of,
}
use acktor.ControlMessage.Proto
use acktor.ControlMessage.Proto.{SupervisorType, ObserverType, SupervisionEventType}

-- The encoder succeeds, and the decoder reads `r` from its bytes.
abbrev pub Reads : {B T R D : Type 0} → Result B T → (B → Result R D) → R → Type 0
Reads {B = B} encoded decode r = (b : B) × (encoded ≡ ok b) × (decode b ≡ ok r)

-- The sender may pass on a local actor that has a remote mailbox, and its context registers it.
pub record IsShared {G : Type 0} (remote_mailbox : ActorId → Bool) (ctx : EncodeContext G)
    (a : ActorId) : Type 0 where
  pub is_local : is_remote a ≡ false
  pub has_mailbox : remote_mailbox a ≡ true
  pub enters : ctx a ≡ ok tt

registered_ok :
    {G : Type 0} (remote_mailbox : ActorId → Bool) (ctx : EncodeContext G) (a : ActorId)
    → IsShared remote_mailbox ctx a
    → registered remote_mailbox (some ctx) a ≡ ok tt
unfolding register_with
registered_ok remote_mailbox ctx a h = rw (h.is_local, h.has_mailbox) h.enters

module _ {B G : Type 0} (remote_mailbox : ActorId → Bool) (ctx : EncodeContext G) where
  -- What all the encoders with a context share: the actor is registered, and `m` is on the wire.
  read_back :
      {T R : Type 0} (w : Wire B T) (a : ActorId) (m : T) (of : T → Result R DecodeError) (r : R)
      → IsShared remote_mailbox ctx a
      → of m ≡ ok r
      → Reads
          (and_then (registered remote_mailbox (some ctx) a) (λ u. ok (w.encode m)))
          (λ b. and_then (ok_or (w.decode b) malformed) of)
          r
  read_back w a m of r h e = (
    w.encode m,
    ap (λ x. and_then x (λ u. ok (w.encode m))) (registered_ok remote_mailbox ctx a h),
    ap (λ o. and_then (ok_or o malformed) of) (w.decode-encode m) ∙ e,
  )

  -- A message to set or unset a supervisor is read as it was sent, its recipient as the remote
  -- actor with the same index in the receiver's session; the recipient of the sender is local, has
  -- a remote mailbox, and its registration succeeds.
  pub decode_supervisor-encode_supervisor :
      (w : Wire B (Option SupervisorType)) (session : ℕ) (a : ActorId)
      → IsShared remote_mailbox ctx a
      → Reads
          (encode_supervisor remote_mailbox w (some ctx) (set a))
          (decode_supervisor w (some (some session)))
          (set (new_remote (as_local a) session))
        × Reads
            (encode_supervisor {G = G} remote_mailbox w none unset)
            (decode_supervisor w (some (some session)))
            unset
  unfolding encode_supervisor decode_supervisor supervisor_of new_with_decode_context
  decode_supervisor-encode_supervisor w session a h = (
    read_back w a (some (Proto.set (as_local a)))
        (supervisor_of (new_with_decode_context (some session)))
        (set (new_remote (as_local a) session)) h refl,
    (
      w.encode (some Proto.unset),
      refl,
      ap
          (λ o.
            and_then (ok_or o malformed) (supervisor_of (new_with_decode_context (some session))))
          (w.decode-encode (some Proto.unset)),
    ),
  )

  -- A message to register or unregister an observer is read as it was sent, its recipient as the
  -- remote actor with the same index in the receiver's session; the recipient of the sender is
  -- local, has a remote mailbox, and its registration succeeds.
  pub decode_observer-encode_observer :
      (w : Wire B (Option ObserverType)) (session : ℕ) (a : ActorId)
      → IsShared remote_mailbox ctx a
      → Reads
          (encode_observer remote_mailbox w (some ctx) (register a))
          (decode_observer w (some (some session)))
          (register (new_remote (as_local a) session))
        × Reads
            (encode_observer remote_mailbox w (some ctx) (unregister a))
            (decode_observer w (some (some session)))
            (unregister (new_remote (as_local a) session))
  unfolding encode_observer decode_observer observer_of new_with_decode_context
  decode_observer-encode_observer w session a h = (
    read_back w a (some (Proto.register (as_local a)))
        (observer_of (new_with_decode_context (some session)))
        (register (new_remote (as_local a) session)) h refl,
    read_back w a (some (Proto.unregister (as_local a)))
        (observer_of (new_with_decode_context (some session)))
        (unregister (new_remote (as_local a) session)) h refl,
  )

-- The actor that an event comes from, and the event as its receiver has it: its errors went through
-- their text.
abbrev pub sender : {E : Type 0} → SupervisionEvent E → ActorId
sender (warn a e) = a
sender (terminated a e) = a
sender (panicked a info) = a
sender (state a s) = a

abbrev pub relayed : {E : Type 0} → (E → E) → ActorId → SupervisionEvent E → SupervisionEvent E
relayed f b (warn a e) = warn b (f e)
relayed f b (terminated a e) = terminated b (map_option f e)
relayed f b (panicked a info) = panicked b info
relayed f b (state a s) = state b s

module _ {E : Type 0} (to_string : E → String) where
  pub sender_of_build :
      (event : SupervisionEvent E)
      → (build_supervision_event_message to_string event).1 ≡ sender event
  unfolding build_supervision_event_message
  sender_of_build (warn a e) = refl
  sender_of_build (terminated a e) = refl
  sender_of_build (panicked a info) = refl
  sender_of_build (state a s) = refl

state_read : (s : ActorState) → state_try_from (state_code s % 2 ^ 8) ≡ some s
unfolding state_code state_try_from
state_read unstarted = refl
state_read starting = refl
state_read running = refl
state_read stopping = refl
state_read stopped = refl

module _ {E : Type 0} (to_string : E → String) (from_string : String → E) where
  error_read :
      (o : Option E)
      → map_option from_string (map_option to_string o)
        ≡ map_option (λ e. from_string (to_string e)) o
  error_read none = refl
  error_read (some e) = refl

module _ {E : Type 0} (to_string : E → String) (from_string : String → E) (session : ℕ) where
  event_of-build :
      (event : SupervisionEvent E)
      → event_of
          (new_with_decode_context (some session))
          from_string
          (some (build_supervision_event_message to_string event).0)
        ≡ ok (
            relayed
              (λ e. from_string (to_string e))
              (new_remote (as_local (sender event)) session)
              event)
  unfolding event_of build_supervision_event_message new_with_decode_context
  event_of-build (warn a e) = refl
  event_of-build (terminated a o) =
      ap (λ p. ok (terminated (new_remote (as_local a) session) p))
        (error_read to_string from_string o)
  event_of-build (panicked a info) = refl
  event_of-build (state a s) =
      ap
        (λ o.
          and_then (ok_or o invalid_value) (λ t. ok (state (new_remote (as_local a) session) t)))
        (state_read s)

module _ {B E G : Type 0} (remote_mailbox : ActorId → Bool) (ctx : EncodeContext G)
    (to_string : E → String) (from_string : String → E) where
  -- An event for a remote supervisor is read as it was sent: of the same kind, from the remote actor
  -- with the same index in the receiver's session, with the same state, and with its error made
  -- again from the text of the one that was sent; the sender is local, has a remote mailbox, and
  -- its registration succeeds.
  pub decode_event-encode_event :
      (w : Wire B (Option SupervisionEventType)) (session : ℕ) (event : SupervisionEvent E)
      → IsShared remote_mailbox ctx (sender event)
      → Reads
          (encode_event remote_mailbox to_string w (some ctx) event)
          (decode_event from_string w (some (some session)))
          (relayed
            (λ e. from_string (to_string e))
            (new_remote (as_local (sender event)) session)
            event)
  unfolding encode_event decode_event
  decode_event-encode_event w session event h =
      read_back remote_mailbox ctx w (build_supervision_event_message to_string event).1
        (some (build_supervision_event_message to_string event).0)
        (event_of (new_with_decode_context (some session)) from_string)
        (relayed (λ e. from_string (to_string e)) (new_remote (as_local (sender event)) session)
          event)
        (subst (IsShared remote_mailbox ctx) (sym (sender_of_build to_string event)) h)
        (event_of-build to_string from_string session event)

-- ===== src/Session/Inbound.antt =====
-- acktor-ipc/src/session.rs: the requests of the peer. What the session hands to tokio runs beside
-- it as a task, whose end is a message to the session.
use acktor.Base.{
  ℕ, Bool, Option, none, some, List, [], ◌∷◌, ◌++◌, Result, ok, err, Outcome, returned, panicked,
  String, ◌>>=◌,
}
use acktor.Actor.Index.{ActorId, as_local}
use acktor.BinaryMessage
use acktor.BinaryMessage.{BinaryMessage}
use acktor.Codec.{Wire, missing_field, malformed, ok_or}
use acktor.Errors.{
  SessionError, decode_error, actor_not_found, forward_inbound_message_failed,
  handle_inbound_message_failed,
}
use acktor.Registry
use acktor.Registry.{DashMap, RemoteMailbox}
use acktor.Session.{
  Session, IpcMessage, send_ipc_message, message_response, handle_message_response,
}
use acktor.Session.Proto.{
  ActorRefType, index, label, NodeMessageType, create_actor, get_actor, IpcMessageType,
  node_message, actor_message, ResultAddressType, result_address,
}
use acktor.Session.Proto

-- A task for a tagged request of the peer: the manager creates an actor, or an actor of this
-- process, if it was found, answers.
pub data Task (B E : Type 0) : Type 0 where
  create_task : ℕ → String → String → ℕ → Task B E
  forward_task : Result RemoteMailbox (SessionError E) → BinaryMessage B → ℕ → Task B E

-- What the awaits of a task return: the manager's answer, the send to the mailbox, the response.
pub record TaskEnd (B E : Type 0) : Type 0 where
  pub created : Result ActorId (SessionError E)
  pub forwarded : Result (Unit {0}) E
  pub response : Result B E

-- A session, the registry that it shares with the node, its tasks, and what the mailboxes of actors
-- took, oldest first.
pub record Serving (B E Map : Type 0) : Type 0 where
  pub session : Session B E
  pub registry : Map
  pub tasks : List (Task B E)
  pub delivered : List (RemoteMailbox × BinaryMessage B)

-- What the others do while the session handles one message: the mailboxes that are closed, the
-- response senders whose receiver is gone, the manager's answer to `GetActor`, a new response
-- sender, and the ends of the sends on the connection and to a mailbox.
pub record Env (E Map : Type 0) : Type 0 where
  pub closed : RemoteMailbox → Bool
  pub gone : ℕ → Bool
  pub by_label : String → Map → Map × Result RemoteMailbox (SessionError E)
  pub tx : ℕ
  pub sent : Result (Unit {0}) E
  pub forwarded : Result (Unit {0}) E

-- `expect` fails before the session is started.
unfoldable pub encode_context : {B E : Type 0} → Session B E → Outcome ℕ
encode_context s = elim s.proxy [ none ↦ panicked | some i ↦ returned i ]

unfoldable pub decode_context : {B E : Type 0} → Session B E → Outcome ℕ
decode_context s = elim s.proxy [ none ↦ panicked | some i ↦ returned i ]

-- `to_string` prints a number, and `report` an error.
module _ {B E : Type 0} (dash : DashMap RemoteMailbox)
    (addresses : Wire B (Option ResultAddressType)) (to_string : ℕ → String)
    (report : SessionError E → String) where
  open dash use {Map}

  unfoldable pub find_mailbox :
      (RemoteMailbox → Bool) → ℕ → Map → Map × Result RemoteMailbox (SessionError E)
  unfolding Registry.get
  find_mailbox closed actor_id r =
      let found = Registry.get dash closed actor_id r in
      (found.0, ok_or found.1 (actor_not_found (to_string actor_id)))

  unfoldable pub find_actor :
      Env E Map → Option (Option ActorRefType) → Map → Map × Result RemoteMailbox (SessionError E)
  unfolding find_mailbox
  find_actor env (some (some (index actor_id))) r = find_mailbox env.closed actor_id r
  find_actor env (some (some (label l))) r = env.by_label l r
  find_actor env (some none) r = (r, err (decode_error (missing_field "ref")))
  find_actor env none r = (r, err (decode_error (missing_field "actor")))

  abbrev pub local_index : Result RemoteMailbox (SessionError E) → Result ℕ (SessionError E)
  local_index (ok mailbox) = ok (as_local mailbox.index)
  local_index (err e) = err e

  unfoldable pub handle_node_message :
      Env E Map
      → Option NodeMessageType
      → Serving B E Map
      → Serving B E Map × Result (Unit {0}) (SessionError E)
  unfolding find_actor send_ipc_message
  handle_node_message env (some (create_actor type_id l config tag)) s =
      (record s { tasks = s.tasks ++ create_task type_id l config tag ∷ [] }, ok tt)
  handle_node_message env (some (get_actor actor tag)) s =
      let found = find_actor env actor s.registry in
      let bytes = addresses.encode (result_address report (local_index found.1)) in
      let r = send_ipc_message (message_response tag (ok bytes)) env.sent s.session in
      (record s { session = r.0; registry = found.0 }, r.1)
  handle_node_message env none s = (s, err (decode_error (missing_field "message")))

  -- `do_send` to a mailbox.
  unfoldable pub forward :
      Result (Unit {0}) E
      → RemoteMailbox
      → BinaryMessage B
      → Serving B E Map
      → Serving B E Map × Result (Unit {0}) (SessionError E)
  forward (ok u) mailbox m s = (record s { delivered = s.delivered ++ (mailbox, m) ∷ [] }, ok tt)
  forward (err e) mailbox m s = (s, err (forward_inbound_message_failed e))

  -- A message without a tag goes to the mailbox that was found.
  unfoldable pub route :
      Env E Map
      → Result RemoteMailbox (SessionError E)
      → BinaryMessage B
      → Serving B E Map
      → Outcome (Serving B E Map × Result (Unit {0}) (SessionError E))
  route env (err e) m s = returned (s, err e)
  route env (ok mailbox) m s = decode_context s.session >>= λ c.
      returned (forward env.forwarded mailbox (BinaryMessage.with_decode_context c m) s)

  unfoldable pub handle_actor_message :
      Env E Map
      → ℕ
      → ℕ
      → B
      → Option ℕ
      → Serving B E Map
      → Outcome (Serving B E Map × Result (Unit {0}) (SessionError E))
  handle_actor_message env actor_id message_id message (some tag) s =
      let recipient = find_mailbox env.closed actor_id s.registry in
      encode_context s.session >>= λ c. decode_context s.session >>= λ d.
      let m = BinaryMessage.with_decode_context d (
        BinaryMessage.with_encode_context c
          (BinaryMessage.send actor_id message_id message env.tx)) in
      returned (
        record s { registry = recipient.0; tasks = s.tasks ++ forward_task recipient.1 m tag ∷ [] },
        ok tt,
      )
  handle_actor_message env actor_id message_id message none s =
      let recipient = find_mailbox env.closed actor_id s.registry in
      route env recipient.1 (BinaryMessage.do_send actor_id message_id message)
        (record s { registry = recipient.0 })

  -- The match of `handle_ipc_message`, whatever came of decoding.
  unfoldable pub dispatch :
      Env E Map
      → Option (IpcMessage B)
      → Serving B E Map
      → Outcome (Serving B E Map × Result (Unit {0}) (SessionError E))
  unfolding handle_node_message handle_actor_message handle_message_response
  dispatch env none s = returned (s, err (decode_error malformed))
  dispatch env (some (some (node_message m))) s = returned (handle_node_message env m s)
  dispatch env (some (some (actor_message actor_id message_id message tag))) s =
      handle_actor_message env actor_id message_id message tag s
  dispatch env (some (some (Proto.message_response tag response))) s =
      let r = handle_message_response env.gone tag response s.session in
      returned (record s { session = r.0 }, r.1)
  dispatch env (some none) s = returned (s, err (decode_error (missing_field "message")))

  unfoldable pub handle_ipc_message :
      Wire B (IpcMessage B)
      → Env E Map
      → B
      → Serving B E Map
      → Outcome (Serving B E Map × Result (Unit {0}) (SessionError E))
  unfolding dispatch
  handle_ipc_message messages env frame s = dispatch env (messages.decode frame) s

  abbrev pub local_id : Result ActorId (SessionError E) → Result ℕ (SessionError E)
  local_id (ok actor_id) = ok (as_local actor_id)
  local_id (err x) = err x

  abbrev pub reply : Result (Unit {0}) (SessionError E) → Result B E → Result B String
  reply (err x) response = err (report x)
  reply (ok u) (err x) = err (report (handle_inbound_message_failed x))
  reply (ok u) (ok bytes) = ok bytes

  -- The message to the session with which a task ends.
  unfoldable pub finish :
      Task B E → TaskEnd B E → Serving B E Map → Serving B E Map × ℕ × Result B String
  unfolding forward
  finish (create_task type_id l config tag) e s =
      (s, tag, ok (addresses.encode (result_address report (local_id e.created))))
  finish (forward_task (err x) m tag) e s = (s, tag, err (report x))
  finish (forward_task (ok mailbox) m tag) e s =
      let sent = forward e.forwarded mailbox m s in (sent.0, tag, reply sent.1 e.response)

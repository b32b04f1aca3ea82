-- ===== src/Session.antt =====
-- acktor-ipc/src/session.rs: the requests that a session sends for local actors, and how their
-- answers come back.
pub mod Proto
pub mod Inbound
pub mod Context
pub mod Loop
pub mod Sends
pub mod Served
pub mod Balance
pub mod Replies
pub mod Waiting
pub mod Sweeps
pub mod Proxy
pub mod Sending
pub mod Resolve
pub mod Exchange
pub mod Requests
pub mod Answers
use acktor.Base.{
  ℕ, ◌+◌, ◌-◌, ◌%◌, ◌^◌, ◌≡◌, Bool, true, false, not, ◌||◌, Option, none, some, List, [], ◌∷◌, ◌++◌,
  if◌then◌else◌, leb, Result, ok, err, String,
}
use acktor.Base.Eq.{nat_eq}
use acktor.Codec.{missing_field}
use acktor.Errors.{
  SessionError, decode_error, send_outbound_message_failed, response_timeout, remote_node_error,
  invalid_message_res_tx_tag, forward_message_res_failed,
}
use Proto
use Proto.{IpcMessageType, node_message}
use acktor.HashMap
use acktor.HashMap.{HashMap}
use acktor.ActorMgr.{ActorRef, index, label}
use acktor.Actor.Index.{as_local}

-- `B` is `Bytes`, and `E` the errors of the connection and of the codec.
abbrev pub IpcMessage : Type 0 → Type 0
IpcMessage B = Option (IpcMessageType B)

module _ {B : Type 0} where
  abbrev pub create_actor : ℕ → String → String → ℕ → IpcMessage B
  create_actor type_id l config tag =
      some (node_message (some (Proto.create_actor type_id l config tag)))

  abbrev pub get_actor_by_index : ℕ → ℕ → IpcMessage B
  get_actor_by_index actor_id tag =
      some (node_message (some (Proto.get_actor (some (some (Proto.index actor_id))) tag)))

  abbrev pub get_actor_by_label : String → ℕ → IpcMessage B
  get_actor_by_label l tag =
      some (node_message (some (Proto.get_actor (some (some (Proto.label l))) tag)))

  abbrev pub actor_message : ℕ → ℕ → B → Option ℕ → IpcMessage B
  actor_message actor_id message_id message tag =
      some (Proto.actor_message actor_id message_id message tag)

  abbrev pub message_response : ℕ → Result B String → IpcMessage B
  message_response tag result = some (Proto.message_response tag (some result))

-- A response sender is known by a number; `pending` is `message_res_tx_map`. `sent` is what the
-- connection took, `unsent` what it refused, and `answered` what the senders were given, oldest first. `proxy` is the index
-- that the proxy gives to remote addresses.
pub record Session (B E : Type 0) : Type 0 where
  pub tag : ℕ
  pub pending : HashMap ℕ (ℕ × ℕ)
  pub sent : List (IpcMessage B)
  pub unsent : List (IpcMessage B)
  pub answered : List (ℕ × Result B (SessionError E))
  pub proxy : Option ℕ

-- In seconds.
abbrev pub response_timeout_secs : ℕ
response_timeout_secs = 60

abbrev pub or_default : Option String → String
or_default none = ""
or_default (some s) = s

abbrev pub get_actor : {B : Type 0} → ActorRef → ℕ → IpcMessage B
get_actor (index i) t = get_actor_by_index (as_local i) t
get_actor (label l) t = get_actor_by_label l t

abbrev pub is_expired : (ℕ → Bool) → ℕ → ℕ × ℕ → Bool
is_expired closed now (tx, since) = closed tx || leb response_timeout_secs (now - since)

module _ {B E : Type 0} where
  unfoldable pub new : Session B E
  new = record { tag = 0; pending = []; sent = []; unsent = []; answered = []; proxy = none }

  unfoldable pub next_tag : Session B E → Session B E × ℕ
  next_tag s = (record s { tag = (s.tag + 1) % 2 ^ 64 }, s.tag)

  -- The result is that of the connection. The encoding does not fail: prost's `encode` fails only
  -- where the buffer cannot hold the message, and a `BytesMut` grows.
  unfoldable pub send_ipc_message :
      IpcMessage B
      → Result (Unit {0}) E
      → Session B E
      → Session B E × Result (Unit {0}) (SessionError E)
  send_ipc_message m (ok u) s = (record s { sent = s.sent ++ m ∷ [] }, ok tt)
  send_ipc_message m (err e) s =
      (record s { unsent = s.unsent ++ m ∷ [] }, err (send_outbound_message_failed e))

  -- `send` or `send_err` of a response sender, which fails once the receiver is gone.
  unfoldable pub answer :
      (ℕ → Bool) → ℕ → Result B (SessionError E) → Session B E → Session B E × Bool
  answer closed tx r s =
      if closed tx then (s, false) else (record s { answered = s.answered ++ (tx, r) ∷ [] }, true)

  -- What the three handlers of a request share once the message is built: a failure goes to the
  -- sender at once, and otherwise the sender waits under the tag.
  unfoldable pub request :
      (ℕ → Bool) → ℕ → ℕ → (ℕ → IpcMessage B) → Result (Unit {0}) E → Session B E → Session B E
  unfolding next_tag send_ipc_message answer
  request closed tx now message outcome s =
      let t = next_tag s in
      let r = send_ipc_message (message t.1) outcome t.0 in
      elim r.1 [
        | err e ↦ (answer closed tx (err e) r.0).0
        | ok u ↦ record (r.0) { pending = HashMap.insert t.1 (tx, now) r.0.pending }
      ]

  -- `Handler<RemoteCreateActor>`
  unfoldable pub remote_create_actor :
      (ℕ → Bool)
      → ℕ
      → ℕ
      → ℕ
      → String
      → Option String
      → Result (Unit {0}) E
      → Session B E
      → Session B E
  unfolding request
  remote_create_actor closed tx now type_id l config outcome s =
      request closed tx now (λ t. create_actor type_id l (or_default config) t) outcome s

  -- `Handler<RemoteGetActor>`
  unfoldable pub remote_get_actor :
      (ℕ → Bool) → ℕ → ℕ → ActorRef → Result (Unit {0}) E → Session B E → Session B E
  unfolding request
  remote_get_actor closed tx now actor outcome s = request closed tx now (get_actor actor) outcome s

  -- `Handler<BinaryMessage>`: with a response sender, or without.
  unfoldable pub binary_message :
      (ℕ → Bool) → Option ℕ → ℕ → ℕ → ℕ → B → Result (Unit {0}) E → Session B E → Session B E
  unfolding request send_ipc_message
  binary_message closed (some tx) now actor_id message_id bytes outcome s =
      request closed tx now (λ t. actor_message actor_id message_id bytes (some t)) outcome s
  binary_message closed none now actor_id message_id bytes outcome s =
      (send_ipc_message (actor_message actor_id message_id bytes none) outcome s).0

  -- `Handler<MessageResponse>`
  unfoldable pub send_response :
      ℕ → Result B String → Result (Unit {0}) E → Session B E → Session B E
  unfolding send_ipc_message
  send_response tag result outcome s = (send_ipc_message (message_response tag result) outcome s).0

  abbrev pub result_of : Option (Result B String) → Result B (SessionError E)
  result_of (some (ok bytes)) = ok bytes
  result_of (some (err e)) = err (remote_node_error e)
  result_of none = err (decode_error (missing_field "response"))

  unfoldable pub handle_message_response :
      (ℕ → Bool)
      → ℕ
      → Option (Result B String)
      → Session B E
      → Session B E × Result (Unit {0}) (SessionError E)
  unfolding answer
  handle_message_response closed tag response s = elim (HashMap.get tag s.pending) [
    | none ↦ (s, err (invalid_message_res_tx_tag tag))
    | some (tx, since) ↦
        let r =
          answer closed tx (result_of response)
            (record s { pending = HashMap.remove tag s.pending }) in
        (r.0, if r.1 then ok tt else err forward_message_res_failed)
  ]

  -- `extract_if`, and the loop over what it takes out.
  unfoldable pub expire :
      (ℕ → Bool) → ℕ → HashMap ℕ (ℕ × ℕ) → HashMap ℕ (ℕ × ℕ) × List (ℕ × Result B (SessionError E))
  expire closed now [] = ([], [])
  expire closed now ((t, (tx, since)) ∷ m) =
      let rest = expire closed now m in
      if is_expired closed now (tx, since)
      then (rest.0, if closed tx then rest.1 else (tx, err response_timeout) ∷ rest.1)
      else ((t, (tx, since)) ∷ rest.0, rest.1)

  unfoldable pub cleanup_message_res_tx_map : (ℕ → Bool) → ℕ → Session B E → Session B E
  unfolding expire
  cleanup_message_res_tx_map closed now s =
      let r = expire closed now s.pending in
      record s { pending = r.0; answered = s.answered ++ r.1 }

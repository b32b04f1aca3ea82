-- ===== src/Session/Served.antt =====
-- acktor-ipc/src/session.rs: the answers that a message of the peer makes due.
use acktor.Base.{
  ℕ, ◌+◌, ◌≡◌, refl, ap, Option, none, some, [], ◌∷◌, Result, ok, err, Outcome, returned, panicked,
  String, if◌then◌else◌, eqb, total, total-append, arith,
}
use acktor.Base.Eq.{nat_eq}
use acktor.BinaryMessage
use acktor.BinaryMessage.{BinaryMessage}
use acktor.Codec.{Wire}
use acktor.Errors.{SessionError}
use acktor.Registry.{DashMap, RemoteMailbox}
use acktor.Session
use acktor.Session.{
  Session, IpcMessage, remote_create_actor, remote_get_actor, binary_message, send_response,
  cleanup_message_res_tx_map, answer, handle_message_response, send_ipc_message, next_tag,
}
use acktor.Session.Inbound.{
  route, handle_node_message, handle_actor_message, find_actor, local_index, forward, find_mailbox,
  dispatch, encode_context, Task, create_task, forward_task, TaskEnd, Serving, Env, decode_context,
  handle_ipc_message, finish,
}
use acktor.Session.Sends.{answers, send_ipc_message-Sends, handle_message_response-Sends}
use acktor.Session.Proto.{
  ResultAddressType, result_address, NodeMessageType, create_actor, get_actor, node_message,
  actor_message, message_response,
}

abbrev pub has_tag : ℕ → Option ℕ → ℕ
has_tag t none = 0
has_tag t (some tag) = if eqb tag t then 1 else 0

module _ {B : Type 0} (t : ℕ) where
  -- Whether a message of the peer asks for an answer with the tag.
  abbrev pub asks : Option (IpcMessage B) → ℕ
  asks (some (some (node_message (some (create_actor i l c tag))))) = if eqb tag t then 1 else 0
  asks (some (some (node_message (some (get_actor a tag))))) = if eqb tag t then 1 else 0
  asks (some (some (node_message none))) = 0
  asks (some (some (actor_message a m b tag))) = has_tag t tag
  asks (some (some (message_response tag r))) = 0
  asks (some none) = 0
  asks none = 0

  abbrev pub will_reply : {E : Type 0} → Task B E → ℕ
  will_reply (create_task i l c tag) = if eqb tag t then 1 else 0
  will_reply (forward_task r m tag) = if eqb tag t then 1 else 0

module _ {B E Map : Type 0} (t : ℕ) where
  abbrev pub in_tasks : Serving B E Map → ℕ
  in_tasks s = total (will_reply t) s.tasks

  -- `n` answers more are due.
  pub record Owes (n : ℕ) (s s' : Serving B E Map) : Type 0 where
    pub same_proxy : s'.session.proxy ≡ s.session.proxy
    pub counted : answers t s'.session + in_tasks s' ≡ n + answers t s.session + in_tasks s

pub started :
    {B E : Type 0} (s : Session B E) (p : ℕ) → s.proxy ≡ some p → encode_context s ≡ returned p
unfolding encode_context
started s p h = ap (λ o. elim o as (λ o. Outcome ℕ) [ none ↦ panicked | some i ↦ returned i ]) h

pub decode_started :
    {B E : Type 0} (s : Session B E) (p : ℕ) → s.proxy ≡ some p → decode_context s ≡ returned p
unfolding decode_context
decode_started s p h =
    ap (λ o. elim o as (λ o. Outcome ℕ) [ none ↦ panicked | some i ↦ returned i ]) h

module _ {B E : Type 0} (dash : DashMap RemoteMailbox)
    (addresses : Wire B (Option ResultAddressType)) (messages : Wire B (IpcMessage B))
    (to_string : ℕ → String) (report : SessionError E → String) (t : ℕ) where
  open dash use {Map}

  handle_node_message-Owes :
      (env : Env E Map) (m : Option NodeMessageType) (s : Serving B E Map)
      → Owes t
          (asks {B = B} t (some (some (node_message m))))
          s
          (handle_node_message dash addresses to_string report env m s).0
  unfolding handle_node_message
  handle_node_message-Owes env (some (create_actor i l c tag)) s = record {
    same_proxy = refl;
    counted = omega (arith, total-append (will_reply t) s.tasks (create_task i l c tag ∷ []));
  }
  handle_node_message-Owes env (some (get_actor a tag)) s =
      let found = find_actor dash addresses to_string report env a s.registry in
      let bytes =
        addresses.encode
          (result_address report (local_index dash addresses to_string report found.1)) in
      let k =
        send_ipc_message-Sends t (Session.message_response tag (ok bytes)) env.sent s.session in
      record { same_proxy = k.same_proxy; counted = omega (arith, k.counted) }
  handle_node_message-Owes env none s = record { same_proxy = refl; counted = omega arith }

  forward-Owes :
      (outcome : Result (Unit {0}) E) (mailbox : RemoteMailbox) (m : BinaryMessage B) (map : Map)
      (s : Serving B E Map)
      → Owes t 0 s
          (forward dash addresses to_string report outcome mailbox m
            (record s { registry = map })).0
  unfolding forward
  forward-Owes (ok u) mailbox m map s = record { same_proxy = refl; counted = omega arith }
  forward-Owes (err e) mailbox m map s = record { same_proxy = refl; counted = omega arith }

  -- A handler that returns owes `n` answers more; it does not panic.
  abbrev pub Served :
      ℕ → Serving B E Map → Outcome (Serving B E Map × Result (Unit {0}) (SessionError E)) → Type 0
  Served n s (returned r) = Owes t n s r.0
  Served n s panicked = ⊥

  route-Served :
      (env : Env E Map) (r : Result RemoteMailbox (SessionError E)) (m : BinaryMessage B)
      (map : Map) (s : Serving B E Map) (p : ℕ)
      → s.session.proxy ≡ some p
      → Served 0 s (route dash addresses to_string report env r m (record s { registry = map }))
  unfolding route
  route-Served env (err e) m map s p h = record { same_proxy = refl; counted = omega arith }
  route-Served env (ok mailbox) m map s p h =
      rw (decode_started s.session p h)
        (forward-Owes env.forwarded mailbox (BinaryMessage.with_decode_context p m) map s)

  handle_actor_message-Served :
      (env : Env E Map) (a m : ℕ) (b : B) (tag : Option ℕ) (s : Serving B E Map) (p : ℕ)
      → s.session.proxy ≡ some p
      → Served
          (has_tag t tag)
          s
          (handle_actor_message dash addresses to_string report env a m b tag s)
  unfolding handle_actor_message
  handle_actor_message-Served env a m b (some tag) s p h =
      rw (started s.session p h, decode_started s.session p h)
        (record {
          same_proxy = refl;
          counted = omega (arith, total-append (will_reply t) s.tasks (forward_task _ _ tag ∷ []));
        })
  handle_actor_message-Served env a m b none s p h =
      let found = find_mailbox dash addresses to_string report env.closed a s.registry in
      route-Served env found.1 (BinaryMessage.do_send a m b) found.0 s p h

  dispatch-Served :
      (env : Env E Map) (m : Option (IpcMessage B)) (s : Serving B E Map) (p : ℕ)
      → s.session.proxy ≡ some p
      → Served (asks t m) s (dispatch dash addresses to_string report env m s)
  unfolding dispatch
  dispatch-Served env none s p h = record { same_proxy = refl; counted = omega arith }
  dispatch-Served env (some none) s p h = record { same_proxy = refl; counted = omega arith }
  dispatch-Served env (some (some (node_message m))) s p h = handle_node_message-Owes env m s
  dispatch-Served env (some (some (actor_message a m b tag))) s p h =
      handle_actor_message-Served env a m b tag s p h
  dispatch-Served env (some (some (message_response tag r))) s p h =
      let k = handle_message_response-Sends t env.gone tag r s.session in
      record { same_proxy = k.same_proxy; counted = omega (arith, k.counted) }

  pub handle_ipc_message-Served :
      (env : Env E Map) (frame : B) (s : Serving B E Map) (p : ℕ)
      → s.session.proxy ≡ some p
      → Served
          (asks t (messages.decode frame))
          s
          (handle_ipc_message dash addresses to_string report messages env frame s)
  unfolding handle_ipc_message
  handle_ipc_message-Served env frame s p h = dispatch-Served env (messages.decode frame) s p h

  -- A task changes nothing in the session but by the message that it sends, which has its tag.
  pub session-finish :
      (task : Task B E) (e : TaskEnd B E) (s : Serving B E Map)
      → let r = finish dash addresses to_string report task e s in
        (r.0.session ≡ s.session) × ((if eqb r.1 t then 1 else 0) ≡ will_reply t task)
  unfolding finish forward
  session-finish (create_task i l c tag) e s = (refl, refl)
  session-finish (forward_task (err x) m tag) e s = (refl, refl)
  session-finish (forward_task (ok mailbox) m tag) e s = (deliver e.forwarded, refl)
    where
      deliver :
          (outcome : Result (Unit {0}) E)
          → (forward dash addresses to_string report outcome mailbox m s).0.session ≡ s.session
      deliver (ok u) = refl
      deliver (err x) = refl

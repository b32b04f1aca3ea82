-- ===== src/Session/Exchange.antt =====
-- acktor-ipc/src/session.rs: two sessions over one connection. What one asks, the other answers.
use acktor.Base.{
  ℕ, ◌≡◌, refl, ap, ◌∙◌, false, Option, none, some, [], ◌∷◌, ◌++◌, Result, ok, returned, String,
}
use acktor.ActorMgr.{ActorRef, index, label}
use acktor.Actor.Index.{as_local}
use acktor.Codec.{Wire}
use acktor.Errors.{SessionError}
use acktor.Registry.{DashMap, RemoteMailbox}
use acktor.Session.{
  IpcMessage, get_actor, message_response, remote_get_actor, send_ipc_message,
  handle_message_response,
}
use acktor.Session.Inbound.{
  Serving, Env, find_actor, local_index, handle_ipc_message, dispatch, handle_node_message,
}
use acktor.Session.Proto
use acktor.Session.Proto.{ActorRefType, ResultAddressType, result_address}
use acktor.Session.Requests.{handle_message_response-request}
use acktor.Session.Resolve.{resolve, arrived, resolve-answer}

-- The reference in the message that asks for an actor.
abbrev pub on_wire : ActorRef → ActorRefType
on_wire (index i) = Proto.index (as_local i)
on_wire (label l) = Proto.label l

module _ {B E : Type 0} (dash : DashMap RemoteMailbox)
    (addresses : Wire B (Option ResultAddressType)) (messages : Wire B (IpcMessage B))
    (to_string : ℕ → String) (report : SessionError E → String) (box : SessionError E → E) where
  open dash use {Map}

  get_actor-on_wire :
      (actor : ActorRef) (tag : ℕ)
      → get_actor {B = B} actor tag
        ≡ some (Proto.node_message (some (Proto.get_actor (some (some (on_wire actor))) tag)))
  get_actor-on_wire (index i) tag = refl
  get_actor-on_wire (label l) tag = refl

  -- The message with which a session answers a lookup.
  abbrev pub lookup_reply : ℕ → Result RemoteMailbox (SessionError E) → IpcMessage B
  lookup_reply tag found = message_response tag (
      ok (
        addresses.encode
          (result_address report (local_index dash addresses to_string report found))))

  -- The peer answers a lookup at once, with what its registry or its manager says.
  handle_node_message-get_actor :
      (env : Env E Map) (ref : ActorRefType) (tag : ℕ) (peer : Serving B E Map)
      → env.sent ≡ ok tt
      → let found =
          find_actor dash addresses to_string report env (some (some ref)) peer.registry in
        handle_node_message dash addresses to_string report env
          (some (Proto.get_actor (some (some ref)) tag))
          peer
        ≡ (
          record peer {
            session = record (peer.session) {
              sent = peer.session.sent ++ lookup_reply tag found.1 ∷ [];
            };
            registry = found.0;
          },
          ok tt,
        )
  unfolding handle_node_message send_ipc_message
  handle_node_message-get_actor env ref tag peer e =
      let found = find_actor dash addresses to_string report env (some (some ref)) peer.registry in
      ap
        (λ (o : Result (Unit {0}) E).
          let r = send_ipc_message (lookup_reply tag found.1) o peer.session in
          (record peer { session = r.0; registry = found.0 }, r.1))
        e

  handle_ipc_message-get_actor :
      (env : Env E Map) (actor : ActorRef) (tag : ℕ) (peer : Serving B E Map)
      → env.sent ≡ ok tt
      → let found =
          find_actor dash addresses to_string report env
            (some (some (on_wire actor)))
            peer.registry in
        handle_ipc_message dash addresses to_string report messages env
          (messages.encode (get_actor actor tag))
          peer
        ≡ returned (
          record peer {
            session = record (peer.session) {
              sent = peer.session.sent ++ lookup_reply tag found.1 ∷ [];
            };
            registry = found.0;
          },
          ok tt,
        )
  unfolding handle_ipc_message dispatch
  handle_ipc_message-get_actor env actor tag peer e =
      ap (λ o. dispatch dash addresses to_string report env o peer)
        (messages.decode-encode (get_actor actor tag) ∙ ap some (get_actor-on_wire actor tag))
      ∙ ap returned (handle_node_message-get_actor env (on_wire actor) tag peer e)

  handle_ipc_message-response :
      (env : Env E Map) (tag : ℕ) (result : Result B String) (s : Serving B E Map)
      → handle_ipc_message dash addresses to_string report messages env
          (messages.encode (message_response tag result))
          s
        ≡ returned (
          record s { session = (handle_message_response env.gone tag (some result) s.session).0 },
          (handle_message_response env.gone tag (some result) s.session).1,
        )
  unfolding handle_ipc_message dispatch
  handle_ipc_message-response env tag result s =
      ap (λ o. dispatch dash addresses to_string report env o s)
        (messages.decode-encode (message_response tag result))

  -- `RemoteGetActor` over two sessions whose connection works: the session sends its request; the
  -- peer reads it and sends back what it finds, the registry for an index and the manager for a
  -- label; the session reads that and gives it to the sender, if it still waits; and the sender has
  -- the remote address, in this session, of the actor that the peer found, or the text of the
  -- peer's error.
  pub exchange_get_actor :
      (env env' : Env E Map) (actor : ActorRef) (tx now session : ℕ) (here peer : Serving B E Map)
      → env.sent ≡ ok tt
      → env'.gone tx ≡ false
      → let tag = here.session.tag in
        let found =
          (find_actor dash addresses to_string report env
            (some (some (on_wire actor)))
            peer.registry).1 in
        let asked = remote_get_actor env'.gone tx now actor (ok tt) here.session in
        let bytes =
          addresses.encode
            (result_address report (local_index dash addresses to_string report found)) in
        (peer' here' : Serving B E Map) × (asked.sent
          ≡ here.session.sent ++ get_actor actor tag ∷ [])
        × (handle_ipc_message dash addresses to_string report messages env
              (messages.encode (get_actor actor tag))
              peer
            ≡ returned (peer', ok tt))
        × (peer'.session.sent ≡ peer.session.sent ++ lookup_reply tag found ∷ [])
        × (handle_ipc_message dash addresses to_string report messages env'
              (messages.encode (lookup_reply tag found))
              (record here { session = asked })
            ≡ returned (here', ok tt))
        × (here'.session.answered ≡ here.session.answered ++ (tx, ok bytes) ∷ [])
        × (resolve addresses box (some session) (some (ok bytes))
            ≡ arrived addresses box report session
                (local_index dash addresses to_string report found))
  unfolding remote_get_actor
  exchange_get_actor env env' actor tx now session here peer e o =
      let found =
        find_actor dash addresses to_string report env (some (some (on_wire actor)))
          peer.registry in
      let bytes =
        addresses.encode
          (result_address report (local_index dash addresses to_string report found.1)) in
      let asked = remote_get_actor env'.gone tx now actor (ok tt) here.session in
      let tag = here.session.tag in
      let round =
        handle_message_response-request env'.gone tx now (get_actor actor) (some (ok bytes)) none
          here.session o in
      (
        record peer {
          session = record (peer.session) {
            sent = peer.session.sent ++ lookup_reply tag found.1 ∷ [];
          };
          registry = found.0;
        },
        record here { session = (handle_message_response env'.gone tag (some (ok bytes)) asked).0 },
        round.0,
        handle_ipc_message-get_actor env actor tag peer e,
        refl,
        handle_ipc_message-response env' tag (ok bytes) (record here { session = asked })
            ∙ ap
                (λ (r : Result (Unit {0}) (SessionError E)). returned (
                  record here {
                    session = (handle_message_response env'.gone tag (some (ok bytes)) asked).0;
                  },
                  r,
                ))
                round.1,
        round.2,
        resolve-answer addresses box report session
            (local_index dash addresses to_string report found.1),
      )

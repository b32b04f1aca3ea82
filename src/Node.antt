-- ===== src/Node.antt =====
-- acktor-ipc/src/node.rs: the actor that owns the sessions and the listeners of a process.
pub mod Sessions
pub mod Listeners
pub mod Context
pub mod Forwarding
pub mod Serving
use acktor.Base.{
  ℕ, ◌≡◌, Bool, true, false, not, Option, none, some, List, [], ◌∷◌, ◌++◌, if◌then◌else◌, Result,
  ok, err, String, is_some,
}
use acktor.Base.Eq.{◌==◌, string_eq, nat_eq}
use acktor.HashMap
use acktor.HashMap.{HashMap}
use acktor.Actor.{ActorState}
use acktor.Actor.Index.{ActorId, id_Eq, as_local}
use acktor.Registry
use acktor.Registry.{DashMap, RemoteMailbox}
use acktor.Errors.{SessionError, RecvError}
use acktor.ActorMgr
use acktor.ActorMgr.{ActorMgr, ActorRef, index, label}
use acktor.Observer.{ObserverSet, Sent, notify_observers}
use acktor.DoubleMap
use acktor.DoubleMap.{DoubleMap}
use acktor.DoubleMap.Remove.{retain}
use acktor.DoubleMap.Remove.Retention.{keeping}

-- event.rs; an address is known by the index of its actor.
pub data NodeEvent : Type 0 where
  session_created : ActorId → String → NodeEvent
  session_deleted : ActorId → NodeEvent

-- The errors of `NodeError` that the node itself makes, and `E`, those it passes on.
pub data NodeError (E : Type 0) : Type 0 where
  label_exists : String → NodeError E
  no_actor_manager : NodeError E
  session_not_created : E → NodeError E
  session_not_found : ActorRef → NodeError E
  connect_failed : E → NodeError E
  session_error : SessionError E → NodeError E
  send_error : E → NodeError E
  recv_error : RecvError E → NodeError E

-- What became of a session, as its supervisor hears it; the error it ended with is only logged.
pub data SessionEvent : Type 0 where
  warn : ActorId → SessionEvent
  terminated : ActorId → SessionEvent
  panicked : ActorId → SessionEvent
  state : ActorId → ActorState → SessionEvent

-- A listener is known by its local endpoint, a child by the index of its actor; `delivered` is
-- what observers were sent, oldest first.
pub record Node (Map F : Type 0) : Type 0 where
  pub listener_labels : HashMap String (Unit {0})
  pub listeners : List String
  pub registry : Map
  pub actor_mgr : Option ActorId
  pub sessions : DoubleMap ActorId String ActorId
  pub children : HashMap ActorId (Unit {0})
  pub observers : ObserverSet
  pub delivered : List (NodeEvent × List ActorId)
  pub factories : Option (HashMap ℕ F)
  pub actor_labels : Option (HashMap String ℕ)

abbrev or_default : {K V : Type 0} → Option (HashMap K V) → HashMap K V
or_default none = []
or_default (some m) = m

abbrev pub or_else : Option String → String → String
or_else none endpoint = endpoint
or_else (some l) endpoint = l

module _ {F : Type 0} (dash : DashMap RemoteMailbox) where
  open dash use {Map}

  unfoldable pub new : Node Map F
  unfolding Registry.new
  new = record {
    listener_labels = [];
    listeners = [];
    registry = Registry.new dash;
    actor_mgr = none;
    sessions = DoubleMap.new;
    children = [];
    observers = [];
    delivered = [];
    factories = some [];
    actor_labels = some [];
  }

  -- Before the node starts, a listener replaces one on the same endpoint.
  unfoldable pub with_listener : String → Node Map F → Node Map F
  with_listener endpoint n =
      if HashMap.contains_key endpoint n.listener_labels
      then record n { listeners = others n.listeners ++ endpoint ∷ [] }
      else record n {
        listener_labels = HashMap.insert endpoint tt n.listener_labels;
        listeners = n.listeners ++ endpoint ∷ [];
      }
    where
      others : List String → List String
      others [] = []
      others (l ∷ ls) = let rest = others ls in if l == endpoint then rest else l ∷ rest

  unfoldable pub with_actor : String → ActorId → Node Map F → Node Map F
  unfolding Registry.insert
  with_actor l actor n = elim n.actor_labels [
    | none ↦ n
    | some labels ↦
        let inserted = Registry.insert dash (record { index = actor }) n.registry in
        if HashMap.contains_key l labels then n else if not inserted.1 then n else record n {
          registry = inserted.0;
          actor_labels = some (HashMap.insert l (as_local actor) labels);
        }
  ]

  unfoldable pub with_factory : ℕ → F → Node Map F → Node Map F
  with_factory type_id factory n = elim n.factories [
    | none ↦ n
    | some fs ↦ record n { factories = some (HashMap.insert type_id factory fs) }
  ]

  -- `post_start`, with what starting the manager comes to; the manager shares the registry.
  unfoldable pub post_start :
      {E : Type 0} → Result ActorId E → Node Map F → Node Map F × Result (ActorMgr Map F) E
  post_start (err e) n = (record n { factories = none; actor_labels = none }, err e)
  post_start (ok address) n = (
    record n {
      factories = none;
      actor_labels = none;
      children = HashMap.insert address tt n.children;
      actor_mgr = some address;
    },
    ok (record {
      registry = n.registry;
      actor_labels = or_default n.actor_labels;
      factories = or_default n.factories;
    }),
  )

  -- `post_stop`, with the children that it terminates and waits for.
  unfoldable pub post_stop : Node Map F → Node Map F × HashMap ActorId (Unit {0})
  post_stop n = (record n { children = [] }, n.children)

  unfoldable pub notify : (ActorId → Sent) → (ActorId → Bool) → NodeEvent → Node Map F → Node Map F
  unfolding notify_observers
  notify send gone event n =
      let r = notify_observers send gone n.observers in
      record n { observers = r.0; delivered = n.delivered ++ (event, r.1) ∷ [] }

  -- A session that was created is added; `let _ =` drops the result of `insert`.
  unfoldable pub admit :
      (ActorId → Sent) → (ActorId → Bool) → String → ActorId → Node Map F → Node Map F
  unfolding notify
  admit send gone l address n = notify send gone (session_created address l) (record n {
    sessions = (DoubleMap.insert address l address n.sessions).0;
    children = HashMap.insert address tt n.children;
  })

  unfoldable pub created :
      {E : Type 0}
      → (ActorId → Sent)
      → (ActorId → Bool)
      → String
      → Result ActorId E
      → Node Map F
      → Node Map F × Result ActorId (NodeError E)
  unfolding admit
  created send gone l (err e) n = (n, err (session_not_created e))
  created send gone l (ok address) n = (admit send gone l address n, ok address)

  -- `create_session` of a connection to `endpoint`, with what `Session::create` comes to.
  unfoldable pub create_session :
      {E : Type 0}
      → (ActorId → Sent)
      → (ActorId → Bool)
      → String
      → Option String
      → Result ActorId E
      → Node Map F
      → Node Map F × Result ActorId (NodeError E)
  unfolding created
  create_session send gone endpoint session_label session n =
      let l = or_else session_label endpoint in
      if DoubleMap.contains_key2 l n.sessions then (n, err (label_exists l)) else elim n.actor_mgr [
        | none ↦ (n, err no_actor_manager)
        | some mgr ↦ created send gone l session n
      ]

  unfoldable pub get_session : {E : Type 0} → ActorRef → Node Map F → Result ActorId (NodeError E)
  get_session (index i) n = elim (DoubleMap.get_by_key1 i n.sessions) [
    | none ↦ err (session_not_found (index i))
    | some s ↦ ok s
  ]
  get_session (label l) n = elim (DoubleMap.get_by_key2 l n.sessions) [
    | none ↦ err (session_not_found (label l))
    | some s ↦ ok s
  ]

  -- `Handler<AddListener>`: unlike `with_listener`, it replaces nothing.
  unfoldable pub add_listener : String → Node Map F → Node Map F × Bool
  add_listener endpoint n =
      if HashMap.contains_key endpoint n.listener_labels then (n, false) else (
        record n {
          listener_labels = HashMap.insert endpoint tt n.listener_labels;
          listeners = n.listeners ++ endpoint ∷ [];
        },
        true,
      )

  -- `Handler<Connect>`, with what connecting comes to: the endpoint of the peer.
  unfoldable pub connect :
      {E : Type 0}
      → (ActorId → Sent)
      → (ActorId → Bool)
      → Result String E
      → Option String
      → Result ActorId E
      → Node Map F
      → Node Map F × Result ActorId (NodeError E)
  unfolding create_session
  connect send gone (err e) session_label session n = (n, err (connect_failed e))
  connect send gone (ok endpoint) session_label session n =
      create_session send gone endpoint session_label session n

  -- `Handler<AddActor>` and `Handler<RemoveActor>`: the answer of the manager, if it can be asked
  -- and answers.
  unfoldable pub forwarded : Node Map F → Option (Option Bool) → Bool
  forwarded n reply = elim n.actor_mgr [
    | none ↦ false
    | some mgr ↦ elim reply [
      | none ↦ false
      | some answer ↦ elim answer [ none ↦ false | some b ↦ b ]
    ]
  ]

  -- `Handler<SupervisionEvent<Session>>`.
  unfoldable pub supervise :
      (ActorId → Sent) → (ActorId → Bool) → SessionEvent → Node Map F → Node Map F
  unfolding notify
  supervise send gone (terminated session) n =
      notify send gone (session_deleted session) (record n {
        sessions = retain (keeping (λ i l v. not (v == session))) tt n.sessions;
        children = HashMap.remove session n.children;
      })
  supervise send gone (warn session) n = n
  supervise send gone (panicked session) n = n
  supervise send gone (state session s) n = n

-- ===== src/Node/Context.antt =====
-- acktor-ipc/src/node/context.rs: the loop of the node, which waits for messages and connections.
use acktor.Base.{
  ℕ, zero, suc, Bool, true, false, Option, none, some, List, [], ◌∷◌, ◌++◌, if◌then◌else◌, Result,
  ok, err, String,
}
use acktor.Base.Eq.{◌==◌, string_eq}
use acktor.HashMap
use acktor.HashMap.{HashMap}
use acktor.Actor.{ActorState, stopping, stopped, Signal, is_running}
use acktor.Actor.Index.{ActorId}
use acktor.Registry.{DashMap, RemoteMailbox}
use acktor.Observer.{ObserverSet, Observer, Sent}
use acktor.Observer
use acktor.Node
use acktor.Node.{Node, SessionEvent}

-- An accept task is known by its label, which is the endpoint of its listener.
pub record NodeContext : Type 0 where
  pub index : ActorId
  pub state : ActorState
  pub accept_tasks : List String

unfoldable pub set_state : ActorState → NodeContext → NodeContext
set_state s c = record c { state = s }

abbrev pub without : String → List String → List String
without l [] = []
without l (t ∷ ts) = let rest = without l ts in if t == l then rest else t ∷ rest

unfoldable pub abort_accept_task : String → NodeContext → NodeContext
abort_accept_task l c = record c { accept_tasks = without l c.accept_tasks }

abbrev pub listed : HashMap String (Unit {0}) → List String → List String
listed labels [] = []
listed labels (t ∷ ts) =
    let rest = listed labels ts in if HashMap.contains_key t labels then t ∷ rest else rest

-- The task at a position, and the list without it.
abbrev pub take_out : ℕ → List String → Option (String × List String)
take_out i [] = none
take_out zero (t ∷ ts) = some (t, ts)
take_out (suc i) (t ∷ ts) = elim (take_out i ts) [ none ↦ none | some r ↦ some (r.0, t ∷ r.1) ]

-- A message to the node that changes it, with what its handler learns from outside.
pub data NodeMessage (E : Type 0) : Type 0 where
  adds_listener : String → NodeMessage E
  removes_listener : String → NodeMessage E
  connects : Result String E → Option String → Result ActorId E → NodeMessage E
  supervises : SessionEvent → NodeMessage E
  observes : Observer → NodeMessage E
  signals : Signal → NodeMessage E

-- What a turn of the loop waits for. `accepted` and `panicked` name an accept task by position:
-- `accepted` has the endpoint of the peer, and what `Session::create` comes to.
pub data Event (E : Type 0) : Type 0 where
  message : NodeMessage E → Event E
  mailbox_closed : Event E
  accepted : ℕ → Result String E → Result ActorId E → Event E
  panicked : ℕ → Event E

pub record NodeState (Map F : Type 0) : Type 0 where
  pub node : Node Map F
  pub context : NodeContext

module _ {Map F : Type 0} where
  -- The first half of `recv_or_accept`.
  unfoldable pub prepare : NodeState Map F → NodeState Map F
  prepare s = record {
    node = record (s.node) { listeners = [] };
    context = record (s.context) {
      accept_tasks = listed s.node.listener_labels s.context.accept_tasks ++ s.node.listeners;
    };
  }

  -- `Handler<RemoveListener>`.
  unfoldable pub remove_listener : String → NodeState Map F → NodeState Map F × Bool
  unfolding abort_accept_task
  remove_listener l s =
      if HashMap.contains_key l s.node.listener_labels
      then (
        record {
          node = record (s.node) { listener_labels = HashMap.remove l s.node.listener_labels };
          context = abort_accept_task l s.context;
        },
        true,
      )
      else (s, false)

module _ {E F : Type 0} (dash : DashMap RemoteMailbox) (send : ActorId → Sent)
    (gone : ActorId → Bool) where
  open dash use {Map}

  unfoldable pub handle : NodeMessage E → NodeState Map F → NodeState Map F
  unfolding Node.add_listener remove_listener Node.connect Node.supervise set_state Observer.handle
  handle (adds_listener l) s = record s { node = (Node.add_listener dash l s.node).0 }
  handle (removes_listener l) s = (remove_listener l s).0
  handle (connects peer l session) s = record s {
    node = (Node.connect dash send gone peer l session s.node).0;
  }
  handle (supervises event) s = record s { node = Node.supervise dash send gone event s.node }
  handle (observes o) s = record s {
    node = record (s.node) { observers = Observer.handle s.context.index o s.node.observers };
  }
  handle (signals Signal.stop) s = record s { context = set_state stopping s.context }
  handle (signals Signal.terminate) s = record s { context = set_state stopped s.context }

  -- A connection, or the failure to accept one, which is only logged.
  unfoldable pub on_accept : Result String E → Result ActorId E → NodeState Map F → NodeState Map F
  unfolding Node.create_session
  on_accept (ok endpoint) session s = record s {
    node = (Node.create_session dash send gone endpoint none session s.node).0;
  }
  on_accept (err e) session s = s

  -- The rest of a turn: the second half of `recv_or_accept`, and the `match` of the loop. A
  -- listener that accepted is spawned again, at the end.
  unfoldable pub on_event : Event E → NodeState Map F → NodeState Map F
  unfolding handle set_state on_accept
  on_event (message m) s = handle m s
  on_event mailbox_closed s = record s { context = set_state stopped s.context }
  on_event (accepted i result session) s = elim (take_out i s.context.accept_tasks) [
    | none ↦ s
    | some t ↦
        on_accept result session
          (record s { context = record (s.context) { accept_tasks = t.1 ++ t.0 ∷ [] } })
  ]
  on_event (panicked i) s = elim (take_out i s.context.accept_tasks) [
    | none ↦ s
    | some t ↦ record {
      node = record (s.node) { listener_labels = HashMap.remove t.0 s.node.listener_labels };
      context = set_state stopped (record (s.context) { accept_tasks = t.1 });
    }
  ]

  -- The loop, along what it meets; at its end every accept task is aborted.
  unfoldable pub run_loop : List (Event E) → NodeState Map F → NodeState Map F
  unfolding prepare on_event
  run_loop [] s =
      if is_running s.context.state
      then s
      else record s { context = record (s.context) { accept_tasks = [] } }
  run_loop (event ∷ events) s =
      let rest = run_loop events (on_event event (prepare s)) in
      if is_running s.context.state
      then rest
      else record s { context = record (s.context) { accept_tasks = [] } }

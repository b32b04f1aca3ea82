-- ===== src/Node/Serving.antt =====
-- acktor-ipc/src/node/context.rs: the whole loop of the node keeps its sessions and its listeners.
use acktor.Base.{
  ℕ, ◌≡◌, refl, ap, Bool, false, none, some, List, [], ◌∷◌, ◌++◌, arith, if◌then◌else◌, Result, ok,
  err, String, Option-cases, Bool-cases, inl, inr,
}
use acktor.Base.Eq.{string_eq}
use acktor.HashMap
use acktor.HashMap.{HashMap}
use acktor.HashMap.Laws.{get-remove}
use acktor.Actor.{Signal, is_running}
use acktor.Actor.Index.{ActorId, id_Eq}
use acktor.Registry.{DashMap, RemoteMailbox}
use acktor.Observer.{Sent}
use acktor.Node.{create_session, connect, add_listener}
use acktor.Node.Sessions.{IsNode, create_session-IsNode, supervise-IsNode}
use acktor.Node.Context.{
  NodeState, NodeMessage, adds_listener, removes_listener, connects, supervises, observes, signals,
  Event, message, mailbox_closed, accepted, panicked, prepare, remove_listener, handle, on_event,
  on_accept, run_loop, take_out, set_state,
}
use acktor.Node.Listeners.{
  count, count-append, count-take_out, IsListening, prepare-IsListening, with_listening,
  listening-create_session, handle-IsListening,
}

module _ {Map F : Type 0} where
  -- Both invariants of a node.
  pub record IsServing (s : NodeState Map F) : Type 0 where
    pub sessions : IsNode s.node
    pub listens : IsListening s

  -- An accept task that goes, with its label or with a new task in its place.
  taken_out-IsListening :
      (i : ℕ) (t : String) (rest : List String) (s : NodeState Map F)
      → take_out i s.context.accept_tasks ≡ some (t, rest)
      → s.node.listeners ≡ []
      → IsListening s
      → ((l : String)
          → count l ((rest ++ t ∷ []) ++ s.node.listeners)
            ≡ (if HashMap.contains_key l s.node.listener_labels then 1 else 0))
        × ((l : String)
            → count l (rest ++ s.node.listeners)
              ≡ (if HashMap.contains_key l (HashMap.remove t s.node.listener_labels) then 1 else 0))
  taken_out-IsListening i t rest s h e v = (
    λ l. ground (
      arith,
      v l,
      count-append l s.context.accept_tasks s.node.listeners,
      count-append l (rest ++ t ∷ []) s.node.listeners,
      count-append l rest (t ∷ []),
      count-take_out i l t s.context.accept_tasks rest h,
    ),
    λ l. ground (
      arith,
      v l,
      count-append l s.context.accept_tasks s.node.listeners,
      count-append l rest s.node.listeners,
      ap (count l) e,
      count-take_out i l t s.context.accept_tasks rest h,
      get-remove t l s.node.listener_labels,
      string_eq.same_iff t l,
    ),
  )

  prepare-IsNode : (s : NodeState Map F) → IsNode s.node → IsNode (prepare s).node
  unfolding prepare
  prepare-IsNode s v = record { synced = v.synced; own = v.own; child = v.child }

  remove_listener-IsNode :
      (k : String) (s : NodeState Map F) → IsNode s.node → IsNode (remove_listener k s).0.node
  unfolding remove_listener
  remove_listener-IsNode k s v = elim (Bool-cases (HashMap.contains_key k s.node.listener_labels)) [
    | inl on ↦ rw on (record { synced = v.synced; own = v.own; child = v.child })
    | inr off ↦ rw off v
  ]

  -- Where the loop has ended, its accept tasks are gone.
  abbrev pub AtLoop : NodeState Map F → Type 0
  AtLoop s =
      IsNode s.node
      × (if is_running s.context.state then IsListening s else s.context.accept_tasks ≡ [])

  AtLoop-end :
      (s : NodeState Map F)
      → is_running s.context.state ≡ false
      → IsServing s
      → AtLoop (record s { context = record (s.context) { accept_tasks = [] } })
  AtLoop-end s off v = rw off (v.sessions, refl)

module _ {E F : Type 0} (dash : DashMap RemoteMailbox) (send : ActorId → Sent)
    (gone : ActorId → Bool) where
  open dash use {Map}

  handle-IsNode :
      (m : NodeMessage E) (s : NodeState Map F)
      → IsNode s.node
      → IsNode (handle dash send gone m s).node
  unfolding handle add_listener connect remove_listener set_state
  handle-IsNode (adds_listener k) s v =
      elim (Bool-cases (HashMap.contains_key k s.node.listener_labels)) [
        | inl on ↦ rw on v
        | inr off ↦ rw off (record { synced = v.synced; own = v.own; child = v.child })
      ]
  handle-IsNode (removes_listener k) s v = remove_listener-IsNode k s v
  handle-IsNode (connects (ok endpoint) l session) s v =
      create_session-IsNode dash send gone endpoint l session s.node v
  handle-IsNode (connects (err d) l session) s v = v
  handle-IsNode (supervises event) s v = supervise-IsNode dash send gone event s.node v
  handle-IsNode (observes o) s v = record { synced = v.synced; own = v.own; child = v.child }
  handle-IsNode (signals Signal.stop) s v = v
  handle-IsNode (signals Signal.terminate) s v = v

  on_accept-IsServing :
      (result : Result String E) (session : Result ActorId E) (s : NodeState Map F)
      → IsServing s
      → IsServing (on_accept dash send gone result session s)
  unfolding on_accept
  on_accept-IsServing (ok endpoint) session s v = record {
    sessions = create_session-IsNode dash send gone endpoint none session s.node v.sessions;
    listens =
        with_listening s (create_session dash send gone endpoint none session s.node).0
          (listening-create_session dash send gone endpoint none session s.node) v.listens;
  }
  on_accept-IsServing (err d) session s v = v

  on_event-IsServing :
      (event : Event E) (s : NodeState Map F)
      → s.node.listeners ≡ []
      → IsServing s
      → IsServing (on_event dash send gone event s)
  unfolding on_event set_state
  on_event-IsServing (message m) s e v = record {
    sessions = handle-IsNode m s v.sessions;
    listens = handle-IsListening dash send gone m s e v.listens;
  }
  on_event-IsServing mailbox_closed s e v = record { sessions = v.sessions; listens = v.listens }
  on_event-IsServing (accepted i result session) s e v =
      elim (Option-cases (take_out i s.context.accept_tasks)) [
        | inl absent ↦ rw (absent, on_event) v
        | inr ((t, rest), present) ↦
            rw (present, on_event)
              (on_accept-IsServing result session
                (record s { context = record (s.context) { accept_tasks = rest ++ t ∷ [] } })
                (record {
                  sessions = v.sessions;
                  listens = (taken_out-IsListening i t rest s present e v.listens).0;
                }))
      ]
  on_event-IsServing (panicked i) s e v = elim (Option-cases (take_out i s.context.accept_tasks)) [
    | inl absent ↦ rw (absent, on_event) v
    | inr ((t, rest), present) ↦
        rw (present, on_event)
          (record {
            sessions = record {
              synced = v.sessions.synced;
              own = v.sessions.own;
              child = v.sessions.child;
            };
            listens = (taken_out-IsListening i t rest s present e v.listens).1;
          })
  ]

  -- Whatever a node meets in its loop, its sessions stay in sync with its children, and while it
  -- runs each listener has exactly one accept task: none is lost when it accepts or when its
  -- connection fails, and none stays when it is removed or panics.
  pub run_loop-AtLoop :
      (events : List (Event E)) (s : NodeState Map F)
      → IsServing s
      → AtLoop (run_loop dash send gone events s)
  unfolding run_loop
  run_loop-AtLoop [] s v = elim (Bool-cases (is_running s.context.state)) [
    | inl on ↦ rw on (v.sessions, rw on v.listens)
    | inr off ↦ rw off (AtLoop-end s off v)
  ]
  run_loop-AtLoop (event ∷ events) s v = elim (Bool-cases (is_running s.context.state)) [
    | inl on ↦
        let (p, none_waits) = prepare-IsListening s v.listens in
        rw on (
          run_loop-AtLoop events (on_event dash send gone event (prepare s)) (
            on_event-IsServing event (prepare s) none_waits
              (record { sessions = prepare-IsNode s v.sessions; listens = p })))
    | inr off ↦ rw off (AtLoop-end s off v)
  ]

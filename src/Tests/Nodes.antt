-- ===== src/Tests/Nodes.antt =====
-- Small registries, managers and nodes of acktor-ipc.
use acktor.Base.{
  ℕ, ◌≡◌, refl, ◌≢◌, Bool, false, Option, none, some, List, [], ◌∷◌, arith, eqb, if◌then◌else◌,
  Result, ok, err, Outcome, returned, String, is_some,
}
use acktor.Base.Eq.{string_eq, nat_eq, ◌==◌}
use acktor.HashMap
use acktor.HashMap.{HashMap}
use acktor.Actor.{running}
use acktor.Actor.Index.{ActorId, id_Eq, new}
use acktor.Registry.{DashMap, RemoteMailbox}
use acktor.Registry.Laws.{reached}
use acktor.ActorMgr.{ActorMgr, label, task, create_actor, get_actor}
use acktor.ActorMgr.Laws.{task_lem, get_actor-create_actor}
use acktor.Observer
use acktor.Observer.{
  ObserverSet, Sent, taken, closed, is_taken, is_closed, register, unregister, handle,
}
use acktor.Observer.Laws.{Notifies, notify_observers_lem}
use acktor.DoubleMap
use acktor.DoubleMap.{get_by_key1, get_by_key2, contains_key2}
use acktor.Node
use acktor.Node.{
  Node, NodeError, SessionEvent, terminated, label_exists, create_session, get_session, supervise,
}
use acktor.Node.Sessions.{
  IsNode, new-IsNode, create_session_lem, supervise_terminated, supervise_panicked,
  create_session-IsNode,
}
use acktor.Node.Context.{
  NodeState, Event, message, accepted, adds_listener, removes_listener, run_loop,
}
use acktor.Node.Serving.{AtLoop, run_loop-AtLoop}

-- A map as the function that looks up.
abbrev pub dash : DashMap RemoteMailbox
dash = record {
  Map = ℕ → Option RemoteMailbox;
  empty = λ i. none;
  get = λ i m. m i;
  insert = λ i v m j. if eqb i j then some v else m j;
  remove = λ i m j. if eqb i j then none else m j;
  retain = λ p m j. elim (m j) [ none ↦ none | some v ↦ if p j v then some v else none ];
  get-empty = λ i. refl;
  get-insert = λ i j v m. refl;
  get-remove = λ i j m. refl;
  get-retain = λ p j m. refl;
}

abbrev pub box : ℕ → RemoteMailbox
box i = record { index = record { index = i; session = 0 } }

-- Two mailboxes, of which the second is closed.
abbrev pub two : ℕ → Option RemoteMailbox
two i = if eqb i 1 then some (box 1) else if eqb i 2 then some (box 2) else none

abbrev second_closed : RemoteMailbox → Bool
second_closed m = eqb m.index.index 2

abbrev pub none_closed : RemoteMailbox → Bool
none_closed m = false

-- A factory is a number: it makes the mailbox of that number.
abbrev create_remote : ℕ → String → String → Outcome (Result RemoteMailbox ℕ)
create_remote f l config = returned (ok (box f))

abbrev manager : ActorMgr (ℕ → Option RemoteMailbox) ℕ
manager = record {
  registry = two;
  actor_labels = ("a", 1) ∷ ("b", 2) ∷ [];
  factories = (70, 7) ∷ [];
}

task_lem_example :
    (HashMap.get "b"
        (task {E = ℕ} dash create_remote none_closed second_closed manager).actor_labels
      ≡ none)
    × (reached dash second_closed 1
          (task {E = ℕ} dash create_remote none_closed second_closed manager).registry
        ≡ some (box 1))
unfolding HashMap.get
task_lem_example =
    task_lem dash create_remote none_closed second_closed "b" 1 manager (refl, (refl, tt))

get_actor-create_actor_example :
    ((create_actor dash create_remote 70 "c" "" manager).1 ≡ ok (box 7).index)
    × ((get_actor dash create_remote none_closed "c"
          (create_actor dash create_remote 70 "c" "" manager).0).1
        ≡ ok (box 7))
unfolding HashMap.get
get_actor-create_actor_example =
    get_actor-create_actor dash create_remote none_closed "c" "" 70 7 (box 7) manager refl refl refl
      refl refl

abbrev watchers : ObserverSet
watchers = (new 1, tt) ∷ (new 2, tt) ∷ []

abbrev to_second : ActorId → Sent
to_second a = if a == new 2 then closed else taken

abbrev second_gone : ActorId → Bool
second_gone a = a == new 2

notify_observers_lem_example :
    Notifies to_second second_gone
      (new 1)
      watchers
      (Observer.notify_observers to_second second_gone watchers)
    × Notifies to_second second_gone
        (new 1)
        watchers
        (Observer.try_notify_observers to_second second_gone watchers)
unfolding HashMap.get new
notify_observers_lem_example =
    notify_observers_lem to_second second_gone (new 1) watchers (refl, (refl, tt))
      (λ c. ground arith)

abbrev send : ActorId → Sent
send a = taken

abbrev gone : ActorId → Bool
gone a = false

-- A node whose manager runs.
abbrev started : Node (ℕ → Option RemoteMailbox) ℕ
started = record (Node.new dash) { actor_mgr = some (new 1) }

abbrev started-IsNode : IsNode started
started-IsNode =
    let v = new-IsNode {F = ℕ} dash in record { synced = v.synced; own = v.own; child = v.child }

-- After one session is created.
abbrev serving : Node (ℕ → Option RemoteMailbox) ℕ
serving = (create_session {F = ℕ} dash {E = ℕ} send gone "p" none (ok (new 5)) started).0

abbrev serving-IsNode : IsNode serving
serving-IsNode = create_session-IsNode dash send gone "p" none (ok (new 5)) started started-IsNode

create_session_lem_example :
    let r = create_session {F = ℕ} dash {E = ℕ} send gone "p" none (ok (new 5)) started in
    (r.1 ≡ ok (new 5))
    × (get_by_key1 (new 5) r.0.sessions ≡ some (new 5))
    × (get_by_key2 "p" r.0.sessions ≡ some (new 5))
    × ((i : ActorId) → i ≢ new 5 → get_by_key1 i r.0.sessions ≡ get_by_key1 i started.sessions)
    × ((k : String) → k ≢ "p" → get_by_key2 k r.0.sessions ≡ get_by_key2 k started.sessions)
unfolding Node.new DoubleMap.new contains_key2 get_by_key1 HashMap.get
create_session_lem_example =
    create_session_lem dash send gone "p" none (new 5) (new 1) started started-IsNode refl refl refl

supervise_terminated_example :
    let n' = supervise dash send gone (terminated (new 5)) serving in
    (get_by_key1 (new 5) n'.sessions
      ≡ (if new 5 == new 5 then none else get_by_key1 (new 5) serving.sessions))
    × (get_by_key2 "p" n'.sessions ≡ elim (get_by_key2 "p" serving.sessions) [
      | none ↦ none
      | some v ↦ if v == new 5 then none else some v
    ])
    × (contains_key2 "p" n'.sessions ≡ is_some (get_by_key2 "p" n'.sessions))
    × (HashMap.contains_key (new 5) n'.children ≡ false)
supervise_terminated_example =
    supervise_terminated dash send gone (new 5) (new 5) "p" serving serving-IsNode

supervise_panicked_example :
    let n' = supervise dash send gone (SessionEvent.panicked (new 5)) serving in
    (get_session dash {E = ℕ} (label "p") n' ≡ ok (new 5))
    × (create_session dash {E = ℕ} send gone "p" none (ok (new 6)) n'
        ≡ (n', err (label_exists "p")))
unfolding create_session Node.new DoubleMap.new get_by_key2 contains_key2 DoubleMap.insert
    HashMap.get HashMap.insert new
supervise_panicked_example =
    supervise_panicked dash {E = ℕ} send gone (new 5) (new 6) "p" serving serving-IsNode refl

abbrev idle : NodeState (ℕ → Option RemoteMailbox) ℕ
idle = record {
  node = started;
  context = record { index = new 1; state = running; accept_tasks = [] };
}

abbrev events : List (Event ℕ)
events =
    message (adds_listener "a")
    ∷ accepted 0 (ok "p") (ok (new 5))
    ∷ message (removes_listener "a")
    ∷ []

run_loop-AtLoop_example : AtLoop (run_loop dash send gone events idle)
unfolding Node.new HashMap.get
run_loop-AtLoop_example =
    run_loop-AtLoop dash send gone events idle
      (record { sessions = started-IsNode; listens = λ l. refl })

-- ===== src/Node/Listeners.antt =====
-- acktor-ipc/src/node.rs and acktor-ipc/src/node/context.rs: the listeners and their accept tasks.
use acktor.Base.{
  ℕ, zero, suc, ◌+◌, ◌≡◌, refl, ◌∙◌, ap, sym, Bool, Option, some, List, [], ◌∷◌, ◌++◌, arith,
  if◌then◌else◌, Result, ok, err, String, Option-cases, Bool-cases, inl, inr,
}
use acktor.Base.Eq.{◌==◌, string_eq}
use acktor.HashMap
use acktor.HashMap.{HashMap}
use acktor.HashMap.Laws.{get-insert, get-remove}
use acktor.Actor.{Signal}
use acktor.Actor.Index.{ActorId, id_Eq}
use acktor.Registry.{DashMap, RemoteMailbox}
use acktor.Observer.{Sent}
use acktor.Node.{
  Node, SessionEvent, create_session, created, admit, notify, connect, supervise, add_listener,
}
use acktor.Node.Context.{
  NodeState, NodeMessage, adds_listener, removes_listener, connects, supervises, observes, signals,
  prepare, remove_listener, handle, without, listed, take_out, set_state, abort_accept_task,
}

abbrev pub count : String → List String → ℕ
count l [] = 0
count l (t ∷ ts) = (if t == l then 1 else 0) + count l ts

pub count-append : (l : String) (xs ys : List String) → count l (xs ++ ys) ≡ count l xs + count l ys
count-append l [] ys = omega arith
count-append l (x ∷ xs) ys = omega (arith, count-append l xs ys)

count-without :
    (k l : String) (ts : List String) → count l (without k ts) ≡ (if k == l then 0 else count l ts)
count-without k l [] = ground arith
count-without k l (t ∷ ts) = ground (
  arith,
  count-without k l ts,
  string_eq.same_iff t k,
  string_eq.same_iff t l,
  string_eq.same_iff k l,
)

count-listed :
    (labels : HashMap String (Unit {0})) (l : String) (ts : List String)
    → count l (listed labels ts) ≡ (if HashMap.contains_key l labels then count l ts else 0)
count-listed labels l [] = ground arith
count-listed labels l (t ∷ ts) = ground (arith, count-listed labels l ts, string_eq.same_iff t l)

pub count-take_out :
    (i : ℕ) (l t : String) (ts rest : List String)
    → take_out i ts ≡ some (t, rest)
    → count l ts ≡ (if t == l then 1 else 0) + count l rest
count-take_out i l t [] rest h = cc
count-take_out zero l t (x ∷ ts) rest h = ground arith
count-take_out (suc i) l t (x ∷ ts) rest h = elim (Option-cases (take_out i ts)) [
  | inl e ↦ ground arith
  | inr ((y, ys), e) ↦ ground (arith, count-take_out i l y ts ys e)
]

module _ {Map F : Type 0} where
  -- Each label has one listener, in an accept task or waiting for one, and there is no other.
  abbrev pub IsListening : NodeState Map F → Type 0
  IsListening s =
      (l : String)
      → count l (s.context.accept_tasks ++ s.node.listeners)
        ≡ (if HashMap.contains_key l s.node.listener_labels then 1 else 0)

  -- After the first half of a turn, no listener waits for its task.
  pub prepare-IsListening :
      (s : NodeState Map F)
      → IsListening s
      → IsListening (prepare s) × ((prepare s).node.listeners ≡ [])
  unfolding prepare
  prepare-IsListening s v = (
    λ l. ground (
      arith,
      v l,
      count-append l s.context.accept_tasks s.node.listeners,
      count-append l (listed s.node.listener_labels s.context.accept_tasks) s.node.listeners,
      count-append l (listed s.node.listener_labels s.context.accept_tasks ++ s.node.listeners) [],
      count-listed s.node.listener_labels l s.context.accept_tasks,
    ),
    refl,
  )

  remove_listener-IsListening :
      (k : String) (s : NodeState Map F)
      → s.node.listeners ≡ []
      → IsListening s
      → IsListening (remove_listener k s).0
  unfolding remove_listener abort_accept_task
  remove_listener-IsListening k s e v =
      elim (Bool-cases (HashMap.contains_key k s.node.listener_labels)) [
        | inl on ↦ rw on (λ l. ground (
          arith,
          v l,
          count-append l s.context.accept_tasks s.node.listeners,
          count-append l (without k s.context.accept_tasks) s.node.listeners,
          count-without k l s.context.accept_tasks,
          get-remove k l s.node.listener_labels,
          ap (count l) e,
        ))
        | inr off ↦ rw off v
      ]

  -- The part of a node that its listeners are kept in.
  abbrev pub listening : Node Map F → HashMap String (Unit {0}) × List String
  listening n = (n.listener_labels, n.listeners)

  pub with_listening :
      (s : NodeState Map F) (n : Node Map F)
      → listening n ≡ listening s.node
      → IsListening s
      → IsListening (record s { node = n })
  with_listening s n e v l =
      ap (λ p. count l (s.context.accept_tasks ++ p.1)) e
      ∙ v l
      ∙ ap (λ p. if HashMap.contains_key l p.0 then 1 else 0) (sym e)

module _ {E F : Type 0} (dash : DashMap RemoteMailbox) (send : ActorId → Sent)
    (gone : ActorId → Bool) where
  open dash use {Map}

  pub listening-create_session :
      (endpoint : String) (session_label : Option String) (session : Result ActorId E)
      (n : Node Map F)
      → listening (create_session dash send gone endpoint session_label session n).0 ≡ listening n
  unfolding create_session created admit notify
  listening-create_session endpoint l (ok a) n = ground arith
  listening-create_session endpoint l (err e) n = ground arith

  pub handle-IsListening :
      (m : NodeMessage E) (s : NodeState Map F)
      → s.node.listeners ≡ []
      → IsListening s
      → IsListening (handle dash send gone m s)
  unfolding handle add_listener connect supervise notify set_state
  handle-IsListening (adds_listener k) s e v =
      elim (Bool-cases (HashMap.contains_key k s.node.listener_labels)) [
        | inl on ↦ rw on v
        | inr off ↦ rw off (λ l. ground (
          arith,
          v l,
          count-append l s.context.accept_tasks s.node.listeners,
          count-append l s.context.accept_tasks (s.node.listeners ++ k ∷ []),
          count-append l s.node.listeners (k ∷ []),
          get-insert k l tt s.node.listener_labels,
          string_eq.same_iff k l,
        ))
      ]
  handle-IsListening (removes_listener k) s e v = remove_listener-IsListening k s e v
  handle-IsListening (connects (ok endpoint) l session) s e v =
      with_listening s (create_session dash send gone endpoint l session s.node).0
        (listening-create_session endpoint l session s.node) v
  handle-IsListening (connects (err d) l session) s e v = v
  handle-IsListening (supervises (SessionEvent.warn i)) s e v = v
  handle-IsListening (supervises (SessionEvent.terminated i)) s e v = v
  handle-IsListening (supervises (SessionEvent.panicked i)) s e v = v
  handle-IsListening (supervises (SessionEvent.state i t)) s e v = v
  handle-IsListening (observes o) s e v = v
  handle-IsListening (signals Signal.stop) s e v = v
  handle-IsListening (signals Signal.terminate) s e v = v

-- ===== src/ActorMgr.antt =====
-- acktor-ipc/src/node/actor_mgr.rs: the actor that keeps the registry and the labels of a node's
-- actors.
pub mod Laws
use acktor.Base.{
  ℕ, ◌≡◌, Bool, true, false, not, Option, none, some, List, [], ◌∷◌, if◌then◌else◌, eqb, is_some,
  Result, ok, err, Outcome, returned, panicked, String,
}
use acktor.Base.Eq.{string_eq, nat_eq}
use acktor.HashMap
use acktor.HashMap.{HashMap}
use acktor.Actor.Index.{ActorId, as_local}
use acktor.Errors.{
  SessionError, create_actor_failed, actor_not_found, no_factory, label_exists, factory_panicked,
  factory_failed,
}
use acktor.Registry
use acktor.Registry.{DashMap, RemoteMailbox}

-- actor_ref.rs
pub data ActorRef : Type 0 where
  index : ActorId → ActorRef
  label : String → ActorRef

pub record ActorMgr (Map F : Type 0) : Type 0 where
  pub registry : Map
  pub actor_labels : HashMap String ℕ
  pub factories : HashMap ℕ F

-- `create_remote` of a factory is user code in a task of its own: a panic there is an error.
module _ {E F : Type 0} (dash : DashMap RemoteMailbox)
    (create_remote : F → String → String → Outcome (Result RemoteMailbox E)) where
  open dash use {Map}

  pub new : Map → HashMap String ℕ → HashMap ℕ F → ActorMgr Map F
  new r labels fs = record { registry = r; actor_labels = labels; factories = fs }

  -- The closure that the task gives to `retain` of the labels, which may evict from the registry.
  unfoldable pub sweep : (RemoteMailbox → Bool) → HashMap String ℕ → Map → HashMap String ℕ × Map
  unfolding Registry.contains_index
  sweep closed [] r = ([], r)
  sweep closed ((l, actor_id) ∷ m) r =
      let c = Registry.contains_index dash closed actor_id r in
      let rest = sweep closed m c.0 in (if c.1 then (l, actor_id) ∷ rest.0 else rest.0, rest.1)

  -- The task of the timer: mailboxes may close between its two passes.
  unfoldable pub task :
      (RemoteMailbox → Bool) → (RemoteMailbox → Bool) → ActorMgr Map F → ActorMgr Map F
  unfolding Registry.retain sweep
  task closed closed' s =
      let r = Registry.retain dash (λ i mailbox. not (closed mailbox)) s.registry in
      let swept = sweep closed' s.actor_labels r in
      record s { registry = swept.1; actor_labels = swept.0 }

  -- The result of the task that runs the factory.
  unfoldable pub created :
      String
      → Outcome (Result RemoteMailbox E)
      → ActorMgr Map F
      → ActorMgr Map F × Result ActorId (SessionError E)
  unfolding Registry.insert
  created l panicked s = (s, err (create_actor_failed factory_panicked))
  created l (returned (err e)) s = (s, err (create_actor_failed (factory_failed e)))
  created l (returned (ok address)) s = (
    record s {
      registry = (Registry.insert dash address s.registry).0;
      actor_labels = HashMap.insert l (as_local address.index) s.actor_labels;
    },
    ok address.index,
  )

  unfoldable pub create_actor :
      ℕ → String → String → ActorMgr Map F → ActorMgr Map F × Result ActorId (SessionError E)
  unfolding created
  create_actor type_id l config s = elim (HashMap.get type_id s.factories) [
    | none ↦ (s, err (create_actor_failed (no_factory type_id)))
    | some factory ↦ elim (HashMap.get l s.actor_labels) [
      | some actor_id ↦ (s, err (create_actor_failed (label_exists l actor_id)))
      | none ↦ created l (create_remote factory l config) s
    ]
  ]

  unfoldable pub get_actor :
      (RemoteMailbox → Bool)
      → String
      → ActorMgr Map F
      → ActorMgr Map F × Result RemoteMailbox (SessionError E)
  unfolding Registry.get
  get_actor closed l s = elim (HashMap.get l s.actor_labels) [
    | none ↦ (s, err (actor_not_found l))
    | some actor_id ↦
        let found = Registry.get dash closed actor_id s.registry in
        (
          record s { registry = found.0 },
          elim found.1 [ none ↦ err (actor_not_found l) | some mailbox ↦ ok mailbox ],
        )
  ]

  unfoldable pub add_actor : String → RemoteMailbox → ActorMgr Map F → ActorMgr Map F × Bool
  unfolding Registry.insert
  add_actor l address s =
      let inserted = Registry.insert dash address s.registry in
      if HashMap.contains_key l s.actor_labels
      then (s, false)
      else if not inserted.1
      then (s, false)
      else (
        record s {
          registry = inserted.0;
          actor_labels = HashMap.insert l (as_local address.index) s.actor_labels;
        },
        true,
      )

  unfoldable pub remove_actor : ActorRef → ActorMgr Map F → ActorMgr Map F × Bool
  unfolding Registry.remove
  remove_actor (index actor_id) s =
      let i = as_local actor_id in
      let removed = Registry.remove dash i s.registry in
      (
        record s {
          registry = removed.0;
          actor_labels = HashMap.retain (λ l id. not (eqb id i)) s.actor_labels;
        },
        is_some removed.1,
      )
  remove_actor (label l) s = elim (HashMap.get l s.actor_labels) [
    | none ↦ (s, false)
    | some actor_id ↦
        let removed = Registry.remove dash actor_id s.registry in
        (
          record s { registry = removed.0; actor_labels = HashMap.remove l s.actor_labels },
          is_some removed.1,
        )
  ]

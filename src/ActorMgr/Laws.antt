-- ===== src/ActorMgr/Laws.antt =====
-- acktor-ipc/src/node/actor_mgr.rs: what a label leads to.
use acktor.Base.{
  ℕ, ◌≡◌, refl, ◌∙◌, ◌≢◌, Bool, true, false, not, ◌||◌, none, some, [], ◌∷◌, arith, if◌then◌else◌,
  eqb, eqb_iff, is_some, Result, ok, Outcome, returned, String, Option-cases, inl, inr,
}
use acktor.Base.Eq.{string_eq, nat_eq, ==_refl}
use acktor.HashMap
use acktor.HashMap.{HashMap}
use acktor.HashMap.Laws.{IsUnique, get-insert, get-retain}
use acktor.Actor.Index.{ActorId, as_local}
use acktor.Registry
use acktor.Registry.{DashMap, RemoteMailbox}
use acktor.Registry.Laws.{reached, reached-contains_index}
use acktor.ActorMgr.{
  ActorMgr, index, sweep, task, created, create_actor, get_actor, add_actor, remove_actor,
}

module _ {E F : Type 0} (dash : DashMap RemoteMailbox)
    (create_remote : F → String → String → Outcome (Result RemoteMailbox E)) where
  open dash use {Map}

  reached-sweep :
      (closed : RemoteMailbox → Bool) (i : ℕ) (labels : HashMap String ℕ) (r : Map)
      → reached dash closed i (sweep dash create_remote closed labels r).1 ≡ reached dash closed i r
  unfolding sweep
  reached-sweep closed i [] r = refl
  reached-sweep closed i ((l, id) ∷ labels) r =
      reached-sweep closed i labels (Registry.contains_index dash closed id r).0
      ∙ reached-contains_index dash closed id i r

  get-sweep :
      (closed : RemoteMailbox → Bool) (l : String) (labels : HashMap String ℕ) (r : Map)
      → IsUnique labels
      → HashMap.get l (sweep dash create_remote closed labels r).0 ≡ elim (HashMap.get l labels) [
        | none ↦ none
        | some i ↦ if is_some (reached dash closed i r) then some i else none
      ]
  unfolding sweep HashMap.get Registry.contains_index
  get-sweep closed l [] r u = refl
  get-sweep closed l ((k, id) ∷ labels) r u =
      let r' = (Registry.contains_index dash closed id r).0 in
      elim (Option-cases (HashMap.get l labels)) [
        | inl e ↦ ground (arith, get-sweep closed l labels r' u.1, string_eq.same_iff k l)
        | inr (i, e) ↦ ground (
          arith,
          get-sweep closed l labels r' u.1,
          string_eq.same_iff k l,
          reached-contains_index dash closed id i r,
        )
      ]

  -- Once the periodic task has run, a label leads to an index exactly where it did before and the
  -- index had a mailbox that was open in both passes, and it leads to that mailbox still.
  pub task_lem :
      (closed closed' : RemoteMailbox → Bool) (l : String) (i : ℕ) (s : ActorMgr Map F)
      → IsUnique s.actor_labels
      → let s' = task dash create_remote closed closed' s in
        (HashMap.get l s'.actor_labels ≡ elim (HashMap.get l s.actor_labels) [
          | none ↦ none
          | some j ↦
              if is_some (reached dash (λ m. closed m || closed' m) j s.registry)
              then some j
              else none
        ])
        × (reached dash closed' i s'.registry
            ≡ reached dash (λ m. closed m || closed' m) i s.registry)
  unfolding task Registry.retain
  task_lem closed closed' l i s u =
      let r = Registry.retain dash (λ i m. not (closed m)) s.registry in
      let kept : (j : ℕ)
          → reached dash closed' j r ≡ reached dash (λ m. closed m || closed' m) j s.registry =
        λ j. ground (arith, dash.get-retain (λ i m. not (closed m)) j s.registry) in
      (
        get-sweep closed' l s.actor_labels r u
            ∙ elim (Option-cases (HashMap.get l s.actor_labels)) [
              | inl e ↦ rw e
              | inr (j, e) ↦ rw (e, kept j)
            ],
        reached-sweep closed' i s.actor_labels r ∙ kept i,
      )

  -- A label that is taken keeps its actor: `CreateActor` and `AddActor` with it are refused and
  -- change nothing.
  taken_label :
      (l config : String) (type_id i : ℕ) (m : RemoteMailbox) (s : ActorMgr Map F)
      → HashMap.get l s.actor_labels ≡ some i
      → (add_actor dash create_remote l m s ≡ (s, false))
        × ((create_actor dash create_remote type_id l config s).0 ≡ s)
        × ((id : ActorId) → (create_actor dash create_remote type_id l config s).1 ≢ ok id)
  unfolding add_actor create_actor
  taken_label l config type_id i m s h = (ground arith, ground arith, λ id. ground arith)

  -- Once an actor is added, its label leads to it until its mailbox closes, and every other label
  -- leads where it did.
  pub get_actor-add_actor :
      (closed : RemoteMailbox → Bool) (l : String) (m : RemoteMailbox) (s s' : ActorMgr Map F)
      → add_actor dash create_remote l m s ≡ (s', true)
      → closed m ≡ false
      → ((get_actor dash create_remote closed l s').1 ≡ ok m)
        × ((k : String) → k ≢ l → HashMap.get k s'.actor_labels ≡ HashMap.get k s.actor_labels)
  unfolding add_actor get_actor Registry.insert Registry.get
  get_actor-add_actor closed l m s s' h o = (
    ground (
      arith,
      get-insert l l (as_local m.index) s.actor_labels,
      dash.get-insert (as_local m.index) (as_local m.index) m s.registry,
      ==_refl l,
      eqb_iff (as_local m.index) (as_local m.index),
    ),
    λ k n. ground (arith, get-insert l k (as_local m.index) s.actor_labels, string_eq.same_iff l k),
  )

  -- Once an actor is created under an index that the registry does not have, its label leads to
  -- it until its mailbox closes.
  pub get_actor-create_actor :
      (closed : RemoteMailbox → Bool) (l config : String) (type_id : ℕ) (factory : F)
      (m : RemoteMailbox) (s : ActorMgr Map F)
      → HashMap.get type_id s.factories ≡ some factory
      → HashMap.get l s.actor_labels ≡ none
      → create_remote factory l config ≡ returned (ok m)
      → dash.get (as_local m.index) s.registry ≡ none
      → closed m ≡ false
      → let r = create_actor dash create_remote type_id l config s in
        (r.1 ≡ ok m.index) × ((get_actor dash create_remote closed l r.0).1 ≡ ok m)
  unfolding create_actor created get_actor Registry.insert Registry.get
  get_actor-create_actor closed l config type_id factory m s f n c fresh o = (
    ground arith,
    ground (
      arith,
      get-insert l l (as_local m.index) s.actor_labels,
      dash.get-insert (as_local m.index) (as_local m.index) m s.registry,
      ==_refl l,
      eqb_iff (as_local m.index) (as_local m.index),
    ),
  )

  -- Once an actor is removed by its index, no label leads to the index, the registry does not
  -- have it, and the call says whether it was there; other labels are left alone.
  pub remove_actor_lem :
      (a : ActorId) (l : String) (s : ActorMgr Map F)
      → IsUnique s.actor_labels
      → let r = remove_actor dash create_remote (index a) s in
        (HashMap.get l r.0.actor_labels ≡ elim (HashMap.get l s.actor_labels) [
          | none ↦ none
          | some i ↦ if eqb i (as_local a) then none else some i
        ])
        × (dash.get (as_local a) r.0.registry ≡ none)
        × (r.1 ≡ is_some (dash.get (as_local a) s.registry))
  unfolding remove_actor Registry.remove
  remove_actor_lem a l s u = (
    ground (arith, get-retain (λ l id. not (eqb id (as_local a))) l s.actor_labels u),
    ground (
      arith,
      dash.get-remove (as_local a) (as_local a) s.registry,
      eqb_iff (as_local a) (as_local a),
    ),
    refl,
  )

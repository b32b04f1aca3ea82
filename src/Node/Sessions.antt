-- ===== src/Node/Sessions.antt =====
-- acktor-ipc/src/node.rs: how sessions come, are found, and go.
use acktor.Base.{
  ◌≡◌, refl, ◌∙◌, ap, ◌≢◌, Bool, true, false, not, Option, none, some, arith, if◌then◌else◌, Result,
  ok, err, String, is_some, Option-cases, Bool-cases, inl, inr,
}
use acktor.Base.Eq.{◌==◌, string_eq, ==_refl}
use acktor.HashMap
use acktor.HashMap.Laws.{get-insert, get-remove}
use acktor.Actor.Index.{ActorId, id_Eq, id_eq_iff}
use acktor.Registry.{DashMap, RemoteMailbox}
use acktor.ActorMgr.{label}
use acktor.Observer.{Sent}
use acktor.DoubleMap
use acktor.DoubleMap.{
  get_by_key1, get_by_key2, contains_key1, contains_key2, contains_keys, get_by_keys,
}
use acktor.DoubleMap.Lookup.{contains_key2_iff, contains_key1_iff}
use acktor.DoubleMap.Remove.Retention.{keeping, retain-IsSynced}
use acktor.DoubleMap.Remove.Kept.{get_by_key1-retain, get_by_key2-retain}
use acktor.DoubleMap.Insertion.{accepts, insert-IsSynced, get_by_key1-insert, get_by_key2-insert}
use acktor.DoubleMap.Sync.{IsSynced, new-IsSynced}
use acktor.Node.{
  Node, SessionEvent, terminated, panicked, warn, state, label_exists, new, admit, created,
  create_session, get_session, supervise, notify, or_else,
}

module _ {Map F : Type 0} where
  -- The sessions are in sync, each is stored under its own index, and each is a child.
  pub record IsNode (n : Node Map F) : Type 0 where
    pub synced : IsSynced n.sessions
    pub own : (i v : ActorId) → get_by_key1 i n.sessions ≡ some v → v ≡ i
    pub child :
        (i v : ActorId)
        → get_by_key1 i n.sessions ≡ some v
        → HashMap.contains_key i n.children ≡ true

module _ {F : Type 0} (dash : DashMap RemoteMailbox) where
  open dash use {Map}

  admit-IsNode :
      (send : ActorId → Sent) (gone : ActorId → Bool) (l : String) (a : ActorId) (n : Node Map F)
      → IsNode n
      → IsNode (admit dash send gone l a n)
  unfolding admit notify
  admit-IsNode send gone l a n v = record {
    synced = insert-IsSynced a l a n.sessions v.synced;
    own = λ i w p. ground (arith, get_by_key1-insert a i l a n.sessions, id_eq_iff a i, v.own i w);
    child = λ i w p. ground (
      arith,
      get_by_key1-insert a i l a n.sessions,
      id_eq_iff a i,
      v.child i w,
      get-insert a i tt n.children,
    );
  }

  -- Creating a session keeps the invariant, on its error paths too.
  pub create_session-IsNode :
      {E : Type 0} (send : ActorId → Sent) (gone : ActorId → Bool) (endpoint : String)
      (session_label : Option String) (session : Result ActorId E) (n : Node Map F)
      → IsNode n
      → IsNode (create_session dash send gone endpoint session_label session n).0
  unfolding create_session created
  create_session-IsNode {E = E} send gone endpoint session_label session n v =
      elim (Bool-cases (contains_key2 (or_else session_label endpoint) n.sessions)) [
        | inl taken ↦ rw taken v
        | inr free ↦ elim (Option-cases n.actor_mgr) [
          | inl e ↦ rw (free, e) v
          | inr (m, e) ↦ rw (free, e) (go session)
        ]
      ]
    where
      go :
          (r : Result ActorId E)
          → IsNode (created dash send gone (or_else session_label endpoint) r n).0
      go (ok a) = admit-IsNode send gone (or_else session_label endpoint) a n v
      go (err e) = v

  -- Hearing of a session keeps the invariant.
  pub supervise-IsNode :
      (send : ActorId → Sent) (gone : ActorId → Bool) (event : SessionEvent) (n : Node Map F)
      → IsNode n
      → IsNode (supervise dash send gone event n)
  unfolding supervise notify
  supervise-IsNode send gone (warn s) n v = v
  supervise-IsNode send gone (panicked s) n v = v
  supervise-IsNode send gone (state s t) n v = v
  supervise-IsNode send gone (terminated s) n v =
      let lookup = λ (i : ActorId). get_by_key1-retain (λ w. not (w == s)) i n.sessions v.synced in
      record {
        synced = retain-IsSynced (keeping (λ i l w. not (w == s))) tt n.sessions v.synced;
        own = λ i w p. ground (arith, lookup i, v.own i w);
        child = λ i w p. ground (
          arith,
          lookup i,
          v.own i w,
          v.child i w,
          id_eq_iff s i,
          id_eq_iff w s,
          id_eq_iff i s,
          get-remove s i n.children,
        );
      }

  -- A session with a fresh index is found by its index and by its label once it is created, and
  -- every other session is found as before.
  pub create_session_lem :
      {E : Type 0} (send : ActorId → Sent) (gone : ActorId → Bool) (endpoint : String)
      (session_label : Option String) (a mgr : ActorId) (n : Node Map F)
      → let l = or_else session_label endpoint in
        let r = create_session dash {E = E} send gone endpoint session_label (ok a) n in
        IsNode n
        → n.actor_mgr ≡ some mgr
        → contains_key2 l n.sessions ≡ false
        → get_by_key1 a n.sessions ≡ none
        → (r.1 ≡ ok a)
          × (get_by_key1 a r.0.sessions ≡ some a)
          × (get_by_key2 l r.0.sessions ≡ some a)
          × ((i : ActorId) → i ≢ a → get_by_key1 i r.0.sessions ≡ get_by_key1 i n.sessions)
          × ((k : String) → k ≢ l → get_by_key2 k r.0.sessions ≡ get_by_key2 k n.sessions)
  unfolding create_session created admit notify
  create_session_lem send gone endpoint session_label a mgr n v m free fresh =
      let l = or_else session_label endpoint in
      let accepted : accepts a l n.sessions ≡ true = ground (arith, get_absent a l n fresh, free) in
      rw (free, m)
        (
          refl,
          get_by_key1-insert a a l a n.sessions ∙ ground (arith, id_eq_iff a a),
          get_by_key2-insert a l l a n.sessions v.synced ∙ ground (arith, ==_refl l),
          λ i d. get_by_key1-insert a i l a n.sessions ∙ ground (arith, id_eq_iff a i),
          λ k d.
              get_by_key2-insert a l k a n.sessions v.synced
              ∙ ground (arith, string_eq.same_iff l k),
        )
    where
      get_absent :
          (a : ActorId) (l : String) (n : Node Map F)
          → get_by_key1 a n.sessions ≡ none
          → contains_key1 a n.sessions ≡ false
      get_absent a l n h = contains_key1_iff a n.sessions ∙ ap is_some h

  -- A label that is taken keeps its session: no other session is created under it, and nothing
  -- changes.
  pub create_session_refused :
      {E : Type 0} (send : ActorId → Sent) (gone : ActorId → Bool) (endpoint : String)
      (session_label : Option String) (session : Result ActorId E) (n : Node Map F)
      → contains_key2 (or_else session_label endpoint) n.sessions ≡ true
      → create_session dash send gone endpoint session_label session n
        ≡ (n, err (label_exists (or_else session_label endpoint)))
  unfolding create_session
  create_session_refused send gone endpoint session_label session n taken = rw taken

  -- Once the node hears that a session ended, the session is found neither by its index nor under
  -- any label, it is no child any more, and all other sessions are found as before.
  pub supervise_terminated :
      (send : ActorId → Sent) (gone : ActorId → Bool) (s i : ActorId) (l : String) (n : Node Map F)
      → IsNode n
      → let n' = supervise dash send gone (terminated s) n in
        (get_by_key1 i n'.sessions ≡ (if i == s then none else get_by_key1 i n.sessions))
        × (get_by_key2 l n'.sessions ≡ elim (get_by_key2 l n.sessions) [
          | none ↦ none
          | some v ↦ if v == s then none else some v
        ])
        × (contains_key2 l n'.sessions ≡ is_some (get_by_key2 l n'.sessions))
        × (HashMap.contains_key s n'.children ≡ false)
  unfolding supervise notify
  supervise_terminated send gone s i l n v =
      let d' = retain-IsSynced (keeping (λ i l w. not (w == s))) tt n.sessions v.synced in
      (
        elim (Option-cases (get_by_key1 i n.sessions)) [
          | inl e ↦ ground (arith, get_by_key1-retain (λ w. not (w == s)) i n.sessions v.synced)
          | inr (w, e) ↦
              ground
                (arith, get_by_key1-retain (λ w. not (w == s)) i n.sessions v.synced, v.own i w e)
        ],
        get_by_key2-retain (λ w. not (w == s)) l n.sessions v.synced ∙ ground arith,
        contains_key2_iff l _ d',
        ground (arith, get-remove s s n.children, id_eq_iff s s),
      )

  -- Of a session that panicked the node forgets nothing: it is still found, and a new session
  -- under its label is refused.
  pub supervise_panicked :
      {E : Type 0} (send : ActorId → Sent) (gone : ActorId → Bool) (s t : ActorId) (l : String)
      (n : Node Map F)
      → IsNode n
      → get_by_key2 l n.sessions ≡ some s
      → let n' = supervise dash send gone (panicked s) n in
        (get_session dash {E = E} (label l) n' ≡ ok s)
        × (create_session dash {E = E} send gone l none (ok t) n' ≡ (n', err (label_exists l)))
  unfolding supervise get_session
  supervise_panicked {E = E} send gone s t l n v h = (
    ground arith,
    create_session_refused {E = E} send gone l none (ok t) n
        (contains_key2_iff l n.sessions v.synced ∙ ap is_some h),
  )

  -- A node that was just made meets the invariant.
  pub new-IsNode : IsNode (new {F = F} dash)
  unfolding new get_by_key1 DoubleMap.new HashMap.get
  new-IsNode = record { synced = new-IsSynced; own = λ i v p. cc; child = λ i v p. cc }

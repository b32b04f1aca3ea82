-- ===== src/Context/Laws/Supervision.antt =====
-- What a supervisor hears, in acktor/src/context.rs and acktor/src/actor.rs.
use acktor.Base.{
  ◌≡◌, ◌≢◌, ◌∙◌, ap, Option, none, some, List, [], ◌∷◌, ◌++◌, arith, Option-cases, Bool-cases, inl,
  inr, Outcome, panicked, returned, Result, ok, err,
}
use acktor.Base.Eq.{◌==◌}
use acktor.Actor.{starting}
use acktor.Actor.Index.{ActorId, id_Eq, id_eq_iff}
use acktor.Mailbox.{Channel}
use acktor.Drain.{DrainPolicy}
use acktor.Context.{
  Context, SupervisionEvent, state, terminated, set_state, set_supervisor, try_notify_supervisor,
}
use acktor.Context.Hooks.{Hooks, Envelope, perform_all}
use acktor.Context.Loop.{Tick}
use acktor.Context.Run.{
  Task, Spawn, alive, exited, crashed, refused, aborted, spawned, run, report, spawn,
}
use acktor.Context.Laws.Stable.{IsStable, AtTask, run-stable, perform_all-stable}

module _ {E : Type 0} where
  -- No event went to the actor `i`.
  abbrev pub Spares : ActorId → List (ActorId × SupervisionEvent E) → Type 0
  Spares i [] = Unit
  Spares i ((s, event) ∷ rest) = (s ≢ i) × Spares i rest

  -- The context belongs to `i`, which is not its own supervisor and has sent itself nothing.
  pub record IsSupervised (i : ActorId) (c : Context E) : Type 0 where
    pub owned : c.index ≡ i
    pub other : c.supervisor ≢ some i
    pub spared : Spares i c.notified

  Spares-append :
      (i : ActorId) (xs : List (ActorId × SupervisionEvent E)) (s : ActorId)
      (event : SupervisionEvent E)
      → Spares i xs
      → s ≢ i
      → Spares i (xs ++ ((s, event) ∷ []))
  Spares-append i [] s event h n = (n, tt)
  Spares-append i ((r, e) ∷ xs) s event h n = (h.0, Spares-append i xs s event h.1 n)

  notify-IsSupervised :
      (i : ActorId) (event : SupervisionEvent E) (c : Context E)
      → IsSupervised i c
      → IsSupervised i (try_notify_supervisor event c)
  unfolding try_notify_supervisor
  notify-IsSupervised i event c v = elim (Option-cases c.supervisor) [
    | inl e ↦ rw (e, try_notify_supervisor) v
    | inr (s, e) ↦
        rw (e, try_notify_supervisor)
          (record {
            owned = v.owned;
            other = v.other;
            spared = Spares-append i c.notified s event v.spared (λ p. v.other (e ∙ ap some p));
          })
  ]

  supervisor-IsSupervised :
      (i : ActorId) (s : Option ActorId) (c : Context E)
      → IsSupervised i c
      → IsSupervised i (set_supervisor s c)
  unfolding set_supervisor
  supervisor-IsSupervised i none c v = record {
    owned = v.owned;
    other = λ p. cc;
    spared = v.spared;
  }
  supervisor-IsSupervised i (some s) c v = elim (Bool-cases (s == c.index)) [
    | inl same ↦ rw same v
    | inr different ↦ rw different (record {
      owned = v.owned;
      other = λ p. ground (arith, id_eq_iff s c.index, v.owned);
      spared = v.spared;
    })
  ]

  IsSupervised-stable : (i : ActorId) → IsStable (IsSupervised i)
  unfolding set_state
  IsSupervised-stable i = record {
    state_kept = λ s c v.
        notify-IsSupervised i (state s) (record c { state = s })
          (record { owned = v.owned; other = v.other; spared = v.spared });
    error_kept = λ o c v. record { owned = v.owned; other = v.other; spared = v.spared };
    drain_kept = λ d c v. record { owned = v.owned; other = v.other; spared = v.spared };
    supervisor_kept = supervisor-IsSupervised i;
    notify_kept = notify-IsSupervised i;
  }

module _ {E A M : Type 0} (ch : Channel (Envelope M)) (policy : DrainPolicy) (h : Hooks E A M) where
  open ch use {Queue}

  -- Once a task was spawned.
  abbrev pub AtSpawn : (Context E → Type 0) → Spawn E A Queue → Type 0
  AtSpawn P (refused e) = Unit
  AtSpawn P aborted = Unit
  AtSpawn P (spawned t) = AtTask P t

  report-IsSupervised :
      (i : ActorId) (t : Task E A Queue)
      → AtTask (IsSupervised i) t
      → AtTask (IsSupervised i) (report ch policy h t)
  unfolding report
  report-IsSupervised i (alive s) v = v
  report-IsSupervised i (exited (ok u) a c) v = notify-IsSupervised i (terminated none) c v
  report-IsSupervised i (exited (err e) a c) v = notify-IsSupervised i (terminated (some e)) c v
  report-IsSupervised i (crashed a c) v = notify-IsSupervised i SupervisionEvent.panicked c v

  -- Whatever its hooks and handlers do, from `pre_start` to the last event that `spawn` reports: an
  -- actor that is not its own supervisor, and has sent itself no event, never becomes its own
  -- supervisor and never sends itself one.
  pub spawn-IsSupervised :
      (a : A) (c : Context E) (ts : List (Tick M)) (q : Queue)
      → IsSupervised c.index c
      → AtSpawn (IsSupervised c.index) (spawn ch policy h a c ts q)
  unfolding spawn
  spawn-IsSupervised a c ts q v = go (h.pre_start a c).outcome
    where
      started : Context E
      started = set_state starting (perform_all policy (h.pre_start a c).requests c)

      go :
          (o : Outcome (Result (Unit {0}) E))
          → AtSpawn (IsSupervised c.index) (elim o [
            | panicked ↦ aborted
            | returned o ↦ elim o [
              | err e ↦ refused e
              | ok u ↦
                  spawned
                    (report ch policy h (run ch policy h (h.pre_start a c).actor started ts q))
            ]
          ])
      go panicked = tt
      go (returned (err e)) = tt
      go (returned (ok u)) =
          report-IsSupervised c.index (run ch policy h (h.pre_start a c).actor started ts q) (
            run-stable (IsSupervised-stable c.index) policy ch h (h.pre_start a c).actor started ts
              q
              ((IsSupervised-stable c.index).state_kept starting _ (
                perform_all-stable (IsSupervised-stable c.index) policy (h.pre_start a c).requests c
                  v)))

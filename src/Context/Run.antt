-- ===== src/Context/Run.antt =====
-- acktor/src/actor.rs: `ActorContext::run` and `ActorContext::spawn`, over the default context.
use acktor.Base.{none, some, List, if◌then◌else◌, Result, ok, err, Outcome, returned, panicked}
use acktor.Actor.{starting, running, stopped, is_stopped}
use acktor.Mailbox.{Channel}
use acktor.Drain.{DrainPolicy}
use acktor.Context.{Context, SupervisionEvent, terminated, set_state, try_notify_supervisor}
use acktor.Context.Hooks.{Hooks, Envelope, perform_all}
use acktor.Context.Loop.{Tick, LoopState, End, going, finished, unwound, run_loop}

-- The task of an actor: in its loop, ended with a result, or ended by a panic. Past the loop the
-- mailbox is gone.
pub data Task (E A Q : Type 0) : Type 0 where
  alive : LoopState E A Q → Task E A Q
  exited : Result (Unit {0}) E → A → Context E → Task E A Q
  crashed : A → Context E → Task E A Q

-- What `spawn` comes to: `pre_start` fails or panics, or there is a task.
pub data Spawn (E A Q : Type 0) : Type 0 where
  refused : E → Spawn E A Q
  aborted : Spawn E A Q
  spawned : Task E A Q → Spawn E A Q

module _ {E A M : Type 0} (ch : Channel (Envelope M)) (policy : DrainPolicy) (h : Hooks E A M) where
  open ch use {Queue}

  -- If both the loop and `post_stop` fail, the error of the loop is returned.
  unfoldable pub join_results : Result (Unit {0}) E → Result (Unit {0}) E → Result (Unit {0}) E
  join_results (err e) (err d) = err e
  join_results (err e) (ok u) = err e
  join_results (ok u) r = r

  -- `Stopped` is entered once, whatever ended the loop.
  unfoldable pub settle : Context E → Context E
  unfolding set_state
  settle c = if is_stopped c.state then c else set_state stopped c

  unfoldable pub after_stop :
      Outcome (Result (Unit {0}) E) → Result (Unit {0}) E → A → Context E → Task E A Queue
  unfolding join_results
  after_stop panicked result a c = crashed a c
  after_stop (returned p) result a c = exited (join_results result p) a c

  unfoldable pub after_loop : End E (LoopState E A Queue) → Task E A Queue
  unfolding settle after_stop perform_all
  after_loop (going s) = alive s
  after_loop (unwound s) = crashed s.actor (settle s.context)
  after_loop (finished result s) =
      let c = settle s.context in
      let r = h.post_stop s.actor c in
      after_stop r.outcome result r.actor (perform_all policy r.requests c)

  unfoldable pub after_start :
      Outcome (Result (Unit {0}) E) → A → Context E → List (Tick M) → Queue → Task E A Queue
  unfolding set_state after_loop
  after_start panicked a c ts q = crashed a (set_state stopped c)
  after_start (returned (err e)) a c ts q = exited (err e) a (set_state stopped c)
  after_start (returned (ok u)) a c ts q =
      after_loop
        (run_loop ch policy h ts (record { actor = a; context = set_state running c; queue = q }))

  unfoldable pub run : A → Context E → List (Tick M) → Queue → Task E A Queue
  unfolding perform_all after_start
  run a c ts q =
      let r = h.post_start a c in
      after_start r.outcome r.actor (perform_all policy r.requests c) ts q

  -- The last event, once the task ends.
  unfoldable pub report : Task E A Queue → Task E A Queue
  unfolding try_notify_supervisor
  report (alive s) = alive s
  report (exited (ok u) a c) = exited (ok u) a (try_notify_supervisor (terminated none) c)
  report (exited (err e) a c) = exited (err e) a (try_notify_supervisor (terminated (some e)) c)
  report (crashed a c) = crashed a (try_notify_supervisor SupervisionEvent.panicked c)

  unfoldable pub spawn : A → Context E → List (Tick M) → Queue → Spawn E A Queue
  unfolding perform_all set_state run report
  spawn a c ts q =
      let r = h.pre_start a c in
      let c1 = perform_all policy r.requests c in
      elim r.outcome [
        | panicked ↦ aborted
        | returned o ↦ elim o [
          | err e ↦ refused e
          | ok u ↦ spawned (report (run r.actor (set_state starting c1) ts q))
        ]
      ]

-- ===== src/Cron.antt =====
-- acktor/src/cron.rs: the context of an actor with a task that it repeats.
pub mod Loop
pub mod Laws
use acktor.Base.{
  ℕ, ◌≡◌, Bool, true, false, Option, none, some, List, [], ◌∷◌, Result, ok, err, Outcome, returned,
  panicked,
}
use acktor.Actor.{ActorState, CronSignal, pause, resume, Signal, Stopping}
use acktor.Actor.Index.{ActorId}
use acktor.Drain.{DrainPolicy}
use acktor.Context
use acktor.Context.{Supervisor}
use acktor.Context.Hooks.{Request, perform, handle_signal, handle_supervisor}

pub data CronState : Type 0 where
  normal paused : CronState

-- The fields that the default context has too, and whether a timer is set, with its duration.
pub record CronContext (E : Type 0) : Type 0 where
  pub base : Context.Context E
  pub cron_state : CronState
  pub timer : Option ℕ

-- What user code may ask of the context.
pub data CronRequest (E : Type 0) : Type 0 where
  asks : Request E → CronRequest E
  pauses resumes : CronRequest E

pub record CronResponse (E A R : Type 0) : Type 0 where
  pub actor : A
  pub requests : List (CronRequest E)
  pub outcome : Outcome R

-- `task` returns how long to wait until it is run again.
pub record CronHooks (E A M : Type 0) : Type 0 where
  pub task : A → CronContext E → CronResponse E A (Result ℕ E)
  pub stopping : A → CronContext E → CronResponse E A (Result Stopping E)
  pub handle : M → A → CronContext E → CronResponse E A (Unit {0})

pub data CronEnvelope (M : Type 0) : Type 0 where
  user : M → CronEnvelope M
  signal : Signal → CronEnvelope M
  supervise : Supervisor → CronEnvelope M
  cron : CronSignal → CronEnvelope M

module _ {E : Type 0} where
  unfoldable pub new : ActorId → CronContext E
  new index = record { base = Context.new index; cron_state = normal; timer = none }

  unfoldable pub pause_task : CronContext E → CronContext E
  pause_task c = record c { timer = none; cron_state = paused }

  unfoldable pub resume_task : CronContext E → CronContext E
  resume_task c = record c { timer = none; cron_state = normal }

  -- `Handler<CronSignal>`
  unfoldable pub handle_cron_signal : CronSignal → CronContext E → CronContext E
  unfolding pause_task resume_task
  handle_cron_signal pause c = pause_task c
  handle_cron_signal resume c = resume_task c

  unfoldable pub set_state : ActorState → CronContext E → CronContext E
  unfolding Context.set_state
  set_state s c = record c { base = Context.set_state s c.base }

  unfoldable pub take_error : CronContext E → CronContext E × Result (Unit {0}) E
  unfolding Context.take_error
  take_error c = let t = Context.take_error c.base in (record c { base = t.0 }, t.1)

module _ {E : Type 0} (policy : DrainPolicy) where
  unfoldable pub perform_one : CronRequest E → CronContext E → CronContext E
  unfolding perform pause_task resume_task
  perform_one (asks r) c = record c { base = perform policy r c.base }
  perform_one pauses c = pause_task c
  perform_one resumes c = resume_task c

  unfoldable pub perform_all : List (CronRequest E) → CronContext E → CronContext E
  unfolding perform_one
  perform_all [] c = c
  perform_all (r ∷ rs) c = perform_all rs (perform_one r c)

module _ {E A M : Type 0} (policy : DrainPolicy) (h : CronHooks E A M) where
  unfoldable pub handle_envelope :
      CronEnvelope M → A → CronContext E → A × CronContext E × Outcome (Unit {0})
  unfolding perform_all handle_signal handle_supervisor handle_cron_signal
  handle_envelope (user m) a c =
      let r = h.handle m a c in (r.actor, perform_all policy r.requests c, r.outcome)
  handle_envelope (signal s) a c = (a, record c { base = handle_signal s c.base }, returned tt)
  handle_envelope (supervise s) a c =
      (a, record c { base = handle_supervisor s c.base }, returned tt)
  handle_envelope (cron s) a c = (a, handle_cron_signal s c, returned tt)

-- ===== src/Actor.antt =====
-- acktor/src/actor.rs, acktor/src/signal.rs and acktor/src/cron.rs: the states of an actor, the
-- answer of `stopping`, and the control signals.
pub mod Index
pub mod Codes
use acktor.Base.{Bool, true, false}

pub data ActorState : Type 0 where
  unstarted starting running stopping stopped : ActorState

pub data Stopping : Type 0 where
  stop continue : Stopping

pub data Signal : Type 0 where
  stop terminate : Signal

pub data CronSignal : Type 0 where
  pause resume : CronSignal

-- The derived `==`.
abbrev pub is_running : ActorState → Bool
is_running running = true
is_running _ = false

abbrev pub is_stopped : ActorState → Bool
is_stopped stopped = true
is_stopped _ = false

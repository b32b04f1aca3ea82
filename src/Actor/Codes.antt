-- ===== src/Actor/Codes.antt =====
-- The codes of the control messages, in acktor/src/actor.rs, acktor/src/signal.rs and
-- acktor/src/cron.rs.
use acktor.Base.{ℕ, ◌≡◌, ◌↔◌, Option, none, some, if◌then◌else◌, arith, eqb}
use acktor.Actor.{
  ActorState, unstarted, starting, running, stopping, stopped, Signal, terminate, CronSignal, pause,
  resume,
}

-- `as u8`: the position among the variants.
unfoldable pub state_code : ActorState → ℕ
state_code unstarted = 0
state_code starting = 1
state_code running = 2
state_code stopping = 3
state_code stopped = 4

-- `TryFrom<u8> for ActorState`; `none` is `Err(())`.
unfoldable pub state_try_from : ℕ → Option ActorState
state_try_from v =
    if eqb v 0
    then some unstarted
    else if eqb v 1
    then some starting
    else if eqb v 2
    then some running
    else if eqb v 3
    then some stopping
    else if eqb v 4
    then some stopped
    else none

unfoldable pub signal_code : Signal → ℕ
signal_code Signal.stop = 0
signal_code terminate = 1

unfoldable pub signal_try_from : ℕ → Option Signal
signal_try_from v = if eqb v 0 then some Signal.stop else if eqb v 1 then some terminate else none

unfoldable pub cron_signal_code : CronSignal → ℕ
cron_signal_code pause = 0
cron_signal_code resume = 1

unfoldable pub cron_signal_try_from : ℕ → Option CronSignal
cron_signal_try_from v = if eqb v 0 then some pause else if eqb v 1 then some resume else none

-- A code is read as the state that has it, and one that no state has is refused.
state_try_from_iff : (v : ℕ) (s : ActorState) → (state_try_from v ≡ some s) ↔ (state_code s ≡ v)
unfolding state_try_from state_code
state_try_from_iff v unstarted = ground arith
state_try_from_iff v starting = ground arith
state_try_from_iff v running = ground arith
state_try_from_iff v stopping = ground arith
state_try_from_iff v stopped = ground arith

-- A code is read as the signal that has it, and one that no signal has is refused: of the signals
-- that stop an actor, and of those that pause its timer.
pub signal_try_from_iff :
    (v : ℕ) (s : Signal) (c : CronSignal)
    → ((signal_try_from v ≡ some s) ↔ (signal_code s ≡ v))
      × ((cron_signal_try_from v ≡ some c) ↔ (cron_signal_code c ≡ v))
unfolding signal_try_from signal_code cron_signal_try_from cron_signal_code
signal_try_from_iff v Signal.stop pause = (ground arith, ground arith)
signal_try_from_iff v Signal.stop resume = (ground arith, ground arith)
signal_try_from_iff v terminate pause = (ground arith, ground arith)
signal_try_from_iff v terminate resume = (ground arith, ground arith)

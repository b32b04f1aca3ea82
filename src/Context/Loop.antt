-- ===== src/Context/Loop.antt =====
-- acktor/src/context.rs: `run_loop`, one message at a time.
use acktor.Base.{
  ◌&&◌, List, [], ◌∷◌, if◌then◌else◌, Result, ok, err, Outcome, returned, panicked, is_some,
}
use acktor.Actor.{ActorState, unstarted, starting, running, stopping, stopped, Stopping, is_running}
use acktor.Mailbox.{Channel, Poll, message, closed, pending}
use acktor.Drain
use acktor.Drain.{DrainPolicy}
use acktor.Context.{Context, warn, set_state, take_error, try_notify_supervisor}
use acktor.Context.Hooks.{Hooks, Envelope, perform_all, handle_envelope}

-- What the other tasks send: before the next poll of the mailbox, and while its message is handled.
pub record Tick (M : Type 0) : Type 0 where
  pub before : List (Envelope M)
  pub during : List (Envelope M)

pub record LoopState (E A Q : Type 0) : Type 0 where
  pub actor : A
  pub context : Context E
  pub queue : Q

-- Where a part of the loop leaves it: `going` waits for messages, `unwound` is a panic.
pub data End (E S : Type 0) : Type 0 where
  going : S → End E S
  finished : Result (Unit {0}) E → S → End E S
  unwound : S → End E S

abbrev pub resume : {E S : Type 0} → End E S → (S → End E S) → End E S
resume (going s) k = k s
resume (finished r s) k = finished r s
resume (unwound s) k = unwound s

-- `Result::or`
abbrev pub or_err : {E : Type 0} → Result (Unit {0}) E → E → Result (Unit {0}) E
or_err (ok u) e = ok u
or_err (err d) e = err d

module _ {E A M : Type 0} (ch : Channel (Envelope M)) (policy : DrainPolicy) (h : Hooks E A M) where
  open ch use {Queue, deliver, poll_recv}

  -- What follows a handler that returned: `apply`, and the switch on a saved error.
  unfoldable pub handled :
      Outcome (Unit {0}) → LoopState E A Queue → LoopState E A Queue × Outcome (Unit {0})
  unfolding set_state Drain.apply
  handled panicked s = (s, panicked)
  handled (returned u) s =
      let d = Drain.apply ch policy s.context.drain s.queue in
      let c = record (s.context) { drain = d.0 } in
      (
        record s {
          context = if is_some c.error && is_running c.state then set_state stopping c else c;
          queue = d.1;
        },
        returned tt,
      )

  -- The first `match` on a message, while `during` arrives.
  unfoldable pub on_message :
      Envelope M
      → List (Envelope M)
      → LoopState E A Queue
      → LoopState E A Queue × Outcome (Unit {0})
  unfolding handle_envelope handled Drain.snapshot
  on_message m during s =
      let c = record (s.context) { drain = Drain.snapshot ch policy s.context.drain s.queue } in
      let r = handle_envelope policy h m s.actor c in
      handled r.2 (record { actor = r.0; context = r.1; queue = deliver during s.queue })

  -- The answer of `stopping`, with the result that was saved before.
  unfoldable pub on_answer :
      Result (Unit {0}) E → Result Stopping E → LoopState E A Queue → End E (LoopState E A Queue)
  unfolding set_state try_notify_supervisor
  on_answer result (ok Stopping.stop) s = finished result s
  on_answer (err e) (ok Stopping.continue) s =
      going (record s { context = set_state running (try_notify_supervisor (warn e) s.context) })
  on_answer (ok u) (ok Stopping.continue) s =
      going (record s { context = set_state running s.context })
  on_answer result (err e) s = finished (or_err result e) s

  unfoldable pub answered :
      Outcome (Result Stopping E)
      → Result (Unit {0}) E
      → LoopState E A Queue
      → End E (LoopState E A Queue)
  unfolding on_answer
  answered panicked result s = unwound s
  answered (returned answer) result s = on_answer result answer s

  -- The second `match`, on the state.
  unfoldable pub on_stopping : LoopState E A Queue → End E (LoopState E A Queue)
  unfolding take_error perform_all answered
  on_stopping s =
      let t = take_error s.context in
      let r = h.stopping s.actor t.0 in
      answered r.outcome t.1
        (record s { actor = r.actor; context = perform_all policy r.requests t.0 })

  unfoldable pub on_stopped : LoopState E A Queue → End E (LoopState E A Queue)
  unfolding take_error
  on_stopped s = let t = take_error s.context in finished t.1 (record s { context = t.0 })

  unfoldable pub on_state : ActorState → LoopState E A Queue → End E (LoopState E A Queue)
  unfolding on_stopping on_stopped
  on_state stopping s = on_stopping s
  on_state stopped s = on_stopped s
  on_state unstarted s = going s
  on_state starting s = going s
  on_state running s = going s

  -- After a message was handled, unless its handler panicked.
  unfoldable pub after_message :
      LoopState E A Queue × Outcome (Unit {0}) → End E (LoopState E A Queue)
  unfolding on_state
  after_message (s, panicked) = unwound s
  after_message (s, returned u) = on_state s.context.state s

  -- What a poll of the mailbox leads to; one that is pending leaves the loop waiting.
  unfoldable pub polled :
      Poll (Envelope M) Queue
      → List (Envelope M)
      → LoopState E A Queue
      → End E (LoopState E A Queue)
  unfolding on_message after_message set_state on_state
  polled pending during s = going (record s { queue = deliver during s.queue })
  polled closed during s =
      let c = set_state stopped s.context in on_state c.state (record s { context = c })
  polled (message m q) during s = after_message (on_message m during (record s { queue = q }))

  -- One turn of the `while` loop.
  unfoldable pub step : Tick M → LoopState E A Queue → End E (LoopState E A Queue)
  unfolding polled
  step t s =
      let q = deliver t.before s.queue in polled (poll_recv q) t.during (record s { queue = q })

  -- The loop along a schedule; where the schedule is used up the loop is still going.
  unfoldable pub run_loop : List (Tick M) → LoopState E A Queue → End E (LoopState E A Queue)
  unfolding step
  run_loop [] s = if is_running s.context.state then going s else finished (ok tt) s
  run_loop (t ∷ ts) s =
      if is_running s.context.state then resume (step t s) (run_loop ts) else finished (ok tt) s

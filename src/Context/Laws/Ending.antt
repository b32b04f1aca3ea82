-- ===== src/Context/Laws/Ending.antt =====
-- What ends the loop of acktor/src/context.rs, and with which result the task then ends.
use acktor.Base.{
  ◌≡◌, refl, ◌∙◌, ap, List, ◌∷◌, arith, if◌then◌else◌, Result, ok, err, Outcome, returned,
}
use acktor.Actor.{running, stopping, stopped, Stopping, is_running, Signal}
use acktor.Mailbox.{Channel, message}
use acktor.Drain
use acktor.Drain.{DrainPolicy}
use acktor.Context.{Context, set_state, take_error, saved}
use acktor.Context.Hooks.{Hooks, Envelope, signal, handle_envelope, handle_signal}
use acktor.Context.Loop.{
  Tick, LoopState, finished, handled, on_message, on_stopped, after_message, on_state, polled, step,
  resume, run_loop,
}
use acktor.Context.Run.{Task, alive, exited, crashed}

module _ {E A M : Type 0} (ch : Channel (Envelope M)) (policy : DrainPolicy) (h : Hooks E A M) where
  open ch use {Queue, deliver, poll_recv}

  -- The task does not end well, nor with another error than `e`.
  abbrev pub FailsWith : E → Task E A Queue → Type 0
  FailsWith e (alive s) = ⊥
  FailsWith e (exited r a c) = r ≡ err e
  FailsWith e (crashed a c) = Unit

  -- What `stopping` returns, which is asked once the saved error is taken.
  abbrev pub asked : LoopState E A Queue → Outcome (Result Stopping E)
  asked s = (h.stopping s.actor (take_error s.context).0).outcome

  run_loop_turn :
      (t : Tick M) (ts : List (Tick M)) (s : LoopState E A Queue)
      → s.context.state ≡ running
      → run_loop ch policy h (t ∷ ts) s ≡ resume (step ch policy h t s) (run_loop ch policy h ts)
  unfolding run_loop
  run_loop_turn t ts s on =
      ap
        (λ x.
          if is_running x
          then resume (step ch policy h t s) (run_loop ch policy h ts)
          else finished (ok tt) s)
        on

  -- What the handler of a message leaves, before the loop looks at it: the actor, the context, and
  -- whether the handler returned.
  abbrev pub handled_by : Envelope M → LoopState E A Queue → A × Context E × Outcome (Unit {0})
  handled_by m s =
      handle_envelope policy h m s.actor
        (record (s.context) { drain = Drain.snapshot ch policy s.context.drain s.queue })

  -- The turn of a `Terminate` signal.
  on_terminate :
      (during : List (Envelope M)) (s : LoopState E A Queue)
      → let r = on_message ch policy h (signal Signal.terminate) during s in
        (r.0.context.state ≡ stopped)
        × (r.0.context.error ≡ s.context.error)
        × (r.0.actor ≡ s.actor)
        × (r.1 ≡ returned tt)
  unfolding on_message handled handle_envelope handle_signal set_state
  on_terminate during s = (ground arith, ground arith, refl, refl)

  -- A `Terminate` signal ends the loop in the turn that receives it: whatever still waits in the
  -- mailbox is not handled, the actor itself is untouched, and the saved error is the result.
  pub terminate_ends :
      (t : Tick M) (ts : List (Tick M)) (s : LoopState E A Queue) (q : Queue)
      → s.context.state ≡ running
      → poll_recv (deliver t.before s.queue) ≡ message (signal Signal.terminate) q
      → (s' : LoopState E A Queue) × (run_loop ch policy h (t ∷ ts) s
          ≡ finished (saved s.context.error) s')
        × (s'.actor ≡ s.actor)
        × (s'.context.state ≡ stopped)
  unfolding step polled on_stopped
  terminate_ends t ts s q on polls =
      let s0 : LoopState E A Queue = record s { queue = q } in
      let m = on_message ch policy h (signal Signal.terminate) t.during s0 in
      let (state, error, actor, ends) = on_terminate t.during s0 in
      (
        record (m.0) { context = (take_error m.0.context).0 },
        run_loop_turn t ts s on
            ∙ ap (λ x. resume x (run_loop ch policy h ts))
                (ap
                    (λ p.
                      polled ch policy h p t.during (record s { queue = deliver t.before s.queue }))
                    polls
                  ∙ ap (λ o. after_message ch policy h (m.0, o)) ends
                  ∙ ap (λ x. on_state ch policy h x m.0) state
                  ∙ ap
                      (λ x.
                        finished (saved x) (record (m.0) { context = (take_error m.0.context).0 }))
                      error),
        actor,
        state,
      )

-- ===== src/Cron/Loop.antt =====
-- acktor/src/cron.rs: `process_one` and `run_loop`.
use acktor.Base.{
  ℕ, Bool, true, false, some, List, [], ◌∷◌, if◌then◌else◌, eqb, Result, ok, err, Outcome, returned,
  panicked,
}
use acktor.Actor.{ActorState, unstarted, starting, running, stopping, stopped, Stopping, is_running}
use acktor.Mailbox.{Channel, Poll, message, closed, pending}
use acktor.Drain
use acktor.Drain.{DrainPolicy}
use acktor.Context.{warn, try_notify_supervisor}
use acktor.Context.Loop.{End, going, finished, unwound, or_err}
use acktor.Context.Loop
use acktor.Cron.{
  CronState, normal, paused, CronContext, CronHooks, CronEnvelope, set_state, take_error,
  perform_all, handle_envelope,
}

-- What the other tasks send: before the mailbox is looked at, and while its message is handled.
pub record CronTick (M : Type 0) : Type 0 where
  pub before : List (CronEnvelope M)
  pub during : List (CronEnvelope M)

-- `waits` while `process_one` is at its `recv().await`.
pub record CronLoop (E A Q : Type 0) : Type 0 where
  pub actor : A
  pub context : CronContext E
  pub queue : Q
  pub waits : Bool

-- Where `process_one` comes to: it waits for a message, returns, or panics.
pub data Processed (E S : Type 0) : Type 0 where
  awaits : S → Processed E S
  processed : Result (Unit {0}) E → S → Processed E S
  unwinds : S → Processed E S

module _ {E A M : Type 0} (ch : Channel (CronEnvelope M)) (policy : DrainPolicy)
    (h : CronHooks E A M) where
  open ch use {Queue, deliver, poll_recv}

  -- The end of `process_one`.
  unfoldable pub done : CronLoop E A Queue → Processed E (CronLoop E A Queue)
  unfolding take_error
  done s = let t = take_error s.context in processed t.1 (record s { context = t.0; waits = false })

  unfoldable pub handled :
      Outcome (Unit {0}) → CronLoop E A Queue → Processed E (CronLoop E A Queue)
  unfolding Drain.apply done
  handled panicked s = unwinds s
  handled (returned u) s =
      let d = Drain.apply ch policy s.context.base.drain s.queue in
      done (record s {
        context = record (s.context) { base = record (s.context.base) { drain = d.0 } };
        queue = d.1;
      })

  unfoldable pub on_message :
      CronEnvelope M → List (CronEnvelope M) → CronLoop E A Queue → Processed E (CronLoop E A Queue)
  unfolding handle_envelope handled Drain.snapshot
  on_message m during s =
      let d = Drain.snapshot ch policy s.context.base.drain s.queue in
      let c = record (s.context) { base = record (s.context.base) { drain = d } } in
      let r = handle_envelope policy h m s.actor c in
      handled r.2 (record s { actor = r.0; context = r.1; queue = deliver during s.queue })

  -- The two `match`es on the mailbox: `recv` if `async_wait`, and else `try_recv`, which returns
  -- at once where there is no message.
  unfoldable pub polled :
      Bool
      → Poll (CronEnvelope M) Queue
      → List (CronEnvelope M)
      → CronLoop E A Queue
      → Processed E (CronLoop E A Queue)
  unfolding on_message done set_state
  polled async_wait (message m q) during s = on_message m during (record s { queue = q })
  polled async_wait closed during s = done (record s { context = set_state stopped s.context })
  polled true pending during s = awaits (record s { queue = deliver during s.queue; waits = true })
  polled false pending during s = done (record s { queue = deliver during s.queue })

  unfoldable pub receive : Bool → CronTick M → CronLoop E A Queue → Processed E (CronLoop E A Queue)
  unfolding polled
  receive async_wait t s =
      let q = deliver t.before s.queue in
      polled async_wait (poll_recv q) t.during (record s { queue = q })

  -- What the duration that the task returned leads to.
  unfoldable pub after_task :
      Outcome (Result ℕ E) → CronTick M → CronLoop E A Queue → Processed E (CronLoop E A Queue)
  unfolding receive
  after_task panicked t s = unwinds s
  after_task (returned (err e)) t s = processed (err e) s
  after_task (returned (ok duration)) t s =
      if eqb duration 0
      then receive false t s
      else receive true t
          (record s { context = record (s.context) { cron_state = paused; timer = some duration } })

  unfoldable pub begin :
      CronState → CronTick M → CronLoop E A Queue → Processed E (CronLoop E A Queue)
  unfolding perform_all after_task receive
  begin paused t s = receive true t s
  begin normal t s =
      let r = h.task s.actor s.context in
      after_task r.outcome t
        (record s { actor = r.actor; context = perform_all policy r.requests s.context })

  unfoldable pub process_one : CronTick M → CronLoop E A Queue → Processed E (CronLoop E A Queue)
  unfolding begin receive
  process_one t s = if s.waits then receive true t s else begin s.context.cron_state t s

  -- The answer of `stopping`.
  unfoldable pub on_answer :
      Result (Unit {0}) E → Result Stopping E → CronLoop E A Queue → End E (CronLoop E A Queue)
  unfolding set_state try_notify_supervisor
  on_answer result (ok Stopping.stop) s = finished result s
  on_answer (err e) (ok Stopping.continue) s = going (record s {
    context =
        set_state running
          (record (s.context) { base = try_notify_supervisor (warn e) s.context.base });
  })
  on_answer (ok u) (ok Stopping.continue) s =
      going (record s { context = set_state running s.context })
  on_answer result (err e) s = finished (or_err result e) s

  unfoldable pub answered :
      Outcome (Result Stopping E)
      → Result (Unit {0}) E
      → CronLoop E A Queue
      → End E (CronLoop E A Queue)
  unfolding on_answer
  answered panicked result s = unwound s
  answered (returned answer) result s = on_answer result answer s

  unfoldable pub on_state :
      ActorState → Result (Unit {0}) E → CronLoop E A Queue → End E (CronLoop E A Queue)
  unfolding perform_all answered
  on_state stopping result s =
      let r = h.stopping s.actor s.context in
      answered r.outcome result
        (record s { actor = r.actor; context = perform_all policy r.requests s.context })
  on_state stopped result s = finished result s
  on_state unstarted result s = going s
  on_state starting result s = going s
  on_state running result s = going s

  -- The switch on an error.
  unfoldable pub react : Result (Unit {0}) E → CronContext E → CronContext E
  unfolding set_state
  react (ok u) c = c
  react (err e) c = if is_running c.base.state then set_state stopping c else c

  unfoldable pub after_process : Processed E (CronLoop E A Queue) → End E (CronLoop E A Queue)
  unfolding react on_state
  after_process (awaits s) = going s
  after_process (unwinds s) = unwound s
  after_process (processed result s) =
      let c = react result s.context in on_state c.base.state result (record s { context = c })

  -- The loop checks the state before a call of `process_one`, but not while one waits.
  unfoldable pub run_loop : List (CronTick M) → CronLoop E A Queue → End E (CronLoop E A Queue)
  unfolding process_one after_process
  run_loop [] s =
      if s.waits
      then going s
      else if is_running s.context.base.state
      then going s
      else finished (ok tt) s
  run_loop (t ∷ ts) s =
      let next = Loop.resume (after_process (process_one t s)) (run_loop ts) in
      if s.waits then next else if is_running s.context.base.state then next else finished (ok tt) s

-- ===== src/Context/Laws/Stable.antt =====
-- A property of contexts that every method keeps is kept by the loop and by the task.
use acktor.Base.{
  Option, none, some, List, [], ◌∷◌, Result, ok, err, Outcome, returned, panicked, is_some, ◌&&◌,
  Bool-cases, inl, inr,
}
use acktor.Actor.{
  ActorState, unstarted, starting, running, stopping, stopped, Stopping, is_running, is_stopped,
  Signal,
}
use acktor.Mailbox.{Channel, Poll, message, closed, pending}
use acktor.Drain.{DrainPolicy, DrainState}
use acktor.Drain
use acktor.Context.{
  Context, SupervisionEvent, Supervisor, set, unset, take_error, set_state, set_supervisor,
  try_notify_supervisor, warn,
}
use acktor.Context.Hooks.{
  Request, sets_state, saves_error, sets_supervisor, drains_mailbox, notifies, Hooks, Envelope,
  user, signal, supervise, perform, perform_all, handle_envelope, handle_signal, handle_supervisor,
}
use acktor.Context.Loop.{
  Tick, LoopState, End, going, finished, unwound, handled, on_message, answered, polled, on_answer,
  on_state, after_message, step, resume, run_loop,
}
use acktor.Context.Run.{
  Task, alive, exited, crashed, settle, after_stop, after_loop, after_start, run,
}
use acktor.Actor.Index.{ActorId}

-- Every method of the context keeps `P`.
pub record IsStable {E : Type 0} (P : Context E → Type 0) : Type 0 where
  pub state_kept : (s : ActorState) (c : Context E) → P c → P (set_state s c)
  pub error_kept : (o : Option E) (c : Context E) → P c → P (record c { error = o })
  pub drain_kept : (d : DrainState) (c : Context E) → P c → P (record c { drain = d })
  pub supervisor_kept : (s : Option ActorId) (c : Context E) → P c → P (set_supervisor s c)
  pub notify_kept :
      (event : SupervisionEvent E) (c : Context E) → P c → P (try_notify_supervisor event c)

module _ {E A Q : Type 0} where
  -- `P` holds where a part of the loop, or the task, leaves the context.
  abbrev pub AtEnd : (Context E → Type 0) → End E (LoopState E A Q) → Type 0
  AtEnd P (going s) = P s.context
  AtEnd P (finished r s) = P s.context
  AtEnd P (unwound s) = P s.context

  abbrev pub AtTask : (Context E → Type 0) → Task E A Q → Type 0
  AtTask P (alive s) = P s.context
  AtTask P (exited r a c) = P c
  AtTask P (crashed a c) = P c

module _ {E : Type 0} {P : Context E → Type 0} (stable : IsStable P) (policy : DrainPolicy) where
  perform-stable : (r : Request E) (c : Context E) → P c → P (perform policy r c)
  unfolding perform
  perform-stable (sets_state s) c p = stable.state_kept s c p
  perform-stable (saves_error e) c p = stable.error_kept (some e) c p
  perform-stable (sets_supervisor s) c p = stable.supervisor_kept s c p
  perform-stable drains_mailbox c p = stable.drain_kept (Drain.request policy c.drain) c p
  perform-stable (notifies event) c p = stable.notify_kept event c p

  pub perform_all-stable :
      (rs : List (Request E)) (c : Context E) → P c → P (perform_all policy rs c)
  unfolding perform_all
  perform_all-stable [] c p = p
  perform_all-stable (r ∷ rs) c p =
      perform_all-stable rs (perform policy r c) (perform-stable r c p)

  handle_signal-stable : (s : Signal) (c : Context E) → P c → P (handle_signal s c)
  unfolding handle_signal
  handle_signal-stable Signal.stop c p = stable.state_kept stopping c p
  handle_signal-stable Signal.terminate c p = stable.state_kept stopped c p

  handle_supervisor-stable : (s : Supervisor) (c : Context E) → P c → P (handle_supervisor s c)
  unfolding handle_supervisor
  handle_supervisor-stable (set s) c p = stable.supervisor_kept (some s) c p
  handle_supervisor-stable unset c p = stable.supervisor_kept none c p

  take_error-stable : (c : Context E) → P c → P (take_error c).0
  unfolding take_error
  take_error-stable c p = stable.error_kept none c p

  module _ {A M : Type 0} (ch : Channel (Envelope M)) (h : Hooks E A M) where
    open ch use {Queue, deliver, poll_recv}

    handle_envelope-stable :
        (m : Envelope M) (a : A) (c : Context E) → P c → P (handle_envelope policy h m a c).1
    unfolding handle_envelope
    handle_envelope-stable (user m) a c p = perform_all-stable (h.handle m a c).requests c p
    handle_envelope-stable (signal s) a c p = handle_signal-stable s c p
    handle_envelope-stable (supervise s) a c p = handle_supervisor-stable s c p

    handled-stable :
        (o : Outcome (Unit {0})) (s : LoopState E A Queue)
        → P s.context
        → P (handled ch policy h o s).0.context
    unfolding handled
    handled-stable panicked s p = p
    handled-stable (returned u) s p =
        let d = Drain.apply ch policy s.context.drain s.queue in
        let c = record (s.context) { drain = d.0 } in
        let q : P c = stable.drain_kept d.0 s.context p in
        elim (Bool-cases (is_some c.error && is_running c.state)) [
          | inl on ↦ rw on (stable.state_kept stopping c q)
          | inr off ↦ rw off q
        ]

    on_message-stable :
        (m : Envelope M) (during : List (Envelope M)) (s : LoopState E A Queue)
        → P s.context
        → P (on_message ch policy h m during s).0.context
    unfolding on_message
    on_message-stable m during s p =
        handled-stable _ _ (handle_envelope-stable m s.actor _ (stable.drain_kept _ s.context p))

    on_answer-stable :
        (result : Result (Unit {0}) E) (answer : Result Stopping E) (s : LoopState E A Queue)
        → P s.context
        → AtEnd P (on_answer ch policy h result answer s)
    unfolding on_answer
    on_answer-stable result (ok Stopping.stop) s p = p
    on_answer-stable (ok u) (ok Stopping.continue) s p = stable.state_kept running s.context p
    on_answer-stable (err e) (ok Stopping.continue) s p =
        stable.state_kept running _ (stable.notify_kept (warn e) s.context p)
    on_answer-stable result (err e) s p = p

    answered-stable :
        (o : Outcome (Result Stopping E)) (result : Result (Unit {0}) E) (s : LoopState E A Queue)
        → P s.context
        → AtEnd P (answered ch policy h o result s)
    unfolding answered
    answered-stable panicked result s p = p
    answered-stable (returned answer) result s p = on_answer-stable result answer s p

    on_state-stable :
        (state : ActorState) (s : LoopState E A Queue)
        → P s.context
        → AtEnd P (on_state ch policy h state s)
    unfolding on_state
    on_state-stable stopping s p =
        let t = take_error s.context in
        let r = h.stopping s.actor t.0 in
        answered-stable r.outcome t.1
          (record s { actor = r.actor; context = perform_all policy r.requests t.0 })
          (perform_all-stable r.requests t.0 (take_error-stable s.context p))
    on_state-stable stopped s p = take_error-stable s.context p
    on_state-stable unstarted s p = p
    on_state-stable starting s p = p
    on_state-stable running s p = p

    after_message-stable :
        (r : LoopState E A Queue × Outcome (Unit {0}))
        → P r.0.context
        → AtEnd P (after_message ch policy h r)
    unfolding after_message
    after_message-stable (s, panicked) p = p
    after_message-stable (s, returned u) p = on_state-stable s.context.state s p

    polled-stable :
        (r : Poll (Envelope M) Queue) (during : List (Envelope M)) (s : LoopState E A Queue)
        → P s.context
        → AtEnd P (polled ch policy h r during s)
    unfolding polled
    polled-stable pending during s p = p
    polled-stable closed during s p = on_state-stable _ _ (stable.state_kept stopped s.context p)
    polled-stable (message m q) during s p = after_message-stable _ (on_message-stable m during _ p)

    step-stable :
        (t : Tick M) (s : LoopState E A Queue) → P s.context → AtEnd P (step ch policy h t s)
    unfolding step
    step-stable t s p =
        polled-stable (poll_recv (deliver t.before s.queue)) t.during
          (record s { queue = deliver t.before s.queue }) p

    resume-stable :
        (e : End E (LoopState E A Queue)) (k : LoopState E A Queue → End E (LoopState E A Queue))
        → AtEnd P e
        → ((s : LoopState E A Queue) → P s.context → AtEnd P (k s))
        → AtEnd P (resume e k)
    resume-stable (going s) k p f = f s p
    resume-stable (finished r s) k p f = p
    resume-stable (unwound s) k p f = p

    pub run_loop-stable :
        (ts : List (Tick M)) (s : LoopState E A Queue)
        → P s.context
        → AtEnd P (run_loop ch policy h ts s)
    unfolding run_loop
    run_loop-stable [] s p = elim (Bool-cases (is_running s.context.state)) [
      | inl on ↦ rw on p
      | inr off ↦ rw off p
    ]
    run_loop-stable (t ∷ ts) s p = elim (Bool-cases (is_running s.context.state)) [
      | inl on ↦
          rw on (resume-stable (step ch policy h t s) _ (step-stable t s p) (run_loop-stable ts))
      | inr off ↦ rw off p
    ]

    settle-stable : (c : Context E) → P c → P (settle ch policy h c)
    unfolding settle
    settle-stable c p = elim (Bool-cases (is_stopped c.state)) [
      | inl on ↦ rw on p
      | inr off ↦ rw off (stable.state_kept stopped c p)
    ]

    after_stop-stable :
        (o : Outcome (Result (Unit {0}) E)) (result : Result (Unit {0}) E) (a : A) (c : Context E)
        → P c
        → AtTask P (after_stop ch policy h o result a c)
    unfolding after_stop
    after_stop-stable panicked result a c p = p
    after_stop-stable (returned r) result a c p = p

    after_loop-stable :
        (e : End E (LoopState E A Queue)) → AtEnd P e → AtTask P (after_loop ch policy h e)
    unfolding after_loop
    after_loop-stable (going s) p = p
    after_loop-stable (unwound s) p = settle-stable s.context p
    after_loop-stable (finished result s) p =
        let c = settle ch policy h s.context in
        let r = h.post_stop s.actor c in
        after_stop-stable r.outcome result r.actor (perform_all policy r.requests c)
          (perform_all-stable r.requests c (settle-stable s.context p))

    after_start-stable :
        (o : Outcome (Result (Unit {0}) E)) (a : A) (c : Context E) (ts : List (Tick M)) (q : Queue)
        → P c
        → AtTask P (after_start ch policy h o a c ts q)
    unfolding after_start
    after_start-stable panicked a c ts q p = stable.state_kept stopped c p
    after_start-stable (returned (err e)) a c ts q p = stable.state_kept stopped c p
    after_start-stable (returned (ok u)) a c ts q p =
        after_loop-stable _ (run_loop-stable ts _ (stable.state_kept running c p))

    -- Whatever the hooks and the handlers do, and however the task ends.
    pub run-stable :
        (a : A) (c : Context E) (ts : List (Tick M)) (q : Queue)
        → P c
        → AtTask P (run ch policy h a c ts q)
    unfolding run
    run-stable a c ts q p =
        let r = h.post_start a c in
        after_start-stable r.outcome r.actor (perform_all policy r.requests c) ts q
          (perform_all-stable r.requests c p)

-- ===== src/Context/Laws/Delivery.antt =====
-- Every message reaches its handler once and in order, in acktor/src/context.rs without draining.
use acktor.Base.{
  ◌≡◌, refl, sym, ◌∙◌, ap, List, [], ◌∷◌, ◌++◌, Result, ok, err, Outcome, returned, panicked,
  Bool-cases, inl, inr,
}
use mathlib.Core.List.{append-nil, append_assoc}
use acktor.Actor.{ActorState, unstarted, starting, running, stopping, stopped, Stopping, is_running}
use acktor.Mailbox.{Channel, Poll, message, closed, pending, queued-poll}
use acktor.Drain.{no_drain}
use acktor.Context.Hooks.{Hooks, Envelope, user, signal, supervise, Response}
use acktor.Context.Laws.Stopped.{state-set_state}
use acktor.Context.Loop.{
  Tick, LoopState, End, going, finished, unwound, handled, on_message, on_answer, answered,
  on_state, after_message, polled, step, resume, run_loop,
}

module _ {E A M : Type 0} where
  -- A response, with a log of the messages that the handler was given.
  abbrev pub with_log : {R : Type 0} → List M → Response E A R → Response E (A × List M) R
  with_log log r = record { actor = (r.actor, log); requests = r.requests; outcome = r.outcome }

  -- Any actor, with such a log beside it.
  abbrev pub logged : Hooks E A M → Hooks E (A × List M) M
  logged h = record {
    pre_start = λ a c. with_log a.1 (h.pre_start a.0 c);
    post_start = λ a c. with_log a.1 (h.post_start a.0 c);
    stopping = λ a c. with_log a.1 (h.stopping a.0 c);
    post_stop = λ a c. with_log a.1 (h.post_stop a.0 c);
    handle = λ m a c. with_log (a.1 ++ m ∷ []) (h.handle m a.0 c);
  }

-- The messages for the actor's own handler.
abbrev pub users : {M : Type 0} → List (Envelope M) → List M
users [] = []
users (user m ∷ es) = m ∷ users es
users (signal s ∷ es) = users es
users (supervise s ∷ es) = users es

users-append : {M : Type 0} (xs ys : List (Envelope M)) → users (xs ++ ys) ≡ users xs ++ users ys
users-append [] ys = refl
users-append (user m ∷ es) ys = ap (◌∷◌ m) (users-append es ys)
users-append (signal s ∷ es) ys = users-append es ys
users-append (supervise s ∷ es) ys = users-append es ys

-- All that arrives along a schedule.
abbrev pub arrivals : {M : Type 0} → List (Tick M) → List M
arrivals [] = []
arrivals (t ∷ ts) = (users t.before ++ users t.during) ++ arrivals ts

module _ {E A M : Type 0} (ch : Channel (Envelope M)) (h : Hooks E A M) where
  open ch use {Queue, queued, deliver, poll_recv, queued-deliver, poll-cons, poll-nil}

  -- The log, followed by what waits in the mailbox.
  abbrev pub account : LoopState E (A × List M) Queue → List M
  account s = s.actor.1 ++ users (queued s.queue)

  -- A loop that goes on has logged or queued every message of `total`, in its order; one that has
  -- ended has logged an initial part of `total`.
  abbrev pub Accounts : List M → End E (LoopState E (A × List M) Queue) → Type 0
  Accounts total (going s) = account s ≡ total
  Accounts total (finished r s) = (later : List M) × (s.actor.1 ++ later ≡ total)
  Accounts total (unwound s) = (later : List M) × (s.actor.1 ++ later ≡ total)

  -- A part of the loop that leaves the log and the mailbox alone accounts for the same messages.
  account-Accounts :
      (total : List M) (r : Result (Unit {0}) E) (s : LoopState E (A × List M) Queue)
      → account s ≡ total
      → Accounts total (going s) × Accounts total (finished r s) × Accounts total (unwound s)
  account-Accounts total r s e = (e, (users (queued s.queue), e), (users (queued s.queue), e))

  on_answer-Accounts :
      (total : List M) (r : Result (Unit {0}) E) (answer : Result Stopping E)
      (s : LoopState E (A × List M) Queue)
      → account s ≡ total
      → Accounts total (on_answer ch no_drain (logged h) r answer s)
  unfolding on_answer
  on_answer-Accounts total r (ok Stopping.stop) s e = (users (queued s.queue), e)
  on_answer-Accounts total (ok u) (ok Stopping.continue) s e = e
  on_answer-Accounts total (err d) (ok Stopping.continue) s e = e
  on_answer-Accounts total r (err d) s e = (users (queued s.queue), e)

  answered-Accounts :
      (total : List M) (o : Outcome (Result Stopping E)) (r : Result (Unit {0}) E)
      (s : LoopState E (A × List M) Queue)
      → account s ≡ total
      → Accounts total (answered ch no_drain (logged h) o r s)
  unfolding answered
  answered-Accounts total panicked r s e = (users (queued s.queue), e)
  answered-Accounts total (returned answer) r s e = on_answer-Accounts total r answer s e

  on_state-Accounts :
      (total : List M) (state : ActorState) (s : LoopState E (A × List M) Queue)
      → account s ≡ total
      → Accounts total (on_state ch no_drain (logged h) state s)
  unfolding on_state
  on_state-Accounts total stopping s e = answered-Accounts total _ _ _ e
  on_state-Accounts total stopped s e = (users (queued s.queue), e)
  on_state-Accounts total unstarted s e = e
  on_state-Accounts total starting s e = e
  on_state-Accounts total running s e = e

  after_message-Accounts :
      (total : List M) (r : LoopState E (A × List M) Queue × Outcome (Unit {0}))
      → account r.0 ≡ total
      → Accounts total (after_message ch no_drain (logged h) r)
  unfolding after_message
  after_message-Accounts total (s, panicked) e = (users (queued s.queue), e)
  after_message-Accounts total (s, returned u) e = on_state-Accounts total s.context.state s e

  -- Without draining, what follows a handler leaves the log and the mailbox alone.
  account-handled :
      (o : Outcome (Unit {0})) (s : LoopState E (A × List M) Queue)
      → account (handled ch no_drain (logged h) o s).0 ≡ account s
  unfolding handled
  account-handled panicked s = refl
  account-handled (returned u) s = refl

  -- A message that leaves the mailbox enters the log, and what arrives meanwhile is queued.
  account-on_message :
      (m : Envelope M) (during : List (Envelope M)) (s : LoopState E (A × List M) Queue)
      → account (on_message ch no_drain (logged h) m during s).0
        ≡ (s.actor.1 ++ users (m ∷ queued s.queue)) ++ users during
  unfolding on_message handled
  account-on_message (user m) during s =
      account-handled (h.handle m s.actor.0 _).outcome _
      ∙ ap (λ l. (s.actor.1 ++ m ∷ []) ++ users l) (queued-deliver during s.queue)
      ∙ simp (append_assoc, users-append)
  account-on_message (signal g) during s =
      ap (λ l. s.actor.1 ++ users l) (queued-deliver during s.queue)
      ∙ simp (append_assoc, users-append)
  account-on_message (supervise v) during s =
      ap (λ l. s.actor.1 ++ users l) (queued-deliver during s.queue)
      ∙ simp (append_assoc, users-append)

  polled-Accounts :
      (total : List M) (r : Poll (Envelope M) Queue) (during : List (Envelope M))
      (s : LoopState E (A × List M) Queue)
      → poll_recv s.queue ≡ r
      → account s ≡ total
      → Accounts (total ++ users during) (polled ch no_drain (logged h) r during s)
  unfolding polled
  polled-Accounts total pending during s p e =
      ap (λ l. s.actor.1 ++ users l) (queued-deliver during s.queue)
      ∙ simp (users-append, ← append_assoc) (ap (λ l. l ++ users during) e)
  polled-Accounts total closed during s p e = rw (state-set_state stopped s.context) (
    users (queued s.queue) ++ users during,
    sym (append_assoc s.actor.1 (users (queued s.queue)) (users during))
        ∙ ap (λ l. l ++ users during) e,
  )
  polled-Accounts total (message m q) during s p e =
      after_message-Accounts _ (on_message ch no_drain (logged h) m during (record s { queue = q }))
        (account-on_message m during (record s { queue = q })
          ∙ ap (λ l. (s.actor.1 ++ users l) ++ users during) (sym (queued-poll ch s.queue q m p))
          ∙ ap (λ l. l ++ users during) e)

  step-Accounts :
      (t : Tick M) (s : LoopState E (A × List M) Queue)
      → Accounts (account s ++ (users t.before ++ users t.during)) (step ch no_drain (logged h) t s)
  unfolding step
  step-Accounts t s = rw (← append_assoc) (
      polled-Accounts _ (poll_recv (deliver t.before s.queue)) t.during
        (record s { queue = deliver t.before s.queue }) refl
        (ap (λ l. s.actor.1 ++ users l) (queued-deliver t.before s.queue)
          ∙ simp (users-append, append_assoc)))

  resume-Accounts :
      (total more : List M) (e : End E (LoopState E (A × List M) Queue))
      (k : LoopState E (A × List M) Queue → End E (LoopState E (A × List M) Queue))
      → Accounts total e
      → ((s : LoopState E (A × List M) Queue) → Accounts (account s ++ more) (k s))
      → Accounts (total ++ more) (resume e k)
  resume-Accounts total more (going s) k a f = rw a at (f s)
  resume-Accounts total more (finished r s) k (later, p) f =
      (later ++ more, sym (append_assoc s.actor.1 later more) ∙ ap (λ l. l ++ more) p)
  resume-Accounts total more (unwound s) k (later, p) f =
      (later ++ more, sym (append_assoc s.actor.1 later more) ∙ ap (λ l. l ++ more) p)

  -- Of an actor whose context does not drain its mailbox (`NoDrain`), whatever else it does: while its
  -- loop goes on, the messages that its handler was given, followed by those in the mailbox, are the
  -- ones that waited at the start and all that arrived since, each once and in the order of arrival;
  -- and where the loop has ended, the handler was given an initial part of them.
  pub run_loop-Accounts :
      (ts : List (Tick M)) (s : LoopState E (A × List M) Queue)
      → Accounts (account s ++ arrivals ts) (run_loop ch no_drain (logged h) ts s)
  unfolding run_loop
  run_loop-Accounts [] s = elim (Bool-cases (is_running s.context.state)) [
    | inl on ↦ rw on (sym (append-nil (account s)))
    | inr off ↦ rw off (users (queued s.queue), sym (append-nil (account s)))
  ]
  run_loop-Accounts (t ∷ ts) s = elim (Bool-cases (is_running s.context.state)) [
    | inl on ↦
        rw (on, ← append_assoc)
          (resume-Accounts _ (arrivals ts) (step ch no_drain (logged h) t s) _ (step-Accounts t s)
            (run_loop-Accounts ts))
    | inr off ↦ rw off (
      users (queued s.queue) ++ arrivals (t ∷ ts),
      sym (append_assoc s.actor.1 (users (queued s.queue)) (arrivals (t ∷ ts))),
    )
  ]

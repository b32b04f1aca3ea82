-- ===== src/Cron/Laws/Paused.antt =====
-- A turn of acktor/src/cron.rs in which the task is paused.
use acktor.Base.{
  either, ℕ, suc, ◌≡◌, refl, sym, ◌∙◌, Bool, true, false, List, [], ◌∷◌, Outcome, returned,
  panicked,
}
use mathlib.Core.Path.{subst}
use acktor.Actor.{stopped, pause, resume}
use acktor.Mailbox.{Channel, Poll, message, closed, pending, queued-poll}
use acktor.Drain
use acktor.Drain.{DrainPolicy, no_drain, drainable, queued-discard}
use acktor.Cron.{
  CronContext, CronHooks, CronResponse, CronEnvelope, user, signal, supervise, cron, paused,
  set_state, take_error, handle_envelope, handle_cron_signal, pause_task,
}
use acktor.Cron.Loop.{
  CronTick, CronLoop, Processed, processed, awaits, unwinds, process_one, begin, receive, polled,
  on_message, handled, done,
}
use acktor.Cron.Laws.Calm.{
  NeverResumes, IsCalm, IsCalm-append, IsCalm-head, IsCalm-tail, perform_all-paused, apply-IsCalm,
}

abbrev pub with_count : {E A R : Type 0} → ℕ → CronResponse E A R → CronResponse E (A × ℕ) R
with_count n r = record { actor = (r.actor, n); requests = r.requests; outcome = r.outcome }

module _ {E A M : Type 0} where
  -- An actor with a count of how often its task was run.
  abbrev pub counted : CronHooks E A M → CronHooks E (A × ℕ) M
  counted h = record {
    task = λ a c. with_count (suc a.1) (h.task a.0 c);
    stopping = λ a c. with_count a.1 (h.stopping a.0 c);
    handle = λ m a c. with_count a.1 (h.handle m a.0 c);
  }

-- What holds of both branches holds of the conditional.

-- The handlers and `stopping` do not resume the task.
pub record IsPassive {E A M : Type 0} (h : CronHooks E A M) : Type 0 where
  pub stops : (a : A) (c : CronContext E) → NeverResumes (h.stopping a c).requests
  pub handles : (m : M) (a : A) (c : CronContext E) → NeverResumes (h.handle m a c).requests

module _ {E A M : Type 0} (ch : Channel (CronEnvelope M)) (policy : DrainPolicy)
    (h : CronHooks E A M) (passive : IsPassive h) where
  open ch use {Queue, queued, deliver, poll_recv, queued-deliver}

  -- The task is paused, has run `n` times, and nothing in the mailbox resumes it.
  pub record IsIdle (n : ℕ) (s : CronLoop E (A × ℕ) Queue) : Type 0 where
    pub paused_task : s.context.cron_state ≡ paused
    pub runs : s.actor.1 ≡ n
    pub calm : IsCalm (queued s.queue)

  abbrev pub Processes : ℕ → Processed E (CronLoop E (A × ℕ) Queue) → Type 0
  Processes n (awaits s) = IsIdle n s
  Processes n (processed r s) = IsIdle n s
  Processes n (unwinds s) = s.actor.1 ≡ n

  done-idle :
      (n : ℕ) (s : CronLoop E (A × ℕ) Queue)
      → IsIdle n s
      → Processes n (done ch policy (counted h) s)
  unfolding done take_error
  done-idle n s v = record { paused_task = v.paused_task; runs = v.runs; calm = v.calm }

  handled-idle :
      (n : ℕ) (o : Outcome (Unit {0})) (s : CronLoop E (A × ℕ) Queue)
      → IsIdle n s
      → Processes n (handled ch policy (counted h) o s)
  unfolding handled
  handled-idle n panicked s v = v.runs
  handled-idle n (returned u) s v =
      let d = Drain.apply ch policy s.context.base.drain s.queue in
      done-idle n
        (record s {
          context = record (s.context) { base = record (s.context.base) { drain = d.0 } };
          queue = d.1;
        })
        (record {
          paused_task = v.paused_task;
          runs = v.runs;
          calm = apply-IsCalm ch policy s.context.base.drain s.queue v.calm;
        })

  deliver-IsCalm :
      (ms : List (CronEnvelope M)) (q : Queue)
      → IsCalm (queued q)
      → IsCalm ms
      → IsCalm (queued (deliver ms q))
  deliver-IsCalm ms q a b = rw (queued-deliver ms q) (IsCalm-append (queued q) ms a b)

  handle_envelope-idle :
      (m : CronEnvelope M) (a : A × ℕ) (c : CronContext E)
      → IsCalm (m ∷ [])
      → c.cron_state ≡ paused
      → let r = handle_envelope policy (counted h) m a c in
        (r.0.1 ≡ a.1) × (r.1.cron_state ≡ paused)
  unfolding handle_envelope handle_cron_signal pause_task
  handle_envelope-idle (user m) a c calm p =
      (refl, perform_all-paused policy (h.handle m a.0 c).requests c (passive.handles m a.0 c) p)
  handle_envelope-idle (signal s) a c calm p = (refl, p)
  handle_envelope-idle (supervise s) a c calm p = (refl, p)
  handle_envelope-idle (cron pause) a c calm p = (refl, refl)
  handle_envelope-idle (cron resume) a c calm p = absurd calm

  -- A message that does not resume the task is handled.
  on_message-idle :
      (n : ℕ) (m : CronEnvelope M) (during : List (CronEnvelope M)) (s : CronLoop E (A × ℕ) Queue)
      → IsCalm (m ∷ [])
      → IsCalm during
      → IsIdle n s
      → Processes n (on_message ch policy (counted h) m during s)
  unfolding on_message
  on_message-idle n m during s c d v =
      let drain = Drain.snapshot ch policy s.context.base.drain s.queue in
      let c0 : CronContext E = record (s.context) {
        base = record (s.context.base) { drain = drain };
      } in
      let r = handle_envelope policy (counted h) m s.actor c0 in
      let (runs, stays) = handle_envelope-idle m s.actor c0 c v.paused_task in
      handled-idle n r.2 (record s { actor = r.0; context = r.1; queue = deliver during s.queue })
        (record {
          paused_task = stays;
          runs = runs ∙ v.runs;
          calm = deliver-IsCalm during s.queue v.calm d;
        })

  polled-idle :
      (n : ℕ) (w : Bool) (p : Poll (CronEnvelope M) Queue) (during : List (CronEnvelope M))
      (s : CronLoop E (A × ℕ) Queue)
      → poll_recv s.queue ≡ p
      → IsCalm during
      → IsIdle n s
      → Processes n (polled ch policy (counted h) w p during s)
  unfolding polled set_state
  polled-idle n w (message m q) during s e d v =
      let calm : IsCalm (m ∷ queued q) = subst IsCalm (queued-poll ch s.queue q m e) v.calm in
      on_message-idle n m during (record s { queue = q }) (IsCalm-head m (queued q) calm) d
        (record {
          paused_task = v.paused_task;
          runs = v.runs;
          calm = IsCalm-tail m (queued q) calm;
        })
  polled-idle n w closed during s e d v =
      done-idle n (record s { context = set_state stopped s.context })
        (record { paused_task = v.paused_task; runs = v.runs; calm = v.calm })
  polled-idle n true pending during s e d v = record {
    paused_task = v.paused_task;
    runs = v.runs;
    calm = deliver-IsCalm during s.queue v.calm d;
  }
  polled-idle n false pending during s e d v =
      done-idle n (record s { queue = deliver during s.queue })
        (record {
          paused_task = v.paused_task;
          runs = v.runs;
          calm = deliver-IsCalm during s.queue v.calm d;
        })

  receive-idle :
      (n : ℕ) (w : Bool) (t : CronTick M) (s : CronLoop E (A × ℕ) Queue)
      → IsCalm t.before
      → IsCalm t.during
      → IsIdle n s
      → Processes n (receive ch policy (counted h) w t s)
  unfolding receive
  receive-idle n w t s b d v =
      polled-idle n w (poll_recv (deliver t.before s.queue)) t.during
        (record s { queue = deliver t.before s.queue }) refl d
        (record {
          paused_task = v.paused_task;
          runs = v.runs;
          calm = deliver-IsCalm t.before s.queue v.calm b;
        })

  pub process_one-idle :
      (n : ℕ) (t : CronTick M) (s : CronLoop E (A × ℕ) Queue)
      → IsCalm t.before
      → IsCalm t.during
      → IsIdle n s
      → Processes n (process_one ch policy (counted h) t s)
  unfolding process_one begin
  process_one-idle n t s b d v = either (Processes n) s.waits (receive-idle n true t s b d v) (
      subst (λ c. Processes n (begin ch policy (counted h) c t s)) (sym v.paused_task)
        (receive-idle n true t s b d v))

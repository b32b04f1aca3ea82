-- ===== src/Cron/Laws/Idle.antt =====
-- A paused task is not run, in acktor/src/cron.rs.
use acktor.Base.{
  either, ℕ, ◌≡◌, List, [], ◌∷◌, Result, ok, err, Outcome, returned, panicked, Bool-cases, inl, inr,
}
use acktor.Actor.{ActorState, unstarted, starting, running, stopping, stopped, Stopping, is_running}
use acktor.Mailbox.{Channel}
use acktor.Drain.{DrainPolicy}
use acktor.Context.Loop.{End, going, finished, unwound, or_err}
use acktor.Context.Loop
use acktor.Cron.{CronContext, CronHooks, CronEnvelope, paused, perform_all, set_state}
use acktor.Cron.Loop.{
  CronTick, CronLoop, Processed, processed, awaits, unwinds, process_one, after_process, react,
  on_state, on_answer, answered, run_loop,
}
use acktor.Cron.Laws.Calm.{AreCalm, perform_all-paused}
use acktor.Cron.Laws.Paused.{counted, IsPassive, IsIdle, Processes, process_one-idle}

module _ {E A M : Type 0} (ch : Channel (CronEnvelope M)) (policy : DrainPolicy)
    (h : CronHooks E A M) (passive : IsPassive h) where
  open ch use {Queue, queued, deliver, poll_recv, queued-deliver}

  -- How often the task has run where the loop leaves off.
  abbrev pub Runs : ℕ → End E (CronLoop E (A × ℕ) Queue) → Type 0
  Runs n (going s) = s.actor.1 ≡ n
  Runs n (finished r s) = s.actor.1 ≡ n
  Runs n (unwound s) = s.actor.1 ≡ n

  abbrev Stays : ℕ → End E (CronLoop E (A × ℕ) Queue) → Type 0
  Stays n (going s) = IsIdle ch policy h passive n s
  Stays n (finished r s) = s.actor.1 ≡ n
  Stays n (unwound s) = s.actor.1 ≡ n

  on_answer-idle :
      (n : ℕ) (result : Result (Unit {0}) E) (answer : Result Stopping E)
      (s : CronLoop E (A × ℕ) Queue)
      → IsIdle ch policy h passive n s
      → Stays n (on_answer ch policy (counted h) result answer s)
  unfolding on_answer set_state
  on_answer-idle n result (ok Stopping.stop) s v = v.runs
  on_answer-idle n (err e) (ok Stopping.continue) s v = record {
    paused_task = v.paused_task;
    runs = v.runs;
    calm = v.calm;
  }
  on_answer-idle n (ok u) (ok Stopping.continue) s v = record {
    paused_task = v.paused_task;
    runs = v.runs;
    calm = v.calm;
  }
  on_answer-idle n result (err e) s v = v.runs

  answered-idle :
      (n : ℕ) (o : Outcome (Result Stopping E)) (result : Result (Unit {0}) E)
      (s : CronLoop E (A × ℕ) Queue)
      → IsIdle ch policy h passive n s
      → Stays n (answered ch policy (counted h) o result s)
  unfolding answered
  answered-idle n panicked result s v = v.runs
  answered-idle n (returned answer) result s v = on_answer-idle n result answer s v

  on_state-idle :
      (n : ℕ) (st : ActorState) (result : Result (Unit {0}) E) (s : CronLoop E (A × ℕ) Queue)
      → IsIdle ch policy h passive n s
      → Stays n (on_state ch policy (counted h) st result s)
  unfolding on_state
  on_state-idle n stopping result s v =
      let r = h.stopping s.actor.0 s.context in
      answered-idle n r.outcome result
        (record s {
          actor = (r.actor, s.actor.1);
          context = perform_all policy r.requests s.context;
        })
        (record {
          paused_task =
              perform_all-paused policy r.requests s.context (passive.stops s.actor.0 s.context)
                v.paused_task;
          runs = v.runs;
          calm = v.calm;
        })
  on_state-idle n stopped result s v = v.runs
  on_state-idle n unstarted result s v = v
  on_state-idle n starting result s v = v
  on_state-idle n running result s v = v

  react-paused :
      (result : Result (Unit {0}) E) (c : CronContext E)
      → c.cron_state ≡ paused
      → (react ch policy (counted h) result c).cron_state ≡ paused
  unfolding react set_state
  react-paused (ok u) c p = p
  react-paused (err e) c p = elim (Bool-cases (is_running c.base.state)) [
    | inl on ↦ rw on p
    | inr off ↦ rw off p
  ]

  after_process-idle :
      (n : ℕ) (p : Processed E (CronLoop E (A × ℕ) Queue))
      → Processes ch policy h passive n p
      → Stays n (after_process ch policy (counted h) p)
  unfolding after_process
  after_process-idle n (awaits s) v = v
  after_process-idle n (unwinds s) v = v
  after_process-idle n (processed result s) v =
      on_state-idle n _ result (record s { context = react ch policy (counted h) result s.context })
        (record {
          paused_task = react-paused result s.context v.paused_task;
          runs = v.runs;
          calm = v.calm;
        })

  resume-Runs :
      (n : ℕ) (e : End E (CronLoop E (A × ℕ) Queue))
      (k : CronLoop E (A × ℕ) Queue → End E (CronLoop E (A × ℕ) Queue))
      → Stays n e
      → ((s : CronLoop E (A × ℕ) Queue) → IsIdle ch policy h passive n s → Runs n (k s))
      → Runs n (Loop.resume e k)
  resume-Runs n (going s) k v f = f s v
  resume-Runs n (finished r s) k v f = v
  resume-Runs n (unwound s) k v f = v

  -- While the task is paused, and no message, handler or answer of `stopping` resumes it, it is
  -- not run, however long the loop goes on.
  pub run_loop-Runs :
      (n : ℕ) (ts : List (CronTick M)) (s : CronLoop E (A × ℕ) Queue)
      → IsIdle ch policy h passive n s
      → AreCalm ts
      → Runs n (run_loop ch policy (counted h) ts s)
  unfolding run_loop
  run_loop-Runs n [] s v c =
      either (Runs n) s.waits v.runs
        (either (Runs n) (is_running s.context.base.state) v.runs v.runs)
  run_loop-Runs n (t ∷ ts) s v (b, d, c) =
      let next =
        resume-Runs n (after_process ch policy (counted h) (process_one ch policy (counted h) t s))
          (run_loop ch policy (counted h) ts)
          (after_process-idle n (process_one ch policy (counted h) t s)
            (process_one-idle ch policy h passive n t s b d v))
          (λ s' w. run_loop-Runs n ts s' w c) in
      either (Runs n) s.waits next (either (Runs n) (is_running s.context.base.state) next v.runs)

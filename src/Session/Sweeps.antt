-- ===== src/Session/Sweeps.antt =====
-- acktor-ipc/src/session/context.rs: the sweep of the requests that wait too long comes again and
-- again.
use acktor.Base.{
  ◌>>=◌, Bool-cases, inl, inr, either, ℕ, Bool-cases, inl, inr, zero, suc, ◌≡◌, refl, ap, Bool,
  true, Option, none, some, List, [], ◌∷◌, Result, Outcome, returned, panicked, String, total,
  total-append, arith,
}
use acktor.Actor.{is_running, Signal}
use acktor.Codec.{Wire}
use acktor.Context.{set, unset}
use acktor.Errors.{SessionError}
use acktor.Registry.{DashMap, RemoteMailbox}
use acktor.Session.{remote_create_actor, remote_get_actor, IpcMessage}
use acktor.Session.Context.{
  Request, creates, gets, binary, signal, supervise, Mail, requires_cleanup, responds, request,
  LoopState, Event, arrives, fires, completes, polls, drops, receives, fails,
}
use acktor.Session.Inbound.{Task, TaskEnd, Serving, Env, decode_context, handle_ipc_message}
use acktor.Session.Loop.{
  turn, prepare, run_loop, step, handle, handle_request, handled, on_envelope, on_message, complete,
  completed, put_back, due, with_session, run_session,
}
use acktor.Session.Waiting.{
  is_sweep, IsWaiting, IsScheduled, WaitsAt, ScheduledAt, unswept, resume-WaitsAt, scheduled,
}
use acktor.Session.Proto.{ResultAddressType}

module _ {B E : Type 0} (dash : DashMap RemoteMailbox)
    (addresses : Wire B (Option ResultAddressType)) (messages : Wire B (IpcMessage B))
    (to_string : ℕ → String) (report : SessionError E → String) where
  open dash use {Map}

  prepare-IsWaiting :
      (gone : ℕ → Bool) (now : ℕ) (s : LoopState B E Map)
      → IsScheduled s
      → IsWaiting (prepare dash addresses messages to_string report gone now s)
  unfolding prepare
  prepare-IsWaiting gone now s h = elim (Bool-cases s.context.require_cleanup) [
    | inl e ↦ ground arith
    | inr e ↦ ground arith
  ]

  turn-WaitsAt :
      (gone : ℕ → Bool) (now : ℕ) (s : LoopState B E Map)
      → IsScheduled s
      → WaitsAt (turn dash addresses messages to_string report gone now s)
  unfolding turn
  turn-WaitsAt gone now s h =
      either WaitsAt (is_running s.context.state) (prepare-IsWaiting gone now s h) tt

  asked-ScheduledAt :
      (o : Outcome ℕ) (s : LoopState B E Map) → IsScheduled s → ScheduledAt (o >>= λ c. returned s)
  asked-ScheduledAt (returned c) s h = h
  asked-ScheduledAt panicked s h = tt

  handle_request-ScheduledAt :
      (env : Env E Map) (now : ℕ) (m : Request B) (s : LoopState B E Map)
      → IsScheduled s
      → ScheduledAt (handle_request dash addresses messages to_string report env now m s)
  unfolding handle_request
  handle_request-ScheduledAt env now (creates tx type_id l config) s h =
      let session =
        remote_create_actor env.gone tx now type_id l config env.sent s.serving.session in
      asked-ScheduledAt (decode_context session)
        (with_session dash addresses messages to_string report session s) h
  handle_request-ScheduledAt env now (gets tx actor) s h =
      let session = remote_get_actor env.gone tx now actor env.sent s.serving.session in
      asked-ScheduledAt (decode_context session)
        (with_session dash addresses messages to_string report session s) h
  handle_request-ScheduledAt env now (binary m) s h = h
  handle_request-ScheduledAt env now (signal Signal.stop) s h = h
  handle_request-ScheduledAt env now (signal Signal.terminate) s h = h
  handle_request-ScheduledAt env now (supervise (set a)) s h = ground arith
  handle_request-ScheduledAt env now (supervise unset) s h = h

  handled-WaitsAt :
      (env : Env E Map) (now : ℕ) (s : LoopState B E Map) (o : Outcome (LoopState B E Map))
      → ScheduledAt o
      → WaitsAt (handled dash addresses messages to_string report env now s o)
  unfolding handled
  handled-WaitsAt env now s (returned s') h = turn-WaitsAt env.gone now s' h
  handled-WaitsAt env now s panicked h = tt

  handle-ScheduledAt :
      (env : Env E Map) (now : ℕ) (m : Mail B) (ms : List (Mail B)) (s : LoopState B E Map)
      → s.mailbox ≡ m ∷ ms
      → IsWaiting s
      → ScheduledAt
          (handle dash addresses messages to_string report env now m (record s { mailbox = ms }))
  unfolding handle
  handle-ScheduledAt env now requires_cleanup ms s e v =
      omega (arith, v.one_to_come, ap (λ (l : List (Mail B)). total is_sweep l) e)
  handle-ScheduledAt env now (responds tag r) ms s e v = unswept s (responds tag r) ms refl e v
  handle-ScheduledAt env now (request m) ms s e v =
      handle_request-ScheduledAt env now m (record s { mailbox = ms })
        (unswept s (request m) ms refl e v)

  on_envelope-WaitsAt :
      (env : Env E Map) (now : ℕ) (l : List (Mail B)) (s : LoopState B E Map)
      → s.mailbox ≡ l
      → IsWaiting s
      → WaitsAt (on_envelope dash addresses messages to_string report env now l s)
  unfolding on_envelope
  on_envelope-WaitsAt env now [] s e v = v
  on_envelope-WaitsAt env now (m ∷ ms) s e v =
      let waiting = record s { mailbox = ms } in
      handled-WaitsAt env now waiting
        (handle dash addresses messages to_string report env now m waiting)
        (handle-ScheduledAt env now m ms s e v)

  -- The message with which a task ends requires no sweep.
  abbrev Unswept : Option (List (Task B E) × Serving B E Map × Mail B) → Type 0
  Unswept none = Unit
  Unswept (some (rest, s, m)) = is_sweep m ≡ 0

  put_back-Unswept :
      (task : Task B E) (o : Option (List (Task B E) × Serving B E Map × Mail B))
      → Unswept o
      → Unswept (put_back dash addresses messages to_string report task o)
  put_back-Unswept task none u = u
  put_back-Unswept task (some (rest, s, m)) u = u

  complete-Unswept :
      (i : ℕ) (ts : List (Task B E)) (e : TaskEnd B E) (s : Serving B E Map)
      → Unswept (complete dash addresses messages to_string report i ts e s)
  unfolding complete
  complete-Unswept i [] e s = tt
  complete-Unswept zero (task ∷ ts) e s = refl
  complete-Unswept (suc i) (task ∷ ts) e s =
      put_back-Unswept task (complete dash addresses messages to_string report i ts e s)
        (complete-Unswept i ts e s)

  completed-IsWaiting :
      (o : Option (List (Task B E) × Serving B E Map × Mail B)) (s : LoopState B E Map)
      → Unswept o
      → IsWaiting s
      → IsWaiting (completed dash addresses messages to_string report o s)
  unfolding completed
  completed-IsWaiting none s u v = v
  completed-IsWaiting (some (rest, s', m)) s u v = record {
    no_backlog = v.no_backlog;
    one_to_come = omega (arith, u, v.one_to_come, total-append is_sweep s.mailbox (m ∷ []));
  }

  due-IsWaiting :
      (n : ℕ) (s : LoopState B E Map)
      → s.timers ≡ n
      → IsWaiting s
      → IsWaiting (due dash addresses messages to_string report n s)
  due-IsWaiting zero s e v = v
  due-IsWaiting (suc n) s e v = record {
    no_backlog = v.no_backlog;
    one_to_come =
        omega (arith, e, v.one_to_come, total-append is_sweep s.mailbox (requires_cleanup ∷ []));
  }

  on_message-WaitsAt :
      (env : Env E Map) (now : ℕ)
      (o : Outcome (Serving B E Map × Result (Unit {0}) (SessionError E))) (s : LoopState B E Map)
      → IsWaiting s
      → WaitsAt (on_message dash addresses messages to_string report env now o s)
  unfolding on_message
  on_message-WaitsAt env now panicked s v = tt
  on_message-WaitsAt env now (returned r) s v =
      turn-WaitsAt env.gone now (record s { serving = r.0 }) (scheduled s v)

  step-WaitsAt :
      (e : Event B E Map) (s : LoopState B E Map)
      → IsWaiting s
      → WaitsAt (step dash addresses messages to_string report e s)
  unfolding step
  step-WaitsAt (arrives m) s v = record {
    no_backlog = v.no_backlog;
    one_to_come = omega (arith, v.one_to_come, total-append is_sweep s.mailbox (request m ∷ []));
  }
  step-WaitsAt fires s v = due-IsWaiting s.timers s refl v
  step-WaitsAt (completes i e) s v =
      completed-IsWaiting
        (complete dash addresses messages to_string report i s.serving.tasks e s.serving) s
        (complete-Unswept i s.serving.tasks e s.serving) v
  step-WaitsAt (polls env now) s v = on_envelope-WaitsAt env now s.mailbox s refl v
  step-WaitsAt drops s v = tt
  step-WaitsAt (receives env now frame) s v =
      on_message-WaitsAt env now
        (handle_ipc_message dash addresses to_string report messages env frame s.serving) s v
  step-WaitsAt (fails kind e) s v = tt

  run_loop-WaitsAt :
      (es : List (Event B E Map)) (s : LoopState B E Map)
      → IsWaiting s
      → WaitsAt (run_loop dash addresses messages to_string report es s)
  unfolding run_loop
  run_loop-WaitsAt [] s v = v
  run_loop-WaitsAt (e ∷ es) s v =
      resume-WaitsAt (step dash addresses messages to_string report e s)
        (λ s. run_loop dash addresses messages to_string report es s) (step-WaitsAt e s v)
        (λ s' w. run_loop-WaitsAt es s' w)

  -- From a new context on: whenever the loop of a session waits, exactly one further sweep is on
  -- its way, as a running timer or as a message in the mailbox, and none is overdue.
  pub run_session-WaitsAt :
      (gone : ℕ → Bool) (now : ℕ) (es : List (Event B E Map)) (s : LoopState B E Map)
      → s.context.require_cleanup ≡ true
      → s.timers ≡ 0
      → s.mailbox ≡ []
      → WaitsAt (run_session dash addresses messages to_string report gone now es s)
  unfolding run_session
  run_session-WaitsAt gone now es s flag none_yet empty =
      resume-WaitsAt (turn dash addresses messages to_string report gone now s)
        (λ s. run_loop dash addresses messages to_string report es s)
        (turn-WaitsAt gone now s
          (ground (arith, flag, none_yet, ap (λ (l : List (Mail B)). total is_sweep l) empty)))
        (λ s' w. run_loop-WaitsAt es s' w)

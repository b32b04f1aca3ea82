-- ===== src/Session/Loop.antt =====
-- acktor-ipc/src/session/context.rs: `run_loop` of a session, one turn of its `select!` at a time.
use acktor.Base.{
  ℕ, zero, suc, Bool, false, Option, none, some, List, [], ◌∷◌, ◌++◌, Result, ok, err, Outcome,
  returned, panicked, String, if◌then◌else◌, ◌>>=◌,
}
use acktor.Actor.{stopping, stopped, is_running, Signal}
use acktor.Actor.Index.{id_Eq}
use acktor.Codec.{Wire}
use acktor.Context.{set, unset}
use acktor.Errors.{SessionError, io_error}
use acktor.Registry.{DashMap, RemoteMailbox}
use acktor.Session.{
  Session, IpcMessage, remote_create_actor, remote_get_actor, binary_message, send_response,
  cleanup_message_res_tx_map,
}
use acktor.Session.Inbound.{decode_context, Task, TaskEnd, Serving, Env, handle_ipc_message, finish}
use acktor.Session.Proto.{ResultAddressType}
use acktor.Session.Context.{
  require_cleanup, set_state, set_supervisor, Request, creates, gets, binary, signal, supervise,
  Mail, requires_cleanup, responds, request, is_disconnect, LoopState, Event, arrives, fires,
  completes, polls, drops, receives, fails, End, going, finished, unwound, resume,
}

module _ {B E : Type 0} (dash : DashMap RemoteMailbox)
    (addresses : Wire B (Option ResultAddressType)) (messages : Wire B (IpcMessage B))
    (to_string : ℕ → String) (report : SessionError E → String) where
  open dash use {Map}

  -- The start of a turn: a sweep if one is required, and the timer for the next.
  unfoldable pub prepare : (ℕ → Bool) → ℕ → LoopState B E Map → LoopState B E Map
  unfolding cleanup_message_res_tx_map
  prepare gone now s =
      if s.context.require_cleanup
      then record s {
        serving = record (s.serving) {
          session = cleanup_message_res_tx_map gone now s.serving.session;
        };
        context = record (s.context) { require_cleanup = false };
        timers = suc s.timers;
      }
      else s

  -- The head of the loop.
  unfoldable pub turn : (ℕ → Bool) → ℕ → LoopState B E Map → End E (LoopState B E Map)
  unfolding prepare
  turn gone now s =
      if is_running s.context.state then going (prepare gone now s) else finished (ok tt) s

  abbrev pub with_session : Session B E → LoopState B E Map → LoopState B E Map
  with_session session s = record s { serving = record (s.serving) { session = session } }

  -- The last step of a request is `decode_context`, which fails before the session is started.
  abbrev pub asked : Session B E → LoopState B E Map → Outcome (LoopState B E Map)
  asked session s = decode_context session >>= λ c. returned (with_session session s)

  unfoldable pub handle_request :
      Env E Map → ℕ → Request B → LoopState B E Map → Outcome (LoopState B E Map)
  unfolding set_state set_supervisor remote_create_actor remote_get_actor binary_message
  handle_request env now (creates tx type_id l config) s =
      asked (remote_create_actor env.gone tx now type_id l config env.sent s.serving.session) s
  handle_request env now (gets tx actor) s =
      asked (remote_get_actor env.gone tx now actor env.sent s.serving.session) s
  handle_request env now (binary m) s = returned (
      with_session
        (binary_message env.gone m.result_tx now m.actor_id m.message_id m.bytes env.sent
          s.serving.session)
        s)
  handle_request env now (signal Signal.stop) s =
      returned (record s { context = set_state stopping s.context })
  handle_request env now (signal Signal.terminate) s =
      returned (record s { context = set_state stopped s.context })
  handle_request env now (supervise (set a)) s =
      returned (record s { context = set_supervisor (some a) s.context })
  handle_request env now (supervise unset) s =
      returned (record s { context = set_supervisor none s.context })

  unfoldable pub handle : Env E Map → ℕ → Mail B → LoopState B E Map → Outcome (LoopState B E Map)
  unfolding require_cleanup handle_request send_response
  handle env now requires_cleanup s = returned (record s { context = require_cleanup s.context })
  handle env now (responds tag result) s =
      returned (with_session (send_response tag result env.sent s.serving.session) s)
  handle env now (request m) s = handle_request env now m s

  unfoldable pub handled :
      Env E Map → ℕ → LoopState B E Map → Outcome (LoopState B E Map) → End E (LoopState B E Map)
  unfolding turn
  handled env now s panicked = unwound s
  handled env now s (returned s') = turn env.gone now s'

  -- The branch of the mailbox. It is not taken while the mailbox is empty.
  unfoldable pub on_envelope :
      Env E Map → ℕ → List (Mail B) → LoopState B E Map → End E (LoopState B E Map)
  unfolding handle handled
  on_envelope env now [] s = going s
  on_envelope env now (m ∷ ms) s =
      let waiting = record s { mailbox = ms } in handled env now waiting (handle env now m waiting)

  -- An error of the handler is only logged.
  unfoldable pub on_message :
      Env E Map
      → ℕ
      → Outcome (Serving B E Map × Result (Unit {0}) (SessionError E))
      → LoopState B E Map
      → End E (LoopState B E Map)
  unfolding turn
  on_message env now panicked s = unwound s
  on_message env now (returned r) s = turn env.gone now (record s { serving = r.0 })

  abbrev pub put_back :
      Task B E
      → Option (List (Task B E) × Serving B E Map × Mail B)
      → Option (List (Task B E) × Serving B E Map × Mail B)
  put_back t none = none
  put_back t (some (rest, s, m)) = some (t ∷ rest, s, m)

  -- A task that ends leaves the list and sends the session its result.
  unfoldable pub complete :
      ℕ
      → List (Task B E)
      → TaskEnd B E
      → Serving B E Map
      → Option (List (Task B E) × Serving B E Map × Mail B)
  unfolding finish
  complete i [] e s = none
  complete zero (t ∷ ts) e s =
      let r = finish dash addresses to_string report t e s in some (ts, r.0, responds r.1 r.2)
  complete (suc i) (t ∷ ts) e s = put_back t (complete i ts e s)

  abbrev pub due : ℕ → LoopState B E Map → LoopState B E Map
  due zero s = s
  due (suc n) s = record s { timers = n; mailbox = s.mailbox ++ requires_cleanup ∷ [] }

  unfoldable pub completed :
      Option (List (Task B E) × Serving B E Map × Mail B) → LoopState B E Map → LoopState B E Map
  completed none s = s
  completed (some (rest, served, m)) s = record s {
    serving = record served { tasks = rest };
    mailbox = s.mailbox ++ m ∷ [];
  }

  unfoldable pub step : Event B E Map → LoopState B E Map → End E (LoopState B E Map)
  unfolding complete completed on_envelope on_message set_state handle_ipc_message
  step (arrives m) s = going (record s { mailbox = s.mailbox ++ request m ∷ [] })
  step fires s = going (due s.timers s)
  step (completes i e) s = going (completed (complete i s.serving.tasks e s.serving) s)
  step (polls env now) s = on_envelope env now s.mailbox s
  step drops s = finished (ok tt) (record s { context = set_state stopped s.context })
  step (receives env now frame) s =
      on_message env now
        (handle_ipc_message dash addresses to_string report messages env frame s.serving) s
  step (fails kind e) s =
      finished (if is_disconnect kind then ok tt else err (io_error e))
        (record s { context = set_state stopped s.context })

  unfoldable pub run_loop : List (Event B E Map) → LoopState B E Map → End E (LoopState B E Map)
  unfolding step
  run_loop [] s = going s
  run_loop (e ∷ es) s = resume (step e s) (λ s. run_loop es s)

  unfoldable pub run_session :
      (ℕ → Bool) → ℕ → List (Event B E Map) → LoopState B E Map → End E (LoopState B E Map)
  unfolding turn run_loop
  run_session gone now es s = resume (turn gone now s) (λ s. run_loop es s)

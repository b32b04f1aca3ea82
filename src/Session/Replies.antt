-- ===== src/Session/Replies.antt =====
-- acktor-ipc/src/session.rs and session/context.rs: a request of the peer with a tag is answered
-- once.
use acktor.Base.{
  either, ℕ, zero, suc, ◌+◌, ◌≤◌, ◌≡◌, refl, ap, ◌∙◌, Bool, Option, some, List, [], ◌∷◌, Result,
  Outcome, returned, panicked, String, total, total-append, arith,
}
use acktor.Actor.{is_running}
use acktor.Codec.{Wire}
use acktor.Errors.{SessionError}
use acktor.Registry.{DashMap, RemoteMailbox}
use acktor.Session.{IpcMessage}
use acktor.Session.Context.{
  Mail, requires_cleanup, request, LoopState, Event, arrives, fires, completes, polls, drops,
  receives, fails, End, going, finished, unwound, resume,
}
use acktor.Session.Inbound.{Serving, Env, handle_ipc_message}
use acktor.Session.Sends.{cleanup-Sends}
use acktor.Session.Served.{asks, Served, handle_ipc_message-Served}
use acktor.Session.Loop.{
  turn, prepare, run_loop, step, handle, handled, on_envelope, on_message, complete, due,
}
use acktor.Session.Proto.{ResultAddressType}
use acktor.Session.Balance.{
  is_reply, accounted, Kept, Balanced, Handles, handle-Handles, complete-Completes, completed-Kept,
}

module _ {B E : Type 0} (dash : DashMap RemoteMailbox)
    (addresses : Wire B (Option ResultAddressType)) (messages : Wire B (IpcMessage B))
    (to_string : ℕ → String) (report : SessionError E → String) (t : ℕ) where
  open dash use {Map}

  prepare-Kept :
      (gone : ℕ → Bool) (now n : ℕ) (s s' : LoopState B E Map)
      → Kept t n s s'
      → Kept t n s (prepare dash addresses messages to_string report gone now s')
  unfolding prepare
  prepare-Kept gone now n s s' k =
      let c = cleanup-Sends t gone now s'.serving.session in
      either (Kept t n s) s'.context.require_cleanup
        (record {
          same_proxy = c.same_proxy ∙ k.same_proxy;
          counted = omega (arith, c.counted, k.counted);
        })
        k

  turn-Balanced :
      (gone : ℕ → Bool) (now n : ℕ) (s s' : LoopState B E Map)
      → Kept t n s s'
      → Balanced t n s (turn dash addresses messages to_string report gone now s')
  unfolding turn
  turn-Balanced gone now n s s' k =
      either (Balanced t n s) (is_running s'.context.state) (prepare-Kept gone now n s s' k) k

  handled-Balanced :
      (env : Env E Map) (now n : ℕ) (s s' : LoopState B E Map) (o : Outcome (LoopState B E Map))
      → Handles dash addresses messages to_string report t n s o
      → Balanced t n s (handled dash addresses messages to_string report env now s' o)
  unfolding handled
  handled-Balanced env now n s s' (returned s'') h = turn-Balanced env.gone now n s s'' h
  handled-Balanced env now n s s' panicked h = h

  -- A message leaves the mailbox, and with it the answer that it may be.
  from_mailbox :
      (m : Mail B) (ms : List (Mail B)) (s : LoopState B E Map) (o : Outcome (LoopState B E Map))
      → s.mailbox ≡ m ∷ ms
      → Handles dash addresses messages to_string report t
          (is_reply t m)
          (record s { mailbox = ms })
          o
      → Handles dash addresses messages to_string report t 0 s o
  from_mailbox m ms s panicked e h = h
  from_mailbox m ms s (returned s') e h = record {
    same_proxy = h.same_proxy;
    counted = omega (arith, h.counted, ap (λ (l : List (Mail B)). total (is_reply t) l) e);
  }

  on_envelope-Balanced :
      (env : Env E Map) (now : ℕ) (l : List (Mail B)) (s : LoopState B E Map) (p : ℕ)
      → s.serving.session.proxy ≡ some p
      → s.mailbox ≡ l
      → Balanced t 0 s (on_envelope dash addresses messages to_string report env now l s)
  unfolding on_envelope
  on_envelope-Balanced env now [] s p h e = record { same_proxy = refl; counted = omega arith }
  on_envelope-Balanced env now (m ∷ ms) s p h e =
      let waiting = record s { mailbox = ms } in
      handled-Balanced env now 0 s waiting
        (handle dash addresses messages to_string report env now m waiting)
        (from_mailbox m ms s (handle dash addresses messages to_string report env now m waiting) e
          (handle-Handles dash addresses messages to_string report t env now m waiting p h))

  on_message-Balanced :
      (env : Env E Map) (now n : ℕ)
      (o : Outcome (Serving B E Map × Result (Unit {0}) (SessionError E))) (s : LoopState B E Map)
      → Served dash addresses messages to_string report t n s.serving o
      → Balanced t n s (on_message dash addresses messages to_string report env now o s)
  unfolding on_message
  on_message-Balanced env now n panicked s h = h
  on_message-Balanced env now n (returned r) s h =
      turn-Balanced env.gone now n s (record s { serving = r.0 })
        (record { same_proxy = h.same_proxy; counted = omega (arith, h.counted) })

  -- The requests with the tag in what the loop meets.
  abbrev pub asked_by : Event B E Map → ℕ
  asked_by (receives env now frame) = asks t (messages.decode frame)
  asked_by (arrives m) = 0
  asked_by fires = 0
  asked_by (completes i e) = 0
  asked_by (polls env now) = 0
  asked_by drops = 0
  asked_by (fails kind e) = 0

  step-Balanced :
      (e : Event B E Map) (s : LoopState B E Map) (p : ℕ)
      → s.serving.session.proxy ≡ some p
      → Balanced t (asked_by e) s (step dash addresses messages to_string report e s)
  unfolding step
  step-Balanced (arrives m) s p h = record {
    same_proxy = refl;
    counted = omega (arith, total-append (is_reply t) s.mailbox (request m ∷ []));
  }
  step-Balanced fires s p h = due-Kept s.timers
    where
      due-Kept : (n : ℕ) → Kept t 0 s (due dash addresses messages to_string report n s)
      due-Kept zero = record { same_proxy = refl; counted = omega arith }
      due-Kept (suc n) = record {
        same_proxy = refl;
        counted = omega (arith, total-append (is_reply t) s.mailbox (requires_cleanup ∷ []));
      }
  step-Balanced (completes i e) s p h =
      completed-Kept dash addresses messages to_string report t
        (complete dash addresses messages to_string report i s.serving.tasks e s.serving) s
        (complete-Completes dash addresses messages to_string report t i s.serving.tasks e
          s.serving)
  step-Balanced (polls env now) s p h = on_envelope-Balanced env now s.mailbox s p h refl
  step-Balanced drops s p h = record { same_proxy = refl; counted = omega arith }
  step-Balanced (receives env now frame) s p h =
      on_message-Balanced env now (asks t (messages.decode frame))
        (handle_ipc_message dash addresses to_string report messages env frame s.serving) s
        (handle_ipc_message-Served dash addresses messages to_string report t env frame s.serving p
          h)
  step-Balanced (fails kind e) s p h = record { same_proxy = refl; counted = omega arith }

  -- While the loop goes on every request has its answer; where it has ended none has two. It does
  -- not panic.
  abbrev pub Answered : ℕ → LoopState B E Map → End E (LoopState B E Map) → Type 0
  Answered n s (going s') = accounted t s' ≡ n + accounted t s
  Answered n s (finished r s') = accounted t s' ≤ n + accounted t s
  Answered n s (unwound s') = ⊥

  after :
      (n : ℕ) (s : LoopState B E Map) (end : End E (LoopState B E Map)) (es : List (Event B E Map))
      (p : ℕ)
      → s.serving.session.proxy ≡ some p
      → Balanced t n s end
      → ((s' : LoopState B E Map)
          → s'.serving.session.proxy ≡ some p
          → Answered
              (total asked_by es)
              s'
              (run_loop dash addresses messages to_string report es s'))
      → Answered
          (n + total asked_by es)
          s
          (resume end (λ s. run_loop dash addresses messages to_string report es s))
  after n s (going s') es p h b rest =
      onward (run_loop dash addresses messages to_string report es s') (rest s' (b.same_proxy ∙ h))
    where
      onward :
          (end : End E (LoopState B E Map))
          → Answered (total asked_by es) s' end
          → Answered (n + total asked_by es) s end
      onward (going u) a = omega (arith, a, b.counted)
      onward (finished r u) a = omega (arith, a, b.counted)
      onward (unwound u) a = a
  after n s (finished r s') es p h b rest = omega (arith, b.counted)
  after n s (unwound s') es p h b rest = b

  -- Once a session is started: while its loop goes on, the requests of the peer with a tag are as
  -- many as the answers with it that the session has handed to the connection, that its tasks are
  -- about to send, and that wait in its mailbox; where the loop has ended there are not more
  -- answers than requests. The loop does not panic.
  pub run_loop-Answered :
      (es : List (Event B E Map)) (s : LoopState B E Map) (p : ℕ)
      → s.serving.session.proxy ≡ some p
      → Answered (total asked_by es) s (run_loop dash addresses messages to_string report es s)
  unfolding run_loop
  run_loop-Answered [] s p h = omega arith
  run_loop-Answered (e ∷ es) s p h =
      after (asked_by e) s (step dash addresses messages to_string report e s) es p h
        (step-Balanced e s p h) (λ s' h'. run_loop-Answered es s' p h')

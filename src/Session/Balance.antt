-- ===== src/Session/Balance.antt =====
-- acktor-ipc/src/session.rs and session/context.rs: where the answers are that a session owes its
-- peer.
use acktor.Base.{
  ℕ, zero, suc, ◌+◌, ◌≡◌, refl, ap, ◌∙◌, Option, none, some, List, [], ◌∷◌, Outcome, returned,
  panicked, String, if◌then◌else◌, eqb, total, total-append, arith,
}
use acktor.Actor.{Signal}
use acktor.Codec.{Wire}
use acktor.Context.{set, unset}
use acktor.Errors.{SessionError}
use acktor.Registry.{DashMap, RemoteMailbox}
use acktor.Session.{Session, IpcMessage, cleanup_message_res_tx_map, send_response}
use acktor.Session
use acktor.Session.Context.{
  Request, creates, gets, binary, signal, supervise, Mail, requires_cleanup, responds, request,
  LoopState, End, going, finished, unwound,
}
use acktor.Session.Inbound.{Task, TaskEnd, Serving, Env}
use acktor.Session.Sends.{
  answers, Sends, send_ipc_message-Sends, remote_create_actor-Sends, remote_get_actor-Sends,
  binary_message-Sends,
}
use acktor.Session.Served.{will_reply, in_tasks, session-finish, decode_started}
use acktor.Session.Loop.{handle, handle_request, asked, complete, completed, put_back}
use acktor.Session.Proto.{ResultAddressType}

abbrev pub is_reply : {B : Type 0} → ℕ → Mail B → ℕ
is_reply t requires_cleanup = 0
is_reply t (responds tag r) = if eqb tag t then 1 else 0
is_reply t (request m) = 0

module _ {B E Map : Type 0} (t : ℕ) where
  -- Where an answer with the tag is: handed to the connection, in a task, or in the mailbox.
  abbrev pub accounted : LoopState B E Map → ℕ
  accounted s = answers t s.serving.session + in_tasks t s.serving + total (is_reply t) s.mailbox

  pub record Kept (n : ℕ) (s s' : LoopState B E Map) : Type 0 where
    pub same_proxy : s'.serving.session.proxy ≡ s.serving.session.proxy
    pub counted : accounted s' ≡ n + accounted s

  abbrev pub Balanced : ℕ → LoopState B E Map → End E (LoopState B E Map) → Type 0
  Balanced n s (going s') = Kept n s s'
  Balanced n s (finished r s') = Kept n s s'
  Balanced n s (unwound s') = ⊥

module _ {B E : Type 0} (dash : DashMap RemoteMailbox)
    (addresses : Wire B (Option ResultAddressType)) (messages : Wire B (IpcMessage B))
    (to_string : ℕ → String) (report : SessionError E → String) (t : ℕ) where
  open dash use {Map}

  -- A handler does not panic, and hands over the answer that it was given.
  abbrev pub Handles : ℕ → LoopState B E Map → Outcome (LoopState B E Map) → Type 0
  Handles n s (returned s') = Kept t n s s'
  Handles n s panicked = ⊥

  asked-Handles :
      (session : Session B E) (s : LoopState B E Map) (p : ℕ)
      → Sends t 0 s.serving.session session
      → s.serving.session.proxy ≡ some p
      → Handles 0 s (asked dash addresses messages to_string report session s)
  asked-Handles session s p k h =
      rw (decode_started session p (k.same_proxy ∙ h))
        (record { same_proxy = k.same_proxy; counted = omega (arith, k.counted) })

  handle_request-Handles :
      (env : Env E Map) (now : ℕ) (m : Request B) (s : LoopState B E Map) (p : ℕ)
      → s.serving.session.proxy ≡ some p
      → Handles 0 s (handle_request dash addresses messages to_string report env now m s)
  unfolding handle_request
  handle_request-Handles env now (creates tx type_id l config) s p h =
      asked-Handles _ s p
        (remote_create_actor-Sends t env.gone tx now type_id l config env.sent s.serving.session) h
  handle_request-Handles env now (gets tx actor) s p h =
      asked-Handles _ s p
        (remote_get_actor-Sends t env.gone tx now actor env.sent s.serving.session) h
  handle_request-Handles env now (binary m) s p h =
      let k =
        binary_message-Sends t env.gone m.result_tx now m.actor_id m.message_id m.bytes env.sent
          s.serving.session in
      record { same_proxy = k.same_proxy; counted = omega (arith, k.counted) }
  handle_request-Handles env now (signal Signal.stop) s p h = record {
    same_proxy = refl;
    counted = omega arith;
  }
  handle_request-Handles env now (signal Signal.terminate) s p h = record {
    same_proxy = refl;
    counted = omega arith;
  }
  handle_request-Handles env now (supervise (set a)) s p h = record {
    same_proxy = refl;
    counted = omega arith;
  }
  handle_request-Handles env now (supervise unset) s p h = record {
    same_proxy = refl;
    counted = omega arith;
  }

  pub handle-Handles :
      (env : Env E Map) (now : ℕ) (m : Mail B) (s : LoopState B E Map) (p : ℕ)
      → s.serving.session.proxy ≡ some p
      → Handles (is_reply t m) s (handle dash addresses messages to_string report env now m s)
  unfolding handle send_response
  handle-Handles env now requires_cleanup s p h = record {
    same_proxy = refl;
    counted = omega arith;
  }
  handle-Handles env now (responds tag r) s p h =
      let k =
        send_ipc_message-Sends t (Session.message_response tag r) env.sent s.serving.session in
      record { same_proxy = k.same_proxy; counted = omega (arith, k.counted) }
  handle-Handles env now (request m) s p h = handle_request-Handles env now m s p h

  abbrev pub Completes :
      List (Task B E)
      → Serving B E Map
      → Option (List (Task B E) × Serving B E Map × Mail B)
      → Type 0
  Completes ts s none = Unit
  Completes ts s (some (rest, s', m)) =
      (s'.session ≡ s.session)
      × (total (will_reply t) rest + is_reply t m ≡ total (will_reply t) ts)

  put_back-Completes :
      (task : Task B E) (ts : List (Task B E)) (s : Serving B E Map)
      (o : Option (List (Task B E) × Serving B E Map × Mail B))
      → Completes ts s o
      → Completes (task ∷ ts) s (put_back dash addresses messages to_string report task o)
  put_back-Completes task ts s none c = tt
  put_back-Completes task ts s (some (rest, s', m)) c = (c.0, omega (arith, c.1))

  pub complete-Completes :
      (i : ℕ) (ts : List (Task B E)) (e : TaskEnd B E) (s : Serving B E Map)
      → Completes ts s (complete dash addresses messages to_string report i ts e s)
  unfolding complete
  complete-Completes i [] e s = tt
  complete-Completes zero (task ∷ ts) e s =
      let f = session-finish dash addresses messages to_string report t task e s in
      (f.0, omega (arith, f.1))
  complete-Completes (suc i) (task ∷ ts) e s =
      put_back-Completes task ts s (complete dash addresses messages to_string report i ts e s)
        (complete-Completes i ts e s)

  pub completed-Kept :
      (o : Option (List (Task B E) × Serving B E Map × Mail B)) (s : LoopState B E Map)
      → Completes s.serving.tasks s.serving o
      → Kept t 0 s (completed dash addresses messages to_string report o s)
  unfolding completed
  completed-Kept none s c = record { same_proxy = refl; counted = omega arith }
  completed-Kept (some (rest, s', m)) s c = record {
    same_proxy = ap (λ (x : Session B E). x.proxy) c.0;
    counted = omega (
      arith,
      ap (λ (x : Session B E). answers t x) c.0,
      c.1,
      total-append (is_reply t) s.mailbox (m ∷ []),
    );
  }

-- ===== src/Tests/Serving.antt =====
-- Two small sessions of acktor-ipc, whose bytes are the messages themselves.
use acktor.Base.{
  returned, ℕ, ◌≡◌, refl, true, false, Option, none, some, List, [], ◌∷◌, ok, err, String, total,
}
use acktor.Actor.{running}
use acktor.Tests.Nodes.{dash, box, two, none_closed}
use acktor.ActorMgr.{index}
use acktor.Actor.Index
use acktor.Codec.{Wire}
use acktor.Errors.{SessionError, actor_not_found}
use acktor.Registry.{RemoteMailbox}
use acktor.Session
use acktor.Session.{remote_get_actor, Session, IpcMessage}
use acktor.Session.Context.{LoopState, Event, going, fires, completes, polls, receives}
use acktor.Session.Inbound.{handle_ipc_message, find_actor, Serving, Env, TaskEnd}
use acktor.Session.Proto.{
  address, ResultAddressType, NodeMessageType, node_message, actor_message, message_response,
}
use acktor.Session.Loop.{run_loop, run_session}
use acktor.Session.Resolve.{resolve}
use acktor.Session.Exchange.{exchange_get_actor}
use acktor.Session.Replies.{run_loop-Answered, Answered, asked_by}
use acktor.BinaryMessage
use acktor.Session.Sweeps.{run_session-WaitsAt}
use acktor.Session.Waiting.{WaitsAt}

pub data Frame : Type 0 where
  payload : ℕ → Frame
  result : Option ResultAddressType → Frame
  node : Option NodeMessageType → Frame
  actor : ℕ → ℕ → Frame → Option ℕ → Frame
  response : ℕ → Frame → Frame
  refusal : ℕ → String → Frame
  no_response : ℕ → Frame
  no_message : Frame

abbrev pub write : IpcMessage Frame → Frame
write none = no_message
write (some (node_message m)) = node m
write (some (actor_message a m b tag)) = actor a m b tag
write (some (message_response tag (some (ok b)))) = response tag b
write (some (message_response tag (some (err e)))) = refusal tag e
write (some (message_response tag none)) = no_response tag

abbrev pub read : Frame → Option (IpcMessage Frame)
read (payload n) = none
read (result r) = none
read (node m) = some (some (node_message m))
read (actor a m b tag) = some (some (actor_message a m b tag))
read (response tag b) = some (some (message_response tag (some (ok b))))
read (refusal tag e) = some (some (message_response tag (some (err e))))
read (no_response tag) = some (some (message_response tag none))
read no_message = some none

pub read-write : (m : IpcMessage Frame) → read (write m) ≡ some m
read-write none = refl
read-write (some (node_message m)) = refl
read-write (some (actor_message a m b tag)) = refl
read-write (some (message_response tag (some (ok b)))) = refl
read-write (some (message_response tag (some (err e)))) = refl
read-write (some (message_response tag none)) = refl

abbrev pub messages : Wire Frame (IpcMessage Frame)
messages = record { encode = write; decode = read; decode-encode = read-write }

abbrev read_result : Frame → Option (Option ResultAddressType)
read_result (payload n) = none
read_result (result r) = some r
read_result (node m) = none
read_result (actor a m b tag) = none
read_result (response tag b) = none
read_result (refusal tag e) = none
read_result (no_response tag) = none
read_result no_message = none

abbrev addresses : Wire Frame (Option ResultAddressType)
addresses = record { encode = result; decode = read_result; decode-encode = λ r. refl }

abbrev print : ℕ → String
print n = "an actor"

abbrev report : SessionError ℕ → String
report e = "an error"

abbrev session : Session Frame ℕ
session = record { tag = 4; pending = []; sent = []; unsent = []; answered = []; proxy = some 5 }

abbrev serving : Serving Frame ℕ (ℕ → Option RemoteMailbox)
serving = record { session = session; registry = two; tasks = []; delivered = [] }

abbrev env : Env ℕ (ℕ → Option RemoteMailbox)
env = record {
  closed = none_closed;
  gone = λ tx. false;
  by_label = λ l r. (r, err (actor_not_found l));
  tx = 70;
  sent = ok tt;
  forwarded = ok tt;
}

abbrev loop : LoopState Frame ℕ (ℕ → Option RemoteMailbox)
loop = record {
  serving = serving;
  context = record {
    index = Index.new 5;
    state = running;
    supervisor = none;
    require_cleanup = true;
  };
  mailbox = [];
  timers = 0;
}

abbrev task_end : TaskEnd Frame ℕ
task_end = record { created = ok (Index.new 6); forwarded = ok tt; response = ok (payload 33) }

-- A request for the actor 1 with the tag 9; its task ends, and the answer is sent.
abbrev events : List (Event Frame ℕ (ℕ → Option RemoteMailbox))
events =
    receives env 1 (actor 1 2 (payload 3) (some 9))
    ∷ completes 0 task_end
    ∷ fires
    ∷ polls env 2
    ∷ []

run_loop-Answered_example :
    Answered dash addresses messages print report 9
      (total (asked_by dash addresses messages print report 9) events)
      loop
      (run_loop dash addresses messages print report events loop)
run_loop-Answered_example =
    run_loop-Answered dash addresses messages print report 9 events loop 5 refl

run_session-WaitsAt_example :
    WaitsAt (run_session dash addresses messages print report (λ tx. false) 0 events loop)
run_session-WaitsAt_example =
    run_session-WaitsAt dash addresses messages print report (λ tx. false) 0 events loop refl refl
      refl

-- What the loop leaves: the answer with the tag 9.
events_sent :
    run_loop dash addresses messages print report events
      (record loop { context = record (loop.context) { require_cleanup = false } })
    ≡ going (record loop {
      serving = record serving {
        session = record session { sent = Session.message_response 9 (ok (payload 33)) ∷ [] };
        delivered =
            (
              box 1,
              BinaryMessage.with_decode_context 5
                  (BinaryMessage.with_encode_context 5 (BinaryMessage.send 1 2 (payload 3) 70)),
            )
            ∷ [];
      };
      context = record (loop.context) { require_cleanup = false };
    })
unfolding run_loop Session.Inbound.encode_context Session.Inbound.decode_context
events_sent = refl

abbrev boxed : SessionError ℕ → ℕ
boxed e = 0

-- The actor 1 of the peer is known here as an actor of the session 5.
exchange_get_actor_example :
    (peer' here' : Serving Frame ℕ (ℕ → Option RemoteMailbox)) × ((remote_get_actor env.gone 60 1
        (index (Index.new 1))
        (ok tt)
        session).sent
      ≡ Session.get_actor (index (Index.new 1)) 4 ∷ [])
    × (handle_ipc_message dash addresses print report messages env
          (messages.encode (Session.get_actor (index (Index.new 1)) 4))
          serving
        ≡ returned (peer', ok tt))
    × (peer'.session.sent ≡ Session.message_response 4 (ok (result (some (address 1)))) ∷ [])
    × (handle_ipc_message dash addresses print report messages env
          (messages.encode (Session.message_response 4 (ok (result (some (address 1))))))
          (record serving {
            session = remote_get_actor env.gone 60 1 (index (Index.new 1)) (ok tt) session;
          })
        ≡ returned (here', ok tt))
    × (here'.session.answered ≡ (60, ok (result (some (address 1)))) ∷ [])
    × (resolve addresses boxed (some 5) (some (ok (result (some (address 1)))))
        ≡ ok (Index.new_remote 1 5))
unfolding find_actor Index.new
exchange_get_actor_example =
    exchange_get_actor dash addresses messages print report boxed env env (index (Index.new 1)) 60 1
      5 serving serving refl refl

-- ===== src/Session/Context.antt =====
-- acktor-ipc/src/session/context.rs: the loop of a session, which serves its mailbox and its
-- connection, and sends itself a message when the next sweep is due.
use acktor.Base.{ℕ, Bool, true, false, Option, none, some, List, Result, String, if◌then◌else◌}
use acktor.Base.Eq.{◌==◌}
use acktor.Actor.{ActorState, unstarted, Signal}
use acktor.Actor.Index.{ActorId, id_Eq}
use acktor.ActorMgr.{ActorRef}
use acktor.BinaryMessage.{BinaryMessage}
use acktor.Context.{Supervisor}
use acktor.Errors.{SessionError}
use acktor.Session.Inbound.{TaskEnd, Serving, Env}

pub record SessionContext : Type 0 where
  pub index : ActorId
  pub state : ActorState
  pub supervisor : Option ActorId
  pub require_cleanup : Bool

unfoldable pub new : ActorId → SessionContext
new index = record { index = index; state = unstarted; supervisor = none; require_cleanup = true }

unfoldable pub require_cleanup : SessionContext → SessionContext
require_cleanup c = record c { require_cleanup = true }

unfoldable pub set_state : ActorState → SessionContext → SessionContext
set_state s c = record c { state = s }

unfoldable pub set_supervisor : Option ActorId → SessionContext → SessionContext
set_supervisor (some s) c = if s == c.index then c else record c { supervisor = some s }
set_supervisor none c = record c { supervisor = none }

-- What others send to a session. A request comes with a response sender; the type of an actor is
-- its number.
pub data Request (B : Type 0) : Type 0 where
  creates : ℕ → ℕ → String → Option String → Request B
  gets : ℕ → ActorRef → Request B
  binary : BinaryMessage B → Request B
  signal : Signal → Request B
  supervise : Supervisor → Request B

-- The messages that a session handles; it alone sends the first two.
pub data Mail (B : Type 0) : Type 0 where
  requires_cleanup : Mail B
  responds : ℕ → Result B String → Mail B
  request : Request B → Mail B

-- `std::io::ErrorKind`, as far as the loop looks at it.
pub data ErrorKind : Type 0 where
  connection_reset connection_aborted broken_pipe other : ErrorKind

abbrev pub is_disconnect : ErrorKind → Bool
is_disconnect connection_reset = true
is_disconnect connection_aborted = true
is_disconnect broken_pipe = true
is_disconnect other = false

-- `mailbox` is oldest first. A timer is one of the tasks that send `RequireCleanup` when it is due.
pub record LoopState (B E Map : Type 0) : Type 0 where
  pub serving : Serving B E Map
  pub context : SessionContext
  pub mailbox : List (Mail B)
  pub timers : ℕ

-- What happens while the loop waits, and which branch its `select!` takes: a message of the
-- mailbox, the end of the mailbox, a frame of the connection or its error. `now` is when the branch
-- has run.
pub data Event (B E Map : Type 0) : Type 0 where
  arrives : Request B → Event B E Map
  fires : Event B E Map
  completes : ℕ → TaskEnd B E → Event B E Map
  polls : Env E Map → ℕ → Event B E Map
  drops : Event B E Map
  receives : Env E Map → ℕ → B → Event B E Map
  fails : ErrorKind → E → Event B E Map

pub data End (E S : Type 0) : Type 0 where
  going : S → End E S
  finished : Result (Unit {0}) (SessionError E) → S → End E S
  unwound : S → End E S

abbrev pub resume : {E S : Type 0} → End E S → (S → End E S) → End E S
resume (going s) k = k s
resume (finished r s) k = finished r s
resume (unwound s) k = unwound s

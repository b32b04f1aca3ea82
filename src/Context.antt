-- ===== src/Context.antt =====
-- acktor/src/context.rs and the provided methods of `ActorContext` in acktor/src/actor.rs: the
-- state of the default context and the methods that change it.
pub mod Hooks
pub mod Loop
pub mod Run
pub mod Laws
use acktor.Base.{
  ℕ, ◌≡◌, Bool, true, false, ◌&&◌, Option, none, some, List, [], ◌∷◌, ◌++◌, if◌then◌else◌, Result,
  ok, err, is_some,
}
use acktor.Base.Eq.{◌==◌}
use acktor.Actor.{ActorState, unstarted, stopping, stopped}
use acktor.Actor.Index.{ActorId, id_Eq}
use acktor.Drain.{DrainPolicy, DrainState}
use acktor.Drain

-- supervisor.rs, without the address of the sender, which is always the actor's own.
pub data SupervisionEvent (E : Type 0) : Type 0 where
  warn : E → SupervisionEvent E
  terminated : Option E → SupervisionEvent E
  panicked : SupervisionEvent E
  state : ActorState → SupervisionEvent E

-- supervisor.rs: a recipient is known by the index of its actor.
pub data Supervisor : Type 0 where
  set : ActorId → Supervisor
  unset : Supervisor

-- `notified` is what was handed to supervisors so far, oldest first. The label and the address
-- play no part; `spawn` takes the mailbox out before anything else.
pub record Context (E : Type 0) : Type 0 where
  pub index : ActorId
  pub state : ActorState
  pub drain : DrainState
  pub error : Option E
  pub supervisor : Option ActorId
  pub notified : List (ActorId × SupervisionEvent E)

module _ {E : Type 0} where
  unfoldable pub new : ActorId → Context E
  new index = record {
    index = index;
    state = unstarted;
    drain = Drain.default;
    error = none;
    supervisor = none;
    notified = [];
  }

  unfoldable pub save_error : E → Context E → Context E
  save_error e c = record c { error = some e }

  abbrev pub saved : Option E → Result (Unit {0}) E
  saved none = ok tt
  saved (some e) = err e

  unfoldable pub take_error : Context E → Context E × Result (Unit {0}) E
  take_error c = (record c { error = none }, saved c.error)

  -- A failed send to the supervisor is ignored; without a supervisor the event is only logged.
  unfoldable pub try_notify_supervisor : SupervisionEvent E → Context E → Context E
  try_notify_supervisor event c = elim c.supervisor [
    | none ↦ c
    | some s ↦ record c { notified = c.notified ++ ((s, event) ∷ []) }
  ]

  unfoldable pub set_state : ActorState → Context E → Context E
  unfolding try_notify_supervisor
  set_state s c = try_notify_supervisor (state s) (record c { state = s })

  unfoldable pub stop : Context E → Context E
  unfolding set_state
  stop c = set_state stopping c

  unfoldable pub terminate : Context E → Context E
  unfolding set_state
  terminate c = set_state stopped c

  -- An actor does not become its own supervisor.
  unfoldable pub set_supervisor : Option ActorId → Context E → Context E
  set_supervisor (some s) c = if s == c.index then c else record c { supervisor = some s }
  set_supervisor none c = record c { supervisor = none }

  unfoldable pub drain_mailbox : DrainPolicy → Context E → Context E
  drain_mailbox policy c = record c { drain = Drain.request policy c.drain }

-- ===== src/Context/Hooks.antt =====
-- What an actor may do in its hooks and handlers: it changes itself, calls the methods of its
-- context, and then returns or panics. Also the built-in handlers of acktor/src/signal.rs and
-- acktor/src/supervisor.rs.
use acktor.Base.{Option, none, some, List, [], ◌∷◌, Result, Outcome, returned}
use acktor.Actor.{ActorState, Signal, Stopping}
use acktor.Actor.Index.{ActorId}
use acktor.Drain.{DrainPolicy}
use acktor.Context.{
  Context, SupervisionEvent, Supervisor, set, unset, save_error, set_state, set_supervisor,
  drain_mailbox, try_notify_supervisor, stop, terminate,
}

-- The calls on the context that its interface offers to a hook or a handler.
pub data Request (E : Type 0) : Type 0 where
  sets_state : ActorState → Request E
  saves_error : E → Request E
  sets_supervisor : Option ActorId → Request E
  drains_mailbox : Request E
  notifies : SupervisionEvent E → Request E

-- What a hook did until it returned, or until it panicked.
pub record Response (E A R : Type 0) : Type 0 where
  pub actor : A
  pub requests : List (Request E)
  pub outcome : Outcome R

-- The hooks and the handler of the user's actor, with their view of the context.
pub record Hooks (E A M : Type 0) : Type 0 where
  pub pre_start : A → Context E → Response E A (Result (Unit {0}) E)
  pub post_start : A → Context E → Response E A (Result (Unit {0}) E)
  pub stopping : A → Context E → Response E A (Result Stopping E)
  pub post_stop : A → Context E → Response E A (Result (Unit {0}) E)
  pub handle : M → A → Context E → Response E A (Unit {0})

-- An envelope holds a message of the user, or one that every actor handles.
pub data Envelope (M : Type 0) : Type 0 where
  user : M → Envelope M
  signal : Signal → Envelope M
  supervise : Supervisor → Envelope M

module _ {E : Type 0} (policy : DrainPolicy) where
  unfoldable pub perform : Request E → Context E → Context E
  unfolding set_state save_error set_supervisor drain_mailbox try_notify_supervisor
  perform (sets_state s) c = set_state s c
  perform (saves_error e) c = save_error e c
  perform (sets_supervisor s) c = set_supervisor s c
  perform drains_mailbox c = drain_mailbox policy c
  perform (notifies event) c = try_notify_supervisor event c

  unfoldable pub perform_all : List (Request E) → Context E → Context E
  unfolding perform
  perform_all [] c = c
  perform_all (r ∷ rs) c = perform_all rs (perform r c)

module _ {E : Type 0} where
  unfoldable pub handle_signal : Signal → Context E → Context E
  unfolding stop terminate
  handle_signal Signal.stop c = stop c
  handle_signal Signal.terminate c = terminate c

  -- `Handler<Supervisor<A>>`.
  unfoldable pub handle_supervisor : Supervisor → Context E → Context E
  unfolding set_supervisor
  handle_supervisor (set s) c = set_supervisor (some s) c
  handle_supervisor unset c = set_supervisor none c

module _ {E A M : Type 0} (policy : DrainPolicy) (h : Hooks E A M) where
  -- The actor and the context after an envelope is handled, and whether the handler returned.
  unfoldable pub handle_envelope : Envelope M → A → Context E → A × Context E × Outcome (Unit {0})
  unfolding perform_all handle_signal handle_supervisor
  handle_envelope (user m) a c =
      let r = h.handle m a c in (r.actor, perform_all policy r.requests c, r.outcome)
  handle_envelope (signal s) a c = (a, handle_signal s c, returned tt)
  handle_envelope (supervise s) a c = (a, handle_supervisor s c, returned tt)

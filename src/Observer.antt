-- ===== src/Observer.antt =====
-- acktor/src/observer.rs: the observers of a subject, each known by the index of its actor.
pub mod Laws
use acktor.Base.{◌≡◌, Bool, true, false, not, ◌||◌, List, [], ◌∷◌, if◌then◌else◌}
use acktor.Base.Eq.{◌==◌}
use acktor.HashMap
use acktor.HashMap.{HashMap}
use acktor.Actor.Index.{ActorId, id_Eq}

abbrev pub ObserverSet : Type 0
ObserverSet = HashMap ActorId (Unit {0})

-- The end of a send: `full` happens to `try_do_send` only, since `do_send` waits for room; `failed` is
-- any other error.
pub data Sent : Type 0 where
  taken full closed failed : Sent

pub data Observer : Type 0 where
  register unregister : ActorId → Observer

unfoldable pub register_observer : ActorId → ObserverSet → ObserverSet
register_observer observer s = HashMap.insert observer tt s

unfoldable pub unregister_observer : ActorId → ObserverSet → ObserverSet
unregister_observer observer s = HashMap.remove observer s

-- `Handler<Observer<M>>` of the actor `own`.
unfoldable pub handle : ActorId → Observer → ObserverSet → ObserverSet
unfolding register_observer unregister_observer
handle own (register recipient) s = if recipient == own then s else register_observer recipient s
handle own (unregister recipient) s = unregister_observer recipient s

abbrev pub is_taken : Sent → Bool
is_taken taken = true
is_taken _ = false

abbrev pub is_closed : Sent → Bool
is_closed closed = true
is_closed _ = false

abbrev pub is_err : Sent → Bool
is_err taken = false
is_err _ = true

-- The loop of the macros: those that took the event, and `should_clean`, which the errors of `cleans`
-- set.
unfoldable pub send_all : (Sent → Bool) → (ActorId → Sent) → ObserverSet → List ActorId × Bool
send_all cleans send [] = ([], false)
send_all cleans send ((observer, u) ∷ s) =
    let rest = send_all cleans send s in
    (
      if is_taken (send observer) then observer ∷ rest.0 else rest.0,
      cleans (send observer) || rest.1,
    )

-- With the mailboxes that are closed at the end.
abbrev pub notify :
    (Sent → Bool) → (ActorId → Sent) → (ActorId → Bool) → ObserverSet → ObserverSet × List ActorId
notify cleans send gone s =
    let r = send_all cleans send s in
    (if r.1 then HashMap.retain (λ observer u. not (gone observer)) s else s, r.0)

-- Any error sets `should_clean`.
unfoldable pub notify_observers :
    (ActorId → Sent) → (ActorId → Bool) → ObserverSet → ObserverSet × List ActorId
notify_observers send gone s = notify is_err send gone s

-- That of a closed mailbox does.
unfoldable pub try_notify_observers :
    (ActorId → Sent) → (ActorId → Bool) → ObserverSet → ObserverSet × List ActorId
try_notify_observers send gone s = notify is_closed send gone s

-- ===== src/Observer/Laws.antt =====
-- acktor/src/observer.rs: who an event reaches, and who stays registered.
use acktor.Base.{
  ◌≡◌, refl, Bool, true, false, not, ◌||◌, ◌&&◌, List, [], ◌∷◌, if◌then◌else◌, arith, none, some,
  is_some,
}
use acktor.Base.Eq.{◌==◌}
use acktor.HashMap
use acktor.HashMap.Laws.{IsUnique, get-insert, get-remove, get-retain}
use acktor.Actor.Index.{ActorId, id_Eq, id_eq_iff}
use acktor.Observer.{
  ObserverSet, register, unregister, Sent, is_taken, is_closed, is_err, taken, full, closed, failed,
  handle, send_all, notify, notify_observers, try_notify_observers,
}

-- Whether an observer stands in a list.
abbrev pub contains : ActorId → List ActorId → Bool
contains o [] = false
contains o (x ∷ xs) = (x == o) || contains o xs

contains-send_all :
    (cleans : Sent → Bool) (send : ActorId → Sent) (o : ActorId) (s : ObserverSet)
    → contains o (send_all cleans send s).0 ≡ (is_some (HashMap.get o s) && is_taken (send o))
unfolding send_all HashMap.get
contains-send_all cleans send o [] = refl
contains-send_all cleans send o ((x, u) ∷ s) =
    ground (arith, contains-send_all cleans send o s, id_eq_iff x o)

cleaned :
    (cleans : Sent → Bool) (send : ActorId → Sent) (o : ActorId) (s : ObserverSet)
    → is_some (HashMap.get o s) ≡ true
    → cleans (send o) ≡ true
    → (send_all cleans send s).1 ≡ true
unfolding send_all HashMap.get
cleaned cleans send o [] h c = cc
cleaned cleans send o ((x, u) ∷ s) h c = ground (arith, cleaned cleans send o s, id_eq_iff x o)

-- What the event does to the observer `o`.
abbrev pub Notifies :
    (ActorId → Sent)
    → (ActorId → Bool)
    → ActorId
    → ObserverSet
    → ObserverSet × List ActorId
    → Type 0
Notifies send gone o s r =
    (contains o r.1 ≡ (is_some (HashMap.get o s) && is_taken (send o)))
    × (is_some (HashMap.get o r.0) ≡ true → is_some (HashMap.get o s) ≡ true)
    × (gone o ≡ false → HashMap.get o r.0 ≡ HashMap.get o s)
    × (is_closed (send o) ≡ true → HashMap.get o r.0 ≡ none)

notify-Notifies :
    (cleans : Sent → Bool)
    → ((r : Sent) → is_closed r ≡ true → cleans r ≡ true)
    → (send : ActorId → Sent) (gone : ActorId → Bool) (o : ActorId) (s : ObserverSet) → IsUnique s
    → (is_closed (send o) ≡ true → gone o ≡ true)
    → Notifies send gone o s (notify cleans send gone s)
unfolding send_all
notify-Notifies cleans all send gone o s u g = (
  contains-send_all cleans send o s,
  ground (arith, get-retain (λ x w. not (gone x)) o s u),
  ground (arith, get-retain (λ x w. not (gone x)) o s u),
  λ c.
      ground
        (arith, get-retain (λ x w. not (gone x)) o s u, cleaned cleans send o s, all (send o) c),
)

closed_is_err : (r : Sent) → is_closed r ≡ true → is_err r ≡ true
closed_is_err taken h = h
closed_is_err full h = refl
closed_is_err closed h = refl
closed_is_err failed h = refl

-- An event reaches exactly the registered observers whose mailbox takes it; afterwards an observer
-- is registered only if it was, an open one still is, and one whose send failed on a closed mailbox
-- is not. So it is for `notify_observers` and for `try_notify_observers`.
pub notify_observers_lem :
    (send : ActorId → Sent) (gone : ActorId → Bool) (o : ActorId) (s : ObserverSet)
    → IsUnique s
    → (is_closed (send o) ≡ true → gone o ≡ true)
    → Notifies send gone o s (notify_observers send gone s)
      × Notifies send gone o s (try_notify_observers send gone s)
unfolding notify_observers try_notify_observers
notify_observers_lem send gone o s u g = (
  notify-Notifies is_err closed_is_err send gone o s u g,
  notify-Notifies is_closed (λ r h. h) send gone o s u g,
)

-- A message changes the membership of the actor that it names, and of no other; but an actor never
-- becomes its own observer.
pub handle_lem :
    (own o recipient : ActorId) (s : ObserverSet)
    → (HashMap.get o (handle own (register recipient) s)
        ≡ (if (recipient == o) && not (o == own) then some tt else HashMap.get o s))
      × (HashMap.get o (handle own (unregister recipient) s)
          ≡ (if recipient == o then none else HashMap.get o s))
unfolding handle
handle_lem own o recipient s = (
  ground (
    arith,
    get-insert recipient o tt s,
    id_eq_iff recipient o,
    id_eq_iff o own,
    id_eq_iff recipient own,
  ),
  get-remove recipient o s,
)

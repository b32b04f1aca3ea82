-- ===== src/Tests/Responses.antt =====
-- A response channel of acktor, and an envelope.
use acktor.Base.{ℕ, refl, Bool, true, false, Option, none, some, Result, ok, err}
use acktor.Errors.{RecvError}
use acktor.Oneshot.{OneshotChannel, TryRecvError, Passes, Arrives, send, send_err, try_recv-send}

-- The value that waits, and whether the receiver is gone.
module _ {V : Type 0} where
  abbrev put : V → Option V × Bool → (Option V × Bool) × Result (Unit {0}) V
  put v (o, false) = ((some v, false), ok tt)
  put v (o, true) = ((o, true), err v)

  abbrev take : Option V × Bool → (Option V × Bool) × Result V TryRecvError
  take (some v, gone) = ((none, gone), ok v)
  take (none, gone) = ((none, gone), err TryRecvError.empty)

  put-Passes : (v : V) (q : Option V × Bool) → Passes take v (put v q)
  put-Passes v (o, false) = refl
  put-Passes v (o, true) = refl

abbrev slot : (V : Type 0) → OneshotChannel V
slot V = record { State = Option V × Bool; send = put; try_recv = take; send_passes = put-Passes }

try_recv-send_example :
    Arrives (slot (Result ℕ ℕ)) (λ t. ok t) 3 (send (slot (Result ℕ ℕ)) 3 (none, false))
    × Arrives
        (slot (Result ℕ ℕ))
        (λ e. err (RecvError.other e))
        4
        (send_err (slot (Result ℕ ℕ)) 4 (none, false))
try_recv-send_example = try_recv-send (slot (Result ℕ ℕ)) 3 4 (none, false)

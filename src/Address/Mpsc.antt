-- ===== src/Address/Mpsc.antt =====
-- The sending half of acktor/src/channel/mpsc.rs: tokio's, which is not in the repository, as an
-- interface with what the addresses rely on.
use acktor.Base.{
  ℕ, ◌≡◌, Bool, true, false, Outcome, returned, panicked, List, [], ◌∷◌, ◌++◌, Result, ok, err,
}
use acktor.Errors.{SendError}

-- tokio's `SendError`, `TrySendError` and `SendTimeoutError`.
pub data MpscSendError (T : Type 0) : Type 0 where
  send_error : T → MpscSendError T

pub data TrySendError (T : Type 0) : Type 0 where
  full closed : T → TrySendError T

pub data SendTimeoutError (T : Type 0) : Type 0 where
  timeout closed : T → SendTimeoutError T

abbrev pub unsent_of : {T : Type 0} → MpscSendError T → T
unsent_of (send_error m) = m

abbrev pub try_unsent_of : {T : Type 0} → TrySendError T → T
try_unsent_of (TrySendError.full m) = m
try_unsent_of (TrySendError.closed m) = m

abbrev pub timeout_unsent_of : {T : Type 0} → SendTimeoutError T → T
timeout_unsent_of (SendTimeoutError.timeout m) = m
timeout_unsent_of (SendTimeoutError.closed m) = m

-- A message is sent, or nothing is and the very message comes back. `sent` is what one sender has
-- put into the channel.
abbrev pub Accepts :
    {T Q X : Type 0} → (Q → List T) → (X → T) → T → Q → Q × Result (Unit {0}) X → Type 0
Accepts sent unsent m q (p, ok u) = sent p ≡ sent q ++ m ∷ []
Accepts sent unsent m q (p, err e) = (sent p ≡ sent q) × (unsent e ≡ m)

-- A blocking call panics inside an async execution context, and nowhere else.
abbrev pub Blocks :
    {T Q X : Type 0}
    → Bool
    → (Q → List T)
    → (X → T)
    → T
    → Q
    → Outcome (Q × Result (Unit {0}) X)
    → Type 0
Blocks in_async sent unsent m q panicked = in_async ≡ true
Blocks in_async sent unsent m q (returned o) = (in_async ≡ false) × Accepts sent unsent m q o

-- `Queue` is the channel as the caller has it, and `in_async` whether the caller is inside an async
-- execution context.
pub record MpscSender (T : Type 0) : Type 1 where
  pub Queue : Type 0
  pub sent : Queue → List T
  pub in_async : Queue → Bool
  pub is_closed : Queue → Bool
  pub capacity : Queue → ℕ
  pub send : T → Queue → Queue × Result (Unit {0}) (MpscSendError T)
  pub try_send : T → Queue → Queue × Result (Unit {0}) (TrySendError T)
  pub send_timeout : T → ℕ → Queue → Queue × Result (Unit {0}) (SendTimeoutError T)
  pub blocking_send : T → Queue → Outcome (Queue × Result (Unit {0}) (MpscSendError T))
  -- A permit, which is the right to one call of `permit_send`.
  pub reserve : Queue → Queue × Result (Unit {0}) (MpscSendError (Unit {0}))
  pub try_reserve : Queue → Queue × Result (Unit {0}) (TrySendError (Unit {0}))
  pub permit_send : T → Queue → Queue
  pub send_accepts : (m : T) (q : Queue) → Accepts sent unsent_of m q (send m q)
  pub try_send_accepts : (m : T) (q : Queue) → Accepts sent try_unsent_of m q (try_send m q)
  pub send_timeout_accepts :
      (m : T) (d : ℕ) (q : Queue) → Accepts sent timeout_unsent_of m q (send_timeout m d q)
  pub blocking_send_blocks :
      (m : T) (q : Queue) → Blocks (in_async q) sent unsent_of m q (blocking_send m q)
  pub reserve_sent : (q : Queue) → sent (reserve q).0 ≡ sent q
  pub try_reserve_sent : (q : Queue) → sent (try_reserve q).0 ≡ sent q
  pub permit_send_sent : (m : T) (q : Queue) → sent (permit_send m q) ≡ sent q ++ m ∷ []

-- `From` the errors of tokio, in acktor/src/error.rs.
module _ {E T : Type 0} where
  unfoldable pub from_send : MpscSendError T → SendError E T
  from_send (send_error m) = SendError.closed m

  unfoldable pub from_try_send : TrySendError T → SendError E T
  from_try_send (TrySendError.closed m) = SendError.closed m
  from_try_send (TrySendError.full m) = SendError.full m

  unfoldable pub from_send_timeout : SendTimeoutError T → SendError E T
  from_send_timeout (SendTimeoutError.closed m) = SendError.closed m
  from_send_timeout (SendTimeoutError.timeout m) = SendError.timeout m

abbrev pub map_err : {X Y R : Type 0} → (X → Y) → Result R X → Result R Y
map_err f (ok r) = ok r
map_err f (err x) = err (f x)

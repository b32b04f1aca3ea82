-- ===== src/Address.antt =====
-- acktor/src/address.rs and acktor/src/address/sender.rs: what every way of sending a message
-- shares, and the trait `Sender`.
pub mod Mpsc
pub mod Local
pub mod Created
pub mod Responses
pub mod Remote
pub mod Dispatch
use acktor.Base.{
  true, false, ℕ, ◌+◌, ◌≡◌, Bool, Option, none, some, List, [], ◌∷◌, ◌++◌, Result, ok, err, Outcome,
  returned, panicked, String,
}
use acktor.Actor.Index.{ActorId}
use acktor.Codec.{EncodeError, DecodeError, EncodeContext, DecodeContext}
use acktor.Errors.{SendError, closed, full, timeout, no_encode_fn, other, RecvError}

-- The errors that are boxed on the way. An error of a receiver keeps the error it was made of.
pub data BoxError (G : Type 0) : Type 0 where
  encode_error : EncodeError G → BoxError G
  decode_error : DecodeError → BoxError G
  recv_closed recv_empty recv_timeout : BoxError G
  recv_other : BoxError G → BoxError G
  elapsed : BoxError G
  text : String → BoxError G

module _ {G : Type 0} where
  abbrev pub boxed : RecvError (BoxError G) → BoxError G
  boxed RecvError.closed = recv_closed
  boxed RecvError.empty = recv_empty
  boxed RecvError.timeout = recv_timeout
  boxed (RecvError.other e) = recv_other e

-- The types of the messages of a program, each known by its `TypeId`, with what they implement:
-- `Message::Result`, `MessageId::ID`, `Encode` and `Decode`. `B` is `Bytes`.
pub record Messages (B G : Type 0) : Type 1 where
  pub Value : ℕ → Type 0
  pub result : ℕ → ℕ
  pub id : ℕ → ℕ
  pub encode_to_bytes : (t : ℕ) → Value t → Option (EncodeContext G) → Result B (EncodeError G)
  pub decode : (t : ℕ) → B → Option DecodeContext → Result (Value t) DecodeError

-- What a sender changes: the channel under it, the number of the next response channel, and the
-- tasks that were spawned, oldest first.
pub record World (Q T : Type 0) : Type 0 where
  pub queue : Q
  pub channels : ℕ
  pub tasks : List T

-- `SendResult` has a `Receiver`, which is known by the number of its channel.
abbrev pub SendResult : Type 0 → Type 0 → Type 0
SendResult E M = Result ℕ (SendError E M)

abbrev pub DoSendResult : Type 0 → Type 0 → Type 0
DoSendResult E M = Result (Unit {0}) (SendError E M)

-- The traits `SenderInfo` and `Sender`. A future is the result it has when it is awaited; `EP` and
-- the wait for the channel's end are left out.
pub record Sender (W E M : Type 0) : Type 0 where
  pub index : ActorId
  pub is_closed : W → Bool
  pub capacity : W → ℕ
  pub send : M → W → Outcome (W × SendResult E M)
  pub do_send : M → W → Outcome (W × DoSendResult E M)
  pub try_send : M → W → Outcome (W × SendResult E M)
  pub try_do_send : M → W → Outcome (W × DoSendResult E M)
  pub send_timeout : M → ℕ → W → Outcome (W × SendResult E M)
  pub do_send_timeout : M → ℕ → W → Outcome (W × DoSendResult E M)
  pub blocking_send : M → W → Outcome (W × SendResult E M)
  pub blocking_do_send : M → W → Outcome (W × DoSendResult E M)

-- The message in an error.
abbrev pub returned_msg : {E M : Type 0} → SendError E M → M
returned_msg (closed m) = m
returned_msg (full m) = m
returned_msg (timeout m) = m
returned_msg (no_encode_fn m) = m
returned_msg (other e m) = m

-- The contract of a sender. `sent` is what it has put into its channel, and `Carries` tells what
-- stands for a message there, and how its response comes to the receiver.
module _ {W E M P : Type 0} (sent : W → List P) (Carries : M → Option ℕ → W → P → Type 0) where
  -- One thing is sent, or nothing is and the very message comes back. The call returns, unless it is
  -- `blocked`: then it panics, or it fails before it comes to block.
  abbrev pub Delivers :
      {R : Type 0} → Bool → (R → Option ℕ) → M → W → Outcome (W × Result R (SendError E M)) → Type 0
  Delivers blocked receiver m w panicked = blocked ≡ true
  Delivers blocked receiver m w (returned (v, ok r)) =
      (p : P) × (sent v ≡ sent w ++ p ∷ []) × Carries m (receiver r) v p × (blocked ≡ false)
  Delivers blocked receiver m w (returned (v, err e)) = (sent v ≡ sent w) × (returned_msg e ≡ m)

  abbrev pub Sends : Bool → M → W → Outcome (W × SendResult E M) → Type 0
  Sends blocked = Delivers blocked some

  abbrev pub DoSends : Bool → M → W → Outcome (W × DoSendResult E M) → Type 0
  DoSends blocked = Delivers blocked (λ u. none)

  -- The blocking calls are blocked where `in_async` tells that the caller is inside an async
  -- execution context.
  pub record Contract (in_async : W → Bool) (s : Sender W E M) : Type 0 where
    pub send_lem : (m : M) (w : W) → Sends false m w (s.send m w)
    pub do_send_lem : (m : M) (w : W) → DoSends false m w (s.do_send m w)
    pub try_send_lem : (m : M) (w : W) → Sends false m w (s.try_send m w)
    pub try_do_send_lem : (m : M) (w : W) → DoSends false m w (s.try_do_send m w)
    pub send_timeout_lem : (m : M) (d : ℕ) (w : W) → Sends false m w (s.send_timeout m d w)
    pub do_send_timeout_lem : (m : M) (d : ℕ) (w : W) → DoSends false m w (s.do_send_timeout m d w)
    pub blocking_send_lem : (m : M) (w : W) → Sends (in_async w) m w (s.blocking_send m w)
    pub blocking_do_send_lem : (m : M) (w : W) → DoSends (in_async w) m w (s.blocking_do_send m w)

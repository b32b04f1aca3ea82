-- ===== src/RemoteAddressable.antt =====
-- acktor-derive/src/remote_addressable.rs: the code that `#[derive(RemoteAddressable)]` generates
-- for an actor with a list of messages: its codec table and its handler of binary messages.
pub mod Tables
pub mod Recipients
pub mod Delivery
pub mod Calls
use acktor.Base.{
  ℕ, ◌+◌, Bool, true, false, not, ◌&&◌, ◌||◌, Option, none, some, List, [], ◌∷◌, Result, ok, err,
  Outcome, returned, panicked, if◌then◌else◌, eqb, map_option, map,
}
use acktor.Base.Eq.{nat_eq}
use acktor.HashMap
use acktor.Codec.{
  EncodeError, DecodeError, unknown_message_id, EncodeContext, DecodeContext, and_then,
}
use acktor.Errors.{RecvError}
use acktor.Erased.{downcast}
use acktor.BinaryMessage.{BinaryMessage}
use acktor.Address.{BoxError, encode_error, decode_error, boxed, Messages}
use acktor.Address.Responses.{MessageCodec, CodecTable}

-- How an actor handles its messages: `Handler::handle`, whose result is turned into what the
-- response channel is given by `MessageResponse::handle`, or dropped. The flag tells whether there
-- is a channel.
pub record Handlers {B G : Type 0} (msgs : Messages B G) (S : Type 0) : Type 1 where
  pub Output : ℕ → Type 0
  pub handle : (t : ℕ) → msgs.Value t → S → S × Output t
  pub respond :
      (t : ℕ) → Output t → Bool → S → S × Option (Result (msgs.Value (msgs.result t)) (BoxError G))

-- What the receiver of a response channel gets: a dropped sender closes it.
abbrev pub receive :
    {A G : Type 0} → Option (Result A (BoxError G)) → Result A (RecvError (BoxError G))
receive none = err RecvError.closed
receive (some (ok a)) = ok a
receive (some (err e)) = err (RecvError.other e)

-- The compile-time check: no two numbers of the list are equal.
abbrev pub differs : ℕ → List ℕ → Bool
differs i [] = true
differs i (j ∷ js) = not (eqb i j) && differs i js

unfoldable pub uniqueness_check : List ℕ → Bool
uniqueness_check [] = true
uniqueness_check (i ∷ js) = differs i js && uniqueness_check js

module _ {B G : Type 0} (msgs : Messages B G) where
  open msgs use {Value, result, id, encode_to_bytes, decode}

  abbrev pub expect_encode :
      (t : ℕ) → Option (EncodeContext G) → Option (Value t) → Outcome (Result B (EncodeError G))
  expect_encode t ctx none = panicked
  expect_encode t ctx (some m) = returned (encode_to_bytes t m ctx)

  unfoldable pub codec_of : ℕ → MessageCodec msgs
  codec_of t = record {
    message_id = id t;
    encode_msg = λ s v ctx. expect_encode t ctx (downcast Value t s v);
    decode_res = λ bytes ctx. and_then (decode (result t) bytes ctx) (λ r. ok (result t, r));
  }

  abbrev pub insert_all : List ℕ → CodecTable msgs → CodecTable msgs
  insert_all [] map = map
  insert_all (t ∷ ts) map = insert_all ts (HashMap.insert t (codec_of t) map)

  unfoldable pub codec_table : List ℕ → CodecTable msgs
  unfolding codec_of
  codec_table ts = insert_all ts []

  -- The arm of a message number.
  unfoldable pub arm : ℕ → List ℕ → Option ℕ
  arm message_id [] = none
  arm message_id (t ∷ ts) = if eqb message_id (id t) then some t else arm message_id ts

  abbrev pub encoded : Result B (EncodeError G) → Result B (BoxError G)
  encoded (ok bytes) = ok bytes
  encoded (err e) = err (encode_error e)

  unfoldable pub send_result :
      (t : ℕ)
      → Option (EncodeContext G)
      → Result (Value (result t)) (RecvError (BoxError G))
      → Result B (BoxError G)
  send_result t ctx (ok r) = encoded (encode_to_bytes (result t) r ctx)
  send_result t ctx (err e) = err (boxed e)

  -- A message sent with a response channel, and what the receiver gets.
  unfoldable pub call :
      {S : Type 0}
      → Handlers msgs S
      → (t : ℕ) → Value t
      → S
      → S × Result (Value (result t)) (RecvError (BoxError G))
  call h t m s = let r = h.handle t m s in let a = h.respond t r.1 true r.0 in (a.0, receive a.1)

  -- A message sent without one.
  unfoldable pub notify : {S : Type 0} → Handlers msgs S → (t : ℕ) → Value t → S → S
  notify h t m s = let r = h.handle t m s in (h.respond t r.1 false r.0).0

  -- `reply` is what the response channel of the message, if it has one, is given.
  unfoldable pub handle_arm :
      {S : Type 0}
      → Handlers msgs S
      → (t : ℕ) → Option ℕ
      → Option (EncodeContext G)
      → Result (Value t) DecodeError
      → S
      → S × Option (ℕ × Result B (BoxError G))
  unfolding call notify send_result
  handle_arm h t (some tx) ctx (ok m) s =
      let r = call h t m s in (r.0, some (tx, send_result t ctx r.1))
  handle_arm h t none ctx (ok m) s = (notify h t m s, none)
  handle_arm h t tx ctx (err e) s = (s, map_option (λ tx. (tx, err (decode_error e))) tx)

  unfoldable pub dispatch :
      {S : Type 0}
      → Handlers msgs S
      → (ℕ → EncodeContext G)
      → BinaryMessage B
      → Option ℕ
      → S
      → S × Option (ℕ × Result B (BoxError G))
  unfolding handle_arm
  dispatch h contexts m none s =
      (s, map_option (λ tx. (tx, err (decode_error (unknown_message_id m.message_id)))) m.result_tx)
  dispatch h contexts m (some t) s =
      handle_arm h t m.result_tx (map_option contexts m.encode_res_ctx)
        (decode t m.bytes (map_option some m.decode_msg_ctx)) s

  -- `Handler<BinaryMessage>`. `contexts` gives the context of a session.
  unfoldable pub handle :
      {S : Type 0}
      → List ℕ
      → Handlers msgs S
      → (ℕ → EncodeContext G)
      → BinaryMessage B
      → S
      → S × Option (ℕ × Result B (BoxError G))
  unfolding arm dispatch
  handle ts h contexts m s = dispatch h contexts m (arm m.message_id ts) s

-- ===== src/RemoteAddressable/Calls.antt =====
-- A call of an actor in another process, from the encoding of the message to the decoding of the
-- response: acktor-derive/src/remote_addressable.rs and acktor/src/address/remote.rs.
use acktor.Base.{ℕ, ◌≡◌, refl, true, Option, none, some, List, Result, ok, err, map}
use mathlib.Core.Path.{subst⁻¹}
use acktor.Codec.{DecodeContext, DecodeError, EncodeContext, EncodeError}
use acktor.Errors.{RecvError}
use acktor.BinaryMessage
use acktor.BinaryMessage.{BinaryMessage}
use acktor.Address.{BoxError, encode_error, decode_error, boxed, recv_other, Messages}
use acktor.Address.Responses.{decode_res_with_bound, decode_failed}
use acktor.RemoteAddressable.{
  Handlers, receive, uniqueness_check, call, handle, handle_arm, dispatch, send_result, encoded,
}
use acktor.RemoteAddressable.Tables.{listed, arm-listed}

module _ {B G S : Type 0} (msgs : Messages B G) (h : Handlers msgs S)
    (contexts : ℕ → EncodeContext G) where
  open msgs use {Value, result, id, encode_to_bytes, decode}

  -- The response of the remote call: that of the local call, encoded there and decoded here.
  abbrev pub come_back :
      (t : ℕ)
      → Option DecodeContext
      → Result B (EncodeError G)
      → Result (Value (result t)) (BoxError G)
  come_back t here (ok bytes) = decode_failed msgs (result t) (decode (result t) bytes here)
  come_back t here (err e) = err (recv_other (encode_error e))

  abbrev pub response :
      (t : ℕ)
      → ℕ
      → Option DecodeContext
      → Result (Value (result t)) (RecvError (BoxError G))
      → Result (Value (result t)) (BoxError G)
  response t session here (ok r) =
      come_back t here (encode_to_bytes (result t) r (some (contexts session)))
  response t session here (err e) = err (recv_other (boxed e))

  abbrev pub expected :
      (t : ℕ)
      → ℕ
      → Option DecodeContext
      → Result (Value t) DecodeError
      → S
      → S × Result (Value (result t)) (BoxError G)
  expected t session here (ok m) s = let r = call msgs h t m s in (r.0, response t session here r.1)
  expected t session here (err e) s = (s, err (recv_other (decode_error e)))

  -- The response of the handler, when it has come over the channel `raw` to the task.
  abbrev pub delivered :
      {A : Type 0} → Option (ℕ × Result A (BoxError G)) → Result A (RecvError (BoxError G))
  delivered none = receive none
  delivered (some (tx, r)) = receive (some r)

  -- The binary message as it is sent, with the contexts of the session that takes it in.
  abbrev pub inbound : ℕ → ℕ → B → ℕ → ℕ → BinaryMessage B
  inbound i t bytes tx session =
      BinaryMessage.with_decode_context session
        (BinaryMessage.with_encode_context session (BinaryMessage.send i (id t) bytes tx))

  responds :
      (t : ℕ) (here : Option DecodeContext) (session tx : ℕ)
      (r : Result (Value (result t)) (RecvError (BoxError G)))
      → decode_res_with_bound msgs t here
          (some (receive (some (send_result msgs t (some (contexts session)) r))))
        ≡ some (response t session here r)
  unfolding send_result decode_res_with_bound
  responds t here session tx (err e) = refl
  responds t here session tx (ok r) = go (encode_to_bytes (result t) r (some (contexts session)))
    where
      go :
          (o : Result B (EncodeError G))
          → decode_res_with_bound msgs t here (some (receive (some (encoded msgs o))))
            ≡ some (come_back t here o)
      go (ok bytes) = refl
      go (err e) = refl

  -- The actor's new state and the end of the sender's task, against the expected ones.
  abbrev pub Answers :
      (t : ℕ)
      → Option DecodeContext
      → S × Option (ℕ × Result B (BoxError G))
      → S × Result (Value (result t)) (BoxError G)
      → Type 0
  Answers t here reply local =
      (reply.0 ≡ local.0)
      × (decode_res_with_bound msgs t here (some (delivered reply.1)) ≡ some (local.1))

  -- A call of a message of the actor's list, whose numbers differ: the actor handles the message
  -- that the bytes decode to, as if it were sent to it locally, and the task of the sender gives the
  -- receiver its response, encoded and decoded. An error on the way, of the decoding, of the handler
  -- or of the encoding, comes to the receiver.
  pub handle-decode_res :
      (ts : List ℕ) (i t : ℕ) (bytes : B) (tx session : ℕ) (here : Option DecodeContext) (s : S)
      → listed t ts ≡ true
      → uniqueness_check (map id ts) ≡ true
      → Answers t here
          (handle msgs ts h contexts (inbound i t bytes tx session) s)
          (expected t session here (decode t bytes (some (some session))) s)
  unfolding handle dispatch handle_arm decode_res_with_bound
  handle-decode_res ts i t bytes tx session here s l u =
      subst⁻¹
        (λ a.
          Answers t here (dispatch msgs h contexts (inbound i t bytes tx session) a s)
            (expected t session here (decode t bytes (some (some session))) s))
        (arm-listed msgs t ts l u) (go (decode t bytes (some (some session))))
    where
      go :
          (r : Result (Value t) DecodeError)
          → Answers t here
              (handle_arm msgs h t (some tx) (some (contexts session)) r s)
              (expected t session here r s)
      go (ok m) = (refl, responds t here session tx (call msgs h t m s).1)
      go (err e) = (refl, refl)

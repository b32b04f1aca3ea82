-- ===== src/Address/Responses.antt =====
-- acktor/src/codec/table.rs, and of acktor/src/address/remote.rs the tasks that decode responses.
use acktor.Base.{ℕ, Option, none, some, Result, ok, err, Outcome}
use acktor.HashMap.{HashMap}
use acktor.Codec.{EncodeError, DecodeError, downcast_failed, EncodeContext, DecodeContext, ok_or}
use acktor.Errors.{RecvError}
use acktor.Erased.{downcast}
use acktor.Address.{BoxError, decode_error, boxed, Messages}

module _ {B G : Type 0} (msgs : Messages B G) where
  open msgs use {Value, result, id, encode_to_bytes, decode}

  pub record MessageCodec : Type 0 where
    pub message_id : ℕ
    -- It may panic, by an `expect` on the type of its argument.
    pub encode_msg :
        (s : ℕ) → Value s → Option (EncodeContext G) → Outcome (Result B (EncodeError G))
    pub decode_res : B → Option DecodeContext → Result ((s : ℕ) × Value s) DecodeError

  abbrev pub CodecTable : Type 0
  CodecTable = HashMap ℕ MessageCodec

  -- What a task does with the end of `raw_rx`; it has none when `tx` is closed first. The result is
  -- what `tx` is given.
  pub record Task : Type 0 where
    pub raw_rx : ℕ
    pub tx : ℕ
    pub message : ℕ
    pub run :
        Option (Result B (RecvError (BoxError G)))
        → Option (Result (Value (result message)) (BoxError G))

  unfoldable pub decoded :
      (t : ℕ) → Result ((s : ℕ) × Value s) DecodeError → Result (Value (result t)) (BoxError G)
  decoded t (ok (s, v)) = ok_or (downcast Value (result t) s v) (decode_error downcast_failed)
  decoded t (err e) = err (decode_error e)

  unfoldable pub decode_res :
      (t : ℕ)
      → Option DecodeContext
      → MessageCodec
      → Option (Result B (RecvError (BoxError G)))
      → Option (Result (Value (result t)) (BoxError G))
  unfolding decoded
  decode_res t ctx codec none = none
  decode_res t ctx codec (some (err e)) = some (err (boxed e))
  decode_res t ctx codec (some (ok bytes)) = some (decoded t (codec.decode_res bytes ctx))

  abbrev pub decode_failed : (t : ℕ) → Result (Value t) DecodeError → Result (Value t) (BoxError G)
  decode_failed t (ok v) = ok v
  decode_failed t (err e) = err (decode_error e)

  unfoldable pub decode_res_with_bound :
      (t : ℕ)
      → Option DecodeContext
      → Option (Result B (RecvError (BoxError G)))
      → Option (Result (Value (result t)) (BoxError G))
  decode_res_with_bound t ctx none = none
  decode_res_with_bound t ctx (some (err e)) = some (err (boxed e))
  decode_res_with_bound t ctx (some (ok bytes)) =
      some (decode_failed (result t) (decode (result t) bytes ctx))

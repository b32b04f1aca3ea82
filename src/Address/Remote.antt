-- ===== src/Address/Remote.antt =====
-- acktor/src/address/remote.rs: how a message is sent to an actor of another process, by its
-- address, and the proxy under it.
pub mod Recipient
pub mod Delivery
use acktor.Base.{
  ℕ, suc, Bool, Option, none, some, List, [], ◌∷◌, ◌++◌, Result, ok, err, Outcome, returned, ◌>>=◌,
}
use acktor.Base.Eq.{nat_eq}
use acktor.HashMap
use acktor.Actor.Index.{ActorId, as_local, new_remote}
use acktor.Codec.{EncodeError, EncodeContext, DecodeContext}
use acktor.Errors.{SendError, no_encode_fn, other, with_msg}
use acktor.BinaryMessage
use acktor.BinaryMessage.{BinaryMessage}
use acktor.Address.{BoxError, encode_error, Messages, World, SendResult, DoSendResult, Sender}
use acktor.Address.Responses.{MessageCodec, CodecTable, Task, decode_res}

-- The trait `RemoteProxy`, over a channel `Q`. Its runtime, and the wait for its end, are left out.
pub record RemoteProxy (B G Q : Type 0) : Type 0 where
  pub encode_context : Option (EncodeContext G)
  pub decode_context : Option DecodeContext
  pub index : ℕ
  pub is_closed : Q → Bool
  pub capacity : Q → ℕ
  pub do_send : BinaryMessage B → Q → Outcome (Q × DoSendResult (BoxError G) (Unit {0}))
  pub try_do_send : BinaryMessage B → Q → Outcome (Q × DoSendResult (BoxError G) (Unit {0}))
  pub do_send_timeout : BinaryMessage B → ℕ → Q → Outcome (Q × DoSendResult (BoxError G) (Unit {0}))
  pub blocking_do_send : BinaryMessage B → Q → Outcome (Q × DoSendResult (BoxError G) (Unit {0}))

module _ {B G Q : Type 0} (msgs : Messages B G) (proxy : RemoteProxy B G Q) where
  open msgs use {Value, result, id, encode_to_bytes, decode}

  abbrev pub Way : Type 0
  Way = BinaryMessage B → Q → Outcome (Q × DoSendResult (BoxError G) (Unit {0}))

  abbrev pub State : Type 0
  State = World Q (Task msgs)

  abbrev pub Reply : Type 0 → ℕ → Type 0
  Reply R t = Outcome (State × Result R (SendError (BoxError G) (Value t)))

  -- The end of a call, after the proxy's: the world and the result where the proxy took the
  -- message, and the world where it did not.
  abbrev pub ended :
      {R : Type 0}
      → (t : ℕ) → Value t
      → State
      → R
      → State
      → Q × DoSendResult (BoxError G) (Unit {0})
      → State × Result R (SendError (BoxError G) (Value t))
  ended t msg v r w (q, ok u) = (record v { queue = q }, ok r)
  ended t msg v r w (q, err e) = (record w { queue = q }, err (with_msg msg e))

  abbrev pub with_bytes :
      {R : Type 0}
      → (t : ℕ) → Value t
      → State
      → (B → Reply R t)
      → Result B (EncodeError G)
      → Reply R t
  with_bytes t msg w go (ok bytes) = go bytes
  with_bytes t msg w go (err e) = returned (w, err (other (encode_error e) msg))

  -- `oneshot::channel`, and a spawned task that waits for the response.
  abbrev pub channel : State → State
  channel w = record w { channels = suc w.channels }

  abbrev pub spawn : Task msgs → State → State
  spawn task w = record w { tasks = w.tasks ++ task ∷ [] }

  -- The code's `RemoteAddress`, whose proxy is the parameter.
  pub record RemoteAddress : Type 0 where
    pub actor_id : ActorId
    pub codec_table : CodecTable msgs

  unfoldable pub new : ℕ → CodecTable msgs → RemoteAddress
  unfolding new_remote
  new index codec_table = record {
    actor_id = new_remote index proxy.index;
    codec_table = codec_table;
  }

  -- The lookup of the codec and the encoding, with which every call begins.
  abbrev pub with_codec :
      {R : Type 0}
      → (t : ℕ) → Value t
      → State
      → (MessageCodec msgs → B → Reply R t)
      → Option (MessageCodec msgs)
      → Reply R t
  with_codec t msg w go none = returned (w, err (no_encode_fn msg))
  with_codec t msg w go (some codec) =
      codec.encode_msg t msg proxy.encode_context >>= with_bytes t msg w (go codec)

  -- The first channel is that of the bytes; the second, and the task between the two, are made
  -- when the proxy has taken the message.
  abbrev pub send_bytes : Way → ℕ → (t : ℕ) → Value t → State → MessageCodec msgs → B → Reply ℕ t
  send_bytes way index t msg w codec bytes =
      let raw = w.channels in
      let tx = suc raw in
      let task : Task msgs = record {
        raw_rx = raw;
        tx = tx;
        message = t;
        run = decode_res msgs t proxy.decode_context codec;
      } in
      way (BinaryMessage.send index codec.message_id bytes raw) w.queue >>= λ r.
      returned (ended t msg (spawn task (channel (channel w))) tx (channel w) r)

  abbrev pub do_send_bytes :
      Way → ℕ → (t : ℕ) → Value t → State → MessageCodec msgs → B → Reply (Unit {0}) t
  do_send_bytes way index t msg w codec bytes =
      way (BinaryMessage.do_send index codec.message_id bytes) w.queue >>= λ r.
      returned (ended t msg w tt w r)

  unfoldable pub send_by : Way → RemoteAddress → (t : ℕ) → Value t → State → Reply ℕ t
  send_by way a t msg w =
      with_codec t msg w (send_bytes way (as_local a.actor_id) t msg w)
        (HashMap.get t a.codec_table)

  unfoldable pub do_send_by : Way → RemoteAddress → (t : ℕ) → Value t → State → Reply (Unit {0}) t
  do_send_by way a t msg w =
      with_codec t msg w (do_send_bytes way (as_local a.actor_id) t msg w)
        (HashMap.get t a.codec_table)

  -- The calls differ in the call of the proxy alone.
  unfoldable pub send : RemoteAddress → (t : ℕ) → Value t → State → Reply ℕ t
  unfolding send_by
  send a t msg w = send_by proxy.do_send a t msg w

  unfoldable pub do_send : RemoteAddress → (t : ℕ) → Value t → State → Reply (Unit {0}) t
  unfolding do_send_by
  do_send a t msg w = do_send_by proxy.do_send a t msg w

  unfoldable pub try_send : RemoteAddress → (t : ℕ) → Value t → State → Reply ℕ t
  unfolding send_by
  try_send a t msg w = send_by proxy.try_do_send a t msg w

  unfoldable pub try_do_send : RemoteAddress → (t : ℕ) → Value t → State → Reply (Unit {0}) t
  unfolding do_send_by
  try_do_send a t msg w = do_send_by proxy.try_do_send a t msg w

  unfoldable pub send_timeout : RemoteAddress → (t : ℕ) → Value t → ℕ → State → Reply ℕ t
  unfolding send_by
  send_timeout a t msg d w = send_by (λ m q. proxy.do_send_timeout m d q) a t msg w

  unfoldable pub do_send_timeout :
      RemoteAddress → (t : ℕ) → Value t → ℕ → State → Reply (Unit {0}) t
  unfolding do_send_by
  do_send_timeout a t msg d w = do_send_by (λ m q. proxy.do_send_timeout m d q) a t msg w

  unfoldable pub blocking_send : RemoteAddress → (t : ℕ) → Value t → State → Reply ℕ t
  unfolding send_by
  blocking_send a t msg w = send_by proxy.blocking_do_send a t msg w

  unfoldable pub blocking_do_send : RemoteAddress → (t : ℕ) → Value t → State → Reply (Unit {0}) t
  unfolding do_send_by
  blocking_do_send a t msg w = do_send_by proxy.blocking_do_send a t msg w

  unfoldable pub sender : RemoteAddress → (t : ℕ) → Sender State (BoxError G) (Value t)
  sender a t = record {
    index = a.actor_id;
    is_closed = λ w. proxy.is_closed w.queue;
    capacity = λ w. proxy.capacity w.queue;
    send = send a t;
    do_send = do_send a t;
    try_send = try_send a t;
    try_do_send = try_do_send a t;
    send_timeout = send_timeout a t;
    do_send_timeout = do_send_timeout a t;
    blocking_send = blocking_send a t;
    blocking_do_send = blocking_do_send a t;
  }

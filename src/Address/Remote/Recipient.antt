-- ===== src/Address/Remote/Recipient.antt =====
-- acktor/src/address/remote.rs: how a recipient sends a message to an actor of another process. It
-- has the codec of its message type, and no table.
use acktor.Base.{ℕ, suc, returned, ◌>>=◌}
use acktor.Actor.Index.{ActorId, as_local, new_remote}
use acktor.BinaryMessage
use acktor.Address.{BoxError, Messages, Sender}
use acktor.Address.Responses.{Task, decode_res_with_bound}
use acktor.Address.Remote.{RemoteProxy, Way, State, Reply, ended, with_bytes, channel, spawn}

module _ {B G Q : Type 0} (msgs : Messages B G) (proxy : RemoteProxy B G Q) where
  open msgs use {Value, id, encode_to_bytes}

  pub record RemoteRecipient : Type 0 where
    pub actor_id : ActorId

  unfoldable pub new : ℕ → RemoteRecipient
  unfolding new_remote
  new index = record { actor_id = new_remote index proxy.index }

  -- Both channels are made, and the task is spawned, before the proxy is called.
  abbrev pub send_bytes :
      Way msgs proxy → ℕ → (t : ℕ) → Value t → State msgs proxy → B → Reply msgs proxy ℕ t
  send_bytes way index t msg w bytes =
      let raw = w.channels in
      let tx = suc raw in
      let task : Task msgs = record {
        raw_rx = raw;
        tx = tx;
        message = t;
        run = decode_res_with_bound msgs t proxy.decode_context;
      } in
      let v = spawn msgs proxy task (channel msgs proxy (channel msgs proxy w)) in
      way (BinaryMessage.send index (id t) bytes raw) w.queue >>= λ r.
      returned (ended msgs proxy t msg v tx v r)

  abbrev pub do_send_bytes :
      Way msgs proxy → ℕ → (t : ℕ) → Value t → State msgs proxy → B → Reply msgs proxy (Unit {0}) t
  do_send_bytes way index t msg w bytes =
      way (BinaryMessage.do_send index (id t) bytes) w.queue >>= λ r.
      returned (ended msgs proxy t msg w tt w r)

  unfoldable pub send_by :
      Way msgs proxy → RemoteRecipient → (t : ℕ) → Value t → State msgs proxy → Reply msgs proxy ℕ t
  send_by way a t msg w =
      with_bytes msgs proxy t msg w (send_bytes way (as_local a.actor_id) t msg w)
        (encode_to_bytes t msg proxy.encode_context)

  unfoldable pub do_send_by :
      Way msgs proxy
      → RemoteRecipient
      → (t : ℕ) → Value t
      → State msgs proxy
      → Reply msgs proxy (Unit {0}) t
  do_send_by way a t msg w =
      with_bytes msgs proxy t msg w (do_send_bytes way (as_local a.actor_id) t msg w)
        (encode_to_bytes t msg proxy.encode_context)

  -- The calls differ in the call of the proxy alone.
  unfoldable pub send :
      RemoteRecipient → (t : ℕ) → Value t → State msgs proxy → Reply msgs proxy ℕ t
  unfolding send_by
  send a t msg w = send_by proxy.do_send a t msg w

  unfoldable pub do_send :
      RemoteRecipient → (t : ℕ) → Value t → State msgs proxy → Reply msgs proxy (Unit {0}) t
  unfolding do_send_by
  do_send a t msg w = do_send_by proxy.do_send a t msg w

  unfoldable pub try_send :
      RemoteRecipient → (t : ℕ) → Value t → State msgs proxy → Reply msgs proxy ℕ t
  unfolding send_by
  try_send a t msg w = send_by proxy.try_do_send a t msg w

  unfoldable pub try_do_send :
      RemoteRecipient → (t : ℕ) → Value t → State msgs proxy → Reply msgs proxy (Unit {0}) t
  unfolding do_send_by
  try_do_send a t msg w = do_send_by proxy.try_do_send a t msg w

  unfoldable pub send_timeout :
      RemoteRecipient → (t : ℕ) → Value t → ℕ → State msgs proxy → Reply msgs proxy ℕ t
  unfolding send_by
  send_timeout a t msg d w = send_by (λ m q. proxy.do_send_timeout m d q) a t msg w

  unfoldable pub do_send_timeout :
      RemoteRecipient → (t : ℕ) → Value t → ℕ → State msgs proxy → Reply msgs proxy (Unit {0}) t
  unfolding do_send_by
  do_send_timeout a t msg d w = do_send_by (λ m q. proxy.do_send_timeout m d q) a t msg w

  unfoldable pub blocking_send :
      RemoteRecipient → (t : ℕ) → Value t → State msgs proxy → Reply msgs proxy ℕ t
  unfolding send_by
  blocking_send a t msg w = send_by proxy.blocking_do_send a t msg w

  unfoldable pub blocking_do_send :
      RemoteRecipient → (t : ℕ) → Value t → State msgs proxy → Reply msgs proxy (Unit {0}) t
  unfolding do_send_by
  blocking_do_send a t msg w = do_send_by proxy.blocking_do_send a t msg w

  unfoldable pub sender :
      RemoteRecipient → (t : ℕ) → Sender (State msgs proxy) (BoxError G) (Value t)
  sender a t = record {
    index = a.actor_id;
    is_closed = λ w. proxy.is_closed w.queue;
    capacity = λ w. proxy.capacity w.queue;
    send = send a t;
    do_send = do_send a t;
    try_send = try_send a t;
    try_do_send = try_do_send a t;
    send_timeout = send_timeout a t;
    do_send_timeout = do_send_timeout a t;
    blocking_send = blocking_send a t;
    blocking_do_send = blocking_do_send a t;
  }

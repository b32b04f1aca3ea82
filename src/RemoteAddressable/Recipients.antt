-- ===== src/RemoteAddressable/Recipients.antt =====
-- A remote address with the table of the derive macro, and a remote recipient: the two ways of
-- acktor/src/address/remote.rs to reach the same actor.
use acktor.Base.{
  ℕ, suc, ◌≡◌, refl, ap, ◌∙◌, fun_ext, true, Option, none, some, List, Result, ok, err, Outcome,
  returned, panicked, ◌>>=◌,
}
use mathlib.Core.Path.{subst⁻¹}
use acktor.Base.Eq.{nat_eq}
use acktor.HashMap
use acktor.Codec.{DecodeContext, DecodeError, EncodeError, and_then, ok_or, downcast_failed}
use acktor.Errors.{RecvError, SendError}
use acktor.Erased.{downcast_same}
use acktor.BinaryMessage
use acktor.Address.{BoxError, decode_error, Messages, Sender, DoSendResult}
use acktor.Address.Responses.{
  MessageCodec, decode_res, decode_res_with_bound, decoded, decode_failed,
}
use acktor.Address.Remote
use acktor.Address.Remote.{
  RemoteProxy, State, Reply, Way, ended, with_bytes, with_codec, channel, spawn,
}
use acktor.Address.Remote.Recipient
use acktor.RemoteAddressable.{codec_of, codec_table}
use acktor.RemoteAddressable.Tables.{listed, get-codec_table, encode_msg_same}

module _ {W E M : Type 0} {Q : Type 0} (queue : W → Q) where
  -- The second call ends as the first does: in the same world if the message is sent, and with the
  -- same error and the same channel if it is not.
  abbrev pub Agrees :
      {R : Type 0}
      → Outcome (W × Result R (SendError E M))
      → Outcome (W × Result R (SendError E M))
      → Type 0
  Agrees panicked o = o ≡ panicked
  Agrees (returned (v, ok r)) o = o ≡ returned (v, ok r)
  Agrees (returned (v, err e)) o = (u : W) × (o ≡ returned (u, err e)) × (queue u ≡ queue v)

  pub record Agreement (s r : Sender W E M) : Type 0 where
    pub index_agrees : r.index ≡ s.index
    pub is_closed_agrees : (w : W) → r.is_closed w ≡ s.is_closed w
    pub capacity_agrees : (w : W) → r.capacity w ≡ s.capacity w
    pub send_agrees : (m : M) (w : W) → Agrees (s.send m w) (r.send m w)
    pub do_send_agrees : (m : M) (w : W) → Agrees (s.do_send m w) (r.do_send m w)
    pub try_send_agrees : (m : M) (w : W) → Agrees (s.try_send m w) (r.try_send m w)
    pub try_do_send_agrees : (m : M) (w : W) → Agrees (s.try_do_send m w) (r.try_do_send m w)
    pub send_timeout_agrees :
        (m : M) (d : ℕ) (w : W) → Agrees (s.send_timeout m d w) (r.send_timeout m d w)
    pub do_send_timeout_agrees :
        (m : M) (d : ℕ) (w : W) → Agrees (s.do_send_timeout m d w) (r.do_send_timeout m d w)
    pub blocking_send_agrees : (m : M) (w : W) → Agrees (s.blocking_send m w) (r.blocking_send m w)
    pub blocking_do_send_agrees :
        (m : M) (w : W) → Agrees (s.blocking_do_send m w) (r.blocking_do_send m w)

module _ {B G : Type 0} (msgs : Messages B G) where
  open msgs use {Value, result, id, encode_to_bytes, decode}

  -- Both tasks give the same end to the receiver.
  pub decode_res_same :
      (t : ℕ) (ctx : Option DecodeContext) (raw : Option (Result B (RecvError (BoxError G))))
      → decode_res msgs t ctx (codec_of msgs t) raw ≡ decode_res_with_bound msgs t ctx raw
  unfolding decode_res decode_res_with_bound decoded codec_of
  decode_res_same t ctx none = refl
  decode_res_same t ctx (some (err e)) = refl
  decode_res_same t ctx (some (ok bytes)) = ap some (go (decode (result t) bytes ctx))
    where
      go :
          (r : Result (Value (result t)) DecodeError)
          → decoded msgs t (and_then r (λ v. ok (result t, v))) ≡ decode_failed msgs (result t) r
      go (ok v) =
          ap (λ o. ok_or o (decode_error downcast_failed)) (downcast_same Value (result t) v)
      go (err e) = refl

module _ {B G Q : Type 0} (msgs : Messages B G) (proxy : RemoteProxy B G Q) where
  open msgs use {Value, result, id, encode_to_bytes, decode}

  abbrev queue : State msgs proxy → Q
  queue w = w.queue

  with_codec-listed :
      {R : Type 0} (t : ℕ) (ts : List ℕ) (m : Value t) (w : State msgs proxy)
      (go : MessageCodec msgs → B → Reply msgs proxy R t)
      → listed t ts ≡ true
      → with_codec msgs proxy t m w go (HashMap.get t (codec_table msgs ts))
        ≡ with_bytes msgs proxy t m w
            (go (codec_of msgs t))
            (encode_to_bytes t m proxy.encode_context)
  with_codec-listed t ts m w go h =
      ap (with_codec msgs proxy t m w go) (get-codec_table msgs t ts h)
      ∙ ap (λ o. o >>= with_bytes msgs proxy t m w (go (codec_of msgs t)))
          (encode_msg_same msgs t m proxy.encode_context)

  with_bytes-Agrees :
      {R : Type 0} (t : ℕ) (m : Value t) (w : State msgs proxy) (f g : B → Reply msgs proxy R t)
      → ((b : B) → Agrees queue (f b) (g b))
      → (r : Result B (EncodeError G))
      → Agrees queue (with_bytes msgs proxy t m w f r) (with_bytes msgs proxy t m w g r)
  with_bytes-Agrees t m w f g h (ok b) = h b
  with_bytes-Agrees t m w f g h (err e) = (w, refl, refl)

  ended-Agrees :
      {R : Type 0} (t : ℕ) (m : Value t) (w v : State msgs proxy) (x : R)
      → (o : Outcome (Q × DoSendResult (BoxError G) (Unit {0})))
      → Agrees queue
          (o >>= λ r. returned (ended msgs proxy t m v x v r))
          (o >>= λ r. returned (ended msgs proxy t m v x w r))
  ended-Agrees t m w v x panicked = refl
  ended-Agrees t m w v x (returned (q, ok y)) = refl
  ended-Agrees t m w v x (returned (q, err e)) = (record w { queue = q }, refl, refl)

  send_bytes-Agrees :
      (way : Way msgs proxy) (i t : ℕ) (m : Value t) (w : State msgs proxy) (b : B)
      → Agrees queue
          (Recipient.send_bytes msgs proxy way i t m w b)
          (Remote.send_bytes msgs proxy way i t m w (codec_of msgs t) b)
  unfolding codec_of
  send_bytes-Agrees way i t m w b =
      subst⁻¹
        (λ run. Agrees queue (Recipient.send_bytes msgs proxy way i t m w b) (
          way (BinaryMessage.send i (id t) b w.channels) w.queue >>= λ r.
          returned (ended msgs proxy t m (spawned run) (suc w.channels) (channel msgs proxy w) r)))
        (fun_ext (decode_res_same msgs t proxy.decode_context))
        (ended-Agrees t m (channel msgs proxy w)
          (spawned (decode_res_with_bound msgs t proxy.decode_context)) (suc w.channels)
          (way (BinaryMessage.send i (id t) b w.channels) w.queue))
    where
      spawned :
          (Option (Result B (RecvError (BoxError G)))
            → Option (Result (Value (result t)) (BoxError G)))
          → State msgs proxy
      spawned run =
          spawn msgs proxy
            (record { raw_rx = w.channels; tx = suc w.channels; message = t; run = run })
            (channel msgs proxy (channel msgs proxy w))

  send_by-Agrees :
      (way : Way msgs proxy) (i t : ℕ) (ts : List ℕ)
      → listed t ts ≡ true
      → (m : Value t) (w : State msgs proxy)
      → Agrees queue
          (Recipient.send_by msgs proxy way (Recipient.new msgs proxy i) t m w)
          (Remote.send_by msgs proxy way (Remote.new msgs proxy i (codec_table msgs ts)) t m w)
  unfolding Recipient.send_by Remote.send_by Recipient.new Remote.new
  send_by-Agrees way i t ts h m w =
      subst⁻¹ (Agrees queue (Recipient.send_by msgs proxy way (Recipient.new msgs proxy i) t m w))
        (with_codec-listed t ts m w (Remote.send_bytes msgs proxy way i t m w) h)
        (with_bytes-Agrees t m w (Recipient.send_bytes msgs proxy way i t m w)
          (Remote.send_bytes msgs proxy way i t m w (codec_of msgs t))
          (send_bytes-Agrees way i t m w) (encode_to_bytes t m proxy.encode_context))

  do_send_by-Agrees :
      (way : Way msgs proxy) (i t : ℕ) (ts : List ℕ)
      → listed t ts ≡ true
      → (m : Value t) (w : State msgs proxy)
      → Agrees queue
          (Recipient.do_send_by msgs proxy way (Recipient.new msgs proxy i) t m w)
          (Remote.do_send_by msgs proxy way (Remote.new msgs proxy i (codec_table msgs ts)) t m w)
  unfolding Recipient.do_send_by Remote.do_send_by Recipient.new Remote.new codec_of
  do_send_by-Agrees way i t ts h m w =
      subst⁻¹
        (Agrees queue (Recipient.do_send_by msgs proxy way (Recipient.new msgs proxy i) t m w))
        (with_codec-listed t ts m w (Remote.do_send_bytes msgs proxy way i t m w) h)
        (with_bytes-Agrees t m w (Recipient.do_send_bytes msgs proxy way i t m w)
          (Remote.do_send_bytes msgs proxy way i t m w (codec_of msgs t))
          (λ b. ended-Agrees t m w w tt (way (BinaryMessage.do_send i (id t) b) w.queue))
          (encode_to_bytes t m proxy.encode_context))

  -- For a message of the actor's list, a remote recipient and a remote address with the generated
  -- table do the same: each of the eight ways to send ends in the same world with the same receiver,
  -- or with the same error and the same channel; a panic of the proxy is passed on by both.
  pub sender-Agreement :
      (i t : ℕ) (ts : List ℕ)
      → listed t ts ≡ true
      → Agreement queue
          (Recipient.sender msgs proxy (Recipient.new msgs proxy i) t)
          (Remote.sender msgs proxy (Remote.new msgs proxy i (codec_table msgs ts)) t)
  unfolding Recipient.new Remote.new Recipient.sender Remote.sender Recipient.send Recipient.do_send
      Recipient.try_send Recipient.try_do_send Recipient.send_timeout Recipient.do_send_timeout
      Recipient.blocking_send Recipient.blocking_do_send Remote.send Remote.do_send Remote.try_send
      Remote.try_do_send Remote.send_timeout Remote.do_send_timeout Remote.blocking_send
      Remote.blocking_do_send
  sender-Agreement i t ts h = record {
    index_agrees = refl;
    is_closed_agrees = λ w. refl;
    capacity_agrees = λ w. refl;
    send_agrees = send_by-Agrees proxy.do_send i t ts h;
    do_send_agrees = do_send_by-Agrees proxy.do_send i t ts h;
    try_send_agrees = send_by-Agrees proxy.try_do_send i t ts h;
    try_do_send_agrees = do_send_by-Agrees proxy.try_do_send i t ts h;
    send_timeout_agrees = λ m d. send_by-Agrees (λ b q. proxy.do_send_timeout b d q) i t ts h m;
    do_send_timeout_agrees =
        λ m d. do_send_by-Agrees (λ b q. proxy.do_send_timeout b d q) i t ts h m;
    blocking_send_agrees = send_by-Agrees proxy.blocking_do_send i t ts h;
    blocking_do_send_agrees = do_send_by-Agrees proxy.blocking_do_send i t ts h;
  }

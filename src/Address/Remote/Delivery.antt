-- ===== src/Address/Remote/Delivery.antt =====
-- acktor/src/address/remote.rs: what a remote recipient promises over a proxy that does not lose
-- messages.
use acktor.Base.{
  ℕ, suc, ◌≡◌, refl, Option, none, some, List, [], ◌∷◌, ◌++◌, Result, ok, err, Outcome, returned,
  panicked, ◌>>=◌, Bool, true, false,
}
use acktor.Actor.Index.{new_remote}
use acktor.Codec.{EncodeError}
use acktor.Errors.{SendError, with_msg, closed, full, timeout, no_encode_fn, other}
use acktor.BinaryMessage
use acktor.BinaryMessage.{BinaryMessage}
use acktor.Address.{BoxError, Messages, DoSendResult, Contract, Delivers, returned_msg}
use acktor.Address.Responses.{Task, decode_res_with_bound}
use acktor.Address.Remote.{RemoteProxy, State, Way, Reply, ended, with_bytes, channel, spawn}
use acktor.Address.Remote.Recipient

module _ {B E Q P : Type 0} (put : BinaryMessage B → P) (sent : Q → List P) where
  -- What a call of a proxy promises: it sends the message, or nothing; and it returns, unless it is
  -- `blocked`. `put` tells what stands for a
  -- binary message in the channel under the proxy.
  abbrev pub Takes : Bool → BinaryMessage B → Q → Outcome (Q × DoSendResult E (Unit {0})) → Type 0
  Takes blocked b q panicked = blocked ≡ true
  Takes blocked b q (returned (p, ok u)) = (sent p ≡ sent q ++ put b ∷ []) × (blocked ≡ false)
  Takes blocked b q (returned (p, err e)) = sent p ≡ sent q

pub record IsFaithful {B G Q P : Type 0} (put : BinaryMessage B → P) (sent : Q → List P)
    (in_async : Q → Bool) (proxy : RemoteProxy B G Q) : Type 0 where
  pub do_send_takes : (b : BinaryMessage B) (q : Q) → Takes put sent false b q (proxy.do_send b q)
  pub try_do_send_takes :
      (b : BinaryMessage B) (q : Q) → Takes put sent false b q (proxy.try_do_send b q)
  pub do_send_timeout_takes :
      (b : BinaryMessage B) (d : ℕ) (q : Q) → Takes put sent false b q (proxy.do_send_timeout b d q)
  pub blocking_do_send_takes :
      (b : BinaryMessage B) (q : Q) → Takes put sent (in_async q) b q (proxy.blocking_do_send b q)

pub returned_msg-with_msg :
    {E M : Type 0} (m : M) (e : SendError E (Unit {0})) → returned_msg (with_msg m e) ≡ m
unfolding with_msg
returned_msg-with_msg m (closed u) = refl
returned_msg-with_msg m (full u) = refl
returned_msg-with_msg m (timeout u) = refl
returned_msg-with_msg m (no_encode_fn u) = refl
returned_msg-with_msg m (other e u) = refl

module _ {B G Q P : Type 0} (msgs : Messages B G) (proxy : RemoteProxy B G Q)
    (put : BinaryMessage B → P) (sent : Q → List P) where
  open msgs use {Value, id, encode_to_bytes}

  abbrev pub sent_of : State msgs proxy → List P
  sent_of w = sent w.queue

  -- The binary message for the actor `i`; the last task takes its response to the receiver.
  abbrev pub Stands : (i t : ℕ) → B → Option ℕ → State msgs proxy → P → Type 0
  Stands i t bytes none v p = p ≡ put (BinaryMessage.do_send i (id t) bytes)
  Stands i t bytes (some receiver) v p =
      (raw : ℕ) × (before : List (Task msgs)) × (p ≡ put (BinaryMessage.send i (id t) bytes raw))
      × (v.tasks
          ≡ before
            ++ record {
              raw_rx = raw;
              tx = receiver;
              message = t;
              run = decode_res_with_bound msgs t proxy.decode_context;
            }
              ∷ [])

  -- The bytes in it are those that the message encodes to.
  abbrev pub Carries : (i t : ℕ) → Value t → Option ℕ → State msgs proxy → P → Type 0
  Carries i t m receiver v p =
      (bytes : B) × (encode_to_bytes t m proxy.encode_context ≡ ok bytes)
      × Stands i t bytes receiver v p

  module _ (in_async : Q → Bool) (faithful : IsFaithful put sent in_async proxy) where
    ended-Delivers :
        (blocked : Bool) {R : Type 0} (receiver : R → Option ℕ) (i t : ℕ) (m : Value t)
        (w v u : State msgs proxy) (x : R) (bytes : B) (b : BinaryMessage B)
        → encode_to_bytes t m proxy.encode_context ≡ ok bytes
        → ((q : Q) → Stands i t bytes (receiver x) (record v { queue = q }) (put b))
        → (o : Outcome (Q × DoSendResult (BoxError G) (Unit {0})))
        → Takes put sent blocked b w.queue o
        → Delivers sent_of
            (Carries i t)
            blocked
            receiver
            m
            w
            (o >>= λ r. returned (ended msgs proxy t m v x u r))
    ended-Delivers blocked receiver i t m w v u x bytes b h s panicked k = k
    ended-Delivers blocked receiver i t m w v u x bytes b h s (returned (q, ok y)) k =
        (put b, k.0, (bytes, h, s q), k.1)
    ended-Delivers blocked receiver i t m w v u x bytes b h s (returned (q, err e)) k =
        (k, returned_msg-with_msg m e)

    -- Where the encoding fails nothing is sent.
    with_bytes-Delivers :
        (blocked : Bool) {R : Type 0} (receiver : R → Option ℕ) (i t : ℕ) (m : Value t)
        (w : State msgs proxy) (go : B → Reply msgs proxy R t) (r : Result B (EncodeError G))
        → ((bytes : B)
            → r ≡ ok bytes
            → Delivers sent_of (Carries i t) blocked receiver m w (go bytes))
        → Delivers sent_of (Carries i t) blocked receiver m w (with_bytes msgs proxy t m w go r)
    with_bytes-Delivers blocked receiver i t m w go (ok bytes) h = h bytes refl
    with_bytes-Delivers blocked receiver i t m w go (err e) h = (refl, refl)

    send_by-Sends :
        (blocked : Q → Bool) (way : Way msgs proxy)
        → ((b : BinaryMessage B) (q : Q) → Takes put sent (blocked q) b q (way b q))
        → (i t : ℕ) (m : Value t) (w : State msgs proxy)
        → Delivers sent_of
            (Carries i t)
            (blocked w.queue)
            some
            m
            w
            (Recipient.send_by msgs proxy way (Recipient.new msgs proxy i) t m w)
    unfolding Recipient.send_by Recipient.new new_remote
    send_by-Sends blocked way takes i t m w =
        with_bytes-Delivers (blocked w.queue) some i t m w
          (Recipient.send_bytes msgs proxy way i t m w) (encode_to_bytes t m proxy.encode_context)
          (λ bytes h.
            ended-Delivers (blocked w.queue) some i t m w waiting waiting (suc w.channels) bytes
              (BinaryMessage.send i (id t) bytes w.channels) h
              (λ q. (w.channels, w.tasks, refl, refl))
              (way (BinaryMessage.send i (id t) bytes w.channels) w.queue)
              (takes (BinaryMessage.send i (id t) bytes w.channels) w.queue))
      where
        waiting : State msgs proxy
        waiting =
            spawn msgs proxy
              (record {
                raw_rx = w.channels;
                tx = suc w.channels;
                message = t;
                run = decode_res_with_bound msgs t proxy.decode_context;
              })
              (channel msgs proxy (channel msgs proxy w))

    do_send_by-DoSends :
        (blocked : Q → Bool) (way : Way msgs proxy)
        → ((b : BinaryMessage B) (q : Q) → Takes put sent (blocked q) b q (way b q))
        → (i t : ℕ) (m : Value t) (w : State msgs proxy)
        → Delivers sent_of
            (Carries i t)
            (blocked w.queue)
            (λ u. none)
            m
            w
            (Recipient.do_send_by msgs proxy way (Recipient.new msgs proxy i) t m w)
    unfolding Recipient.do_send_by Recipient.new new_remote
    do_send_by-DoSends blocked way takes i t m w =
        with_bytes-Delivers (blocked w.queue) (λ u. none) i t m w
          (Recipient.do_send_bytes msgs proxy way i t m w)
          (encode_to_bytes t m proxy.encode_context)
          (λ bytes h.
            ended-Delivers (blocked w.queue) (λ u. none) i t m w w w tt bytes
              (BinaryMessage.do_send i (id t) bytes) h (λ q. refl)
              (way (BinaryMessage.do_send i (id t) bytes) w.queue)
              (takes (BinaryMessage.do_send i (id t) bytes) w.queue))

    -- Over a faithful proxy each way to send puts one binary message into the proxy, for the actor,
    -- with the number and the bytes of the message, or it puts nothing there and gives the very
    -- message back. A response comes to the receiver that the call returned, by the last task.
    pub remote_recipient-Contract :
        (i t : ℕ)
        → Contract sent_of
            (Carries i t)
            (λ w. in_async w.queue)
            (Recipient.sender msgs proxy (Recipient.new msgs proxy i) t)
    unfolding Recipient.sender Recipient.send Recipient.do_send Recipient.try_send
        Recipient.try_do_send Recipient.send_timeout Recipient.do_send_timeout
        Recipient.blocking_send Recipient.blocking_do_send
    remote_recipient-Contract i t = record {
      send_lem = send_by-Sends (λ q. false) proxy.do_send faithful.do_send_takes i t;
      do_send_lem = do_send_by-DoSends (λ q. false) proxy.do_send faithful.do_send_takes i t;
      try_send_lem = send_by-Sends (λ q. false) proxy.try_do_send faithful.try_do_send_takes i t;
      try_do_send_lem =
          do_send_by-DoSends (λ q. false) proxy.try_do_send faithful.try_do_send_takes i t;
      send_timeout_lem = λ m d.
          send_by-Sends (λ q. false) (λ b q. proxy.do_send_timeout b d q)
            (λ b q. faithful.do_send_timeout_takes b d q) i t m;
      do_send_timeout_lem = λ m d.
          do_send_by-DoSends (λ q. false) (λ b q. proxy.do_send_timeout b d q)
            (λ b q. faithful.do_send_timeout_takes b d q) i t m;
      blocking_send_lem =
          send_by-Sends in_async proxy.blocking_do_send faithful.blocking_do_send_takes i t;
      blocking_do_send_lem =
          do_send_by-DoSends in_async proxy.blocking_do_send faithful.blocking_do_send_takes i t;
    }

-- ===== src/Address/Local/Delivery.antt =====
-- acktor/src/address/local.rs: what a local address promises.
use acktor.Base.{
  ℕ, ◌≡◌, refl, ap, ◌∙◌, Option, none, some, List, Result, ok, err, Outcome, returned, panicked,
  ◌>>=◌, Bool, false,
}
use mathlib.Core.Path.{subst⁻¹}
use acktor.Errors.{SendError}
use acktor.Envelope.{IntoEnvelope}
use acktor.Address.{Contract, Delivers, returned_msg}
use acktor.Address.Mpsc.{
  MpscSender, MpscSendError, send_error, TrySendError, SendTimeoutError, Accepts, Blocks, unsent_of,
  try_unsent_of, timeout_unsent_of,
}
use acktor.Address.Local
use acktor.Address.Local.{
  LocalAddress, State, closed_with, send_failed, try_send_failed, send_timeout_failed, ended,
  channel,
}

module _ (E T : Type 0) {Env M : Type 0} (mp : MpscSender Env) (into : IntoEnvelope Env M) where
  abbrev pub sent_of : State E T mp into → List Env
  sent_of w = mp.sent w.queue

  -- The envelope of the message and of the sender of its response.
  abbrev pub Carries : M → Option ℕ → State E T mp into → Env → Type 0
  Carries m receiver v e = e ≡ into.pack m receiver

  -- The error of a call whose envelope is that of `m`.
  abbrev Fails : M → Outcome (SendError E M) → Type 0
  Fails m o = (e : SendError E M) × (o ≡ returned e) × (returned_msg e ≡ m)

  pack-Fails :
      (m : M) (rx : Option ℕ) (f : M → SendError E M)
      → returned_msg (f m) ≡ m
      → (e : Env) → e ≡ into.pack m rx
      → Fails m (into.unpack e >>= λ m. returned (f m))
  pack-Fails m rx f h e p = (
    f m,
    ap (λ e. into.unpack e >>= λ m. returned (f m)) p
        ∙ ap (λ o. o >>= λ m. returned (f m)) (into.unpack-pack m rx),
    h,
  )

  send_failed-Fails :
      (m : M) (rx : Option ℕ) (x : MpscSendError Env)
      → unsent_of x ≡ into.pack m rx
      → Fails m (send_failed E T mp into x)
  unfolding send_failed closed_with
  send_failed-Fails m rx (send_error e) p = pack-Fails m rx (λ m. SendError.closed m) refl e p

  try_send_failed-Fails :
      (m : M) (rx : Option ℕ) (x : TrySendError Env)
      → try_unsent_of x ≡ into.pack m rx
      → Fails m (try_send_failed E T mp into x)
  unfolding try_send_failed closed_with
  try_send_failed-Fails m rx (TrySendError.closed e) p =
      pack-Fails m rx (λ m. SendError.closed m) refl e p
  try_send_failed-Fails m rx (TrySendError.full e) p =
      pack-Fails m rx (λ m. SendError.full m) refl e p

  send_timeout_failed-Fails :
      (m : M) (rx : Option ℕ) (x : SendTimeoutError Env)
      → timeout_unsent_of x ≡ into.pack m rx
      → Fails m (send_timeout_failed E T mp into x)
  unfolding send_timeout_failed closed_with
  send_timeout_failed-Fails m rx (SendTimeoutError.closed e) p =
      pack-Fails m rx (λ m. SendError.closed m) refl e p
  send_timeout_failed-Fails m rx (SendTimeoutError.timeout e) p =
      pack-Fails m rx (λ m. SendError.timeout m) refl e p

  ended-Delivers :
      (blocked : Bool)
      → blocked ≡ false
      → {R X : Type 0} (receiver : R → Option ℕ) (m : M) (w v : State E T mp into) (r : R)
        (fail : X → Outcome (SendError E M)) (unsent : X → Env)
      → ((x : X) → unsent x ≡ into.pack m (receiver r) → Fails m (fail x))
      → (o : mp.Queue × Result (Unit {0}) X)
      → Accepts mp.sent unsent (into.pack m (receiver r)) w.queue o
      → Delivers sent_of Carries blocked receiver m w (ended E T mp into v r fail o)
  ended-Delivers blocked free receiver m w v r fail unsent h (q, ok u) k =
      (into.pack m (receiver r), k, refl, free)
  ended-Delivers blocked free receiver m w v r fail unsent h (q, err x) k =
      let (e, p, back) = h x k.1 in
      subst⁻¹
        (λ o.
          Delivers sent_of Carries blocked receiver m w
            (o >>= λ e. returned (record v { queue = q }, err e)))
        p (k.0, back)

  blocked-Delivers :
      (blocked : Bool) {R X : Type 0} (receiver : R → Option ℕ) (m : M) (w v : State E T mp into)
      (r : R) (fail : X → Outcome (SendError E M)) (unsent : X → Env)
      → ((x : X) → unsent x ≡ into.pack m (receiver r) → Fails m (fail x))
      → (o : Outcome (mp.Queue × Result (Unit {0}) X))
      → Blocks blocked mp.sent unsent (into.pack m (receiver r)) w.queue o
      → Delivers sent_of Carries blocked receiver m w (o >>= ended E T mp into v r fail)
  blocked-Delivers blocked receiver m w v r fail unsent h panicked k = k
  blocked-Delivers blocked receiver m w v r fail unsent h (returned o) k =
      ended-Delivers blocked k.0 receiver m w v r fail unsent h o k.1

  -- Each way to send puts one envelope with the message into the mailbox, or it puts nothing there
  -- and gives the very message back, unpacked from the envelope; it does not panic, but for the
  -- blocking ways inside an async execution context.
  pub local_address-Contract :
      (a : LocalAddress)
      → Contract sent_of Carries (λ w. mp.in_async w.queue) (Local.sender E T mp into a)
  unfolding Local.sender Local.send Local.do_send Local.try_send Local.try_do_send
      Local.send_timeout Local.do_send_timeout Local.blocking_send Local.blocking_do_send
  local_address-Contract a = record {
    send_lem = λ m w.
        ended-Delivers false refl some m w (channel E T mp into w) w.channels
          (send_failed E T mp into) unsent_of (send_failed-Fails m (some w.channels))
          (mp.send (into.pack m (some w.channels)) w.queue)
          (mp.send_accepts (into.pack m (some w.channels)) w.queue);
    do_send_lem = λ m w.
        ended-Delivers false refl (λ u. none) m w w tt (send_failed E T mp into) unsent_of
          (send_failed-Fails m none) (mp.send (into.pack m none) w.queue)
          (mp.send_accepts (into.pack m none) w.queue);
    try_send_lem = λ m w.
        ended-Delivers false refl some m w (channel E T mp into w) w.channels
          (try_send_failed E T mp into) try_unsent_of (try_send_failed-Fails m (some w.channels))
          (mp.try_send (into.pack m (some w.channels)) w.queue)
          (mp.try_send_accepts (into.pack m (some w.channels)) w.queue);
    try_do_send_lem = λ m w.
        ended-Delivers false refl (λ u. none) m w w tt (try_send_failed E T mp into) try_unsent_of
          (try_send_failed-Fails m none) (mp.try_send (into.pack m none) w.queue)
          (mp.try_send_accepts (into.pack m none) w.queue);
    send_timeout_lem = λ m d w.
        ended-Delivers false refl some m w (channel E T mp into w) w.channels
          (send_timeout_failed E T mp into) timeout_unsent_of
          (send_timeout_failed-Fails m (some w.channels))
          (mp.send_timeout (into.pack m (some w.channels)) d w.queue)
          (mp.send_timeout_accepts (into.pack m (some w.channels)) d w.queue);
    do_send_timeout_lem = λ m d w.
        ended-Delivers false refl (λ u. none) m w w tt (send_timeout_failed E T mp into)
          timeout_unsent_of (send_timeout_failed-Fails m none)
          (mp.send_timeout (into.pack m none) d w.queue)
          (mp.send_timeout_accepts (into.pack m none) d w.queue);
    blocking_send_lem = λ m w.
        blocked-Delivers (mp.in_async w.queue) some m w (channel E T mp into w) w.channels
          (send_failed E T mp into) unsent_of (send_failed-Fails m (some w.channels))
          (mp.blocking_send (into.pack m (some w.channels)) w.queue)
          (mp.blocking_send_blocks (into.pack m (some w.channels)) w.queue);
    blocking_do_send_lem = λ m w.
        blocked-Delivers (mp.in_async w.queue) (λ u. none) m w w tt (send_failed E T mp into)
          unsent_of (send_failed-Fails m none) (mp.blocking_send (into.pack m none) w.queue)
          (mp.blocking_send_blocks (into.pack m none) w.queue);
  }

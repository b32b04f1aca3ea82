-- ===== src/RemoteAddressable/Delivery.antt =====
-- What a remote address with the table of the derive macro promises, of acktor/src/address/remote.rs
-- and acktor-derive/src/remote_addressable.rs.
use acktor.Base.{
  ℕ, ◌≡◌, ap, ◌∙◌, true, Option, none, some, List, Result, ok, err, Outcome, returned, panicked,
  Bool, false,
}
use mathlib.Core.Path.{subst⁻¹}
use acktor.Errors.{SendError}
use acktor.BinaryMessage.{BinaryMessage}
use acktor.Address.{Messages, Sender, Contract, Delivers}
use acktor.Address.Remote
use acktor.Address.Remote.{RemoteProxy, State}
use acktor.Address.Remote.Recipient
use acktor.Address.Remote.Delivery.{IsFaithful, Carries, sent_of, remote_recipient-Contract}
use acktor.RemoteAddressable.{codec_table}
use acktor.RemoteAddressable.Tables.{listed}
use acktor.RemoteAddressable.Recipients.{Agrees, Agreement, sender-Agreement}

module _ {W E M P Q : Type 0} (queue : W → Q) (sent : Q → List P)
    (Carries : M → Option ℕ → W → P → Type 0) where
  Delivers-Agrees :
      (blocked : Bool) {R : Type 0} (receiver : R → Option ℕ) (m : M) (w : W)
      (a b : Outcome (W × Result R (SendError E M)))
      → Agrees queue a b
      → Delivers (λ w. sent (queue w)) Carries blocked receiver m w a
      → Delivers (λ w. sent (queue w)) Carries blocked receiver m w b
  Delivers-Agrees blocked receiver m w panicked b h d =
      subst⁻¹ (Delivers (λ w. sent (queue w)) Carries blocked receiver m w) h d
  Delivers-Agrees blocked receiver m w (returned (v, ok r)) b h d =
      subst⁻¹ (Delivers (λ w. sent (queue w)) Carries blocked receiver m w) h d
  Delivers-Agrees blocked receiver m w (returned (v, err e)) b (u, h, q) d =
      subst⁻¹ (Delivers (λ w. sent (queue w)) Carries blocked receiver m w) h (ap sent q ∙ d.0, d.1)

  -- A sender that agrees with one that keeps the contract keeps it too.
  pub Contract-Agreement :
      (in_async : Q → Bool) (s r : Sender W E M)
      → Agreement queue s r
      → Contract (λ w. sent (queue w)) Carries (λ w. in_async (queue w)) s
      → Contract (λ w. sent (queue w)) Carries (λ w. in_async (queue w)) r
  Contract-Agreement in_async s r g c = record {
    send_lem = λ m w.
        Delivers-Agrees false some m w (s.send m w) (r.send m w) (g.send_agrees m w)
          (c.send_lem m w);
    do_send_lem = λ m w.
        Delivers-Agrees false (λ u. none) m w (s.do_send m w) (r.do_send m w) (g.do_send_agrees m w)
          (c.do_send_lem m w);
    try_send_lem = λ m w.
        Delivers-Agrees false some m w (s.try_send m w) (r.try_send m w) (g.try_send_agrees m w)
          (c.try_send_lem m w);
    try_do_send_lem = λ m w.
        Delivers-Agrees false (λ u. none) m w (s.try_do_send m w) (r.try_do_send m w)
          (g.try_do_send_agrees m w) (c.try_do_send_lem m w);
    send_timeout_lem = λ m d w.
        Delivers-Agrees false some m w (s.send_timeout m d w) (r.send_timeout m d w)
          (g.send_timeout_agrees m d w) (c.send_timeout_lem m d w);
    do_send_timeout_lem = λ m d w.
        Delivers-Agrees false (λ u. none) m w (s.do_send_timeout m d w) (r.do_send_timeout m d w)
          (g.do_send_timeout_agrees m d w) (c.do_send_timeout_lem m d w);
    blocking_send_lem = λ m w.
        Delivers-Agrees (in_async (queue w)) some m w (s.blocking_send m w) (r.blocking_send m w)
          (g.blocking_send_agrees m w) (c.blocking_send_lem m w);
    blocking_do_send_lem = λ m w.
        Delivers-Agrees (in_async (queue w)) (λ u. none) m w (s.blocking_do_send m w)
          (r.blocking_do_send m w) (g.blocking_do_send_agrees m w) (c.blocking_do_send_lem m w);
  }

module _ {B G Q P : Type 0} (msgs : Messages B G) (proxy : RemoteProxy B G Q)
    (put : BinaryMessage B → P) (sent : Q → List P) where
  -- Over a faithful proxy, for the messages of the actor's list: each way to send through a remote
  -- address puts one binary message into the proxy, for the actor, with the number and the bytes of
  -- the message, or it puts nothing there and gives the very message back; it does not panic, but
  -- for the blocking ways inside an async execution context.
  pub remote_address-Contract :
      (in_async : Q → Bool) (faithful : IsFaithful put sent in_async proxy) (i t : ℕ) (ts : List ℕ)
      → listed t ts ≡ true
      → Contract
          (sent_of msgs proxy put sent)
          (Carries msgs proxy put sent i t)
          (λ w. in_async w.queue)
          (Remote.sender msgs proxy (Remote.new msgs proxy i (codec_table msgs ts)) t)
  remote_address-Contract in_async faithful i t ts h =
      Contract-Agreement (λ w. w.queue) sent (Carries msgs proxy put sent i t) in_async
        (Recipient.sender msgs proxy (Recipient.new msgs proxy i) t)
        (Remote.sender msgs proxy (Remote.new msgs proxy i (codec_table msgs ts)) t)
        (sender-Agreement msgs proxy i t ts h)
        (remote_recipient-Contract msgs proxy put sent in_async faithful i t)

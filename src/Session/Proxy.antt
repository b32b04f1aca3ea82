-- ===== src/Session/Proxy.antt =====
-- acktor-ipc/src/session/proxy.rs: the proxy of a session, through which remote addresses send.
use acktor.Base.{
  false, ℕ, ◌≡◌, ap, ◌∙◌, Bool, Option, none, some, List, [], ◌∷◌, ◌++◌, Result, ok, err, Outcome,
  returned, panicked, if◌then◌else◌, eqb,
}
use acktor.Actor.Index.{as_local}
use acktor.Codec.{DecodeContext, EncodeError}
use acktor.Errors.{without_msg}
use acktor.Registry
use acktor.Registry.{DashMap, RemoteMailbox}
use acktor.BinaryMessage.{BinaryMessage}
use acktor.Address.{BoxError, Sender, DoSendResult, Contract, DoSends}
use acktor.Address.Mpsc.{map_err}
use acktor.Address.Remote.{RemoteProxy}
use acktor.Address.Remote.Delivery.{IsFaithful, Takes}

-- The registry of the proxy.
module _ (dash : DashMap RemoteMailbox) where
  open dash use {Map}

  -- It is registered, or its index is taken: both are a success.
  unfoldable pub register :
      {G : Type 0} → RemoteMailbox → Map → Map × Result (Unit {0}) (EncodeError G)
  unfolding Registry.insert
  register actor r = ((Registry.insert dash actor r).0, ok tt)

-- The address of the session, and whether the proxy is still held (`me.upgrade`).
pub record Proxy (B G W : Type 0) : Type 0 where
  pub session : Sender W (BoxError G) (BinaryMessage B)
  pub is_held : Bool

-- `DecodeContext::remote_proxy` of the proxy `i`.
abbrev pub upgrade : Bool → ℕ → DecodeContext
upgrade held i = if held then some i else none

module _ {B G W : Type 0} where
  unfoldable pub index : Proxy B G W → Outcome ℕ
  index p = let i = as_local p.session.index in if eqb i 0 then panicked else returned i

  abbrev pub silent :
      Outcome (W × DoSendResult (BoxError G) (BinaryMessage B))
      → Outcome (W × DoSendResult (BoxError G) (Unit {0}))
  silent panicked = panicked
  silent (returned (w, r)) = returned (w, map_err without_msg r)

  unfoldable pub do_send :
      Proxy B G W → BinaryMessage B → W → Outcome (W × DoSendResult (BoxError G) (Unit {0}))
  do_send p msg w = silent (p.session.do_send msg w)

  unfoldable pub try_do_send :
      Proxy B G W → BinaryMessage B → W → Outcome (W × DoSendResult (BoxError G) (Unit {0}))
  try_do_send p msg w = silent (p.session.try_do_send msg w)

  unfoldable pub do_send_timeout :
      Proxy B G W → BinaryMessage B → ℕ → W → Outcome (W × DoSendResult (BoxError G) (Unit {0}))
  do_send_timeout p msg d w = silent (p.session.do_send_timeout msg d w)

  unfoldable pub blocking_do_send :
      Proxy B G W → BinaryMessage B → W → Outcome (W × DoSendResult (BoxError G) (Unit {0}))
  blocking_do_send p msg w = silent (p.session.blocking_do_send msg w)

  -- `RemoteProxy` for the proxy, whose index is `i`. What it registers is in the registry `r` then.
  unfoldable pub remote_proxy :
      (dash : DashMap RemoteMailbox) → dash.Map → Proxy B G W → ℕ → RemoteProxy B G W
  unfolding register do_send try_do_send do_send_timeout blocking_do_send
  remote_proxy dash r p i = record {
    encode_context = some (λ a. (register dash (record { index = a }) r).1);
    decode_context = some (upgrade p.is_held i);
    index = i;
    is_closed = p.session.is_closed;
    capacity = p.session.capacity;
    do_send = do_send p;
    try_do_send = try_do_send p;
    do_send_timeout = do_send_timeout p;
    blocking_do_send = blocking_do_send p;
  }

-- `pack` gives the thing in the mailbox of the session that stands for a message.
module _ {B P : Type 0} (pack : BinaryMessage B → Option ℕ → P) where
  abbrev pub Carries : {W : Type 0} → BinaryMessage B → Option ℕ → W → P → Type 0
  Carries b receiver v p = p ≡ pack b receiver

  abbrev pub put : BinaryMessage B → P
  put b = pack b none

module _ {B G W P : Type 0} (sent : W → List P) (in_async : W → Bool)
    (pack : BinaryMessage B → Option ℕ → P) where
  silent-Takes :
      (blocked : Bool) (b : BinaryMessage B) (w : W)
      (o : Outcome (W × DoSendResult (BoxError G) (BinaryMessage B)))
      → DoSends sent (Carries pack) blocked b w o
      → Takes (put pack) sent blocked b w (silent o)
  silent-Takes blocked b w panicked d = d
  silent-Takes blocked b w (returned (v, ok u)) (p, d, e, free) =
      (d ∙ ap (λ p. sent w ++ p ∷ []) e, free)
  silent-Takes blocked b w (returned (v, err e)) d = d.0

  -- A proxy over the address of a session that keeps the contract of senders does not lose
  -- messages: a call that succeeds has put the binary message into the mailbox of the session, and
  -- one that fails has put nothing there.
  pub remote_proxy-IsFaithful :
      (dash : DashMap RemoteMailbox) (r : dash.Map) (p : Proxy B G W) (i : ℕ)
      → Contract sent (Carries pack) in_async p.session
      → IsFaithful (put pack) sent in_async (remote_proxy dash r p i)
  unfolding remote_proxy do_send try_do_send do_send_timeout blocking_do_send
  remote_proxy-IsFaithful dash r p i c = record {
    do_send_takes = λ b w. silent-Takes false b w (p.session.do_send b w) (c.do_send_lem b w);
    try_do_send_takes =
        λ b w. silent-Takes false b w (p.session.try_do_send b w) (c.try_do_send_lem b w);
    do_send_timeout_takes = λ b d w.
        silent-Takes false b w (p.session.do_send_timeout b d w) (c.do_send_timeout_lem b d w);
    blocking_do_send_takes = λ b w.
        silent-Takes (in_async w) b w (p.session.blocking_do_send b w) (c.blocking_do_send_lem b w);
  }

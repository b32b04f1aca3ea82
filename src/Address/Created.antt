-- ===== src/Address/Created.antt =====
-- acktor/src/address/recipient.rs: a recipient that is made with a channel of its own, and no actor.

pub mod Forwarding
use acktor.Base.{
  ℕ, ◌≡◌, Bool, true, false, not, ◌||◌, Option, none, some, List, [], ◌∷◌, Result, ok, err, Outcome,
  returned, ◌>>=◌, String, if◌then◌else◌, eqb, is_some,
}
use acktor.Actor.Index
use acktor.Actor.Index.{ActorId}
use acktor.Codec.{DecodeError, DecodeContext}
use acktor.Errors.{SendError, other}
use acktor.BinaryMessage.{BinaryMessage}
use acktor.Address.{BoxError, World, SendResult, DoSendResult, Sender, text}
use acktor.Address.Mpsc.{
  MpscSender, from_send, from_try_send, from_send_timeout, map_err, MpscSendError,
}

-- `SenderProxy`, and `RemoteAddressableProxy` but for its mailbox; the channel is a parameter.
pub record SenderProxy : Type 0 where
  pub index : ℕ

module _ (G T : Type 0) {M : Type 0} (mp : MpscSender M) where
  abbrev pub State : Type 0
  State = World mp.Queue T

  unfoldable pub index : SenderProxy → ActorId
  index p = Index.new p.index

  abbrev pub with_queue :
      State → mp.Queue × DoSendResult (BoxError G) M → Outcome (State × DoSendResult (BoxError G) M)
  with_queue w r = returned (record w { queue = r.0 }, r.1)

  -- No response can come, so a call that waits for one is refused.
  unfoldable pub unsupported : String → M → State → Outcome (State × SendResult (BoxError G) M)
  unsupported message m w = returned (w, err (other (text message) m))

  unfoldable pub send : M → State → Outcome (State × SendResult (BoxError G) M)
  unfolding unsupported
  send m w = unsupported "Recipient created with Recipient::create does not support send" m w

  unfoldable pub do_send : M → State → Outcome (State × DoSendResult (BoxError G) M)
  unfolding from_send
  do_send m w = let r = mp.send m w.queue in with_queue w (r.0, map_err from_send r.1)

  unfoldable pub try_send : M → State → Outcome (State × SendResult (BoxError G) M)
  unfolding unsupported
  try_send m w =
      unsupported "Recipient created with Recipient::create does not support try_send" m w

  unfoldable pub try_do_send : M → State → Outcome (State × DoSendResult (BoxError G) M)
  unfolding from_try_send
  try_do_send m w = let r = mp.try_send m w.queue in with_queue w (r.0, map_err from_try_send r.1)

  unfoldable pub send_timeout : M → ℕ → State → Outcome (State × SendResult (BoxError G) M)
  unfolding unsupported
  send_timeout m d w =
      unsupported "Recipient created with Recipient::create does not support send_timeout" m w

  unfoldable pub do_send_timeout : M → ℕ → State → Outcome (State × DoSendResult (BoxError G) M)
  unfolding from_send_timeout
  do_send_timeout m d w =
      let r = mp.send_timeout m d w.queue in with_queue w (r.0, map_err from_send_timeout r.1)

  unfoldable pub blocking_send : M → State → Outcome (State × SendResult (BoxError G) M)
  unfolding unsupported
  blocking_send m w =
      unsupported "Recipient created with Recipient::create does not support blocking_send" m w

  unfoldable pub blocking_do_send : M → State → Outcome (State × DoSendResult (BoxError G) M)
  unfolding from_send
  blocking_do_send m w =
      mp.blocking_send m w.queue >>= λ r. with_queue w (r.0, map_err from_send r.1)

  unfoldable pub sender : SenderProxy → Sender State (BoxError G) M
  unfolding index
  sender p = record {
    index = index p;
    is_closed = λ w. mp.is_closed w.queue;
    capacity = λ w. mp.capacity w.queue;
    send = send;
    do_send = do_send;
    try_send = try_send;
    try_do_send = try_do_send;
    send_timeout = send_timeout;
    do_send_timeout = do_send_timeout;
    blocking_send = blocking_send;
    blocking_do_send = blocking_do_send;
  }

-- One turn of the task of `remote_mailbox`: what its `select!` takes.
pub data Turn (B : Type 0) : Type 0 where
  message : BinaryMessage B → Turn B
  inbound_closed outbound_closed : Turn B

-- `M::ID` and `M::decode`.
module _ {B M : Type 0} (id : ℕ) (decode : B → Option DecodeContext → Result M DecodeError)
    (mp : MpscSender M) where
  -- The flag tells whether the task goes on.
  abbrev pub sent_or_ended : mp.Queue × Result (Unit {0}) (MpscSendError M) → mp.Queue × Bool
  sent_or_ended (q, ok u) = (q, true)
  sent_or_ended (q, err e) = (q, false)

  abbrev pub context_of : Option ℕ → Option DecodeContext
  context_of none = none
  context_of (some session) = some (some session)

  abbrev pub decoded : Result M DecodeError → mp.Queue → mp.Queue × Bool
  decoded (ok m) q = sent_or_ended (mp.send m q)
  decoded (err e) q = (q, true)

  abbrev pub is_foreign : SenderProxy → BinaryMessage B → Bool
  is_foreign p b = not (eqb b.actor_id p.index) || not (eqb b.message_id id) || is_some b.result_tx

  unfoldable pub turn : SenderProxy → Turn B → mp.Queue → mp.Queue × Bool
  turn p (message b) q =
      if is_foreign p b then (q, true) else decoded (decode b.bytes (context_of b.decode_msg_ctx)) q
  turn p inbound_closed q = (q, false)
  turn p outbound_closed q = (q, false)

  abbrev pub go_on : (mp.Queue → mp.Queue × Bool) → mp.Queue × Bool → mp.Queue × Bool
  go_on rest (q, true) = rest q
  go_on rest (q, false) = (q, false)

  -- The loop, over the turns that are taken before the task is looked at.
  unfoldable pub run : SenderProxy → List (Turn B) → mp.Queue → mp.Queue × Bool
  unfolding turn
  run p [] q = (q, true)
  run p (t ∷ ts) q = go_on (run p ts) (turn p t q)

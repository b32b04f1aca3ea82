-- ===== src/Address/Local.antt =====
-- acktor/src/address/local.rs and acktor/src/address/permit.rs: how a message is sent to an actor of
-- the same process.
pub mod Delivery
pub mod Permit
use acktor.Base.{
  ℕ, suc, ◌≡◌, refl, Bool, Option, none, some, List, Result, ok, err, Outcome, returned, ◌>>=◌,
}
use acktor.Actor.Index
use acktor.Actor.Index.{ActorId}
use acktor.Errors.{SendError}
use acktor.Envelope.{IntoEnvelope}
use acktor.Address.{World, SendResult, DoSendResult, Sender}
use acktor.Address.Mpsc.{MpscSender, MpscSendError, send_error, TrySendError, SendTimeoutError}

-- The code's `LocalAddress`; the channel under it is a parameter of the calls.
pub record LocalAddress : Type 0 where
  pub index : ℕ

unfoldable pub index : LocalAddress → ActorId
index a = Index.new a.index

-- `T` stands for the tasks, which a local address does not spawn.
module _ (E T : Type 0) {Env M : Type 0} (mp : MpscSender Env) (into : IntoEnvelope Env M) where
  abbrev pub State : Type 0
  State = World mp.Queue T

  -- The errors of the channel, with the message that is unpacked from the envelope.
  unfoldable pub closed_with : Env → Outcome (SendError E M)
  closed_with e = into.unpack e >>= λ m. returned (SendError.closed m)

  unfoldable pub send_failed : MpscSendError Env → Outcome (SendError E M)
  unfolding closed_with
  send_failed (send_error e) = closed_with e

  unfoldable pub try_send_failed : TrySendError Env → Outcome (SendError E M)
  unfolding closed_with
  try_send_failed (TrySendError.closed e) = closed_with e
  try_send_failed (TrySendError.full e) = into.unpack e >>= λ m. returned (SendError.full m)

  unfoldable pub send_timeout_failed : SendTimeoutError Env → Outcome (SendError E M)
  unfolding closed_with
  send_timeout_failed (SendTimeoutError.closed e) = closed_with e
  send_timeout_failed (SendTimeoutError.timeout e) =
      into.unpack e >>= λ m. returned (SendError.timeout m)

  abbrev pub ended :
      {R X : Type 0}
      → State
      → R
      → (X → Outcome (SendError E M))
      → mp.Queue × Result (Unit {0}) X
      → Outcome (State × Result R (SendError E M))
  ended w r fail (q, ok u) = returned (record w { queue = q }, ok r)
  ended w r fail (q, err e) = fail e >>= λ e. returned (record w { queue = q }, err e)

  abbrev pub channel : State → State
  channel w = record w { channels = suc w.channels }

  unfoldable pub send : M → State → Outcome (State × SendResult E M)
  unfolding send_failed
  send m w =
      ended (channel w) w.channels send_failed (mp.send (into.pack m (some w.channels)) w.queue)

  unfoldable pub do_send : M → State → Outcome (State × DoSendResult E M)
  unfolding send_failed
  do_send m w = ended w tt send_failed (mp.send (into.pack m none) w.queue)

  unfoldable pub try_send : M → State → Outcome (State × SendResult E M)
  unfolding try_send_failed
  try_send m w =
      ended (channel w) w.channels try_send_failed
        (mp.try_send (into.pack m (some w.channels)) w.queue)

  unfoldable pub try_do_send : M → State → Outcome (State × DoSendResult E M)
  unfolding try_send_failed
  try_do_send m w = ended w tt try_send_failed (mp.try_send (into.pack m none) w.queue)

  unfoldable pub send_timeout : M → ℕ → State → Outcome (State × SendResult E M)
  unfolding send_timeout_failed
  send_timeout m d w =
      ended (channel w) w.channels send_timeout_failed
        (mp.send_timeout (into.pack m (some w.channels)) d w.queue)

  unfoldable pub do_send_timeout : M → ℕ → State → Outcome (State × DoSendResult E M)
  unfolding send_timeout_failed
  do_send_timeout m d w =
      ended w tt send_timeout_failed (mp.send_timeout (into.pack m none) d w.queue)

  unfoldable pub blocking_send : M → State → Outcome (State × SendResult E M)
  unfolding send_failed
  blocking_send m w =
      mp.blocking_send (into.pack m (some w.channels)) w.queue
      >>= ended (channel w) w.channels send_failed

  unfoldable pub blocking_do_send : M → State → Outcome (State × DoSendResult E M)
  unfolding send_failed
  blocking_do_send m w = mp.blocking_send (into.pack m none) w.queue >>= ended w tt send_failed

  unfoldable pub sender : LocalAddress → Sender State E M
  unfolding index
  sender a = record {
    index = index a;
    is_closed = λ w. mp.is_closed w.queue;
    capacity = λ w. mp.capacity w.queue;
    send = send;
    do_send = do_send;
    try_send = try_send;
    try_do_send = try_do_send;
    send_timeout = send_timeout;
    do_send_timeout = do_send_timeout;
    blocking_send = blocking_send;
    blocking_do_send = blocking_do_send;
  }

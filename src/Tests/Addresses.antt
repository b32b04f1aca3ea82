-- ===== src/Tests/Addresses.antt =====
-- A small program of acktor, whose messages and bytes are numbers: its addresses, its proxies and
-- the channels under them.
use acktor.Base.{
  ℕ, ◌+◌, ◌≡◌, refl, Bool, true, false, none, some, List, [], ◌∷◌, ◌++◌, Result, ok, err, returned,
  if◌then◌else◌, leb, length, either,
}
use acktor.Codec.{EncodeContext, malformed}
use acktor.BinaryMessage
use acktor.BinaryMessage.{BinaryMessage}
use acktor.Envelope.{Envelope, into_envelope}
use acktor.Address.{Messages, World}
use acktor.Address.Mpsc.{
  MpscSender, send_error, TrySendError, SendTimeoutError, Accepts, unsent_of, try_unsent_of,
  timeout_unsent_of,
}
use acktor.Address.Local.{LocalAddress}
use acktor.Address.Created.{Turn, message, inbound_closed, run}
use acktor.Address.Created.Forwarding.{run-Forwards, Forwards, meant, is_closed_in}
use acktor.Address.Remote
use acktor.Address.Remote.{RemoteProxy}
use acktor.Address.Remote.Recipient
use acktor.RemoteAddressable.{Handlers, uniqueness_check, codec_table, handle}
use acktor.RemoteAddressable.Recipients.{Agreement, sender-Agreement}
use acktor.RemoteAddressable.Calls.{Answers, expected, inbound, handle-decode_res}
use acktor.Session.Proxy.{put}
use acktor.Session.Sending.{proxy}
use acktor.Tests.Nodes.{dash, two}

-- Channels of two places.
module _ {T : Type 0} where
  abbrev has_room : List T → Bool
  has_room q = leb (length q) 1

  abbrev put_in : {X : Type 0} → (T → X) → T → List T → List T × Result (Unit {0}) X
  put_in e m q = if has_room q then (q ++ m ∷ [], ok tt) else (q, err (e m))

  put_in-Accepts :
      {X : Type 0} (unsent : X → T) (e : T → X) (m : T) (q : List T)
      → unsent (e m) ≡ m
      → Accepts (λ q. q) unsent m q (put_in e m q)
  put_in-Accepts unsent e m q h = either (Accepts (λ q. q) unsent m q) (has_room q) refl (refl, h)

abbrev queue : (T : Type 0) → MpscSender T
queue T = record {
  Queue = List T;
  sent = λ q. q;
  in_async = λ q. false;
  is_closed = λ q. false;
  capacity = λ q. 2;
  send = put_in send_error;
  try_send = put_in TrySendError.full;
  send_timeout = λ m d. put_in SendTimeoutError.timeout m;
  blocking_send = λ m q. returned (put_in send_error m q);
  reserve = λ q. (q, ok tt);
  try_reserve = λ q. (q, ok tt);
  permit_send = λ m q. q ++ m ∷ [];
  send_accepts = λ m q. put_in-Accepts unsent_of send_error m q refl;
  try_send_accepts = λ m q. put_in-Accepts try_unsent_of TrySendError.full m q refl;
  send_timeout_accepts =
      λ m d q. put_in-Accepts timeout_unsent_of SendTimeoutError.timeout m q refl;
  blocking_send_blocks = λ m q. (refl, put_in-Accepts unsent_of send_error m q refl);
  reserve_sent = λ q. refl;
  try_reserve_sent = λ q. refl;
  permit_send_sent = λ m q. refl;
}

abbrev pub numbers : Messages ℕ ℕ
numbers = record {
  Value = λ t. ℕ;
  result = λ t. t;
  id = λ t. t + 10;
  encode_to_bytes = λ t v ctx. ok v;
  decode = λ t b ctx. ok b;
}

-- The messages of a session.
abbrev binaries : Messages ℕ ℕ
binaries = record {
  Value = λ t. BinaryMessage ℕ;
  result = λ t. t;
  id = λ t. t;
  encode_to_bytes = λ t v ctx. ok v.bytes;
  decode = λ t b ctx. err malformed;
}

-- An actor that adds what it is sent, and answers the sum.
abbrev pub adder : Handlers numbers ℕ
adder = record {
  Output = λ t. ℕ;
  handle = λ t v s. (s + v, s + v);
  respond = λ t o wanted s. (s, some (ok o));
}

-- The proxy of the session 5, and two addresses of the actor 7 over it.
abbrev session_address : LocalAddress
session_address = record { index = 5 }

abbrev over_session : RemoteProxy ℕ ℕ (World (List (Envelope binaries)) (Unit {0}))
over_session =
    proxy (Unit {0}) (queue (Envelope binaries)) (into_envelope binaries 0) dash two session_address
      true

abbrev put_message : BinaryMessage ℕ → Envelope binaries
put_message = put (into_envelope binaries 0).pack

abbrev session_mailbox : World (List (Envelope binaries)) (Unit {0}) → List (Envelope binaries)
session_mailbox w = w.queue

sender-Agreement_example :
    Agreement
      (λ w. w.queue)
      (Recipient.sender numbers over_session (Recipient.new numbers over_session 7) 2)
      (Remote.sender numbers over_session
        (Remote.new numbers over_session 7 (codec_table numbers (1 ∷ 2 ∷ [])))
        2)
sender-Agreement_example = sender-Agreement numbers over_session 7 2 (1 ∷ 2 ∷ []) refl

abbrev contexts : ℕ → EncodeContext ℕ
contexts session a = ok tt

handle-decode_res_example :
    Answers numbers adder contexts 1 none
      (handle numbers (2 ∷ 1 ∷ []) adder contexts (inbound numbers adder contexts 7 1 3 60 5) 4)
      (expected numbers adder contexts 1 5 none (ok 3) 4)
unfolding uniqueness_check
handle-decode_res_example =
    handle-decode_res numbers adder contexts (2 ∷ 1 ∷ []) 7 1 3 60 5 none 4 refl refl

-- The message for the recipient 7, one for another actor, and the end.
abbrev turns : List (Turn ℕ)
turns =
    message (BinaryMessage.do_send 7 11 3)
    ∷ message (BinaryMessage.do_send 8 11 4)
    ∷ inbound_closed
    ∷ message (BinaryMessage.do_send 7 11 5)
    ∷ []

run-Forwards_example :
    Forwards 11
      (λ b ctx. ok b)
      (queue ℕ)
      (is_closed_in 11 (λ b ctx. ok b) (queue ℕ) turns)
      (meant 11 (λ b ctx. ok b) (queue ℕ) (record { index = 7 }) turns)
      []
      (run 11 (λ b ctx. ok b) (queue ℕ) (record { index = 7 }) turns [])
run-Forwards_example = run-Forwards 11 (λ b ctx. ok b) (queue ℕ) (record { index = 7 }) turns []

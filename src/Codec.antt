-- ===== src/Codec.antt =====
-- acktor/src/codec.rs and acktor/src/codec/error.rs: how an address goes to another process. The
-- bytes of a protobuf message are those of the prost crate, which is not in the repository: an
-- interface.
use acktor.Base.{ℕ, ◌≡◌, Bool, Option, none, some, Result, ok, err, String, if◌then◌else◌}
use acktor.Actor.Index.{ActorId, as_local, is_remote, new_remote}

-- The bytes `B` of a protobuf message `T`; decoding undoes encoding. The code encodes into a buffer
-- that grows, which does not fail.
pub record Wire (B T : Type 0) : Type 0 where
  pub encode : T → B
  pub decode : B → Option T
  pub decode-encode : (t : T) → decode (encode t) ≡ some t

abbrev pub and_then : {A R G : Type 0} → Result A G → (A → Result R G) → Result R G
and_then (ok a) f = f a
and_then (err e) f = err e

abbrev pub ok_or : {A G : Type 0} → Option A → G → Result A G
ok_or none e = err e
ok_or (some a) e = ok a

pub data EncodeError (G : Type 0) : Type 0 where
  missing_encode_context encode_remote_address not_remote_addressable : EncodeError G
  other : G → EncodeError G

-- The errors that the decoders make of others and of texts, by what they tell; the code has one
-- constructor for them, with a boxed error.
pub data DecodeError : Type 0 where
  missing_decode_context decode_remote_address missing_remote_proxy : DecodeError
  unknown_message_id : ℕ → DecodeError
  malformed invalid_value : DecodeError
  missing_field : String → DecodeError
  downcast_failed : DecodeError

-- What a context registers an actor with; the session of the proxy that a decode context has.
abbrev pub EncodeContext : Type 0 → Type 0
EncodeContext G = ActorId → Result (Unit {0}) (EncodeError G)

abbrev pub DecodeContext : Type 0
DecodeContext = Option ℕ

-- Of an address or a recipient: `remote_mailbox` tells whether it has one.
unfoldable pub register_with :
    {G : Type 0} → (ActorId → Bool) → EncodeContext G → ActorId → Result (Unit {0}) (EncodeError G)
register_with remote_mailbox ctx a =
    if is_remote a
    then err encode_remote_address
    else if remote_mailbox a
    then ctx a
    else err not_remote_addressable

unfoldable pub new_with_decode_context : DecodeContext → ℕ → Result ActorId DecodeError
new_with_decode_context none i = err missing_remote_proxy
new_with_decode_context (some session) i = ok (new_remote i session)

-- The code's `self.register(ctx.ok_or(EncodeError::MissingEncodeContext)?)?`.
abbrev pub registered :
    {G : Type 0}
    → (ActorId → Bool)
    → Option (EncodeContext G)
    → ActorId
    → Result (Unit {0}) (EncodeError G)
registered remote_mailbox none a = err missing_encode_context
registered remote_mailbox (some ctx) a = register_with remote_mailbox ctx a

module _ {B G : Type 0} where
  -- `Encode` and `Decode` of an address and of a recipient, whose message is the number alone.
  unfoldable pub encode_address :
      (ActorId → Bool) → Wire B ℕ → Option (EncodeContext G) → ActorId → Result B (EncodeError G)
  unfolding register_with
  encode_address remote_mailbox w ctx a =
      and_then (registered remote_mailbox ctx a) (λ u. ok (w.encode (as_local a)))

module _ {B : Type 0} where
  unfoldable pub decode_address : Wire B ℕ → Option DecodeContext → B → Result ActorId DecodeError
  unfolding new_with_decode_context
  decode_address w ctx b =
      and_then (ok_or (w.decode b) malformed)
        (λ i. and_then (ok_or ctx missing_decode_context) (λ c. new_with_decode_context c i))

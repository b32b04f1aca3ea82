-- ===== src/Session/Resolve.antt =====
-- acktor-ipc/src/session.rs: what the sender of `RemoteCreateActor` and `RemoteGetActor` awaits.
use acktor.Base.{ℕ, ◌≡◌, refl, ap, ◌∙◌, Option, none, some, Result, ok, err, String}
use acktor.Actor.Index.{ActorId, new_remote}
use acktor.Codec.{Wire, DecodeContext, new_with_decode_context, missing_field, malformed}
use acktor.Errors.{SessionError, decode_error, remote_node_error, recv_error, RecvError}
use acktor.Session.Proto.{ResultAddressType, address, failure, result_address}

abbrev pub map_err : {A E G : Type 0} → (E → G) → Result A E → Result A G
map_err f (ok a) = ok a
map_err f (err e) = err (f e)

-- `box` makes an error a boxed one.
module _ {B E : Type 0} (addresses : Wire B (Option ResultAddressType))
    (box : SessionError E → E) where
  unfoldable pub address_of :
      DecodeContext → Option (Option ResultAddressType) → Result ActorId (SessionError E)
  unfolding new_with_decode_context
  address_of ctx none = err (decode_error malformed)
  address_of ctx (some (some (address actor_id))) =
      map_err decode_error (new_with_decode_context ctx actor_id)
  address_of ctx (some (some (failure e))) = err (remote_node_error e)
  address_of ctx (some none) = err (decode_error (missing_field "result"))

  -- The future of both handlers; the response sender may be dropped without an answer.
  unfoldable pub resolve :
      DecodeContext → Option (Result B (SessionError E)) → Result ActorId (SessionError E)
  unfolding address_of
  resolve ctx none = err (recv_error RecvError.closed)
  resolve ctx (some (err e)) = err (recv_error (RecvError.other (box e)))
  resolve ctx (some (ok bytes)) = address_of ctx (addresses.decode bytes)

  -- How the answer of the peer comes out: an index as a remote address of this session, an error as
  -- its text.
  abbrev pub arrived :
      (SessionError E → String) → ℕ → Result ℕ (SessionError E) → Result ActorId (SessionError E)
  arrived report session (ok i) = ok (new_remote i session)
  arrived report session (err e) = err (remote_node_error (report e))

  pub resolve-answer :
      (report : SessionError E → String) (session : ℕ) (r : Result ℕ (SessionError E))
      → resolve (some session) (some (ok (addresses.encode (result_address report r))))
        ≡ arrived report session r
  unfolding resolve
  resolve-answer report session r =
      ap (address_of (some session)) (addresses.decode-encode (result_address report r)) ∙ read r
    where
      read :
          (r : Result ℕ (SessionError E))
          → address_of (some session) (some (result_address report r)) ≡ arrived report session r
      read (ok i) = refl
      read (err e) = refl

-- ===== src/Errors.antt =====
-- acktor/src/error.rs and acktor-ipc/src/error.rs: the errors of channels and of sessions. `E`
-- stands for the boxed errors in them.
use acktor.Base.{ℕ, String}
use acktor.Codec.{DecodeError}

-- The message that was not sent comes back.
pub data SendError (E M : Type 0) : Type 0 where
  closed full timeout no_encode_fn : M → SendError E M
  other : E → M → SendError E M

module _ {E : Type 0} where
  unfoldable pub with_msg : {M : Type 0} → M → SendError E (Unit {0}) → SendError E M
  with_msg msg (closed _) = closed msg
  with_msg msg (full _) = full msg
  with_msg msg (timeout _) = timeout msg
  with_msg msg (no_encode_fn _) = no_encode_fn msg
  with_msg msg (other e _) = other e msg

  unfoldable pub without_msg : {M : Type 0} → SendError E M → SendError E (Unit {0})
  without_msg (closed _) = closed tt
  without_msg (full _) = full tt
  without_msg (timeout _) = timeout tt
  without_msg (no_encode_fn _) = no_encode_fn tt
  without_msg (other e _) = other e tt

pub data RecvError (E : Type 0) : Type 0 where
  closed empty timeout : RecvError E
  other : E → RecvError E

-- Why the manager created no actor: the texts and the errors of `SessionError::CreateActorFailed`.
pub data CreateFailure (E : Type 0) : Type 0 where
  no_factory : ℕ → CreateFailure E
  label_exists : String → ℕ → CreateFailure E
  factory_panicked : CreateFailure E
  factory_failed : E → CreateFailure E

pub data SessionError (E : Type 0) : Type 0 where
  decode_error : DecodeError → SessionError E
  send_outbound_message_failed : E → SessionError E
  forward_inbound_message_failed : E → SessionError E
  invalid_message_res_tx_tag : ℕ → SessionError E
  forward_message_res_failed : SessionError E
  create_actor_failed : CreateFailure E → SessionError E
  actor_not_found : String → SessionError E
  handle_inbound_message_failed : E → SessionError E
  remote_node_error : String → SessionError E
  response_timeout : SessionError E
  io_error send_error : E → SessionError E
  recv_error : RecvError E → SessionError E

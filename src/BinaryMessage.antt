-- ===== src/BinaryMessage.antt =====
-- acktor/src/message/remote.rs: a message to an actor of another process, or from one.
use acktor.Base.{ℕ, Option, none, some}

-- A response sender is known by a number, and a context by the session of its proxy.
pub record BinaryMessage (B : Type 0) : Type 0 where
  pub actor_id : ℕ
  pub message_id : ℕ
  pub bytes : B
  pub result_tx : Option ℕ
  pub decode_msg_ctx : Option ℕ
  pub encode_res_ctx : Option ℕ

module _ {B : Type 0} where
  abbrev pub do_send : ℕ → ℕ → B → BinaryMessage B
  do_send actor_id message_id bytes = record {
    actor_id = actor_id;
    message_id = message_id;
    bytes = bytes;
    result_tx = none;
    decode_msg_ctx = none;
    encode_res_ctx = none;
  }

  abbrev pub send : ℕ → ℕ → B → ℕ → BinaryMessage B
  send actor_id message_id bytes tx = record (do_send actor_id message_id bytes) {
    result_tx = some tx;
  }

  abbrev pub with_decode_context : ℕ → BinaryMessage B → BinaryMessage B
  with_decode_context context m = record m { decode_msg_ctx = some context }

  abbrev pub with_encode_context : ℕ → BinaryMessage B → BinaryMessage B
  with_encode_context context m = record m { encode_res_ctx = some context }

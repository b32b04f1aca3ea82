-- ===== src/MessageResponse.antt =====
-- acktor/src/message.rs, message/result.rs and message/future_result.rs: how the result of a handler
-- is given to the sender of the message.
use acktor.Base.{
  ◌≡◌, refl, ap, ◌∙◌, Option, none, some, Result, ok, err, Outcome, returned, panicked, ◌>>=◌, ◌⊎◌,
  inl, inr,
}
use acktor.Errors.{SendError}
use acktor.Oneshot.{OneshotChannel, send, try_recv, Arrives, send-Arrives}

module _ {T E : Type 0} (ch : OneshotChannel (Result T E)) where
  -- The error of a send is dropped; that of a `Result` is logged.
  abbrev pub left : ch.State × Result (Unit {0}) (SendError E T) → Option ch.State
  left (q, r) = some q

  -- A value that is its own response, and `MessageResult`.
  unfoldable pub handle : T → Option ch.State → Outcome (Option ch.State)
  handle t none = returned none
  handle t (some q) = send ch t q >>= λ r. returned (left r)

  -- The task of a `FutureMessageResult`, once its future has ended.
  unfoldable pub handle_future : Outcome T → Option ch.State → Outcome (Option ch.State)
  unfolding handle
  handle_future o tx = o >>= λ t. handle t tx

  -- The response is received, unless the receiver is gone.
  abbrev pub Responds : T → ch.State → Outcome (Option ch.State) → Type 0
  Responds t q panicked = ⊥
  Responds t q (returned none) = ⊥
  Responds t q (returned (some p)) =
      ((try_recv ch p).1 ≡ ok t) ⊎ (send ch t q ≡ returned (p, err (SendError.closed t)))

  responds :
      (t : T) (q : ch.State) (o : Outcome (ch.State × Result (Unit {0}) (SendError E T)))
      → send ch t q ≡ o
      → Arrives ch (λ t. ok t) t o
      → Responds t q (o >>= λ r. returned (left r))
  responds t q panicked h a = a
  responds t q (returned (p, ok u)) h a = inl a
  responds t q (returned (p, err e)) h a = inr (h ∙ ap (λ e. returned (p, err e)) a)

  -- The result of a handler comes to the sender that waits for it; the call does not panic.
  pub handle-Responds : (t : T) (q : ch.State) → Responds t q (handle t (some q))
  unfolding handle
  handle-Responds t q = responds t q (send ch t q) refl (send-Arrives ch t q)

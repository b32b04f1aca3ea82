-- ===== src/Tests/Channels.antt =====
-- A channel as a list, for the runs of the loops.
use acktor.Base.{◌≡◌, refl, Bool, true, false, List, [], ◌∷◌, ◌++◌, length, drop, ◌⊎◌, inl, inr}
use acktor.Mailbox.{Channel, Poll, message, closed, pending}

module _ {M : Type 0} where
  abbrev pub receive : List M × Bool → Poll M (List M × Bool)
  receive (m ∷ ms, shut) = message m (ms, shut)
  receive ([], true) = closed
  receive ([], false) = pending

  pub receive-cons :
      (q : List M × Bool) (m : M) (ms : List M)
      → q.0 ≡ m ∷ ms
      → (q' : List M × Bool) × (receive q ≡ message m q') × (q'.0 ≡ ms)
  receive-cons ([], shut) m ms e = absurd (cc)
  receive-cons (n ∷ ns, shut) m ms e = ((ns, shut), cc, cc)

  pub receive-nil : (q : List M × Bool) → q.0 ≡ [] → (receive q ≡ closed) ⊎ (receive q ≡ pending)
  receive-nil ([], true) e = inl refl
  receive-nil ([], false) e = inr refl
  receive-nil (n ∷ ns, shut) e = absurd (cc)

-- A list, with whether every sender is gone.
abbrev pub list_channel : (M : Type 0) → Channel M
list_channel M = record {
  Queue = List M × Bool;
  queued = λ q. q.0;
  len = λ q. length q.0;
  poll_recv = receive;
  try_recv = λ q. (drop 1 q.0, q.1);
  deliver = λ ms q. (q.0 ++ ms, q.1);
  len-queued = λ q. refl;
  queued-deliver = λ ms q. refl;
  queued-try_recv = λ q. refl;
  poll-cons = receive-cons;
  poll-nil = receive-nil;
}

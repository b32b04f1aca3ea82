-- ===== src/Mailbox.antt =====
-- The channel under acktor/src/channel/mpsc.rs and acktor/src/address/mailbox.rs: a tokio channel,
-- which is not in the repository, as an interface with what the actors rely on.
use acktor.Base.{ℕ, ◌≡◌, ◌⊎◌, List, [], ◌∷◌, ◌++◌, length, drop, refl, inl, inr}

-- The result of polling `recv`.
pub data Poll (M Q : Type 0) : Type 0 where
  message : M → Q → Poll M Q
  closed : Poll M Q
  pending : Poll M Q

pub record Channel (M : Type 0) : Type 1 where
  pub Queue : Type 0
  -- The messages in the channel, oldest first.
  pub queued : Queue → List M
  pub len : Queue → ℕ
  pub poll_recv : Queue → Poll M Queue
  -- The queue after one `try_recv` whose result is dropped.
  pub try_recv : Queue → Queue
  -- What the senders put into the channel meanwhile.
  pub deliver : List M → Queue → Queue
  pub len-queued : (q : Queue) → len q ≡ length (queued q)
  pub queued-deliver : (ms : List M) (q : Queue) → queued (deliver ms q) ≡ queued q ++ ms
  pub queued-try_recv : (q : Queue) → queued (try_recv q) ≡ drop 1 (queued q)
  -- A message comes in the order of the queue, and neither end is reported while one waits.
  pub poll-cons :
      (q : Queue) (m : M) (ms : List M)
      → queued q ≡ m ∷ ms
      → (q' : Queue) × (poll_recv q ≡ message m q') × (queued q' ≡ ms)
  pub poll-nil : (q : Queue) → queued q ≡ [] → (poll_recv q ≡ closed) ⊎ (poll_recv q ≡ pending)

module _ {M : Type 0} (ch : Channel M) where
  open ch use {Queue, queued, poll_recv, poll-cons, poll-nil}

  -- A message that a poll returns was the oldest in the channel.
  pub queued-poll : (q q' : Queue) (m : M) → poll_recv q ≡ message m q' → queued q ≡ m ∷ queued q'
  queued-poll q q' m p = go (queued q) refl
    where
      go : (l : List M) → queued q ≡ l → queued q ≡ m ∷ queued q'
      go [] e = elim (poll-nil q e) [ inl c ↦ cc | inr w ↦ cc ]
      go (n ∷ ns) e = let (r, polls, rest) = poll-cons q n ns e in cc

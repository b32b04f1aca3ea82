-- ===== src/Address/Dispatch.antt =====
-- acktor/src/address.rs: the address of an actor, of this process or of another one.
use acktor.Base.{
  ℕ, ◌+◌, ◌%◌, ◌^◌, ◌≡◌, ◌<◌, refl, ap, ◌∙◌, Bool, true, false, Option, none, Result, err, Outcome,
}
use acktor.Base.Eq.{◌==◌}
use acktor.Actor.Index
use acktor.Actor.Index.{ActorId, id_Eq, new-ne-new_remote}
use acktor.Errors.{SendError, other}
use acktor.Address.{BoxError, text, SendResult, DoSendResult, Sender}

-- `INDEX_GENERATOR`, an `AtomicU64`: the new value and the identifier that the call returns.
unfoldable pub next_actor_id : ℕ → ℕ × ℕ
next_actor_id n = ((n + 1) % 2 ^ 64, n)

-- The code's `Inner`, which `Address` wraps.
pub data Address (L R : Type 0) : Type 0 where
  local : L → Address L R
  remote : R → Address L R

-- How the two kinds send a message of the type `M`.
module _ {W E M L R : Type 0} (of_local : L → Sender W E M) (of_remote : R → Sender W E M) where
  unfoldable pub index : Address L R → ActorId
  index (local a) = (of_local a).index
  index (remote a) = (of_remote a).index

  -- `PartialEq`, which compares the indices.
  unfoldable pub eq : Address L R → Address L R → Bool
  unfolding index
  eq a b = index a == index b

  unfoldable pub is_closed : Address L R → W → Bool
  is_closed (local a) w = (of_local a).is_closed w
  is_closed (remote a) w = (of_remote a).is_closed w

  unfoldable pub capacity : Address L R → W → ℕ
  capacity (local a) w = (of_local a).capacity w
  capacity (remote a) w = (of_remote a).capacity w

  unfoldable pub send : Address L R → M → W → Outcome (W × SendResult E M)
  send (local a) m w = (of_local a).send m w
  send (remote a) m w = (of_remote a).send m w

  unfoldable pub do_send : Address L R → M → W → Outcome (W × DoSendResult E M)
  do_send (local a) m w = (of_local a).do_send m w
  do_send (remote a) m w = (of_remote a).do_send m w

  unfoldable pub try_send : Address L R → M → W → Outcome (W × SendResult E M)
  try_send (local a) m w = (of_local a).try_send m w
  try_send (remote a) m w = (of_remote a).try_send m w

  unfoldable pub try_do_send : Address L R → M → W → Outcome (W × DoSendResult E M)
  try_do_send (local a) m w = (of_local a).try_do_send m w
  try_do_send (remote a) m w = (of_remote a).try_do_send m w

  unfoldable pub send_timeout : Address L R → M → ℕ → W → Outcome (W × SendResult E M)
  send_timeout (local a) m d w = (of_local a).send_timeout m d w
  send_timeout (remote a) m d w = (of_remote a).send_timeout m d w

  unfoldable pub do_send_timeout : Address L R → M → ℕ → W → Outcome (W × DoSendResult E M)
  do_send_timeout (local a) m d w = (of_local a).do_send_timeout m d w
  do_send_timeout (remote a) m d w = (of_remote a).do_send_timeout m d w

  unfoldable pub blocking_send : Address L R → M → W → Outcome (W × SendResult E M)
  blocking_send (local a) m w = (of_local a).blocking_send m w
  blocking_send (remote a) m w = (of_remote a).blocking_send m w

  unfoldable pub blocking_do_send : Address L R → M → W → Outcome (W × DoSendResult E M)
  blocking_do_send (local a) m w = (of_local a).blocking_do_send m w
  blocking_do_send (remote a) m w = (of_remote a).blocking_do_send m w

  unfoldable pub sender : Address L R → Sender W E M
  unfolding index
  sender a = record {
    index = index a;
    is_closed = is_closed a;
    capacity = capacity a;
    send = send a;
    do_send = do_send a;
    try_send = try_send a;
    try_do_send = try_do_send a;
    send_timeout = send_timeout a;
    do_send_timeout = do_send_timeout a;
    blocking_send = blocking_send a;
    blocking_do_send = blocking_do_send a;
  }

-- The calls that need a channel of this process: the local call, or an error.
module _ {G L R V X : Type 0} where
  unfoldable pub reserve :
      (L → V → V × Result X (SendError (BoxError G) (Unit {0})))
      → Address L R
      → V
      → V × Result X (SendError (BoxError G) (Unit {0}))
  reserve of_local (local a) v = of_local a v
  reserve of_local (remote a) v =
      (v, err (other (text "remote address does not support reserve") tt))

module _ {L R X : Type 0} where
  unfoldable pub remote_addressable : (L → Option X) → Address L R → Option X
  remote_addressable remote_mailbox (local a) = remote_mailbox a
  remote_addressable remote_mailbox (remote a) = none

module _ {W E M L R : Type 0} (of_local : L → Sender W E M) (of_remote : R → Sender W E M) where
  -- The address of an actor of this process and one of another process are never equal, whatever
  -- the numbers of the actors are.
  pub eq_local_remote :
      (a : L) (b : R) (i j s : ℕ)
      → (of_local a).index ≡ Index.new i
      → (of_remote b).index ≡ Index.new_remote j s
      → 0 < s
      → eq of_local of_remote (local a) (remote b) ≡ false
  unfolding eq index
  eq_local_remote a b i j s p q h =
      ap (λ x. x == (of_remote b).index) p
      ∙ ap (λ y. Index.new i == y) q
      ∙ different (Index.new i == Index.new_remote j s) refl
    where
      different : (d : Bool) → (Index.new i == Index.new_remote j s) ≡ d → d ≡ false
      different false e = refl
      different true e =
          absurd
            (new-ne-new_remote i j s h ((Index.id_eq_iff (Index.new i) (Index.new_remote j s)).0 e))

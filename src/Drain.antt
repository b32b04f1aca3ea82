-- ===== src/Drain.antt =====
-- acktor/src/drain.rs: how a context discards messages that wait in its mailbox.
use acktor.Base.{
  ℕ, zero, suc, ◌≡◌, refl, ap, ◌∙◌, Bool, true, false, List, [], ◌∷◌, ◌++◌, if◌then◌else◌, drop,
  drop-append,
}
use acktor.Mailbox.{Channel}

pub data DrainPolicy : Type 0 where
  no_drain drainable : DrainPolicy

-- `DrainState`; under `NoDrain` the code keeps `()`, and the two fields stay as they are.
pub record DrainState : Type 0 where
  pub mailbox_len : ℕ
  pub requested : Bool

abbrev pub default : DrainState
default = record { mailbox_len = 0; requested = false }

-- `drain_mailbox` exists under `Drainable` only.
unfoldable pub request : DrainPolicy → DrainState → DrainState
request no_drain s = s
request drainable s = record s { requested = true }

module _ {M : Type 0} (ch : Channel M) where
  open ch use {Queue, queued, len, try_recv, deliver, len-queued, queued-try_recv, queued-deliver}

  unfoldable pub snapshot : DrainPolicy → DrainState → Queue → DrainState
  snapshot no_drain s q = s
  snapshot drainable s q = record s { mailbox_len = len q }

  -- The `for` loop of `apply`.
  unfoldable pub discard : ℕ → Queue → Queue
  discard zero q = q
  discard (suc n) q = discard n (try_recv q)

  unfoldable pub apply : DrainPolicy → DrainState → Queue → DrainState × Queue
  unfolding discard
  apply no_drain s q = (s, q)
  apply drainable s q =
      if s.requested then (record s { requested = false }, discard s.mailbox_len q) else (s, q)

  pub queued-discard : (n : ℕ) (q : Queue) → queued (discard n q) ≡ drop n (queued q)
  unfolding discard
  queued-discard zero q = refl
  queued-discard (suc n) q =
      queued-discard n (try_recv q) ∙ ap (drop n) (queued-try_recv q) ∙ drop_drop n (queued q)
    where
      drop_drop : (n : ℕ) (xs : List M) → drop n (drop 1 xs) ≡ drop (suc n) xs
      drop_drop zero [] = refl
      drop_drop zero (x ∷ xs) = refl
      drop_drop (suc n) [] = refl
      drop_drop (suc n) (x ∷ xs) = refl

  -- A drain that is requested while one message is handled discards exactly the messages that
  -- waited when its handling began: those that `ms` adds meanwhile stay, and the request is spent.
  pub drain_snapshot :
      (s : DrainState) (q : Queue) (ms : List M)
      → let r = apply drainable (request drainable (snapshot drainable s q)) (deliver ms q) in
        (queued r.1 ≡ ms) × (r.0.requested ≡ false)
  unfolding apply request snapshot
  drain_snapshot s q ms = (
    queued-discard (len q) (deliver ms q)
        ∙ ap (drop (len q)) (queued-deliver ms q)
        ∙ ap (λ n. drop n (queued q ++ ms)) (len-queued q)
        ∙ drop-append (queued q) ms,
    refl,
  )

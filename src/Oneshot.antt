-- ===== src/Oneshot.antt =====
-- acktor/src/channel/oneshot.rs: the channel of a response, which carries a value or an error. The
-- channel under it is tokio's, which is not in the repository: an interface with what it promises.
use acktor.Base.{◌≡◌, refl, ap, ◌∙◌, Bool, Result, ok, err, Outcome, returned, panicked, ◌>>=◌}
use mathlib.Core.Path.{subst⁻¹}
use acktor.Errors.{SendError, RecvError}

-- tokio's `TryRecvError`.
pub data TryRecvError : Type 0 where
  empty closed : TryRecvError

-- The end of a send of `v`: it is what the receiver gets next, or it comes back.
abbrev pub Passes :
    {V Q : Type 0} → (Q → Q × Result V TryRecvError) → V → Q × Result (Unit {0}) V → Type 0
Passes try_recv v (q, ok u) = (try_recv q).1 ≡ ok v
Passes try_recv v (q, err w) = w ≡ v

pub record OneshotChannel (V : Type 0) : Type 1 where
  pub State : Type 0
  pub send : V → State → State × Result (Unit {0}) V
  -- The end of a wait is that of a `try_recv` that does not find the channel empty.
  pub try_recv : State → State × Result V TryRecvError
  pub send_passes : (v : V) (q : State) → Passes try_recv v (send v q)

-- `E` stands for boxed errors.
module _ {T E : Type 0} (ch : OneshotChannel (Result T E)) where
  -- The `unwrap` of what comes back.
  abbrev pub unwrap : Result T E → Outcome T
  unwrap (ok t) = returned t
  unwrap (err e) = panicked

  abbrev pub unwrap_err : Result T E → Outcome E
  unwrap_err (ok t) = panicked
  unwrap_err (err e) = returned e

  abbrev pub sent :
      {M : Type 0}
      → (Result T E → Outcome M)
      → ch.State × Result (Unit {0}) (Result T E)
      → Outcome (ch.State × Result (Unit {0}) (SendError E M))
  sent back (q, ok u) = returned (q, ok tt)
  sent back (q, err v) = back v >>= λ m. returned (q, err (SendError.closed m))

  unfoldable pub send : T → ch.State → Outcome (ch.State × Result (Unit {0}) (SendError E T))
  send t q = sent unwrap (ch.send (ok t) q)

  unfoldable pub send_err : E → ch.State → Outcome (ch.State × Result (Unit {0}) (SendError E E))
  send_err e q = sent unwrap_err (ch.send (err e) q)

  -- `From` the errors of tokio, and of boxed errors.
  abbrev pub received : Result (Result T E) TryRecvError → Result T (RecvError E)
  received (ok (ok t)) = ok t
  received (ok (err e)) = err (RecvError.other e)
  received (err TryRecvError.empty) = err RecvError.empty
  received (err TryRecvError.closed) = err RecvError.closed

  unfoldable pub try_recv : ch.State → ch.State × Result T (RecvError E)
  try_recv q = let r = ch.try_recv q in (r.0, received r.1)

  -- `recv_timeout`; the flag tells that the time is over first.
  unfoldable pub recv_timeout : Bool → ch.State → ch.State × Result T (RecvError E)
  unfolding try_recv
  recv_timeout over q = elim over [
    | Bool.true ↦ (q, err RecvError.timeout)
    | Bool.false ↦ try_recv q
  ]

  -- A send ends without a panic. Where it succeeds the receiver gets what `f` makes of the message,
  -- and where it fails the error holds the very message.
  abbrev pub Arrives :
      {M : Type 0}
      → (M → Result T (RecvError E))
      → M
      → Outcome (ch.State × Result (Unit {0}) (SendError E M))
      → Type 0
  Arrives f m panicked = ⊥
  Arrives f m (returned (q, ok u)) = (try_recv q).1 ≡ f m
  Arrives f m (returned (q, err e)) = e ≡ SendError.closed m

  arrives :
      {M : Type 0} (back : Result T E → Outcome M) (f : M → Result T (RecvError E)) (m : M)
      (v : Result T E)
      → back v ≡ returned m
      → received (ok v) ≡ f m
      → (o : ch.State × Result (Unit {0}) (Result T E)) → Passes ch.try_recv v o
      → Arrives f m (sent back o)
  unfolding try_recv
  arrives back f m v h g (q, ok u) k = ap received k ∙ g
  arrives back f m v h g (q, err w) k =
      subst⁻¹ (λ o. Arrives f m (o >>= λ m. returned (q, err (SendError.closed m)))) (ap back k ∙ h)
        refl

  pub send-Arrives : (t : T) (q : ch.State) → Arrives (λ t. ok t) t (send t q)
  unfolding send
  send-Arrives t q =
      arrives unwrap (λ t. ok t) t (ok t) refl refl (ch.send (ok t) q) (ch.send_passes (ok t) q)

  -- A value that is sent is the one that is received, and an error that is sent is received as an
  -- error of the other side. Where the receiver is gone the value, or the error, comes back. The two
  -- `unwrap` do not panic.
  pub try_recv-send :
      (t : T) (e : E) (q : ch.State)
      → Arrives (λ t. ok t) t (send t q) × Arrives (λ e. err (RecvError.other e)) e (send_err e q)
  unfolding send send_err
  try_recv-send t e q = (
    send-Arrives t q,
    arrives unwrap_err (λ e. err (RecvError.other e)) e (err e) refl refl (ch.send (err e) q)
        (ch.send_passes (err e) q),
  )

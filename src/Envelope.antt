-- ===== src/Envelope.antt =====
-- acktor/src/envelope.rs, envelope/default_proxy.rs and envelope/timed_proxy.rs: how messages of
-- every type wait in one mailbox.
use acktor.Base.{
  ℕ, ◌≡◌, refl, ap, Bool, false, Option, none, some, Result, err, Outcome, returned, panicked,
  ◌>>=◌, if◌then◌else◌, is_some,
}
use acktor.Erased.{downcast, downcast_same}
use acktor.Address.{BoxError, elapsed, Messages}
use acktor.RemoteAddressable.{Handlers}

-- `IntoEnvelope` and `FromEnvelope`: an envelope gives back the message that was put into it.
pub record IntoEnvelope (Env M : Type 0) : Type 0 where
  pub pack : M → Option ℕ → Env
  pub unpack : Env → Outcome M
  pub unpack-pack : (m : M) (tx : Option ℕ) → unpack (pack m tx) ≡ returned m

pub record Timed (M : Type 0) : Type 0 where
  pub message : M
  pub budget : ℕ

module _ {B G : Type 0} (msgs : Messages B G) where
  open msgs use {Value, result}

  -- `DefaultEnvelopeProxy` and `TimedEnvelopeProxy`, for a message of the type `t`. The message is
  -- absent when it has been taken.
  pub data Envelope : Type 0 where
    default_proxy : (t : ℕ) → Option (Value t) → Option ℕ → Envelope
    timed_proxy : (t : ℕ) → Option (Value t) → Option ℕ → ℕ → Envelope

  unfoldable pub pack : (t : ℕ) → Value t → Option ℕ → Envelope
  pack t m tx = default_proxy t (some m) tx

  unfoldable pub pack_timed : (t : ℕ) → Timed (Value t) → Option ℕ → Envelope
  pack_timed t m tx = timed_proxy t (some m.message) tx m.budget

  -- The two `unwrap_or_else`: the type of the proxy, and the message in it.
  abbrev pub taken : (t : ℕ) → Option (Option (Value t)) → Outcome (Value t)
  taken t none = panicked
  taken t (some none) = panicked
  taken t (some (some m)) = returned m

  unfoldable pub unpack : (t : ℕ) → Envelope → Outcome (Value t)
  unpack t (default_proxy s m tx) = taken t (downcast (λ u. Option (Value u)) t s m)
  unpack t (timed_proxy s m tx budget) = panicked

  unfoldable pub unpack_timed : (t : ℕ) → Envelope → Outcome (Timed (Value t))
  unpack_timed t (default_proxy s m tx) = panicked
  unpack_timed t (timed_proxy s m tx budget) =
      taken t (downcast (λ u. Option (Value u)) t s m) >>= λ m.
      returned (record { message = m; budget = budget })

  pub unpack-pack : (t : ℕ) (m : Value t) (tx : Option ℕ) → unpack t (pack t m tx) ≡ returned m
  unfolding unpack pack
  unpack-pack t m tx = ap (taken t) (downcast_same (λ u. Option (Value u)) t (some m))

  pub unpack_timed-pack_timed :
      (t : ℕ) (m : Timed (Value t)) (tx : Option ℕ)
      → unpack_timed t (pack_timed t m tx) ≡ returned m
  unfolding unpack_timed pack_timed
  unpack_timed-pack_timed t m tx =
      ap (λ o. taken t o >>= λ v. returned (record { message = v; budget = m.budget }))
        (downcast_same (λ u. Option (Value u)) t (some m.message))

  abbrev pub into_envelope : (t : ℕ) → IntoEnvelope Envelope (Value t)
  into_envelope t = record { pack = pack t; unpack = unpack t; unpack-pack = unpack-pack t }

  abbrev pub into_timed : (t : ℕ) → IntoEnvelope Envelope (Timed (Value t))
  into_timed t = record {
    pack = pack_timed t;
    unpack = unpack_timed t;
    unpack-pack = unpack_timed-pack_timed t;
  }

-- What a response channel is given.
pub data Given {B G : Type 0} (msgs : Messages B G) : Type 0 where
  nothing : Given msgs
  given : (tx t : ℕ) → Result (msgs.Value (msgs.result t)) (BoxError G) → Given msgs

module _ {B G S : Type 0} (msgs : Messages B G) (h : Handlers msgs S) where
  open msgs use {Value, result}

  abbrev pub is_closed : (ℕ → Bool) → Option ℕ → Bool
  is_closed closed none = false
  is_closed closed (some tx) = closed tx

  abbrev pub give :
      (t : ℕ) → Option ℕ → Option (Result (Value (result t)) (BoxError G)) → Given msgs
  give t none r = nothing
  give t (some tx) none = nothing
  give t (some tx) (some r) = given tx t r

  -- `actor.handle` and then `result.handle`.
  unfoldable pub handle_message : (t : ℕ) → Value t → Option ℕ → S → S × Given msgs
  handle_message t m tx s =
      let r = h.handle t m s in let a = h.respond t r.1 (is_some tx) r.0 in (a.0, give t tx a.1)

  -- `interrupted` is the actor as a handler leaves it that does not end within its budget.
  abbrev pub within : (t : ℕ) → Option S → Value t → Option ℕ → S → S × Given msgs
  within t none m tx s = handle_message t m tx s
  within t (some s') m tx s = (s', give t tx (some (err elapsed)))

  -- `EnvelopeProxy::handle`: the message and its sender leave the envelope.
  unfoldable pub handle :
      (ℕ → Bool) → Option S → Envelope msgs → S → Envelope msgs × (S × Given msgs)
  unfolding handle_message
  handle closed interrupted (default_proxy t none tx) s = (default_proxy t none none, (s, nothing))
  handle closed interrupted (default_proxy t (some m) tx) s = (
    default_proxy t none none,
    if is_closed closed tx then (s, nothing) else handle_message t m tx s,
  )
  handle closed interrupted (timed_proxy t none tx budget) s =
      (timed_proxy t none none budget, (s, nothing))
  handle closed interrupted (timed_proxy t (some m) tx budget) s = (
    timed_proxy t none none budget,
    if is_closed closed tx then (s, nothing) else within t interrupted m tx s,
  )

  -- An envelope is handled once: a second call changes no actor and gives no response.
  pub handle_again :
      (closed closed' : ℕ → Bool) (i i' : Option S) (e : Envelope msgs) (s s' : S)
      → handle closed' i' (handle closed i e s).0 s' ≡ ((handle closed i e s).0, (s', nothing))
  unfolding handle
  handle_again closed closed' i i' (default_proxy t none tx) s s' = refl
  handle_again closed closed' i i' (default_proxy t (some m) tx) s s' = refl
  handle_again closed closed' i i' (timed_proxy t none tx budget) s s' = refl
  handle_again closed closed' i i' (timed_proxy t (some m) tx budget) s s' = refl

-- ===== src/Session/Answers.antt =====
-- acktor-ipc/src/session.rs: no response sender is answered twice.
use acktor.Base.{
  ℕ, ◌+◌, ◌≤◌, ◌≡◌, Bool, Option, none, some, List, [], ◌∷◌, ◌++◌, arith, if◌then◌else◌, eqb,
  Result, ok, err, String, Option-cases, inl, inr,
}
use acktor.Base.Eq.{nat_eq}
use acktor.HashMap
use acktor.HashMap.{HashMap}
use acktor.Errors.{SessionError, send_outbound_message_failed}
use acktor.Session.{
  Session, IpcMessage, new, request, next_tag, send_ipc_message, answer, handle_message_response,
  result_of, expire, cleanup_message_res_tx_map,
}

-- How often a sender waits for an answer.
abbrev pub waiting : ℕ → HashMap ℕ (ℕ × ℕ) → ℕ
waiting tx [] = 0
waiting tx ((t, (x, since)) ∷ m) = (if eqb x tx then 1 else 0) + waiting tx m

abbrev hits : ℕ → Option (ℕ × ℕ) → ℕ
hits tx none = 0
hits tx (some (x, since)) = if eqb x tx then 1 else 0

waiting-insert :
    (tx t x now : ℕ) (m : HashMap ℕ (ℕ × ℕ))
    → waiting tx (HashMap.insert t (x, now) m) ≤ (if eqb x tx then 1 else 0) + waiting tx m
unfolding HashMap.insert
waiting-insert tx t x now [] = ground arith
waiting-insert tx t x now ((k, (y, since)) ∷ m) = ground (arith, waiting-insert tx t x now m)

waiting-remove :
    (tx t : ℕ) (m : HashMap ℕ (ℕ × ℕ))
    → waiting tx (HashMap.remove t m) + hits tx (HashMap.get t m) ≤ waiting tx m
unfolding HashMap.remove HashMap.get
waiting-remove tx t [] = ground arith
waiting-remove tx t ((k, (y, since)) ∷ m) =
    ground (arith, waiting-remove tx t m, waiting_less tx t m)
  where
    waiting_less :
        (tx t : ℕ) (m : HashMap ℕ (ℕ × ℕ)) → waiting tx (HashMap.remove t m) ≤ waiting tx m
    waiting_less tx t [] = ground arith
    waiting_less tx t ((k, (y, since)) ∷ m) = ground (arith, waiting_less tx t m)

module _ {B E : Type 0} where
  -- How often a sender was answered.
  abbrev pub answers : ℕ → List (ℕ × Result B (SessionError E)) → ℕ
  answers tx [] = 0
  answers tx ((x, r) ∷ l) = (if eqb x tx then 1 else 0) + answers tx l

  answers-append :
      (tx : ℕ) (l r : List (ℕ × Result B (SessionError E)))
      → answers tx (l ++ r) ≡ answers tx l + answers tx r
  answers-append tx [] r = omega arith
  answers-append tx ((x, v) ∷ l) r = ground (arith, answers-append tx l r)

module _ (B E : Type 0) where
  due-expire :
      (closed : ℕ → Bool) (now tx : ℕ) (m : HashMap ℕ (ℕ × ℕ))
      → waiting tx (expire {B = B} {E = E} closed now m).0
          + answers tx (expire {B = B} {E = E} closed now m).1
        ≤ waiting tx m
  unfolding expire
  due-expire closed now tx [] = ground arith
  due-expire closed now tx ((t, (x, since)) ∷ m) = ground (arith, due-expire closed now tx m)

-- What happens to a session; `closed` are the senders that are gone by then.
pub data Event (B E : Type 0) : Type 0 where
  asks : (ℕ → Bool) → ℕ → ℕ → (ℕ → IpcMessage B) → Result (Unit {0}) E → Event B E
  tells : IpcMessage B → Result (Unit {0}) E → Event B E
  responds : (ℕ → Bool) → ℕ → Option (Result B String) → Event B E
  sweeps : (ℕ → Bool) → ℕ → Event B E

module _ {B E : Type 0} where
  unfoldable pub step : Event B E → Session B E → Session B E
  unfolding request send_ipc_message handle_message_response cleanup_message_res_tx_map
  step (asks closed tx now message outcome) s = request closed tx now message outcome s
  step (tells message outcome) s = (send_ipc_message message outcome s).0
  step (responds closed tag response) s = (handle_message_response closed tag response s).0
  step (sweeps closed now) s = cleanup_message_res_tx_map closed now s

  unfoldable pub run : List (Event B E) → Session B E → Session B E
  unfolding step
  run [] s = s
  run (e ∷ es) s = run es (step e s)

  -- How many requests come with a sender.
  abbrev pub asked : ℕ → List (Event B E) → ℕ
  asked tx [] = 0
  asked tx (asks closed x now message outcome ∷ es) = (if eqb x tx then 1 else 0) + asked tx es
  asked tx (tells message outcome ∷ es) = asked tx es
  asked tx (responds closed tag response ∷ es) = asked tx es
  asked tx (sweeps closed now ∷ es) = asked tx es

  -- The answers that a sender has had or may still get.
  abbrev pub due : ℕ → Session B E → ℕ
  due tx s = answers tx s.answered + waiting tx s.pending

  due-step :
      (tx : ℕ) (e : Event B E) (s : Session B E) → due tx (step e s) ≤ asked tx (e ∷ []) + due tx s
  unfolding step request send_ipc_message next_tag answer handle_message_response
      cleanup_message_res_tx_map
  due-step tx (asks closed x now message (ok u)) s =
      ground (arith, waiting-insert tx s.tag x now s.pending)
  due-step tx (asks closed x now message (err e)) s =
      ground (arith, answers-append tx s.answered ((x, err (send_outbound_message_failed e)) ∷ []))
  due-step tx (tells message (ok u)) s = ground arith
  due-step tx (tells message (err e)) s = ground arith
  due-step tx (responds closed tag response) s = elim (Option-cases (HashMap.get tag s.pending)) [
    | inl absent ↦ ground arith
    | inr ((x, since), present) ↦ ground (
      arith,
      waiting-remove tx tag s.pending,
      answers-append tx s.answered ((x, result_of response) ∷ []),
    )
  ]
  due-step tx (sweeps closed now) s = omega (
    arith,
    due-expire B E closed now tx s.pending,
    answers-append tx s.answered (expire {B = B} {E = E} closed now s.pending).1,
  )

  asked-cons :
      (tx : ℕ) (e : Event B E) (es : List (Event B E))
      → asked tx (e ∷ es) ≡ asked tx (e ∷ []) + asked tx es
  asked-cons tx (asks closed x now message outcome) es = ground arith
  asked-cons tx (tells message outcome) es = omega arith
  asked-cons tx (responds closed tag response) es = omega arith
  asked-cons tx (sweeps closed now) es = omega arith

  due-run :
      (tx : ℕ) (es : List (Event B E)) (s : Session B E)
      → due tx (run es s) ≤ asked tx es + due tx s
  unfolding run
  due-run tx [] s = omega arith
  due-run tx (e ∷ es) s =
      omega (arith, due-run tx es (step e s), due-step tx e s, asked-cons tx e es)

  -- Whatever the peer sends and whenever the sweep runs, a sender is given no more answers than
  -- there were requests with it: one that asked once is answered at most once, by a response, a
  -- failure to send or a timeout.
  pub answers-run :
      (tx : ℕ) (es : List (Event B E)) → answers tx (run es new).answered ≤ asked tx es
  unfolding new
  answers-run tx es = omega (arith, due-run tx es new)

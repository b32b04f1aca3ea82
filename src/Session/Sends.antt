-- ===== src/Session/Sends.antt =====
-- acktor-ipc/src/session.rs: the responses among what a session sends.
use acktor.Base.{
  ℕ, ◌+◌, ◌≡◌, refl, Bool, Option, none, some, [], ◌∷◌, Result, ok, err, String, if◌then◌else◌, eqb,
  total, total-append, arith, Option-cases, inl, inr,
}
use acktor.Base.Eq.{nat_eq}
use acktor.HashMap
use acktor.ActorMgr.{ActorRef, index, label}
use acktor.Errors.{SessionError}
use acktor.Session
use acktor.Session.{
  Session, IpcMessage, create_actor, get_actor, or_default, request, remote_create_actor,
  remote_get_actor, binary_message, send_response, cleanup_message_res_tx_map, answer,
  handle_message_response, send_ipc_message, next_tag,
}
use acktor.Session.Proto.{node_message, actor_message, message_response}

module _ {B : Type 0} (t : ℕ) where
  -- Whether a message of the session is the response with the tag.
  abbrev pub is_answer : IpcMessage B → ℕ
  is_answer (some (message_response tag r)) = if eqb tag t then 1 else 0
  is_answer (some (node_message m)) = 0
  is_answer (some (actor_message a m b tag)) = 0
  is_answer none = 0

module _ {B E : Type 0} (t : ℕ) where
  abbrev pub answers : Session B E → ℕ
  answers s = total (is_answer t) s.sent + total (is_answer t) s.unsent

  -- `n` answers more, by the same proxy.
  pub record Sends (n : ℕ) (s s' : Session B E) : Type 0 where
    pub same_proxy : s'.proxy ≡ s.proxy
    pub counted : answers s' ≡ n + answers s

  pub send_ipc_message-Sends :
      (m : IpcMessage B) (outcome : Result (Unit {0}) E) (s : Session B E)
      → Sends (is_answer t m) s (send_ipc_message m outcome s).0
  unfolding send_ipc_message
  send_ipc_message-Sends m (ok u) s = record {
    same_proxy = refl;
    counted = omega (arith, total-append (is_answer t) s.sent (m ∷ []));
  }
  send_ipc_message-Sends m (err e) s = record {
    same_proxy = refl;
    counted = omega (arith, total-append (is_answer t) s.unsent (m ∷ []));
  }

  answer-Sends :
      (closed : ℕ → Bool) (tx : ℕ) (r : Result B (SessionError E)) (s : Session B E)
      → Sends 0 s (answer closed tx r s).0
  unfolding answer
  answer-Sends closed tx r s = ground arith

  pub handle_message_response-Sends :
      (closed : ℕ → Bool) (tag : ℕ) (response : Option (Result B String)) (s : Session B E)
      → Sends 0 s (handle_message_response closed tag response s).0
  unfolding handle_message_response answer
  handle_message_response-Sends closed tag response s =
      elim (Option-cases (HashMap.get tag s.pending)) [
        | inl absent ↦ ground arith
        | inr ((x, since), present) ↦ ground arith
      ]

  request-Sends :
      (closed : ℕ → Bool) (tx now : ℕ) (message : ℕ → IpcMessage B) (outcome : Result (Unit {0}) E)
      (s : Session B E)
      → is_answer t (message s.tag) ≡ 0
      → Sends 0 s (request closed tx now message outcome s)
  unfolding request next_tag send_ipc_message answer
  request-Sends closed tx now message (ok u) s h = record {
    same_proxy = refl;
    counted = omega (arith, h, total-append (is_answer t) s.sent (message s.tag ∷ []));
  }
  request-Sends closed tx now message (err e) s h =
      ground (arith, h, total-append (is_answer t) s.unsent (message s.tag ∷ []))

  pub remote_create_actor-Sends :
      (closed : ℕ → Bool) (tx now type_id : ℕ) (l : String) (config : Option String)
      (outcome : Result (Unit {0}) E) (s : Session B E)
      → Sends 0 s (remote_create_actor closed tx now type_id l config outcome s)
  unfolding remote_create_actor
  remote_create_actor-Sends closed tx now type_id l config outcome s =
      request-Sends closed tx now (λ i. create_actor type_id l (or_default config) i) outcome s refl

  pub remote_get_actor-Sends :
      (closed : ℕ → Bool) (tx now : ℕ) (actor : ActorRef) (outcome : Result (Unit {0}) E)
      (s : Session B E)
      → Sends 0 s (remote_get_actor closed tx now actor outcome s)
  unfolding remote_get_actor
  remote_get_actor-Sends closed tx now (index i) outcome s =
      request-Sends closed tx now (get_actor (index i)) outcome s refl
  remote_get_actor-Sends closed tx now (label l) outcome s =
      request-Sends closed tx now (get_actor (label l)) outcome s refl

  pub binary_message-Sends :
      (closed : ℕ → Bool) (tx : Option ℕ) (now actor_id message_id : ℕ) (bytes : B)
      (outcome : Result (Unit {0}) E) (s : Session B E)
      → Sends 0 s (binary_message closed tx now actor_id message_id bytes outcome s)
  unfolding binary_message
  binary_message-Sends closed (some tx) now actor_id message_id bytes outcome s =
      request-Sends closed tx now (λ i. Session.actor_message actor_id message_id bytes (some i))
        outcome s refl
  binary_message-Sends closed none now actor_id message_id bytes outcome s =
      send_ipc_message-Sends (Session.actor_message actor_id message_id bytes none) outcome s

  pub cleanup-Sends :
      (closed : ℕ → Bool) (now : ℕ) (s : Session B E)
      → Sends 0 s (cleanup_message_res_tx_map closed now s)
  unfolding cleanup_message_res_tx_map
  cleanup-Sends closed now s = record { same_proxy = refl; counted = omega arith }

-- ===== src/Adaptor.antt =====
-- acktor-ipc-proto/src/adaptor.rs: how a program without a node talks to the actors of one.
use acktor.Base.{
  ℕ, ◌+◌, ◌%◌, ◌^◌, ◌≡◌, ap, ◌∙◌, Option, none, some, [], Result, ok, err, String, ltb,
  if◌then◌else◌,
}
use acktor.Base.Eq.{nat_eq, ◌==◌, ==_refl}
use acktor.HashMap
use acktor.HashMap.{HashMap}
use acktor.HashMap.Laws.{get-insert, get-remove, get-retain, IsUnique}
use acktor.Codec.{Wire}
use acktor.Session
use acktor.Session.{IpcMessage}
use acktor.Session.Proto.{actor_message, message_response, node_message}

pub record ParsedActorMessage (B : Type 0) : Type 0 where
  pub actor_id : ℕ
  pub message_id : ℕ
  pub message : B

-- A sender is known by a number, and is kept with the time at which its request was sent.
pub record ActorAdaptor : Type 0 where
  pub tag : ℕ
  pub result_senders : HashMap ℕ (ℕ × ℕ)

unfoldable pub new : ActorAdaptor
new = record { tag = 0; result_senders = [] }

-- The tag is a `u64`. The count begins again after the last one where overflow is not checked.
unfoldable pub next_tag : ActorAdaptor → ActorAdaptor × ℕ
next_tag a = (record a { tag = (a.tag + 1) % 2 ^ 64 }, a.tag)

-- The code tests `now - timestamp < timeout` in signed numbers; no time is negative.
unfoldable pub cleanup : ℕ → ℕ → ActorAdaptor → ActorAdaptor
cleanup now timeout a = record a {
  result_senders = HashMap.retain (λ tag s. ltb now (s.1 + timeout)) a.result_senders;
}

-- The errors of `parse`, which are all of the type `io::Error`.
pub data ParseError : Type 0 where
  malformed unsupported : ParseError
  remote : String → ParseError

module _ {B E : Type 0} (messages : Wire B (IpcMessage B)) where
  unfoldable pub do_send : ℕ → ℕ → B → (B → Result (Unit {0}) E) → Result (Unit {0}) E
  do_send actor_id message_id message send_func =
      send_func (messages.encode (Session.actor_message actor_id message_id message none))

  -- The sender is kept even if the request is not sent.
  unfoldable pub send :
      ℕ
      → ℕ
      → B
      → ℕ
      → ℕ
      → (B → Result (Unit {0}) E)
      → ActorAdaptor
      → ActorAdaptor × Result (Unit {0}) E
  unfolding next_tag
  send actor_id message_id message result_tx timestamp send_func a =
      let (a, tag) = next_tag a in
      (
        record a { result_senders = HashMap.insert tag (result_tx, timestamp) a.result_senders },
        send_func (messages.encode (Session.actor_message actor_id message_id message (some tag))),
      )

-- The new state, the result, and what a sender is given.
abbrev pub Parsed : Type 0 → Type 0
Parsed B = ActorAdaptor × Result (Option (ParsedActorMessage B)) ParseError × Option (ℕ × B)

module _ {B : Type 0} (messages : Wire B (IpcMessage B)) where
  -- Whether the sender still listens is not looked at.
  abbrev pub sent_to : B → Option (ℕ × ℕ) → Option (ℕ × B)
  sent_to bytes none = none
  sent_to bytes (some (tx, timestamp)) = some (tx, bytes)

  unfoldable pub parsed : Option (IpcMessage B) → ActorAdaptor → Parsed B
  parsed none a = (a, err malformed, none)
  parsed (some (some (actor_message actor_id message_id message none))) a = (
    a,
    ok (some (record { actor_id = actor_id; message_id = message_id; message = message })),
    none,
  )
  parsed (some (some (actor_message actor_id message_id message (some tag)))) a =
      (a, err unsupported, none)
  parsed (some (some (message_response tag (some (ok bytes))))) a = (
    record a { result_senders = HashMap.remove tag a.result_senders },
    ok none,
    sent_to bytes (HashMap.get tag a.result_senders),
  )
  parsed (some (some (message_response tag (some (err e))))) a = (a, err (remote e), none)
  parsed (some (some (message_response tag none))) a = (a, err unsupported, none)
  parsed (some (some (node_message m))) a = (a, err unsupported, none)
  parsed (some none) a = (a, err unsupported, none)

  unfoldable pub parse : B → ActorAdaptor → Parsed B
  unfolding parsed
  parse frame a = parsed (messages.decode frame) a

  -- The response of the peer to the tag `tag`.
  abbrev pub response : ℕ → B → B
  response tag bytes = messages.encode (Session.message_response tag (ok bytes))

  parse-response :
      (tag : ℕ) (bytes : B) (a : ActorAdaptor)
      → parse (response tag bytes) a ≡ (
        record a { result_senders = HashMap.remove tag a.result_senders },
        ok none,
        sent_to bytes (HashMap.get tag a.result_senders),
      )
  unfolding parse parsed
  parse-response tag bytes a =
      ap (λ m. parsed m a) (messages.decode-encode (Session.message_response tag (ok bytes)))

  -- The error of the peer for the tag `tag`.
  abbrev pub refusal : ℕ → String → B
  refusal tag e = messages.encode (Session.message_response tag (err e))

  parse-refusal :
      (tag : ℕ) (e : String) (a : ActorAdaptor)
      → parse (refusal tag e) a ≡ (a, err (remote e), none)
  unfolding parse parsed
  parse-refusal tag e a =
      ap (λ m. parsed m a) (messages.decode-encode (Session.message_response tag (err e)))

  -- The successful response to a request is handed to the sender of that request, once: whatever the
  -- connection said of the request, the first response with its tag that is no error is handed to the
  -- sender, and a second one to nobody. An error with the tag is handed to nobody, only returned, and
  -- the sender stays. Whether the sender has room is not looked at.
  pub parse-send :
      {E : Type 0} (actor_id message_id : ℕ) (message : B) (tx now : ℕ)
      (send_func : B → Result (Unit {0}) E) (a : ActorAdaptor) (bytes late : B) (e : String)
      → let sent = (send messages actor_id message_id message tx now send_func a).0 in
        let first = parse (response a.tag bytes) sent in
        (first.1 ≡ ok none)
        × (first.2 ≡ some (tx, bytes))
        × ((parse (response a.tag late) first.0).2 ≡ none)
        × (parse (refusal a.tag e) sent ≡ (sent, err (remote e), none))
  unfolding send next_tag
  parse-send actor_id message_id message tx now send_func a bytes late e = (
    ap result (parse-response a.tag bytes sent),
    ap given (parse-response a.tag bytes sent)
        ∙ ap (sent_to bytes) (
            get-insert a.tag a.tag (tx, now) a.result_senders
            ∙ chosen (some (tx, now)) (HashMap.get a.tag a.result_senders)),
    ap (λ r. given (parse (response a.tag late) (state r))) (parse-response a.tag bytes sent)
        ∙ ap given (
            parse-response a.tag late
              (record sent { result_senders = HashMap.remove a.tag sent.result_senders }))
        ∙ ap (sent_to late) (
            get-remove a.tag a.tag sent.result_senders
            ∙ chosen none (HashMap.get a.tag sent.result_senders)),
    parse-refusal a.tag e sent,
  )
    where
      sent : ActorAdaptor
      sent = record {
        tag = (a.tag + 1) % 2 ^ 64;
        result_senders = HashMap.insert a.tag (tx, now) a.result_senders;
      }

      state : Parsed B → ActorAdaptor
      state r = r.0

      result : Parsed B → Result (Option (ParsedActorMessage B)) ParseError
      result r = r.1

      given : Parsed B → Option (ℕ × B)
      given r = r.2

      chosen : (x y : Option (ℕ × ℕ)) → (if a.tag == a.tag then x else y) ≡ x
      chosen x y = ap (λ b. if b then x else y) (==_refl a.tag)

-- A sender is forgotten when its time is over, and not before.
pub get-cleanup :
    (now timeout tag : ℕ) (a : ActorAdaptor)
    → IsUnique a.result_senders
    → HashMap.get tag (cleanup now timeout a).result_senders
      ≡ elim (HashMap.get tag a.result_senders) [
        | none ↦ none
        | some s ↦ if ltb now (s.1 + timeout) then some s else none
      ]
unfolding cleanup
get-cleanup now timeout tag a u =
    get-retain (λ tag s. ltb now (s.1 + timeout)) tag a.result_senders u

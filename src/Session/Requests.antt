-- ===== src/Session/Requests.antt =====
-- acktor-ipc/src/session.rs: a response finds the sender of its request.
use acktor.Base.{
  ℕ, ◌+◌, ◌%◌, ◌^◌, ◌<◌, ◌≡◌, refl, ◌≢◌, Bool, false, Option, none, some, [], ◌∷◌, ◌++◌, arith,
  if◌then◌else◌, eqb_iff, Result, ok, err, String, zero, suc,
}
use acktor.Base.Eq.{nat_eq}
use acktor.HashMap
use acktor.HashMap.{HashMap}
use acktor.HashMap.Laws.{get-insert, get-remove, IsUnique}
use acktor.Errors.{invalid_message_res_tx_tag}
use acktor.Session.{
  Session, IpcMessage, request, next_tag, send_ipc_message, answer, handle_message_response,
  result_of, is_expired, expire, cleanup_message_res_tx_map,
}

get-expire :
    (B E : Type 0) (closed : ℕ → Bool) (now t : ℕ) (m : HashMap ℕ (ℕ × ℕ))
    → IsUnique m
    → HashMap.get t (expire {B = B} {E = E} closed now m).0 ≡ elim (HashMap.get t m) [
      | none ↦ none
      | some p ↦ if is_expired closed now p then none else some p
    ]
unfolding expire HashMap.get
get-expire B E closed now t [] u = refl
get-expire B E closed now t ((k, (tx, since)) ∷ m) u =
    ground (arith, get-expire B E closed now t m u.1, eqb_iff k t)

module _ {B E : Type 0} where
  -- A session after a number of tags were given out.
  abbrev pub after_tags : ℕ → Session B E → Session B E
  after_tags zero s = s
  after_tags (suc n) s = (next_tag (after_tags n s)).0

  tag-after_tags :
      (n : ℕ) (s : Session B E) → s.tag < 2 ^ 64 → (after_tags n s).tag ≡ (s.tag + n) % 2 ^ 64
  unfolding next_tag
  tag-after_tags zero s h = omega arith
  tag-after_tags (suc n) s h = omega (arith, tag-after_tags n s h)

  -- The tags of fewer than 2^64 requests in a row are distinct, across the overflow of the
  -- counter too.
  pub next_tag-distinct :
      (i j : ℕ) (s : Session B E)
      → s.tag < 2 ^ 64
      → i < j
      → j < i + 2 ^ 64
      → (next_tag (after_tags i s)).1 ≢ (next_tag (after_tags j s)).1
  unfolding next_tag
  next_tag-distinct i j s h l u e = omega (arith, tag-after_tags i s h, tag-after_tags j s h, e)

  -- A request that was sent waits under its tag, and the response with the tag gives its sender
  -- what the peer answered; a second response with the tag is refused and changes nothing.
  pub handle_message_response-request :
      (closed : ℕ → Bool) (tx now : ℕ) (message : ℕ → IpcMessage B)
      (response again : Option (Result B String)) (s : Session B E)
      → closed tx ≡ false
      → let s' = request closed tx now message (ok tt) s in
        let r = handle_message_response closed s.tag response s' in
        (s'.sent ≡ s.sent ++ message s.tag ∷ [])
        × (r.1 ≡ ok tt)
        × (r.0.answered ≡ s.answered ++ (tx, result_of response) ∷ [])
        × (handle_message_response closed s.tag again r.0
            ≡ (r.0, err (invalid_message_res_tx_tag s.tag)))
        × ((t : ℕ) → t ≢ s.tag → HashMap.get t r.0.pending ≡ HashMap.get t s.pending)
  unfolding request next_tag send_ipc_message answer handle_message_response
  handle_message_response-request closed tx now message response again s o =
      let found = get-insert s.tag s.tag (tx, now) s.pending in
      let gone = get-remove s.tag s.tag (HashMap.insert s.tag (tx, now) s.pending) in
      (
        refl,
        ground (arith, found, eqb_iff s.tag s.tag),
        ground (arith, found, eqb_iff s.tag s.tag),
        ground (arith, found, gone, eqb_iff s.tag s.tag),
        λ t n. ground (
          arith,
          found,
          get-insert s.tag t (tx, now) s.pending,
          eqb_iff s.tag s.tag,
          eqb_iff s.tag t,
          get-remove s.tag t (HashMap.insert s.tag (tx, now) s.pending),
        ),
      )

  -- The sweep takes out exactly the requests whose sender is gone or that wait for 60 seconds or
  -- more.
  pub cleanup_lem :
      (closed : ℕ → Bool) (now t : ℕ) (s : Session B E)
      → IsUnique s.pending
      → HashMap.get t (cleanup_message_res_tx_map closed now s).pending
        ≡ elim (HashMap.get t s.pending) [
          | none ↦ none
          | some p ↦ if is_expired closed now p then none else some p
        ]
  unfolding cleanup_message_res_tx_map
  cleanup_lem closed now t s u = get-expire B E closed now t s.pending u

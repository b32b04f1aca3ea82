-- ===== src/Tests/Sessions.antt =====
-- A small session of acktor-ipc, with numbers for bytes and for errors.
use acktor.Base.{
  ℕ, ◌-◌, ◌^◌, ◌≤◌, ◌≡◌, refl, ◌≢◌, Bool, none, some, List, [], ◌∷◌, arith, eqb, ok, err,
}
use acktor.Base.Eq.{nat_eq}
use acktor.HashMap
use acktor.Session
use acktor.Errors.{invalid_message_res_tx_tag}
use acktor.Session.{
  Session, IpcMessage, actor_message, next_tag, request, handle_message_response, result_of,
  cleanup_message_res_tx_map,
}
use acktor.Session.Requests.{after_tags, next_tag-distinct, handle_message_response-request}
use acktor.Session.Answers.{Event, asks, responds, sweeps, run, answers, answers-run}

abbrev closed : ℕ → Bool
closed tx = eqb tx 9

abbrev message : ℕ → IpcMessage ℕ
message t = actor_message 1 2 3 (some t)

-- The next tag is the last before the counter overflows.
abbrev full : Session ℕ ℕ
full = record {
  tag = 2 ^ 64 - 1;
  pending = (4, (9, 0)) ∷ (5, (8, 40)) ∷ [];
  sent = [];
  unsent = [];
  answered = [];
  proxy = some 5;
}

next_tag-distinct_example : (next_tag (after_tags 0 full)).1 ≢ (next_tag (after_tags 1 full)).1
next_tag-distinct_example = next_tag-distinct 0 1 full (omega arith) (omega arith) (omega arith)

handle_message_response-request_example :
    let s' = request closed 7 50 message (ok tt) full in
    let r = handle_message_response closed full.tag (some (ok 33)) s' in
    (s'.sent ≡ message full.tag ∷ [])
    × (r.1 ≡ ok tt)
    × (r.0.answered ≡ (7, ok 33) ∷ [])
    × (handle_message_response closed full.tag none r.0
        ≡ (r.0, err (invalid_message_res_tx_tag full.tag)))
    × ((t : ℕ) → t ≢ full.tag → HashMap.get t r.0.pending ≡ HashMap.get t full.pending)
handle_message_response-request_example =
    handle_message_response-request closed 7 50 message (some (ok 33)) none full refl

abbrev events : List (Event ℕ ℕ)
events =
    asks closed 7 10 message (ok tt)
    ∷ responds closed 0 (some (ok 33))
    ∷ responds closed 0 none
    ∷ sweeps closed 99
    ∷ []

answers-run_example : answers 7 (run events Session.new).answered ≤ 1
answers-run_example = answers-run 7 events

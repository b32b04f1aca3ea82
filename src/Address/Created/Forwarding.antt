-- ===== src/Address/Created/Forwarding.antt =====
-- acktor/src/address/recipient.rs: which messages of another process reach a created recipient.
use acktor.Base.{
  ℕ, ◌≡◌, refl, ap, sym, ◌∙◌, Bool, true, false, Option, List, [], ◌∷◌, ◌++◌, Result, ok, err,
  if◌then◌else◌, not, ◌&&◌, eqb, none, some, arith,
}
use mathlib.Core.List.{append_assoc, append-nil}
use mathlib.Core.Path.{subst⁻¹}
use acktor.Codec.{DecodeError, DecodeContext}
use acktor.BinaryMessage.{BinaryMessage}
use acktor.Address.Mpsc.{MpscSender, MpscSendError, Accepts, unsent_of}
use acktor.Address.Created.{
  SenderProxy, Turn, message, inbound_closed, outbound_closed, is_foreign, context_of, decoded,
  sent_or_ended, go_on, turn, run,
}

abbrev pub is_none : {A : Type 0} → Option A → Bool
is_none none = true
is_none (some a) = false

module _ {B M : Type 0} (id : ℕ) (decode : B → Option DecodeContext → Result M DecodeError)
    (mp : MpscSender M) where
  abbrev pub decodes : Result M DecodeError → List M → List M
  decodes (ok m) ms = m ∷ ms
  decodes (err e) ms = ms

  -- A message is meant for the recipient if it has its index and the number of its message type, and
  -- wants no response.
  abbrev pub wanted : SenderProxy → BinaryMessage B → Bool
  wanted p b = eqb b.actor_id p.index && eqb b.message_id id && is_none b.result_tx

  -- Those that can be decoded, before a channel is closed.
  abbrev pub meant : SenderProxy → List (Turn B) → List M
  meant p [] = []
  meant p (message b ∷ ts) =
      let rest = meant p ts in
      if wanted p b
      then decodes (decode b.bytes (context_of id decode mp b.decode_msg_ctx)) rest
      else rest
  meant p (inbound_closed ∷ ts) = []
  meant p (outbound_closed ∷ ts) = []

  abbrev pub is_closed_in : List (Turn B) → Bool
  is_closed_in [] = false
  is_closed_in (message b ∷ ts) = is_closed_in ts
  is_closed_in (inbound_closed ∷ ts) = true
  is_closed_in (outbound_closed ∷ ts) = true

  -- Why the task ended before it sent `rest`: a channel was closed, and nothing was left, or the
  -- channel refused the next message and `r` is what the refusal left.
  abbrev pub Ends : Bool → List M → mp.Queue → Type 0
  Ends closed [] r = closed ≡ true
  Ends closed (m ∷ rest) r = (b : mp.Queue) × (e : MpscSendError M) × (mp.send m b ≡ (r, err e))

  -- All of them are sent if the task goes on, and those before its end if it has ended.
  abbrev pub Forwards : Bool → List M → mp.Queue → mp.Queue × Bool → Type 0
  Forwards closed ms q (r, true) = (mp.sent r ≡ mp.sent q ++ ms) × (closed ≡ false)
  Forwards closed ms q (r, false) =
      (xs : List M) × (rest : List M) × (ms ≡ xs ++ rest)
      × (mp.sent r ≡ mp.sent q ++ xs)
      × Ends closed rest r

  Forwards-cons :
      (closed : Bool) (m : M) (ms : List M) (q p : mp.Queue)
      → mp.sent p ≡ mp.sent q ++ m ∷ []
      → (o : mp.Queue × Bool) → Forwards closed ms p o
      → Forwards closed (m ∷ ms) q o
  Forwards-cons closed m ms q p h (r, true) (f, open_) =
      (f ∙ ap (λ l. l ++ ms) h ∙ append_assoc (mp.sent q) (m ∷ []) ms, open_)
  Forwards-cons closed m ms q p h (r, false) (xs, rest, e, f, ends) = (
    m ∷ xs,
    rest,
    ap (λ l. m ∷ l) e,
    f ∙ ap (λ l. l ++ xs) h ∙ append_assoc (mp.sent q) (m ∷ []) xs,
    ends,
  )

  sent_or_ended-Forwards :
      (closed : Bool) (m : M) (ms : List M) (q : mp.Queue) (rest : mp.Queue → mp.Queue × Bool)
      → ((p : mp.Queue) → Forwards closed ms p (rest p))
      → (o : mp.Queue × Result (Unit {0}) (MpscSendError M)) → mp.send m q ≡ o
      → Accepts mp.sent unsent_of m q o
      → Forwards closed (m ∷ ms) q (go_on id decode mp rest (sent_or_ended id decode mp o))
  sent_or_ended-Forwards closed m ms q rest h (p, ok u) s k =
      Forwards-cons closed m ms q p k (rest p) (h p)
  sent_or_ended-Forwards closed m ms q rest h (p, err e) s k =
      ([], m ∷ ms, refl, k.0 ∙ sym (append-nil (mp.sent q)), (q, e, s))

  turned :
      (closed for_it : Bool) (r : Result M DecodeError) (ms : List M) (q : mp.Queue)
      (rest : mp.Queue → mp.Queue × Bool)
      → ((p : mp.Queue) → Forwards closed ms p (rest p))
      → Forwards closed
          (if for_it then decodes r ms else ms)
          q
          (go_on id decode mp rest (if not for_it then (q, true) else decoded id decode mp r q))
  turned closed false r ms q rest h = h q
  turned closed true (ok m) ms q rest h =
      sent_or_ended-Forwards closed m ms q rest h (mp.send m q) refl (mp.send_accepts m q)
  turned closed true (err e) ms q rest h = h q

  -- The guards of the code refuse just the other messages.
  is_foreign_lem :
      (p : SenderProxy) (b : BinaryMessage B) → is_foreign id decode mp p b ≡ not (wanted p b)
  is_foreign_lem p b = ground arith

  -- The task of a created recipient forwards the messages for its index and with the number of its
  -- type that want no response and can be decoded, in their order and no others: all of them while
  -- it goes on, and it ends only when a channel is closed under it, with all before that sent or
  -- with the first that the channel refused.
  pub run-Forwards :
      (p : SenderProxy) (ts : List (Turn B)) (q : mp.Queue)
      → Forwards (is_closed_in ts) (meant p ts) q (run id decode mp p ts q)
  unfolding run turn
  run-Forwards p [] q = (sym (append-nil (mp.sent q)), refl)
  run-Forwards p (message b ∷ ts) q =
      let r = decode b.bytes (context_of id decode mp b.decode_msg_ctx) in
      subst⁻¹
        (λ f. Forwards (is_closed_in ts) (meant p (message b ∷ ts)) q (
          go_on id decode mp (run id decode mp p ts)
            (if f then (q, true) else decoded id decode mp r q)))
        (is_foreign_lem p b)
        (turned (is_closed_in ts) (wanted p b) r (meant p ts) q (run id decode mp p ts)
          (run-Forwards p ts))
  run-Forwards p (inbound_closed ∷ ts) q = ([], [], refl, sym (append-nil (mp.sent q)), refl)
  run-Forwards p (outbound_closed ∷ ts) q = ([], [], refl, sym (append-nil (mp.sent q)), refl)

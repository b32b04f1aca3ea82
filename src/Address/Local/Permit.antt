-- ===== src/Address/Local/Permit.antt =====
-- acktor/src/address/permit.rs, and the reservations of acktor/src/address/local.rs.
use acktor.Base.{ℕ, suc, ◌≡◌, ◌∙◌, ap, none, some, [], ◌∷◌, ◌++◌, Result}
use acktor.Errors.{SendError}
use acktor.Envelope.{IntoEnvelope}
use acktor.Address.Mpsc.{MpscSender, from_send, from_try_send, map_err}
use acktor.Address.Local.{State}

module _ (E T : Type 0) {Env M : Type 0} (mp : MpscSender Env) (into : IntoEnvelope Env M) where
  -- A permit is known by the world in which it is held.
  abbrev pub Reserved : Type 0
  Reserved = State E T mp into × Result (Unit {0}) (SendError E (Unit {0}))

  unfoldable pub reserve : State E T mp into → Reserved
  unfolding from_send
  reserve w = let r = mp.reserve w.queue in (record w { queue = r.0 }, map_err from_send r.1)

  unfoldable pub try_reserve : State E T mp into → Reserved
  unfolding from_try_send
  try_reserve w =
      let r = mp.try_reserve w.queue in (record w { queue = r.0 }, map_err from_try_send r.1)

  -- `SendPermit::send` and `OwnedSendPermit::send`, which do not fail.
  unfoldable pub send : M → State E T mp into → State E T mp into × ℕ
  send m w = (
    record w {
      queue = mp.permit_send (into.pack m (some w.channels)) w.queue;
      channels = suc w.channels;
    },
    w.channels,
  )

  unfoldable pub do_send : M → State E T mp into → State E T mp into
  do_send m w = record w { queue = mp.permit_send (into.pack m none) w.queue }

  -- Nothing is sent by a reservation, whether it is granted or not, and the message that is sent
  -- with the permit is the next one.
  pub reserve-do_send :
      (m : M) (w : State E T mp into)
      → mp.sent (do_send m (reserve w).0).queue ≡ mp.sent w.queue ++ into.pack m none ∷ []
  unfolding reserve do_send
  reserve-do_send m w =
      mp.permit_send_sent (into.pack m none) (mp.reserve w.queue).0
      ∙ ap (λ l. l ++ into.pack m none ∷ []) (mp.reserve_sent w.queue)

  pub try_reserve-send :
      (m : M) (w : State E T mp into)
      → mp.sent (send m (try_reserve w).0).0.queue
        ≡ mp.sent w.queue ++ into.pack m (some w.channels) ∷ []
  unfolding try_reserve send
  try_reserve-send m w =
      mp.permit_send_sent (into.pack m (some w.channels)) (mp.try_reserve w.queue).0
      ∙ ap (λ l. l ++ into.pack m (some w.channels) ∷ []) (mp.try_reserve_sent w.queue)

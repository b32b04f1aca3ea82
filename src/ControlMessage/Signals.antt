-- ===== src/ControlMessage/Signals.antt =====
-- acktor/src/codec/control_message.rs: the signals and their codes on the wire.
use acktor.Base.{ℕ, ◌%◌, ◌^◌, ◌≡◌, refl, ◌∙◌, ap, sym, ◌↔◌, Option, none, some, ok}
use acktor.Codec.{DecodeError, Wire, and_then, invalid_value, malformed, ok_or}
use acktor.Actor.{Signal, CronSignal, pause, resume}
use acktor.Actor.Codes.{
  signal_code, signal_try_from, cron_signal_code, cron_signal_try_from, signal_try_from_iff,
}
use acktor.ControlMessage.{encode_signal, decode_signal, encode_cron_signal, decode_cron_signal}

accepted : (o : Option Signal) (s : Signal) (e : DecodeError) → ok_or o e ≡ ok s → o ≡ some s
accepted none s e h = cc
accepted (some t) s e h = cc

module _ {B : Type 0} where
  -- A signal to stop an actor, and one to pause its timer, are read as they were sent.
  pub decode_signal-encode_signal :
      (w : Wire B ℕ) (s : Signal) (c : CronSignal)
      → (decode_signal w (encode_signal w s) ≡ ok s)
        × (decode_cron_signal w (encode_cron_signal w c) ≡ ok c)
  unfolding decode_signal encode_signal decode_cron_signal encode_cron_signal signal_code
      signal_try_from cron_signal_code cron_signal_try_from
  decode_signal-encode_signal w s c = (first s, second c)
    where
      first : (s : Signal) → decode_signal w (encode_signal w s) ≡ ok s
      first Signal.stop = rw (w.decode-encode 0) refl
      first Signal.terminate = rw (w.decode-encode 1) refl

      second : (c : CronSignal) → decode_cron_signal w (encode_cron_signal w c) ≡ ok c
      second pause = rw (w.decode-encode 0) refl
      second resume = rw (w.decode-encode 1) refl

  -- The value of a signal on the wire is read modulo 256: a value that is no signal is accepted as
  -- the signal whose code its last byte is.
  pub decode_signal_iff :
      (w : Wire B ℕ) (v : ℕ) (s : Signal)
      → (decode_signal w (w.encode v) ≡ ok s) ↔ (signal_code s ≡ v % 2 ^ 8)
  unfolding decode_signal
  decode_signal_iff w v s =
      let read = (signal_try_from_iff (v % 2 ^ 8) s pause).0 in
      (
        λ h. read.0 (
            accepted (signal_try_from (v % 2 ^ 8)) s invalid_value (
              sym (
                ap
                  (λ o.
                    and_then (ok_or o malformed)
                      (λ x. ok_or (signal_try_from (x % 2 ^ 8)) invalid_value))
                  (w.decode-encode v))
              ∙ h)),
        λ h.
            ap
              (λ o.
                and_then (ok_or o malformed)
                  (λ x. ok_or (signal_try_from (x % 2 ^ 8)) invalid_value))
              (w.decode-encode v)
            ∙ ap (λ o. ok_or o invalid_value) (read.1 h),
      )

-- ===== src/Cron/Laws/Failure.antt =====
-- How a failure of the task ends the loop, in acktor/src/cron.rs.
use acktor.Actor.{stopping}
use acktor.Mailbox.{Channel}
use acktor.Drain.{DrainPolicy}
use acktor.Context.Loop.{End, going, unwound, or_err}
use acktor.Context.Loop
use acktor.Cron.{CronContext, CronHooks, CronEnvelope, perform_all, set_state}
use acktor.Cron.Loop.{CronLoop}

module _ {E A M : Type 0} (ch : Channel (CronEnvelope M)) (policy : DrainPolicy)
    (h : CronHooks E A M) where
  open ch use {Queue}

  -- The context that `stopping` is asked with.
  abbrev pub failed : CronLoop E A Queue → CronContext E
  failed s = set_state stopping (perform_all policy (h.task s.actor s.context).requests s.context)

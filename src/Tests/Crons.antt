-- ===== src/Tests/Crons.antt =====
-- Runs of acktor/src/cron.rs with numbers as messages and errors.
use acktor.Base.{
  ℕ, refl, Bool, true, false, none, some, List, [], ◌∷◌, ok, err, returned, eqb, if◌then◌else◌,
}
use acktor.Tests.Channels.{list_channel}
use acktor.Actor.{running, Stopping, CronSignal}
use acktor.Actor.Index
use acktor.Mailbox.{Channel}
use acktor.Drain.{no_drain}
use acktor.Context
use acktor.Cron.{CronHooks, CronResponse, CronEnvelope, user, cron, normal, paused}
use acktor.Cron.Loop.{CronTick, CronLoop, run_loop}
use acktor.Cron.Laws.Paused.{counted}
use acktor.Cron.Laws.Idle.{Runs, run_loop-Runs}

abbrev mail : Channel (CronEnvelope ℕ)
mail = list_channel (CronEnvelope ℕ)

abbrev quiet : {R : Type 0} → ℕ → R → CronResponse ℕ ℕ R
quiet a r = record { actor = a; requests = []; outcome = returned r }

-- Its task fails once it has counted to 3.
abbrev clock : CronHooks ℕ ℕ ℕ
clock = record {
  task = λ a c. quiet a (if eqb a 3 then err 13 else ok 60);
  stopping = λ a c. quiet a (ok Stopping.stop);
  handle = λ m a c. quiet m tt;
}

abbrev base : Context.Context ℕ
base = record (Context.new (Index.new 1)) { state = running }

abbrev failing : CronLoop ℕ ℕ (List (CronEnvelope ℕ) × Bool)
failing = record {
  actor = 3;
  context = record { base = base; cron_state = normal; timer = none };
  queue = (user 4 ∷ [], false);
  waits = false;
}

abbrev tick : CronTick ℕ
tick = record { before = []; during = user 5 ∷ cron CronSignal.pause ∷ [] }

abbrev idle : CronLoop ℕ (ℕ × ℕ) (List (CronEnvelope ℕ) × Bool)
idle = record {
  actor = (0, 8);
  context = record { base = base; cron_state = paused; timer = some 60 };
  queue = (user 4 ∷ [], false);
  waits = true;
}

run_loop-Runs_example :
    Runs mail no_drain clock
      (record { stops = λ a c. tt; handles = λ m a c. tt })
      8
      (run_loop mail no_drain (counted clock) (tick ∷ tick ∷ []) idle)
run_loop-Runs_example =
    run_loop-Runs mail no_drain clock (record { stops = λ a c. tt; handles = λ m a c. tt }) 8
      (tick ∷ tick ∷ []) idle (record { paused_task = refl; runs = refl; calm = tt })
      (tt, tt, (tt, tt, tt))

-- ===== src/Tests/Contexts.antt =====
-- Runs of acktor/src/context.rs and acktor/src/actor.rs with numbers as messages and errors.
use acktor.Base.{
  ℕ, ◌+◌, ◌≡◌, refl, Bool, false, none, some, List, [], ◌∷◌, ◌++◌, arith, eqb, if◌then◌else◌, ok,
  returned,
}
use acktor.Tests.Channels.{list_channel}
use acktor.Actor.{ActorState, running, Signal, Stopping}
use acktor.Actor.Index.{new}
use acktor.Mailbox.{Channel}
use acktor.Drain.{DrainPolicy, no_drain, drainable, DrainState}
use acktor.Drain
use acktor.Drain.{drain_snapshot}
use acktor.Context.{Context}
use acktor.Context.Hooks.{Hooks, Response, saves_error, Envelope, user, signal}
use acktor.Context.Loop.{Tick, LoopState, finished, run_loop}
use acktor.Context.Run.{run, spawn}
use acktor.Context.Laws.Supervision.{IsSupervised, AtSpawn, spawn-IsSupervised}
use acktor.Context.Laws.Stopped.{IsSettled, run-IsSettled}
use acktor.Context.Laws.Ending.{terminate_ends}
use acktor.Context.Laws.Delivery.{Accounts, account, arrivals, logged, run_loop-Accounts}

abbrev mail : Channel (Envelope ℕ)
mail = list_channel (Envelope ℕ)

abbrev quiet : {R : Type 0} → ℕ → R → Response ℕ ℕ R
quiet a r = record { actor = a; requests = []; outcome = returned r }

-- It adds up its messages; 7 is an error.
abbrev adder : Hooks ℕ ℕ ℕ
adder = record {
  pre_start = λ a c. quiet a (ok tt);
  post_start = λ a c. quiet a (ok tt);
  stopping = λ a c. quiet a (ok Stopping.stop);
  post_stop = λ a c. quiet a (ok tt);
  handle = λ m a c. record {
    actor = a + m;
    requests = if eqb m 7 then saves_error 70 ∷ [] else [];
    outcome = returned tt;
  };
}

abbrev busy : Context ℕ
busy = record {
  index = new 1;
  state = running;
  drain = Drain.default;
  error = none;
  supervisor = some (new 2);
  notified = [];
}

abbrev quiet_tick : Tick ℕ
quiet_tick = record { before = []; during = [] }

abbrev three : List (Envelope ℕ)
three = user 5 ∷ user 7 ∷ user 9 ∷ []

drain_snapshot_example :
    ((Drain.apply mail drainable
        (Drain.request drainable (Drain.snapshot mail drainable Drain.default (three, false)))
        (three ++ user 6 ∷ [], false)).1.0
      ≡ user 6 ∷ [])
    × ((Drain.apply mail drainable
          (Drain.request drainable (Drain.snapshot mail drainable Drain.default (three, false)))
          (three ++ user 6 ∷ [], false)).0.requested
        ≡ false)
drain_snapshot_example = drain_snapshot mail Drain.default (three, false) (user 6 ∷ [])

run-IsSettled_example : IsSettled (run mail no_drain adder 0 busy (quiet_tick ∷ []) (three, false))
run-IsSettled_example =
    run-IsSettled mail no_drain adder 0 busy (quiet_tick ∷ []) (three, false) (λ a c. tt)

spawn-IsSupervised_example :
    AtSpawn mail no_drain adder
      (IsSupervised busy.index)
      (spawn mail no_drain adder 0 busy (quiet_tick ∷ []) (three, false))
unfolding new
spawn-IsSupervised_example =
    spawn-IsSupervised mail no_drain adder 0 busy (quiet_tick ∷ []) (three, false)
      (record { owned = refl; other = λ p. ground arith; spared = tt })

abbrev at_error : LoopState ℕ ℕ (List (Envelope ℕ) × Bool)
at_error = record { actor = 5; context = busy; queue = (user 7 ∷ user 9 ∷ [], false) }

abbrev at_signal : LoopState ℕ ℕ (List (Envelope ℕ) × Bool)
at_signal = record {
  actor = 5;
  context = busy;
  queue = (signal Signal.terminate ∷ user 9 ∷ [], false);
}

terminate_ends_example :
    (s' : LoopState ℕ ℕ (List (Envelope ℕ) × Bool)) × (run_loop mail no_drain adder
        (quiet_tick ∷ [])
        at_signal
      ≡ finished (ok tt) s')
    × (s'.actor ≡ 5)
    × (s'.context.state ≡ ActorState.stopped)
terminate_ends_example =
    terminate_ends mail no_drain adder quiet_tick [] at_signal (user 9 ∷ [], false) refl refl

abbrev fresh : LoopState ℕ (ℕ × List ℕ) (List (Envelope ℕ) × Bool)
fresh = record { actor = (0, []); context = busy; queue = (three, false) }

run_loop-Accounts_example :
    Accounts mail adder
      (account mail adder fresh ++ arrivals (quiet_tick ∷ []))
      (run_loop mail no_drain (logged adder) (quiet_tick ∷ []) fresh)
run_loop-Accounts_example = run_loop-Accounts mail adder (quiet_tick ∷ []) fresh

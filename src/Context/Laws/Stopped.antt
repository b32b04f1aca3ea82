-- ===== src/Context/Laws/Stopped.antt =====
-- How the task of an actor ends, in acktor/src/actor.rs.
use acktor.Base.{
  ◌≡◌, refl, ◌∙◌, true, none, some, List, [], ◌∷◌, arith, Result, ok, err, Outcome, returned,
  panicked, Bool-cases, inl, inr,
}
use acktor.Actor.{
  ActorState, unstarted, starting, running, stopping, stopped, is_running, is_stopped,
}
use acktor.Mailbox.{Channel}
use acktor.Drain.{DrainPolicy}
use acktor.Context.{Context, SupervisionEvent, set_state, try_notify_supervisor}
use acktor.Context.Hooks.{
  Request, sets_state, saves_error, sets_supervisor, drains_mailbox, notifies, Hooks, Envelope,
  perform, perform_all,
}
use acktor.Context.Loop.{Tick, LoopState, End, going, finished, unwound, step, resume, run_loop}
use acktor.Context.Run.{
  Task, alive, exited, crashed, settle, after_stop, after_loop, after_start, run,
}

module _ {E : Type 0} where
  -- No request sets the state.
  abbrev pub KeepsState : List (Request E) → Type 0
  KeepsState [] = Unit
  KeepsState (sets_state s ∷ rs) = ⊥
  KeepsState (saves_error e ∷ rs) = KeepsState rs
  KeepsState (sets_supervisor s ∷ rs) = KeepsState rs
  KeepsState (drains_mailbox ∷ rs) = KeepsState rs
  KeepsState (notifies event ∷ rs) = KeepsState rs

  state-notify :
      (event : SupervisionEvent E) (c : Context E) → (try_notify_supervisor event c).state ≡ c.state
  unfolding try_notify_supervisor
  state-notify event c = ground arith

  pub state-set_state : (s : ActorState) (c : Context E) → (set_state s c).state ≡ s
  unfolding set_state
  state-set_state s c = state-notify _ _

  state-perform_all :
      (policy : DrainPolicy) (rs : List (Request E)) (c : Context E)
      → KeepsState rs
      → (perform_all policy rs c).state ≡ c.state
  unfolding perform_all perform
  state-perform_all policy [] c k = refl
  state-perform_all policy (sets_state s ∷ rs) c k = absurd k
  state-perform_all policy (saves_error e ∷ rs) c k = state-perform_all policy rs _ k
  state-perform_all policy (sets_supervisor (some s) ∷ rs) c k =
      state-perform_all policy rs _ k ∙ ground arith
  state-perform_all policy (sets_supervisor none ∷ rs) c k = state-perform_all policy rs _ k
  state-perform_all policy (drains_mailbox ∷ rs) c k = state-perform_all policy rs _ k
  state-perform_all policy (notifies event ∷ rs) c k =
      state-perform_all policy rs _ k ∙ state-notify event c

module _ {E A Q : Type 0} where
  -- A loop that goes on is in the running state.
  abbrev pub GoesRunning : End E (LoopState E A Q) → Type 0
  GoesRunning (going s) = is_running s.context.state ≡ true
  GoesRunning (finished r s) = Unit
  GoesRunning (unwound s) = Unit

  -- A task is running while it is alive, and stopped once it has ended.
  abbrev pub IsSettled : Task E A Q → Type 0
  IsSettled (alive s) = is_running s.context.state ≡ true
  IsSettled (exited r a c) = c.state ≡ stopped
  IsSettled (crashed a c) = c.state ≡ stopped

module _ {E A M : Type 0} (ch : Channel (Envelope M)) (policy : DrainPolicy) (h : Hooks E A M) where
  open ch use {Queue, deliver, poll_recv}

  resume-GoesRunning :
      (e : End E (LoopState E A Queue)) (k : LoopState E A Queue → End E (LoopState E A Queue))
      → ((s : LoopState E A Queue) → GoesRunning (k s))
      → GoesRunning (resume e k)
  resume-GoesRunning (going s) k f = f s
  resume-GoesRunning (finished r s) k f = tt
  resume-GoesRunning (unwound s) k f = tt

  run_loop-GoesRunning :
      (ts : List (Tick M)) (s : LoopState E A Queue) → GoesRunning (run_loop ch policy h ts s)
  unfolding run_loop
  run_loop-GoesRunning [] s = elim (Bool-cases (is_running s.context.state)) [
    | inl on ↦ rw on on
    | inr off ↦ rw off tt
  ]
  run_loop-GoesRunning (t ∷ ts) s = elim (Bool-cases (is_running s.context.state)) [
    | inl on ↦ rw on (resume-GoesRunning (step ch policy h t s) _ (run_loop-GoesRunning ts))
    | inr off ↦ rw off tt
  ]

  state-settle : (c : Context E) → (settle ch policy h c).state ≡ stopped
  unfolding settle
  state-settle c = elim (Bool-cases (is_stopped c.state)) [
    | inl on ↦ rw on (only c.state on)
    | inr off ↦ rw off (state-set_state stopped c)
  ]
    where
      only : (s : ActorState) → is_stopped s ≡ true → s ≡ stopped
      only stopped e = refl
      only unstarted e = cc
      only starting e = cc
      only running e = cc
      only stopping e = cc

  after_stop-IsSettled :
      (o : Outcome (Result (Unit {0}) E)) (result : Result (Unit {0}) E) (a : A) (c : Context E)
      → c.state ≡ stopped
      → IsSettled (after_stop ch policy h o result a c)
  unfolding after_stop
  after_stop-IsSettled panicked result a c e = e
  after_stop-IsSettled (returned r) result a c e = e

  -- Of the hook: `post_stop` does not set the state of the actor.
  abbrev pub KeepsStopped : Type 0
  KeepsStopped = (a : A) (c : Context E) → KeepsState (h.post_stop a c).requests

  after_loop-IsSettled :
      KeepsStopped
      → (e : End E (LoopState E A Queue)) → GoesRunning e
      → IsSettled (after_loop ch policy h e)
  unfolding after_loop
  after_loop-IsSettled keeps (going s) g = g
  after_loop-IsSettled keeps (unwound s) g = state-settle s.context
  after_loop-IsSettled keeps (finished result s) g =
      let c = settle ch policy h s.context in
      let r = h.post_stop s.actor c in
      after_stop-IsSettled r.outcome result r.actor (perform_all policy r.requests c)
        (state-perform_all policy r.requests c (keeps s.actor c) ∙ state-settle s.context)

  after_start-IsSettled :
      KeepsStopped
      → (o : Outcome (Result (Unit {0}) E)) (a : A) (c : Context E) (ts : List (Tick M)) (q : Queue)
      → IsSettled (after_start ch policy h o a c ts q)
  unfolding after_start
  after_start-IsSettled keeps panicked a c ts q = state-set_state stopped c
  after_start-IsSettled keeps (returned (err e)) a c ts q = state-set_state stopped c
  after_start-IsSettled keeps (returned (ok u)) a c ts q =
      after_loop-IsSettled keeps _ (run_loop-GoesRunning ts _)

  -- If `post_stop` does not set the state, then a task is `Running` while it is alive, and ends in
  -- `Stopped` on every path: a failed or panicked start, a stop, a panic, a failed `post_stop`.
  pub run-IsSettled :
      (a : A) (c : Context E) (ts : List (Tick M)) (q : Queue)
      → KeepsStopped
      → IsSettled (run ch policy h a c ts q)
  unfolding run
  run-IsSettled a c ts q keeps =
      let r = h.post_start a c in
      after_start-IsSettled keeps r.outcome r.actor (perform_all policy r.requests c) ts q

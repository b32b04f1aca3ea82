-- ===== src/Session/Waiting.antt =====
-- acktor-ipc/src/session/context.rs: the sweeps that are to come while the loop of a session waits.
use acktor.Base.{
  ℕ, ◌+◌, ◌≡◌, ap, false, List, ◌∷◌, Outcome, returned, panicked, if◌then◌else◌, total, arith,
}
use acktor.Session.Context.{
  Mail, requires_cleanup, responds, request, LoopState, End, going, finished, unwound, resume,
}

abbrev pub is_sweep : {B : Type 0} → Mail B → ℕ
is_sweep requires_cleanup = 1
is_sweep (responds tag r) = 0
is_sweep (request m) = 0

module _ {B E Map : Type 0} where
  -- The sweeps to come: a timer runs, or its message is in the mailbox.
  abbrev pub sweeps : LoopState B E Map → ℕ
  sweeps s = s.timers + total is_sweep s.mailbox

  -- None is overdue, and exactly one is to come.
  pub record IsWaiting (s : LoopState B E Map) : Type 0 where
    pub no_backlog : s.context.require_cleanup ≡ false
    pub one_to_come : sweeps s ≡ 1

  -- The same, where the sweep may also be due at once.
  abbrev pub IsScheduled : LoopState B E Map → Type 0
  IsScheduled s = (if s.context.require_cleanup then 1 else 0) + sweeps s ≡ 1

  abbrev pub WaitsAt : End E (LoopState B E Map) → Type 0
  WaitsAt (going s) = IsWaiting s
  WaitsAt (finished r s) = Unit
  WaitsAt (unwound s) = Unit

  abbrev pub ScheduledAt : Outcome (LoopState B E Map) → Type 0
  ScheduledAt (returned s) = IsScheduled s
  ScheduledAt panicked = Unit

module _ {B E Map : Type 0} where
  pub unswept :
      (s : LoopState B E Map) (m : Mail B) (ms : List (Mail B))
      → is_sweep m ≡ 0
      → s.mailbox ≡ m ∷ ms
      → IsWaiting s
      → IsScheduled (record s { mailbox = ms })
  unswept s m ms z e v =
      ground (arith, z, v.no_backlog, v.one_to_come, ap (λ (l : List (Mail B)). total is_sweep l) e)

  pub resume-WaitsAt :
      (end : End E (LoopState B E Map)) (k : LoopState B E Map → End E (LoopState B E Map))
      → WaitsAt end
      → ((s : LoopState B E Map) → IsWaiting s → WaitsAt (k s))
      → WaitsAt (resume end k)
  resume-WaitsAt (going s) k w f = f s w
  resume-WaitsAt (finished r s) k w f = tt
  resume-WaitsAt (unwound s) k w f = tt

  pub scheduled : (s : LoopState B E Map) → IsWaiting s → IsScheduled s
  scheduled s v = ground (arith, v.no_backlog, v.one_to_come)

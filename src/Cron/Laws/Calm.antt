-- ===== src/Cron/Laws/Calm.antt =====
-- Requests and messages that do not resume the task of acktor/src/cron.rs.
use acktor.Base.{ℕ, zero, suc, ◌≡◌, refl, List, [], ◌∷◌, ◌++◌, drop, Bool-cases, inl, inr}
use acktor.Actor.{pause, resume}
use acktor.Mailbox.{Channel}
use acktor.Drain
use acktor.Drain.{DrainPolicy, no_drain, drainable, queued-discard}
use acktor.Cron.{
  CronContext, CronRequest, asks, pauses, resumes, CronEnvelope, user, signal, supervise, cron,
  paused, perform_all, perform_one, pause_task,
}
use acktor.Cron.Loop.{CronTick}

-- No request resumes the task.
abbrev pub NeverResumes : {E : Type 0} → List (CronRequest E) → Type 0
NeverResumes [] = Unit
NeverResumes (asks r ∷ rs) = NeverResumes rs
NeverResumes (pauses ∷ rs) = NeverResumes rs
NeverResumes (resumes ∷ rs) = ⊥

-- No message resumes the task.
abbrev pub IsCalm : {M : Type 0} → List (CronEnvelope M) → Type 0
IsCalm [] = Unit
IsCalm (user m ∷ es) = IsCalm es
IsCalm (signal s ∷ es) = IsCalm es
IsCalm (supervise s ∷ es) = IsCalm es
IsCalm (cron pause ∷ es) = IsCalm es
IsCalm (cron resume ∷ es) = ⊥

module _ {M : Type 0} where
  pub IsCalm-append : (xs ys : List (CronEnvelope M)) → IsCalm xs → IsCalm ys → IsCalm (xs ++ ys)
  IsCalm-append [] ys a b = b
  IsCalm-append (user m ∷ xs) ys a b = IsCalm-append xs ys a b
  IsCalm-append (signal s ∷ xs) ys a b = IsCalm-append xs ys a b
  IsCalm-append (supervise s ∷ xs) ys a b = IsCalm-append xs ys a b
  IsCalm-append (cron pause ∷ xs) ys a b = IsCalm-append xs ys a b
  IsCalm-append (cron resume ∷ xs) ys a b = absurd a

  pub IsCalm-tail : (x : CronEnvelope M) (xs : List (CronEnvelope M)) → IsCalm (x ∷ xs) → IsCalm xs
  IsCalm-tail (user m) xs a = a
  IsCalm-tail (signal s) xs a = a
  IsCalm-tail (supervise s) xs a = a
  IsCalm-tail (cron pause) xs a = a
  IsCalm-tail (cron resume) xs a = absurd a

  pub IsCalm-head :
      (x : CronEnvelope M) (xs : List (CronEnvelope M)) → IsCalm (x ∷ xs) → IsCalm (x ∷ [])
  IsCalm-head (user m) xs a = tt
  IsCalm-head (signal s) xs a = tt
  IsCalm-head (supervise s) xs a = tt
  IsCalm-head (cron pause) xs a = tt
  IsCalm-head (cron resume) xs a = absurd a

  IsCalm-drop : (n : ℕ) (xs : List (CronEnvelope M)) → IsCalm xs → IsCalm (drop n xs)
  IsCalm-drop zero xs a = a
  IsCalm-drop (suc n) [] a = tt
  IsCalm-drop (suc n) (x ∷ xs) a = IsCalm-drop n xs (IsCalm-tail x xs a)

  abbrev pub AreCalm : List (CronTick M) → Type 0
  AreCalm [] = Unit
  AreCalm (t ∷ ts) = IsCalm t.before × IsCalm t.during × AreCalm ts

module _ {E : Type 0} (policy : DrainPolicy) where
  pub perform_all-paused :
      (rs : List (CronRequest E)) (c : CronContext E)
      → NeverResumes rs
      → c.cron_state ≡ paused
      → (perform_all policy rs c).cron_state ≡ paused
  unfolding perform_all perform_one pause_task
  perform_all-paused [] c k p = p
  perform_all-paused (asks r ∷ rs) c k p = perform_all-paused rs _ k p
  perform_all-paused (pauses ∷ rs) c k p = perform_all-paused rs _ k refl
  perform_all-paused (resumes ∷ rs) c k p = absurd k

module _ {M : Type 0} (ch : Channel (CronEnvelope M)) where
  open ch use {Queue, queued}

  pub apply-IsCalm :
      (policy : DrainPolicy) (d : Drain.DrainState) (q : Queue)
      → IsCalm (queued q)
      → IsCalm (queued (Drain.apply ch policy d q).1)
  unfolding Drain.apply
  apply-IsCalm no_drain d q a = a
  apply-IsCalm drainable d q a = elim (Bool-cases d.requested) [
    | inl on ↦ rw (on, queued-discard ch d.mailbox_len q) (IsCalm-drop d.mailbox_len (queued q) a)
    | inr off ↦ rw off a
  ]

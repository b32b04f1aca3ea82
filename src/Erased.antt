-- ===== src/Erased.antt =====
-- `std::any::Any`, by which the envelopes and the codec tables of acktor/src forget a type.
use acktor.Base.{ℕ, ◌≡◌, ◌≢◌, refl, ap, ◌∙◌, Option, none, some}
use mathlib.Core.Path.{subst, subst_refl}
use native.Mathlib.Decide.{ℕ_discrete}
use native.Mathlib.Nat.{ℕ_set}

-- `Val t` stands for the values of the type whose `TypeId` is `t`.
module _ (Val : ℕ → Type 0) where
  abbrev cast : (s t : ℕ) → Dec (s ≡ t) → Val s → Option (Val t)
  cast s t (yes e) v = some (subst Val e v)
  cast s t (no h) v = none

  -- `downcast`, `downcast_ref` and `downcast_mut`.
  unfoldable pub downcast : (t s : ℕ) → Val s → Option (Val t)
  downcast t s v = cast s t (ℕ_discrete s t) v

  -- A value is found under its own type, and under no other.
  pub downcast_same : (t : ℕ) (v : Val t) → downcast t t v ≡ some v
  unfolding downcast
  downcast_same t v = same (ℕ_discrete t t)
    where
      same : (d : Dec (t ≡ t)) → cast t t d v ≡ some v
      same (yes e) = ap (λ e. some (subst Val e v)) (ℕ_set t t e refl) ∙ ap some (subst_refl Val v)
      same (no h) = absurd (h refl)

  pub downcast_other : (t s : ℕ) (v : Val s) → s ≢ t → downcast t s v ≡ none
  unfolding downcast
  downcast_other t s v h = other (ℕ_discrete s t)
    where
      other : (d : Dec (s ≡ t)) → cast s t d v ≡ none
      other (yes e) = absurd (h e)
      other (no k) = refl

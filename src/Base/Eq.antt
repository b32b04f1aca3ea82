-- ===== src/Base/Eq.antt =====
-- The bound `K: Eq`, with the law that the keys of this program meet: `==` is equality.
use Prim.Native.Nat.{ℕ}
use Prim.Native.String.{String}
use mathlib.Core.Path.{◌≡◌, refl}
use mathlib.Core.Logic.{◌↔◌}
use mathlib.Core.Bool.{Bool, true}
use text.Mathlib.Text.{◌==◌ as text_eq}
use text.Mathlib.TextEquality.{eq_iff as text_eq_iff}
use acktor.Base.Tests.{eqb, eqb_iff}

pub record Eq {ℓ} (K : Type ℓ) : Type ℓ where
  pub same : K → K → Bool
  pub same_iff : (j k : K) → (same j k ≡ true) ↔ (j ≡ k)

instance abbrev pub nat_eq : Eq ℕ
nat_eq = record { same = eqb; same_iff = eqb_iff }

instance abbrev pub string_eq : Eq String
string_eq = record { same = text_eq; same_iff = text_eq_iff }

infix 50 ◌==◌
abbrev pub ◌==◌ {ℓ} : {K : Type ℓ} ⦃d : Eq K⦄ → K → K → Bool
◌==◌ ⦃d⦄ j k = d.same j k

pub ==_refl {ℓ} : {K : Type ℓ} ⦃d : Eq K⦄ (k : K) → (k == k) ≡ true
==_refl ⦃d⦄ k = (d.same_iff k k).1 refl

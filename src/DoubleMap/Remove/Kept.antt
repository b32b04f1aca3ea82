-- ===== src/DoubleMap/Remove/Kept.antt =====
-- acktor-ipc/src/double_map.rs: lookups by one key after `retain`.
use acktor.Base.{◌≡◌, Bool, none, some, arith, if◌then◌else◌, Option-cases, inl, inr}
use acktor.Base.Eq.{Eq}
use acktor.HashMap
use acktor.DoubleMap.{DoubleMap, get_by_key1, get_by_key2}
use acktor.DoubleMap.Remove.{retain}
use acktor.DoubleMap.Remove.Retention.{keeping, get-keeping, retain-IsSynced}
use acktor.DoubleMap.Sync.{IsSynced}

module _ {ℓ} {K1 K2 V : Type ℓ} ⦃e1 : Eq K1⦄ ⦃e2 : Eq K2⦄ where
  get_primary-retain :
      (p : K1 → K2 → V → Bool) (a : K1) (d : DoubleMap K1 K2 V)
      → IsSynced d
      → HashMap.get a (retain (keeping p) tt d).primary ≡ elim (HashMap.get a d.primary) [
        | none ↦ none
        | some e ↦ if p a e.0 e.1 then some e else none
      ]
  unfolding retain
  get_primary-retain p a d s = get-keeping p a d.primary d.secondary s.unique1

  -- A value is found by its first key after `retain` where it was found before and the predicate
  -- accepts it.
  pub get_by_key1-retain :
      (p : V → Bool) (a : K1) (d : DoubleMap K1 K2 V)
      → IsSynced d
      → get_by_key1 a (retain (keeping (λ a b v. p v)) tt d)
        ≡ elim (get_by_key1 a d) [ none ↦ none | some v ↦ if p v then some v else none ]
  unfolding get_by_key1
  get_by_key1-retain p a d s = ground (arith, get_primary-retain (λ a b v. p v) a d s)

  -- The same of the second key.
  pub get_by_key2-retain :
      (p : V → Bool) (b : K2) (d : DoubleMap K1 K2 V)
      → IsSynced d
      → get_by_key2 b (retain (keeping (λ a b v. p v)) tt d)
        ≡ elim (get_by_key2 b d) [ none ↦ none | some v ↦ if p v then some v else none ]
  unfolding get_by_key2
  get_by_key2-retain p b d s =
      let q : K1 → K2 → V → Bool = λ a b v. p v in
      let d' = retain (keeping q) tt d in
      let s' = retain-IsSynced (keeping q) tt d s in
      elim (Option-cases (HashMap.get b d'.secondary)) [
        | inl e' ↦ elim (Option-cases (HashMap.get b d.secondary)) [
          | inl e ↦ ground arith
          | inr (a, e) ↦ ground (arith, s.back a b e, s'.forth a b, get_primary-retain q a d s)
        ]
        | inr (a, e') ↦ ground (arith, s'.back a b e', s.forth a b, get_primary-retain q a d s)
      ]

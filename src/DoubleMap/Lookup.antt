-- ===== src/DoubleMap/Lookup.antt =====
-- acktor-ipc/src/double_map.rs: the lookups of a synchronised map agree.
use acktor.Base.{◌≡◌, ◌↔◌, some, arith, Option-cases, inl, inr, is_some}
use acktor.Base.Eq.{Eq}
use acktor.HashMap
use acktor.DoubleMap.{
  DoubleMap, get_by_key1, get_by_key2, get_by_keys, contains_key1, contains_key2,
}
use acktor.DoubleMap.Sync.{IsSynced}

module _ {ℓ} {K1 K2 V : Type ℓ} ⦃e1 : Eq K1⦄ ⦃e2 : Eq K2⦄ where
  -- In a synchronised map a value is found under both keys exactly where it is found under the
  -- first key and under the second key, and the second key names an entry of the same first key.
  pub get_by_keys_iff :
      (k1 : K1) (k2 : K2) (v : V) (d : DoubleMap K1 K2 V)
      → IsSynced d
      → (get_by_keys k1 k2 d ≡ some v)
        ↔ ((get_by_key1 k1 d ≡ some v) × (HashMap.get k2 d.secondary ≡ some k1))
  unfolding get_by_keys get_by_key1
  get_by_keys_iff k1 k2 v d s = elim (Option-cases (HashMap.get k1 d.primary)) [
    | inl e ↦ ground arith
    | inr ((stored, w), e) ↦ ground (arith, e2.same_iff stored k2, s.forth k1 k2, s.back k1 k2)
  ]

  -- In a synchronised map a second key is contained exactly where a lookup by it finds a value:
  -- an index entry never points at a missing value.
  pub contains_key2_iff :
      (k2 : K2) (d : DoubleMap K1 K2 V)
      → IsSynced d
      → contains_key2 k2 d ≡ is_some (get_by_key2 k2 d)
  unfolding contains_key2 get_by_key2
  contains_key2_iff k2 d s = elim (Option-cases (HashMap.get k2 d.secondary)) [
    | inl e ↦ ground arith
    | inr (k1, e) ↦ ground (arith, s.back k1 k2)
  ]

  pub contains_key1_iff :
      (k1 : K1) (d : DoubleMap K1 K2 V) → contains_key1 k1 d ≡ is_some (get_by_key1 k1 d)
  unfolding contains_key1 get_by_key1
  contains_key1_iff k1 d = ground arith

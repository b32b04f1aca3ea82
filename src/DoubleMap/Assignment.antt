-- ===== src/DoubleMap/Assignment.antt =====
-- acktor-ipc/src/double_map.rs: a value that is changed through a mutable reference.
use acktor.Base.{
  ◌≡◌, Bool, ◌&&◌, some, arith, if◌then◌else◌, map_option, Option-cases, Bool-cases, inl, inr,
}
use acktor.Base.Eq.{Eq, ◌==◌}
use acktor.HashMap
use acktor.HashMap.Laws.{get-insert, insert-IsUnique}
use acktor.DoubleMap.{DoubleMap, get_by_keys, get_mut_by_key1, get_mut_by_key2, get_mut_by_keys}
use acktor.DoubleMap.Sync.{IsSynced, assign-IsPaired}

module _ {ℓ} {K1 K2 V : Type ℓ} ⦃e1 : Eq K1⦄ ⦃e2 : Eq K2⦄ where
  -- What a call that changes the value of the pairs in `hit` does: the maps stay in sync, and
  -- exactly those values change.
  abbrev pub Changes : (V → V) → (K1 → K2 → Bool) → DoubleMap K1 K2 V → DoubleMap K1 K2 V → Type ℓ
  Changes f hit d d' =
      IsSynced d'
      × ((a : K1) (b : K2)
          → get_by_keys a b d'
            ≡ (if hit a b then map_option f (get_by_keys a b d) else get_by_keys a b d))

  assign_lem :
      (k1 : K1) (k2 : K2) (v : V) (f : V → V) (d : DoubleMap K1 K2 V)
      → IsSynced d
      → HashMap.get k1 d.primary ≡ some (k2, v)
      → Changes f (λ a b. k1 == a) d (record d { primary = HashMap.insert k1 (k2, f v) d.primary })
  unfolding get_by_keys
  assign_lem k1 k2 v f d s h = (
    record {
      unique1 = insert-IsUnique k1 (k2, f v) d.primary s.unique1;
      unique2 = s.unique2;
      paired = assign-IsPaired k1 k2 (f v) d.primary d.secondary (ground arith) s.paired;
    },
    λ a b. ground (arith, get-insert k1 a (k2, f v) d.primary, e1.same_iff k1 a),
  )

  pub get_mut_by_key1_lem :
      (k1 : K1) (f : V → V) (d : DoubleMap K1 K2 V)
      → IsSynced d
      → Changes f (λ a b. k1 == a) d (get_mut_by_key1 k1 f d)
  unfolding get_mut_by_key1 get_by_keys
  get_mut_by_key1_lem k1 f d s = elim (Option-cases (HashMap.get k1 d.primary)) [
    | inl e ↦ rw (e, get_mut_by_key1) (s, λ a b. ground (arith, e1.same_iff k1 a))
    | inr ((k2, v), e) ↦ rw (e, get_mut_by_key1) (assign_lem k1 k2 v f d s e)
  ]

  pub get_mut_by_key2_lem :
      (k2 : K2) (f : V → V) (d : DoubleMap K1 K2 V)
      → IsSynced d
      → Changes f (λ a b. k2 == b) d (get_mut_by_key2 k2 f d)
  unfolding get_mut_by_key2 get_by_keys
  get_mut_by_key2_lem k2 f d s = elim (Option-cases (HashMap.get k2 d.secondary)) [
    | inl e ↦
        rw (e, get_mut_by_key2)
          (
            s,
            λ a b. elim (Option-cases (HashMap.get a d.primary)) [
              | inl e' ↦ ground arith
              | inr ((stored, v), e') ↦
                  ground (arith, e2.same_iff k2 b, e2.same_iff stored b, s.forth a b)
            ],
          )
    | inr (k1, e) ↦
        rw (e, get_mut_by_key2)
          (
            (get_mut_by_key1_lem k1 f d s).0,
            λ a b. elim (Option-cases (HashMap.get a d.primary)) [
              | inl e' ↦ ground (arith, (get_mut_by_key1_lem k1 f d s).1 a b)
              | inr ((stored, v), e') ↦ ground (
                arith,
                (get_mut_by_key1_lem k1 f d s).1 a b,
                e1.same_iff k1 a,
                e2.same_iff k2 b,
                e2.same_iff stored b,
                s.forth a b,
                s.back k1 k2,
              )
            ],
          )
  ]

  pub get_mut_by_keys_lem :
      (k1 : K1) (k2 : K2) (f : V → V) (d : DoubleMap K1 K2 V)
      → IsSynced d
      → Changes f (λ a b. k1 == a && k2 == b) d (get_mut_by_keys k1 k2 f d)
  unfolding get_mut_by_keys get_by_keys
  get_mut_by_keys_lem k1 k2 f d s = elim (Option-cases (HashMap.get k1 d.primary)) [
    | inl e ↦ rw (e, get_mut_by_keys) (s, λ a b. ground (arith, e1.same_iff k1 a))
    | inr ((stored, v), e) ↦ elim (Bool-cases (stored == k2)) [
      | inl same ↦
          rw (e, same, get_mut_by_keys)
            (
              (assign_lem k1 stored v f d s e).0,
              λ a b. ground (
                arith,
                (assign_lem k1 stored v f d s e).1 a b,
                e1.same_iff k1 a,
                e2.same_iff stored k2,
                e2.same_iff stored b,
                e2.same_iff k2 b,
              ),
            )
      | inr other ↦
          rw (e, other, get_mut_by_keys)
            (
              s,
              λ a b. ground (
                arith,
                e1.same_iff k1 a,
                e2.same_iff stored k2,
                e2.same_iff stored b,
                e2.same_iff k2 b,
              ),
            )
    ]
  ]

  -- Changing a value through a reference by the first key, by the second key or by both keeps the
  -- two maps in sync, and changes the value of the entry with these keys and no other.
  pub get_mut_lem :
      (k1 : K1) (k2 : K2) (f : V → V) (d : DoubleMap K1 K2 V)
      → IsSynced d
      → Changes f (λ a b. k1 == a) d (get_mut_by_key1 k1 f d)
        × Changes f (λ a b. k2 == b) d (get_mut_by_key2 k2 f d)
        × Changes f (λ a b. k1 == a && k2 == b) d (get_mut_by_keys k1 k2 f d)
  get_mut_lem k1 k2 f d s =
      (get_mut_by_key1_lem k1 f d s, get_mut_by_key2_lem k2 f d s, get_mut_by_keys_lem k1 k2 f d s)

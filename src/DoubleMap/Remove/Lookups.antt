-- ===== src/DoubleMap/Remove/Lookups.antt =====
-- acktor-ipc/src/double_map.rs: what the removals do to a synchronised map.
use acktor.Base.{
  ◌≡◌, refl, ◌&&◌, none, some, arith, if◌then◌else◌, map_option, returned, ◌>>=◌, Option-cases,
  Bool-cases, inl, inr, ◌≢◌,
}
use acktor.Base.Eq.{Eq, ◌==◌}
use acktor.HashMap
use acktor.HashMap.Laws.{
  get-insert, get-remove, get_key_value-get, insert-IsUnique, remove-IsUnique,
}
use acktor.DoubleMap.{DoubleMap, get_by_keys, get_by_key1, get_by_key2}
use acktor.DoubleMap.Remove.{
  remove_by_key1, remove_by_key2, remove_by_keys, remove_entry_by_key1, remove_entry_by_key2,
  remove_entry_by_keys,
}
use acktor.DoubleMap.Sync.{IsSynced, partner, remove-IsPaired}

module _ {ℓ} {K1 K2 V : Type ℓ} ⦃e1 : Eq K1⦄ ⦃e2 : Eq K2⦄ where
  -- The map without one entry.
  abbrev pub without : K1 → K2 → DoubleMap K1 K2 V → DoubleMap K1 K2 V
  without k1 k2 d = record {
    primary = HashMap.remove k1 d.primary;
    secondary = HashMap.remove k2 d.secondary;
  }

  pub without-IsSynced :
      (k1 : K1) (k2 : K2) (d : DoubleMap K1 K2 V)
      → partner k1 d.primary ≡ some k2
      → IsSynced d
      → IsSynced (without k1 k2 d)
  without-IsSynced k1 k2 d h s = record {
    unique1 = remove-IsUnique k1 d.primary s.unique1;
    unique2 = remove-IsUnique k2 d.secondary s.unique2;
    paired = remove-IsPaired k1 k2 d.primary d.secondary h s.paired;
  }

  -- An entry that is taken out and put back.
  abbrev put_back : K1 → K2 → V → DoubleMap K1 K2 V → DoubleMap K1 K2 V
  put_back k1 k2 v d = record d {
    primary = HashMap.insert k1 (k2, v) (HashMap.remove k1 d.primary);
  }

  put_back-IsSynced :
      (k1 : K1) (k2 : K2) (v : V) (d : DoubleMap K1 K2 V)
      → HashMap.get k1 d.primary ≡ some (k2, v)
      → IsSynced d
      → IsSynced (put_back k1 k2 v d)
  put_back-IsSynced k1 k2 v d h s = record {
    unique1 =
        insert-IsUnique k1 (k2, v) (HashMap.remove k1 d.primary)
          (remove-IsUnique k1 d.primary s.unique1);
    unique2 = s.unique2;
    paired = record {
      forth = λ a b. ground (
        arith,
        get-insert k1 a (k2, v) (HashMap.remove k1 d.primary),
        get-remove k1 a d.primary,
        e1.same_iff k1 a,
        s.forth a b,
      );
      back = λ a b. ground (
        arith,
        get-insert k1 a (k2, v) (HashMap.remove k1 d.primary),
        get-remove k1 a d.primary,
        e1.same_iff k1 a,
        s.back a b,
      );
    };
  }

  get_by_keys-put_back :
      (k1 a : K1) (k2 b : K2) (v : V) (d : DoubleMap K1 K2 V)
      → HashMap.get k1 d.primary ≡ some (k2, v)
      → get_by_keys a b (put_back k1 k2 v d) ≡ get_by_keys a b d
  unfolding get_by_keys
  get_by_keys-put_back k1 a k2 b v d h = ground (
    arith,
    get-insert k1 a (k2, v) (HashMap.remove k1 d.primary),
    get-remove k1 a d.primary,
    e1.same_iff k1 a,
  )

  get_by_keys_unpaired :
      (a : K1) (b : K2) (d : DoubleMap K1 K2 V)
      → IsSynced d
      → HashMap.get b d.secondary ≢ some a
      → get_by_keys a b d ≡ none
  unfolding get_by_keys
  get_by_keys_unpaired a b d s h = elim (Option-cases (HashMap.get a d.primary)) [
    | inl e ↦ rw (e, get_by_keys)
    | inr ((stored, v), e) ↦ elim (Bool-cases (stored == b)) [
      | inl same ↦ absurd (h (s.forth a b (ground (arith, e2.same_iff stored b))))
      | inr other ↦ rw (e, other, get_by_keys)
    ]
  ]

  -- `remove_by_key1` returns what a lookup by the key finds, keeps the maps in sync, and leaves
  -- exactly the entries under other first keys.
  pub remove_by_key1_lem :
      (k1 : K1) (d : DoubleMap K1 K2 V)
      → IsSynced d
      → ((remove_by_key1 k1 d).1 ≡ get_by_key1 k1 d)
        × IsSynced (remove_by_key1 k1 d).0
        × ((a : K1) (b : K2)
            → get_by_keys a b (remove_by_key1 k1 d).0
              ≡ (if k1 == a then none else get_by_keys a b d))
  unfolding remove_by_key1 get_by_key1 get_by_keys
  remove_by_key1_lem k1 d s = elim (Option-cases (HashMap.get k1 d.primary)) [
    | inl e ↦ rw (e, remove_by_key1) (refl, s, λ a b. ground (arith, e1.same_iff k1 a))
    | inr ((k2, v), e) ↦
        rw (e, remove_by_key1)
          (
            refl,
            without-IsSynced k1 k2 d (ground arith) s,
            λ a b. ground (arith, get-remove k1 a d.primary),
          )
  ]

  -- `remove_by_key2` never fails its `expect`: it returns what a lookup by the key finds, keeps
  -- the maps in sync, and leaves exactly the entries under other second keys.
  pub remove_by_key2_lem :
      (k2 : K2) (d : DoubleMap K1 K2 V)
      → IsSynced d
      → (d' : DoubleMap K1 K2 V) × (remove_by_key2 k2 d ≡ returned (d', get_by_key2 k2 d))
        × IsSynced d'
        × ((a : K1) (b : K2) → get_by_keys a b d' ≡ (if k2 == b then none else get_by_keys a b d))
  unfolding remove_by_key2 get_by_key2 get_by_keys
  remove_by_key2_lem k2 d s = elim (Option-cases (HashMap.get k2 d.secondary)) [
    | inl e ↦ (
      d,
      rw (e, remove_by_key2, get_by_key2),
      s,
      λ a b. elim (Bool-cases (k2 == b)) [
        | inl same ↦ rw same (get_by_keys_unpaired a b d s (λ p. ground (arith, e2.same_iff k2 b)))
        | inr other ↦ rw other
      ],
    )
    | inr (k1, e) ↦ elim (Option-cases (HashMap.get k1 d.primary)) [
      | inl e' ↦ absurd (ground (arith, s.back k1 k2))
      | inr ((stored, v), e') ↦ (
        without k1 k2 d,
        ground arith,
        without-IsSynced k1 k2 d (s.back k1 k2 e) s,
        λ a b. elim (Bool-cases (k2 == b)) [
          | inl same ↦ rw same (
              get_by_keys_unpaired a b (without k1 k2 d)
                (without-IsSynced k1 k2 d (s.back k1 k2 e) s)
                (λ p. ground (arith, get-remove k2 b d.secondary)))
          | inr other ↦
              rw other (ground (arith, get-remove k1 a d.primary, e1.same_iff k1 a, s.back k1 k2))
        ],
      )
    ]
  ]

  -- `remove_by_keys` returns what a lookup by both keys finds, keeps the maps in sync, and
  -- leaves every other pair: on a mismatch every pair, though it takes an entry out in between.
  pub remove_by_keys_lem :
      (k1 : K1) (k2 : K2) (d : DoubleMap K1 K2 V)
      → IsSynced d
      → ((remove_by_keys k1 k2 d).1 ≡ get_by_keys k1 k2 d)
        × IsSynced (remove_by_keys k1 k2 d).0
        × ((a : K1) (b : K2)
            → get_by_keys a b (remove_by_keys k1 k2 d).0
              ≡ (if k1 == a && k2 == b then none else get_by_keys a b d))
  unfolding remove_by_keys get_by_keys
  remove_by_keys_lem k1 k2 d s = elim (Option-cases (HashMap.get k1 d.primary)) [
    | inl e ↦
        rw (get_key_value-get k1 d.primary, e, remove_by_keys, get_by_keys)
          (refl, s, λ a b. ground (arith, e1.same_iff k1 a))
    | inr ((stored, v), e) ↦ elim (Bool-cases (stored == k2)) [
      | inl same ↦
          rw (get_key_value-get k1 d.primary, e, same, remove_by_keys, get_by_keys)
            (
              refl,
              without-IsSynced k1 stored d (ground arith) s,
              λ a b.
                  ground
                    (arith, get-remove k1 a d.primary, e1.same_iff k1 a, e2.same_iff stored k2),
            )
      | inr other ↦
          rw (get_key_value-get k1 d.primary, e, other, remove_by_keys, get_by_keys)
            (
              refl,
              put_back-IsSynced k1 stored v d e s,
              λ a b. ground (
                arith,
                get_by_keys-put_back k1 a stored b v d,
                e1.same_iff k1 a,
                e2.same_iff k2 b,
              ),
            )
    ]
  ]

  -- The `remove_entry` methods do what the `remove` methods do, and return the keys as well.
  pub remove_entry_by_key1_lem :
      (k1 : K1) (d : DoubleMap K1 K2 V)
      → remove_by_key1 k1 d
        ≡ ((remove_entry_by_key1 k1 d).0, map_option (λ e. e.2) (remove_entry_by_key1 k1 d).1)
  unfolding remove_by_key1 remove_entry_by_key1
  remove_entry_by_key1_lem k1 d = ground (arith, get_key_value-get k1 d.primary)

  pub remove_entry_by_keys_lem :
      (k1 : K1) (k2 : K2) (d : DoubleMap K1 K2 V)
      → remove_by_keys k1 k2 d
        ≡ ((remove_entry_by_keys k1 k2 d).0, map_option (λ e. e.2) (remove_entry_by_keys k1 k2 d).1)
  unfolding remove_by_keys remove_entry_by_keys
  remove_entry_by_keys_lem k1 k2 d = ground arith

  pub remove_entry_by_key2_lem :
      (k2 : K2) (d : DoubleMap K1 K2 V)
      → remove_by_key2 k2 d
        ≡ (remove_entry_by_key2 k2 d >>= λ r. returned (r.0, map_option (λ e. e.2) r.1))
  unfolding remove_by_key2 remove_entry_by_key2
  remove_entry_by_key2_lem k2 d = elim (Option-cases (HashMap.get k2 d.secondary)) [
    | inl e ↦ rw (e, remove_by_key2, remove_entry_by_key2)
    | inr (k, e) ↦ ground (arith, get_key_value-get k d.primary)
  ]

-- ===== src/DoubleMap/Insertion.antt =====
-- acktor-ipc/src/double_map.rs: what `insert` and `extend` do to a synchronised map.
use acktor.Base.{
  ◌≡◌, Bool, false, not, ◌&&◌, ◌||◌, none, some, List, [], ◌∷◌, arith, if◌then◌else◌, ok, err,
  Option-cases, Bool-cases, inl, inr,
}
use acktor.Base.Eq.{Eq, ◌==◌, ==_refl}
use acktor.HashMap
use acktor.HashMap.{HashMap}
use acktor.HashMap.Laws.{get-insert, insert-IsUnique}
use acktor.DoubleMap.{
  DoubleMap, key1_exists, key2_exists, both_keys_exist, new, get_by_keys, get_by_key1, get_by_key2,
  contains_key1, contains_key2, contains_keys, insert, extend, from_iter,
}
use acktor.DoubleMap.Sync.{IsSynced, partner, insert-IsPaired, assign-IsPaired, new-IsSynced}

module _ {ℓ} {K1 K2 V : Type ℓ} ⦃e1 : Eq K1⦄ ⦃e2 : Eq K2⦄ where
  -- The keys are those of one entry, or neither is in the map.
  abbrev pub accepts : K1 → K2 → DoubleMap K1 K2 V → Bool
  accepts k1 k2 d = contains_keys k1 k2 d || (not (contains_key1 k1 d) && not (contains_key2 k2 d))

  insert_assign-IsSynced :
      (k1 : K1) (k2 : K2) (v : V) (d : DoubleMap K1 K2 V)
      → partner k1 d.primary ≡ some k2
      → IsSynced d
      → IsSynced (record d { primary = HashMap.insert k1 (k2, v) d.primary })
  insert_assign-IsSynced k1 k2 v d h s = record {
    unique1 = insert-IsUnique k1 (k2, v) d.primary s.unique1;
    unique2 = s.unique2;
    paired = assign-IsPaired k1 k2 v d.primary d.secondary h s.paired;
  }

  insert_fresh-IsSynced :
      (k1 : K1) (k2 : K2) (v : V) (d : DoubleMap K1 K2 V)
      → HashMap.get k1 d.primary ≡ none
      → HashMap.get k2 d.secondary ≡ none
      → IsSynced d
      → IsSynced (record {
        primary = HashMap.insert k1 (k2, v) d.primary;
        secondary = HashMap.insert k2 k1 d.secondary;
      })
  insert_fresh-IsSynced k1 k2 v d h1 h2 s = record {
    unique1 = insert-IsUnique k1 (k2, v) d.primary s.unique1;
    unique2 = insert-IsUnique k2 k1 d.secondary s.unique2;
    paired = insert-IsPaired k1 k2 v d.primary d.secondary h1 h2 s.paired;
  }

  -- The three ends of `insert`: a new value, a rejection, a fresh entry.
  insert_cases {κ} :
      (P : DoubleMap K1 K2 V → Type κ) (k1 : K1) (k2 : K2) (v : V) (d : DoubleMap K1 K2 V)
      → ((old : V)
          → HashMap.get k1 d.primary ≡ some (k2, old)
          → P (record d { primary = HashMap.insert k1 (k2, v) d.primary }))
      → (accepts k1 k2 d ≡ false → P d)
      → (HashMap.get k1 d.primary ≡ none
          → HashMap.get k2 d.secondary ≡ none
          → P (record {
            primary = HashMap.insert k1 (k2, v) d.primary;
            secondary = HashMap.insert k2 k1 d.secondary;
          }))
      → P (insert k1 k2 v d).0
  unfolding insert contains_keys contains_key1 contains_key2 get_by_keys
  insert_cases P k1 k2 v d assigned rejected fresh =
      elim (Option-cases (HashMap.get k1 d.primary)) [
        | inl absent1 ↦ elim (Option-cases (HashMap.get k2 d.secondary)) [
          | inl absent2 ↦ rw (absent1, absent2, insert) (fresh absent1 absent2)
          | inr (k, present2) ↦ rw (absent1, present2, insert) (rejected (ground arith))
        ]
        | inr ((stored, old), present1) ↦ elim (Bool-cases (stored == k2)) [
          | inl same ↦
              rw (present1, same, insert) (assigned old (ground (arith, e2.same_iff stored k2)))
          | inr other ↦ elim (Bool-cases (HashMap.contains_key k2 d.secondary)) [
            | inl taken ↦ rw (present1, other, taken, insert) (rejected (ground arith))
            | inr free ↦ rw (present1, other, free, insert) (rejected (ground arith))
          ]
        ]
      ]

  -- `insert` keeps the two maps in sync, whether it accepts the triple or not.
  pub insert-IsSynced :
      (k1 : K1) (k2 : K2) (v : V) (d : DoubleMap K1 K2 V)
      → IsSynced d
      → IsSynced (insert k1 k2 v d).0
  insert-IsSynced k1 k2 v d s =
      insert_cases IsSynced k1 k2 v d (λ old h. insert_assign-IsSynced k1 k2 v d (ground arith) s)
        (λ _. s) (λ h1 h2. insert_fresh-IsSynced k1 k2 v d h1 h2 s)

  -- The result of `insert`, from what the map holds before.
  insert_result :
      (k1 : K1) (k2 : K2) (v : V) (d : DoubleMap K1 K2 V)
      → (insert k1 k2 v d).1 ≡ (
          if contains_keys k1 k2 d
          then ok (get_by_keys k1 k2 d)
          else if contains_key1 k1 d
          then (if contains_key2 k2 d
              then err (both_keys_exist k1 k2 v)
              else err (key1_exists k1 k2 v))
          else if contains_key2 k2 d
          then err (key2_exists k1 k2 v)
          else ok none)
  unfolding insert contains_keys contains_key1 contains_key2 get_by_keys
  insert_result k1 k2 v d = ground arith

  -- A rejected triple leaves the map as it was.
  pub insert_rejected :
      (k1 : K1) (k2 : K2) (v : V) (d : DoubleMap K1 K2 V)
      → accepts k1 k2 d ≡ false
      → (insert k1 k2 v d).0 ≡ d
  unfolding insert contains_keys contains_key1 contains_key2 get_by_keys
  insert_rejected k1 k2 v d h = ground arith

  -- An accepted triple is found under its two keys, and every other pair as before.
  pub get_by_keys-insert :
      (k1 a : K1) (k2 b : K2) (v : V) (d : DoubleMap K1 K2 V)
      → get_by_keys a b (insert k1 k2 v d).0
        ≡ (if accepts k1 k2 d && (k1 == a && k2 == b) then some v else get_by_keys a b d)
  unfolding contains_keys contains_key1 contains_key2 get_by_keys
  get_by_keys-insert k1 a k2 b v d =
      insert_cases
        (λ d'.
          get_by_keys a b d'
          ≡ (if accepts k1 k2 d && (k1 == a && k2 == b) then some v else get_by_keys a b d))
        k1 k2 v d
        (λ old h. ground (arith, get-insert k1 a (k2, v) d.primary, e1.same_iff k1 a, ==_refl k2))
        (λ h. rw h) (λ h1 h2. ground (arith, get-insert k1 a (k2, v) d.primary, e1.same_iff k1 a))

  -- The same of a lookup by the first key alone.
  pub get_by_key1-insert :
      (k1 a : K1) (k2 : K2) (v : V) (d : DoubleMap K1 K2 V)
      → get_by_key1 a (insert k1 k2 v d).0
        ≡ (if accepts k1 k2 d && (k1 == a) then some v else get_by_key1 a d)
  unfolding contains_keys contains_key1 contains_key2 get_by_keys get_by_key1
  get_by_key1-insert k1 a k2 v d =
      insert_cases
        (λ d'.
          get_by_key1 a d' ≡ (if accepts k1 k2 d && (k1 == a) then some v else get_by_key1 a d))
        k1 k2 v d (λ old h. ground (arith, get-insert k1 a (k2, v) d.primary, ==_refl k2))
        (λ h. rw h) (λ h1 h2. ground (arith, get-insert k1 a (k2, v) d.primary))

  -- And of one by the second key, in a synchronised map.
  pub get_by_key2-insert :
      (k1 : K1) (k2 b : K2) (v : V) (d : DoubleMap K1 K2 V)
      → IsSynced d
      → get_by_key2 b (insert k1 k2 v d).0
        ≡ (if accepts k1 k2 d && (k2 == b) then some v else get_by_key2 b d)
  unfolding contains_keys contains_key1 contains_key2 get_by_keys get_by_key2
  get_by_key2-insert k1 k2 b v d s =
      insert_cases
        (λ d'.
          get_by_key2 b d' ≡ (if accepts k1 k2 d && (k2 == b) then some v else get_by_key2 b d))
        k1 k2 v d
        (λ old h. elim (Option-cases (HashMap.get b d.secondary)) [
          | inl e ↦ ground (arith, ==_refl k2, e2.same_iff k2 b, s.forth k1 b)
          | inr (a, e) ↦ ground (
            arith,
            get-insert k1 a (k2, v) d.primary,
            ==_refl k2,
            e1.same_iff k1 a,
            e2.same_iff k2 b,
            s.back a b,
            s.forth k1 k2,
          )
        ])
        (λ h. rw h)
        (λ h1 h2. elim (Option-cases (HashMap.get b d.secondary)) [
          | inl e ↦ ground (
            arith,
            get-insert k1 k1 (k2, v) d.primary,
            get-insert k2 b k1 d.secondary,
            e2.same_iff k2 b,
            ==_refl k1,
          )
          | inr (a, e) ↦ ground (
            arith,
            get-insert k1 a (k2, v) d.primary,
            get-insert k2 b k1 d.secondary,
            e1.same_iff k1 a,
            e2.same_iff k2 b,
            s.back a b,
          )
        ])

  pub extend-IsSynced :
      (triples : List (K1 × K2 × V)) (d : DoubleMap K1 K2 V)
      → IsSynced d
      → IsSynced (extend triples d)
  unfolding extend
  extend-IsSynced [] d s = s
  extend-IsSynced ((k1, k2, v) ∷ rest) d s =
      extend-IsSynced rest (insert k1 k2 v d).0 (insert-IsSynced k1 k2 v d s)

  -- Any list of triples makes a map whose two maps are in sync: one that conflicts is skipped.
  pub from_iter-IsSynced : (triples : List (K1 × K2 × V)) → IsSynced (from_iter triples)
  unfolding from_iter
  from_iter-IsSynced triples = extend-IsSynced triples new new-IsSynced

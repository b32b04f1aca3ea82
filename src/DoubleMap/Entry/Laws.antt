-- ===== src/DoubleMap/Entry/Laws.antt =====
-- The entry API agrees with the direct methods of the map.
use acktor.Base.{
  panicked, Outcome, ◌≡◌, refl, Option, none, some, arith, Result, ok, err, returned, ◌>>=◌,
  Option-cases, inl, inr, ◌≢◌,
}
use acktor.Base.Eq.{Eq}
use acktor.HashMap
use acktor.HashMap.Laws.{get_key_value-get}
use acktor.DoubleMap.{
  DoubleMap, KeyConflictError, key1_exists, key2_exists, both_keys_exist, insert,
}
use acktor.DoubleMap.Remove.{remove_by_keys}
use acktor.DoubleMap.Sync.{IsSynced}
use acktor.DoubleMap.Insertion.{insert-IsSynced}
use acktor.DoubleMap.Entry.{Entry, occupied, vacant, entry, insert_entry, or_insert}
use acktor.DoubleMap.Entry.Occupied
use acktor.DoubleMap.Entry.Occupied.{OccupiedEntry}

module _ {ℓ} {K1 K2 V : Type ℓ} ⦃e1 : Eq K1⦄ ⦃e2 : Eq K2⦄ where
  -- The conflict of `entry`, with the value that `insert` also gives back.
  abbrev pub with_value : V → KeyConflictError K1 K2 (Unit {0}) → KeyConflictError K1 K2 V
  with_value v (key1_exists a b u) = key1_exists a b v
  with_value v (key2_exists a b u) = key2_exists a b v
  with_value v (both_keys_exist a b u) = both_keys_exist a b v

  -- The value in an entry, if there is one.
  abbrev pub held : Entry K1 K2 V → Option V
  held (occupied e) = some e.slot.1
  held (vacant e) = none

  -- Set the value through a view, with the result of `insert`.
  abbrev pub set_through :
      DoubleMap K1 K2 V
      → V
      → Result (Entry K1 K2 V) (KeyConflictError K1 K2 (Unit {0}))
      → DoubleMap K1 K2 V × Result (Option V) (KeyConflictError K1 K2 V)
  set_through d v (ok e) = ((insert_entry v e).map, ok (held e))
  set_through d v (err c) = (d, err (with_value v c))

  -- `entry` never meets its `unreachable!`, and setting the value through the entry is `insert`:
  -- the same map, the same old value, the same conflict.
  pub entry-insert :
      (k1 : K1) (k2 : K2) (v : V) (d : DoubleMap K1 K2 V)
      → IsSynced d
      → (entry k1 k2 d >>= λ r. returned (set_through d v r)) ≡ returned (insert k1 k2 v d)
  unfolding entry insert insert_entry
  entry-insert k1 k2 v d s = elim (Option-cases (HashMap.get k1 d.primary)) [
    | inl e ↦ ground arith
    | inr ((stored, old), e) ↦
        ground (arith, s.forth k1 k2, s.forth k1 stored, e2.same_iff stored k2)
  ]

  entry_panics : (k1 : K1) (k2 : K2) (d : DoubleMap K1 K2 V) → IsSynced d → entry k1 k2 d ≢ panicked
  unfolding entry
  entry_panics k1 k2 d s h = elim (Option-cases (HashMap.get k1 d.primary)) [
    | inl absent ↦ ground arith
    | inr ((stored, v), present) ↦
        ground (arith, s.forth k1 k2, s.forth k1 stored, e2.same_iff stored k2)
  ]

  pub entry_returns :
      (k1 : K1) (k2 : K2) (d : DoubleMap K1 K2 V)
      → IsSynced d
      → (r : Result (Entry K1 K2 V) (KeyConflictError K1 K2 (Unit {0}))) × (entry k1 k2 d
          ≡ returned r)
  entry_returns k1 k2 d s = go (entry k1 k2 d) refl
    where
      go :
          (o : Outcome (Result (Entry K1 K2 V) (KeyConflictError K1 K2 (Unit {0}))))
          → entry k1 k2 d ≡ o
          → (r : Result (Entry K1 K2 V) (KeyConflictError K1 K2 (Unit {0}))) × (entry k1 k2 d
              ≡ returned r)
      go (returned r) e = (r, e)
      go panicked e = absurd (entry_panics k1 k2 d s e)

  -- Removal through an occupied entry is `remove_by_keys`.
  pub entry-remove :
      (k1 : K1) (k2 : K2) (d : DoubleMap K1 K2 V) (e : OccupiedEntry K1 K2 V)
      → entry k1 k2 d ≡ returned (ok (occupied e))
      → remove_by_keys k1 k2 d ≡ ((Occupied.remove e).0, some (Occupied.remove e).1)
  unfolding entry remove_by_keys Occupied.remove
  entry-remove k1 k2 d e h = elim (Option-cases (HashMap.get k1 d.primary)) [
    | inl absent ↦ absurd (ground arith)
    | inr ((stored, v), present) ↦
        ground (arith, get_key_value-get k1 d.primary, e2.same_iff stored k2)
  ]

  or_insert_map :
      (k1 : K1) (k2 : K2) (v : V) (d : DoubleMap K1 K2 V) (e : Entry K1 K2 V)
      → entry k1 k2 d ≡ returned (ok e)
      → (or_insert v e).0 ≡ elim (held e) [ none ↦ (insert k1 k2 v d).0 | some w ↦ d ]
  unfolding entry insert or_insert
  or_insert_map k1 k2 v d (occupied e) h = ground arith
  or_insert_map k1 k2 v d (vacant e) h = ground arith

  -- `or_insert` on an entry of the map keeps the two maps in sync, returns the value that was
  -- there or else the default, and changes nothing if there was a value.
  pub or_insert_lem :
      (k1 : K1) (k2 : K2) (v : V) (d : DoubleMap K1 K2 V) (e : Entry K1 K2 V)
      → IsSynced d
      → entry k1 k2 d ≡ returned (ok e)
      → IsSynced (or_insert v e).0
        × ((or_insert v e).1 ≡ elim (held e) [ none ↦ v | some w ↦ w ])
        × (held e ≢ none → (or_insert v e).0 ≡ d)
  unfolding or_insert
  or_insert_lem k1 k2 v d (occupied e) s h = (
    rw (or_insert_map k1 k2 v d (occupied e) h) s,
    refl,
    λ n. or_insert_map k1 k2 v d (occupied e) h,
  )
  or_insert_lem k1 k2 v d (vacant e) s h = (
    rw (or_insert_map k1 k2 v d (vacant e) h) (insert-IsSynced k1 k2 v d s),
    refl,
    λ n. absurd (n refl),
  )

-- ===== src/DoubleMap/Entry/Calls.antt =====
-- What a call on an entry of the double map leaves: the two maps stay in sync.
use mathlib.Core.Path.{subst}
use acktor.Base.{◌≡◌, ap, ◌∙◌, sym, panicked, arith, Result, ok, err, Outcome, returned, ◌>>=◌}
use acktor.Base.Eq.{Eq}
use acktor.DoubleMap.{DoubleMap, KeyConflictError, insert, get_mut_by_keys}
use acktor.DoubleMap.Remove.Lookups.{remove_by_keys_lem}
use acktor.DoubleMap.Sync.{IsSynced}
use acktor.DoubleMap.Assignment.{get_mut_by_keys_lem}
use acktor.DoubleMap.Entry.{
  Entry, occupied, vacant, entry, or_insert, or_insert_with, or_insert_with_keys, and_modify,
  insert_entry,
}
use acktor.DoubleMap.Entry.Occupied
use acktor.DoubleMap.Entry.Laws.{
  entry_returns, entry-remove, entry-insert, set_through, or_insert_lem,
}
use acktor.DoubleMap.Insertion.{insert-IsSynced}

-- What the caller does with an entry.
pub data EntryCall {ℓ} (K1 K2 V : Type ℓ) : Type ℓ where
  inserts_default : V → EntryCall K1 K2 V
  inserts_with : (Unit {0} → V) → EntryCall K1 K2 V
  inserts_with_keys : (K1 → K2 → V) → EntryCall K1 K2 V
  modifies : (V → V) → EntryCall K1 K2 V
  sets : V → EntryCall K1 K2 V
  removes : EntryCall K1 K2 V

module _ {ℓ} {K1 K2 V : Type ℓ} ⦃e1 : Eq K1⦄ ⦃e2 : Eq K2⦄ where
  abbrev pub map_of : Entry K1 K2 V → DoubleMap K1 K2 V
  map_of (occupied e) = e.map
  map_of (vacant e) = e.map

  -- `remove` and `remove_entry` of an occupied entry.
  abbrev pub removed : Entry K1 K2 V → DoubleMap K1 K2 V
  removed (occupied e) = (Occupied.remove e).0
  removed (vacant e) = e.map

  -- The map after a call on its entry.
  abbrev pub entered : EntryCall K1 K2 V → Entry K1 K2 V → DoubleMap K1 K2 V
  entered (inserts_default v) e = (or_insert v e).0
  entered (inserts_with f) e = (or_insert_with f e).0
  entered (inserts_with_keys f) e = (or_insert_with_keys f e).0
  entered (modifies f) e = map_of (and_modify f e)
  entered (sets v) e = (insert_entry v e).map
  entered removes e = removed e

  -- If the keys do not conflict.
  abbrev pub through :
      EntryCall K1 K2 V
      → DoubleMap K1 K2 V
      → Result (Entry K1 K2 V) (KeyConflictError K1 K2 (Unit {0}))
      → DoubleMap K1 K2 V
  through c d (ok e) = entered c e
  through c d (err x) = d

module _ {ℓ} {K1 K2 V : Type ℓ} ⦃e1 : Eq K1⦄ ⦃e2 : Eq K2⦄ where
  -- The call returns a map in sync.
  abbrev pub ReturnsSynced : Outcome (DoubleMap K1 K2 V) → Type ℓ
  ReturnsSynced r = (d' : DoubleMap K1 K2 V) × (r ≡ returned d') × IsSynced d'

  map_of-entry :
      (k1 : K1) (k2 : K2) (d : DoubleMap K1 K2 V) (e : Entry K1 K2 V)
      → entry k1 k2 d ≡ returned (ok e)
      → map_of e ≡ d
  unfolding entry
  map_of-entry k1 k2 d (occupied e) h = ground arith
  map_of-entry k1 k2 d (vacant e) h = ground arith

  -- A value is changed through an entry as `get_mut_by_keys` changes it.
  and_modify_map :
      (k1 : K1) (k2 : K2) (f : V → V) (d : DoubleMap K1 K2 V) (e : Entry K1 K2 V)
      → entry k1 k2 d ≡ returned (ok e)
      → map_of (and_modify f e) ≡ get_mut_by_keys k1 k2 f d
  unfolding entry and_modify get_mut_by_keys
  and_modify_map k1 k2 f d (occupied e) h = ground (arith, e2.same_iff (e.slot.0) k2)
  and_modify_map k1 k2 f d (vacant e) h = ground arith

  insert_entry_map :
      (k1 : K1) (k2 : K2) (v : V) (d : DoubleMap K1 K2 V) (e : Entry K1 K2 V)
      → IsSynced d
      → entry k1 k2 d ≡ returned (ok e)
      → (insert_entry v e).map ≡ (insert k1 k2 v d).0
  insert_entry_map k1 k2 v d e s h =
      ap (left d)
        (ap (λ o. o >>= λ r. returned (set_through d v r)) (sym h) ∙ entry-insert k1 k2 v d s)
    where
      left : {R : Type ℓ} → DoubleMap K1 K2 V → Outcome (DoubleMap K1 K2 V × R) → DoubleMap K1 K2 V
      left d panicked = d
      left d (returned r) = r.0

  entered-IsSynced :
      (k1 : K1) (k2 : K2) (c : EntryCall K1 K2 V) (d : DoubleMap K1 K2 V) (e : Entry K1 K2 V)
      → IsSynced d
      → entry k1 k2 d ≡ returned (ok e)
      → IsSynced (entered c e)
  unfolding or_insert or_insert_with or_insert_with_keys
  entered-IsSynced k1 k2 (inserts_default v) d e s h = (or_insert_lem k1 k2 v d e s h).0
  entered-IsSynced k1 k2 (inserts_with f) d (occupied e) s h =
      (or_insert_lem k1 k2 (f tt) d (occupied e) s h).0
  entered-IsSynced k1 k2 (inserts_with f) d (vacant e) s h =
      (or_insert_lem k1 k2 (f tt) d (vacant e) s h).0
  entered-IsSynced k1 k2 (inserts_with_keys f) d (occupied e) s h =
      (or_insert_lem k1 k2 (f k1 k2) d (occupied e) s h).0
  entered-IsSynced k1 k2 (inserts_with_keys f) d (vacant e) s h =
      (or_insert_lem k1 k2 (f e.key1 e.key2) d (vacant e) s h).0
  entered-IsSynced k1 k2 (modifies f) d e s h =
      rw (and_modify_map k1 k2 f d e h) (get_mut_by_keys_lem k1 k2 f d s).0
  entered-IsSynced k1 k2 (sets v) d e s h =
      rw (insert_entry_map k1 k2 v d e s h) (insert-IsSynced k1 k2 v d s)
  entered-IsSynced k1 k2 removes d (occupied e) s h =
      subst IsSynced (ap (λ r. r.0) (entry-remove k1 k2 d e h)) (remove_by_keys_lem k1 k2 d s).1
  entered-IsSynced k1 k2 removes d (vacant e) s h = rw (map_of-entry k1 k2 d (vacant e) h) s

  through-IsSynced :
      (k1 : K1) (k2 : K2) (c : EntryCall K1 K2 V) (d : DoubleMap K1 K2 V)
      (r : Result (Entry K1 K2 V) (KeyConflictError K1 K2 (Unit {0})))
      → IsSynced d
      → entry k1 k2 d ≡ returned r
      → IsSynced (through c d r)
  through-IsSynced k1 k2 c d (ok e) s h = entered-IsSynced k1 k2 c d e s h
  through-IsSynced k1 k2 c d (err x) s h = s

  pub entered_returns :
      (k1 : K1) (k2 : K2) (c : EntryCall K1 K2 V) (d : DoubleMap K1 K2 V)
      → IsSynced d
      → ReturnsSynced (entry k1 k2 d >>= λ r. returned (through c d r))
  entered_returns k1 k2 c d s =
      let (r, e) = entry_returns k1 k2 d s in
      (through c d r, rw e, through-IsSynced k1 k2 c d r s e)

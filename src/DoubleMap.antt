-- ===== src/DoubleMap.antt =====
-- acktor-ipc/src/double_map.rs: a map with two keys per value, kept as two hash maps.
-- A method that changes the map returns it with its result. `Borrow` lets a caller look up by a
-- borrowed form of a key, which compares as the key: the model takes the key itself.
pub mod Remove
pub mod Sync
pub mod Insertion
pub mod Entry
pub mod Assignment
pub mod Trace
pub mod Iteration
pub mod Comparison
mod Tests
pub mod Lookup
use acktor.Base.{
  ℕ, ◌≡◌, Bool, true, false, not, ◌&&◌, Option, none, some, List, [], ◌∷◌, map, if◌then◌else◌,
  is_some, map_option, Result, ok, err, Outcome, returned, panicked,
}
use acktor.Base.Eq.{Eq, ◌==◌}
use acktor.HashMap
use acktor.HashMap.{HashMap}

pub record DoubleMap {ℓ} (K1 K2 V : Type ℓ) : Type ℓ where
  pub primary : HashMap K1 (K2 × V)
  pub secondary : HashMap K2 K1

-- The rejected keys and value go back to the caller; `entry` has no value to give back.
pub data KeyConflictError {ℓ κ} (K1 K2 : Type ℓ) (V : Type κ) : Type (ℓ ⊔ κ) where
  key1_exists : K1 → K2 → V → KeyConflictError K1 K2 V
  key2_exists : K1 → K2 → V → KeyConflictError K1 K2 V
  both_keys_exist : K1 → K2 → V → KeyConflictError K1 K2 V

module _ {ℓ} {K1 K2 V : Type ℓ} where
  unfoldable pub new : DoubleMap K1 K2 V
  new = record { primary = []; secondary = [] }

  unfoldable pub len : DoubleMap K1 K2 V → ℕ
  len d = HashMap.len d.primary

  unfoldable pub is_empty : DoubleMap K1 K2 V → Bool
  is_empty d = HashMap.is_empty d.primary

  unfoldable pub keys : DoubleMap K1 K2 V → List (K1 × K2)
  keys d = map (λ e. (e.0, e.1.0)) d.primary

  unfoldable pub values : DoubleMap K1 K2 V → List V
  values d = map (λ e. e.1.1) d.primary

  pub iter : DoubleMap K1 K2 V → List (K1 × K2 × V)
  iter d = map (λ e. (e.0, e.1.0, e.1.1)) d.primary

  pub clear : DoubleMap K1 K2 V → DoubleMap K1 K2 V
  clear d = record { primary = []; secondary = [] }

  unfoldable pub drain : DoubleMap K1 K2 V → DoubleMap K1 K2 V × List (K1 × K2 × V)
  unfolding iter
  drain d = (record { primary = []; secondary = [] }, iter d)

module _ {ℓ} {K1 K2 V : Type ℓ} ⦃e1 : Eq K1⦄ ⦃e2 : Eq K2⦄ where
  unfoldable pub get_by_key1 : K1 → DoubleMap K1 K2 V → Option V
  get_by_key1 k1 d = map_option (λ p. p.1) (HashMap.get k1 d.primary)

  unfoldable pub get_by_key2 : K2 → DoubleMap K1 K2 V → Option V
  get_by_key2 k2 d = elim (HashMap.get k2 d.secondary) [
    | none ↦ none
    | some k1 ↦ map_option (λ p. p.1) (HashMap.get k1 d.primary)
  ]

  pub get_by_keys : K1 → K2 → DoubleMap K1 K2 V → Option V
  get_by_keys k1 k2 d = elim (HashMap.get k1 d.primary) [
    | none ↦ none
    | some (stored, v) ↦ if stored == k2 then some v else none
  ]

  unfoldable pub get_key1_value : K1 → DoubleMap K1 K2 V → Option (K1 × V)
  get_key1_value k1 d = map_option (λ e. (e.0, e.1.1)) (HashMap.get_key_value k1 d.primary)

  unfoldable pub get_key2_value : K2 → DoubleMap K1 K2 V → Option (K2 × V)
  get_key2_value k2 d = elim (HashMap.get_key_value k2 d.secondary) [
    | none ↦ none
    | some (stored, k1) ↦ map_option (λ p. (stored, p.1)) (HashMap.get k1 d.primary)
  ]

  unfoldable pub get_keys_value : K1 → K2 → DoubleMap K1 K2 V → Option (K1 × K2 × V)
  get_keys_value k1 k2 d = elim (HashMap.get_key_value k1 d.primary) [
    | none ↦ none
    | some (stored1, p) ↦ if p.0 == k2 then some (stored1, p.0, p.1) else none
  ]

  pub contains_key1 : K1 → DoubleMap K1 K2 V → Bool
  contains_key1 k1 d = HashMap.contains_key k1 d.primary

  unfoldable pub contains_key2 : K2 → DoubleMap K1 K2 V → Bool
  contains_key2 k2 d = HashMap.contains_key k2 d.secondary

  pub contains_keys : K1 → K2 → DoubleMap K1 K2 V → Bool
  unfolding get_by_keys
  contains_keys k1 k2 d = is_some (get_by_keys k1 k2 d)

  -- The `get_mut` methods hand out a reference; `f` is what the caller does to the value there.
  pub get_mut_by_key1 : K1 → (V → V) → DoubleMap K1 K2 V → DoubleMap K1 K2 V
  get_mut_by_key1 k1 f d = elim (HashMap.get k1 d.primary) [
    | none ↦ d
    | some (k2, v) ↦ record d { primary = HashMap.insert k1 (k2, f v) d.primary }
  ]

  unfoldable pub get_mut_by_key2 : K2 → (V → V) → DoubleMap K1 K2 V → DoubleMap K1 K2 V
  unfolding get_mut_by_key1
  get_mut_by_key2 k2 f d = elim (HashMap.get k2 d.secondary) [
    | none ↦ d
    | some k1 ↦ get_mut_by_key1 k1 f d
  ]

  unfoldable pub get_mut_by_keys : K1 → K2 → (V → V) → DoubleMap K1 K2 V → DoubleMap K1 K2 V
  get_mut_by_keys k1 k2 f d = elim (HashMap.get k1 d.primary) [
    | none ↦ d
    | some (stored, v) ↦
        if stored == k2 then record d { primary = HashMap.insert k1 (stored, f v) d.primary } else d
  ]

  -- `Index::index`: panics where the key is not present.
  unfoldable pub index : K1 → DoubleMap K1 K2 V → Outcome V
  unfolding get_by_key1
  index k1 d = elim (get_by_key1 k1 d) [ none ↦ panicked | some v ↦ returned v ]

  unfoldable pub insert :
      K1
      → K2
      → V
      → DoubleMap K1 K2 V
      → DoubleMap K1 K2 V × Result (Option V) (KeyConflictError K1 K2 V)
  insert k1 k2 v d = elim (HashMap.get k1 d.primary) [
    | some (stored, old) ↦
        if stored == k2
        then (record d { primary = HashMap.insert k1 (k2, v) d.primary }, ok (some old))
        else if HashMap.contains_key k2 d.secondary
        then (d, err (both_keys_exist k1 k2 v))
        else (d, err (key1_exists k1 k2 v))
    | none ↦ if HashMap.contains_key k2 d.secondary then (d, err (key2_exists k1 k2 v)) else (
      record {
        primary = HashMap.insert k1 (k2, v) d.primary;
        secondary = HashMap.insert k2 k1 d.secondary;
      },
      ok none,
    )
  ]

  -- `Extend::extend`, `FromIterator::from_iter` and `From::from`: a conflicting triple is skipped.
  pub extend : List (K1 × K2 × V) → DoubleMap K1 K2 V → DoubleMap K1 K2 V
  unfolding insert
  extend [] d = d
  extend ((k1, k2, v) ∷ rest) d = extend rest (insert k1 k2 v d).0

  pub from_iter : List (K1 × K2 × V) → DoubleMap K1 K2 V
  unfolding new extend
  from_iter triples = extend triples new

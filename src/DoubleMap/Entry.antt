-- ===== src/DoubleMap/Entry.antt =====
-- acktor-ipc/src/double_map/entry.rs and `DoubleMap::entry`. A view borrows the map: the model
-- carries the map in it, and a write through the view writes to that map.
pub mod Occupied
pub mod Vacant
pub mod Laws
pub mod Calls
use acktor.Base.{
  Bool, true, false, Option, none, some, if◌then◌else◌, Result, ok, err, Outcome, returned,
  panicked,
}
use acktor.Base.Eq.{Eq, ◌==◌}
use acktor.HashMap
use Occupied.{OccupiedEntry}
use Occupied
use Vacant.{VacantEntry}
use Vacant
use acktor.DoubleMap.{DoubleMap, KeyConflictError, key1_exists, key2_exists, both_keys_exist}

pub data Entry {ℓ} (K1 K2 V : Type ℓ) : Type ℓ where
  occupied : OccupiedEntry K1 K2 V → Entry K1 K2 V
  vacant : VacantEntry K1 K2 V → Entry K1 K2 V

module _ {ℓ} {K1 K2 V : Type ℓ} ⦃e1 : Eq K1⦄ ⦃e2 : Eq K2⦄ where
  -- `unreachable!` is a panic: the code relies on the two maps being in sync.
  unfoldable pub entry :
      K1
      → K2
      → DoubleMap K1 K2 V
      → Outcome (Result (Entry K1 K2 V) (KeyConflictError K1 K2 (Unit {0})))
  entry k1 k2 d = elim (HashMap.get k1 d.primary) [
    | some (stored, v) ↦
        if stored == k2
        then elim (HashMap.get k2 d.secondary) [
          | none ↦ panicked
          | some owner ↦ returned (
              ok (
                occupied
                  (record { map = d; key1 = k1; slot = (stored, v); key2 = k2; owner = owner })))
        ]
        else if HashMap.contains_key k2 d.secondary
        then returned (err (both_keys_exist k1 k2 tt))
        else returned (err (key1_exists k1 k2 tt))
    | none ↦
        if HashMap.contains_key k2 d.secondary
        then returned (err (key2_exists k1 k2 tt))
        else returned (ok (vacant (record { map = d; key1 = k1; key2 = k2 })))
  ]

  unfoldable pub keys : Entry K1 K2 V → K1 × K2
  keys (occupied e) = (e.key1, e.key2)
  keys (vacant e) = (e.key1, e.key2)

  unfoldable pub or_insert_with_keys : (K1 → K2 → V) → Entry K1 K2 V → DoubleMap K1 K2 V × V
  unfolding Occupied.get Vacant.insert
  or_insert_with_keys default (occupied e) = (e.map, Occupied.get e)
  or_insert_with_keys default (vacant e) = Vacant.insert (default e.key1 e.key2) e

  unfoldable pub or_insert_with : (Unit {0} → V) → Entry K1 K2 V → DoubleMap K1 K2 V × V
  unfolding Occupied.get Vacant.insert
  or_insert_with default (occupied e) = (e.map, Occupied.get e)
  or_insert_with default (vacant e) = Vacant.insert (default tt) e

  unfoldable pub or_insert : V → Entry K1 K2 V → DoubleMap K1 K2 V × V
  unfolding Occupied.get Vacant.insert
  or_insert default (occupied e) = (e.map, Occupied.get e)
  or_insert default (vacant e) = Vacant.insert default e

  unfoldable pub and_modify : (V → V) → Entry K1 K2 V → Entry K1 K2 V
  unfolding Occupied.get_mut
  and_modify f (occupied e) = occupied (Occupied.get_mut f e)
  and_modify f (vacant e) = vacant e

  pub insert_entry : V → Entry K1 K2 V → OccupiedEntry K1 K2 V
  unfolding Occupied.insert Vacant.insert_entry
  insert_entry value (occupied e) = (Occupied.insert value e).0
  insert_entry value (vacant e) = Vacant.insert_entry value e

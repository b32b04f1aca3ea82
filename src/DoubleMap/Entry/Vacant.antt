-- ===== src/DoubleMap/Entry/Vacant.antt =====
-- acktor-ipc/src/double_map/entry.rs: `VacantEntry`.
use acktor.DoubleMap.Entry.Occupied.{OccupiedEntry}
use acktor.Base.Eq.{Eq}
use acktor.HashMap
use acktor.DoubleMap.{DoubleMap}

pub record VacantEntry {ℓ} (K1 K2 V : Type ℓ) : Type ℓ where
  pub map : DoubleMap K1 K2 V
  pub key1 : K1
  pub key2 : K2

module _ {ℓ} {K1 K2 V : Type ℓ} ⦃e1 : Eq K1⦄ ⦃e2 : Eq K2⦄ where
  unfoldable pub insert_entry : V → VacantEntry K1 K2 V → OccupiedEntry K1 K2 V
  insert_entry value e = record {
    map = record {
      primary = HashMap.insert e.key1 (e.key2, value) e.map.primary;
      secondary = HashMap.insert e.key2 e.key1 e.map.secondary;
    };
    key1 = e.key1;
    slot = (e.key2, value);
    key2 = e.key2;
    owner = e.key1;
  }

  -- The map, and the value that the returned reference points to.
  unfoldable pub insert : V → VacantEntry K1 K2 V → DoubleMap K1 K2 V × V
  insert value e = (
    record {
      primary = HashMap.insert e.key1 (e.key2, value) e.map.primary;
      secondary = HashMap.insert e.key2 e.key1 e.map.secondary;
    },
    value,
  )

-- ===== src/DoubleMap/Entry/Occupied.antt =====
-- acktor-ipc/src/double_map/entry.rs: `OccupiedEntry`.
use acktor.Base.Eq.{Eq}
use acktor.HashMap
use acktor.DoubleMap.{DoubleMap}

-- The two entries that the view holds: `key1` with `slot`, and `key2` with `owner`.
pub record OccupiedEntry {ℓ} (K1 K2 V : Type ℓ) : Type ℓ where
  pub map : DoubleMap K1 K2 V
  pub key1 : K1
  pub slot : K2 × V
  pub key2 : K2
  pub owner : K1

module _ {ℓ} {K1 K2 V : Type ℓ} ⦃e1 : Eq K1⦄ ⦃e2 : Eq K2⦄ where
  unfoldable pub get : OccupiedEntry K1 K2 V → V
  get e = e.slot.1

  -- The reference that `get_mut` hands out; `f` is what the caller does to the value there.
  unfoldable pub get_mut : (V → V) → OccupiedEntry K1 K2 V → OccupiedEntry K1 K2 V
  get_mut f e =
      let slot' : K2 × V = (e.slot.0, f e.slot.1) in
      record e {
        map = record (e.map) { primary = HashMap.insert e.key1 slot' e.map.primary };
        slot = slot';
      }

  -- The entry after `mem::replace`, and the old value.
  unfoldable pub insert : V → OccupiedEntry K1 K2 V → OccupiedEntry K1 K2 V × V
  unfolding get_mut get
  insert value e = (get_mut (λ _. value) e, get e)

  unfoldable pub remove_entry : OccupiedEntry K1 K2 V → DoubleMap K1 K2 V × (K1 × K2 × V)
  remove_entry e = (
    record {
      primary = HashMap.remove e.key1 e.map.primary;
      secondary = HashMap.remove e.key2 e.map.secondary;
    },
    (e.key1, e.slot.0, e.slot.1),
  )

  unfoldable pub remove : OccupiedEntry K1 K2 V → DoubleMap K1 K2 V × V
  unfolding remove_entry
  remove e = let r = remove_entry e in (r.0, r.1.2)

-- ===== src/DoubleMap/Remove.antt =====
-- acktor-ipc/src/double_map.rs: the removals and `retain`.
pub mod Lookups
pub mod Linked
pub mod Retention
pub mod Kept
use acktor.Base.{
  Bool, true, false, not, Option, none, some, [], ◌∷◌, if◌then◌else◌, map_option, Outcome, returned,
  panicked, ◌>>=◌,
}
use acktor.Base.Eq.{Eq, ◌==◌}
use acktor.HashMap
use acktor.HashMap.{HashMap}
use acktor.DoubleMap.{DoubleMap}

module _ {ℓ} {K1 K2 V : Type ℓ} ⦃e1 : Eq K1⦄ ⦃e2 : Eq K2⦄ where
  pub remove_entry_by_key1 : K1 → DoubleMap K1 K2 V → DoubleMap K1 K2 V × Option (K1 × K2 × V)
  remove_entry_by_key1 k1 d = elim (HashMap.get_key_value k1 d.primary) [
    | none ↦ (d, none)
    | some (key1, p) ↦ (
      record { primary = HashMap.remove k1 d.primary; secondary = HashMap.remove p.0 d.secondary },
      some (key1, p.0, p.1),
    )
  ]

  pub remove_by_key1 : K1 → DoubleMap K1 K2 V → DoubleMap K1 K2 V × Option V
  remove_by_key1 k1 d = elim (HashMap.get k1 d.primary) [
    | none ↦ (d, none)
    | some (k2, value) ↦ (
      record { primary = HashMap.remove k1 d.primary; secondary = HashMap.remove k2 d.secondary },
      some value,
    )
  ]

  -- The `expect` fails where the index names a key that the primary map lacks.
  pub remove_by_key2 : K2 → DoubleMap K1 K2 V → Outcome (DoubleMap K1 K2 V × Option V)
  remove_by_key2 k2 d = elim (HashMap.get k2 d.secondary) [
    | none ↦ returned (d, none)
    | some k1 ↦ elim (HashMap.get k1 d.primary) [
      | none ↦ panicked
      | some (stored, value) ↦ returned (
        record { primary = HashMap.remove k1 d.primary; secondary = HashMap.remove k2 d.secondary },
        some value,
      )
    ]
  ]

  pub remove_entry_by_key2 :
      K2 → DoubleMap K1 K2 V → Outcome (DoubleMap K1 K2 V × Option (K1 × K2 × V))
  remove_entry_by_key2 k2 d = elim (HashMap.get k2 d.secondary) [
    | none ↦ returned (d, none)
    | some k1 ↦ elim (HashMap.get_key_value k1 d.primary) [
      | none ↦ panicked
      | some (key1, p) ↦ returned (
        record { primary = HashMap.remove k1 d.primary; secondary = HashMap.remove k2 d.secondary },
        some (key1, p.0, p.1),
      )
    ]
  ]

  -- On a mismatch the entry that was taken out is put back.
  pub remove_entry_by_keys : K1 → K2 → DoubleMap K1 K2 V → DoubleMap K1 K2 V × Option (K1 × K2 × V)
  remove_entry_by_keys k1 k2 d = elim (HashMap.get_key_value k1 d.primary) [
    | none ↦ (d, none)
    | some (key1, p) ↦
        if not (p.0 == k2)
        then (record d { primary = HashMap.insert key1 p (HashMap.remove k1 d.primary) }, none)
        else (
          record {
            primary = HashMap.remove k1 d.primary;
            secondary = HashMap.remove p.0 d.secondary;
          },
          some (key1, p.0, p.1),
        )
  ]

  unfoldable pub remove_by_keys : K1 → K2 → DoubleMap K1 K2 V → DoubleMap K1 K2 V × Option V
  remove_by_keys k1 k2 d = elim (HashMap.get_key_value k1 d.primary) [
    | none ↦ (d, none)
    | some (key1, p) ↦
        if not (p.0 == k2)
        then (record d { primary = HashMap.insert key1 p (HashMap.remove k1 d.primary) }, none)
        else (
          record {
            primary = HashMap.remove k1 d.primary;
            secondary = HashMap.remove p.0 d.secondary;
          },
          some p.1,
        )
  ]

  -- The closure that `retain` hands to the primary map: it may change the value, and it removes
  -- the second key of an entry that goes. `S` is what the caller's `FnMut` captures.
  pub retain_entries {κ} :
      {S : Type κ}
      → (S → K1 → K2 → V → S × V × Bool)
      → S
      → HashMap K1 (K2 × V)
      → HashMap K2 K1
      → HashMap K1 (K2 × V) × HashMap K2 K1
  retain_entries f s [] secondary = ([], secondary)
  retain_entries f s ((k1, (k2, v)) ∷ m) secondary =
      let r = f s k1 k2 v in
      let rest = retain_entries f r.0 m (if r.2 then secondary else HashMap.remove k2 secondary) in
      (if r.2 then (k1, (k2, r.1)) ∷ rest.0 else rest.0, rest.1)

  pub retain {κ} :
      {S : Type κ} → (S → K1 → K2 → V → S × V × Bool) → S → DoubleMap K1 K2 V → DoubleMap K1 K2 V
  unfolding retain_entries
  retain f s d =
      let r = retain_entries f s d.primary d.secondary in record { primary = r.0; secondary = r.1 }

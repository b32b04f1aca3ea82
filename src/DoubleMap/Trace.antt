-- ===== src/DoubleMap/Trace.antt =====
-- Any sequence of the calls that change a double map: none fails its `expect` or its `unreachable!`.
use mathlib.Core.Path.{subst}
use acktor.Base.{
  ap, ◌∙◌, sym, Option, map_option, panicked, refl, Bool, List, [], ◌∷◌, Outcome, returned, ◌>>=◌,
}
use acktor.Base.Eq.{Eq}
use acktor.DoubleMap.{
  DoubleMap, new, clear, drain, insert, extend, get_mut_by_key1, get_mut_by_key2, get_mut_by_keys,
}
use acktor.DoubleMap.Remove.{
  remove_by_key1, remove_by_key2, remove_by_keys, retain, remove_entry_by_key1,
  remove_entry_by_key2, remove_entry_by_keys,
}
use acktor.DoubleMap.Remove.Lookups.{
  remove_by_key1_lem, remove_by_key2_lem, remove_by_keys_lem, remove_entry_by_key1_lem,
  remove_entry_by_key2_lem, remove_entry_by_keys_lem,
}
use acktor.DoubleMap.Remove.Retention.{retain-IsSynced}
use acktor.DoubleMap.Sync.{IsSynced, new-IsSynced}
use acktor.DoubleMap.Assignment.{get_mut_by_key1_lem, get_mut_by_key2_lem, get_mut_by_keys_lem}
use acktor.DoubleMap.Iteration.{iter_mut, values_mut, iter_mut-IsSynced}
use acktor.DoubleMap.Entry.{entry}
use acktor.DoubleMap.Entry.Calls.{EntryCall, through, ReturnsSynced, entered_returns}
use acktor.DoubleMap.Insertion.{insert-IsSynced, extend-IsSynced}

-- The closure that `retain` calls has a state `S`.
pub data Call {ℓ} (S K1 K2 V : Type ℓ) : Type ℓ where
  inserts : K1 → K2 → V → Call S K1 K2 V
  extends : List (K1 × K2 × V) → Call S K1 K2 V
  removes_key1 : K1 → Call S K1 K2 V
  removes_key2 : K2 → Call S K1 K2 V
  removes_keys : K1 → K2 → Call S K1 K2 V
  removes_entry_key1 : K1 → Call S K1 K2 V
  removes_entry_key2 : K2 → Call S K1 K2 V
  removes_entry_keys : K1 → K2 → Call S K1 K2 V
  retains : (S → K1 → K2 → V → S × V × Bool) → S → Call S K1 K2 V
  clears : Call S K1 K2 V
  drains : Call S K1 K2 V
  assigns_key1 : K1 → (V → V) → Call S K1 K2 V
  assigns_key2 : K2 → (V → V) → Call S K1 K2 V
  assigns_keys : K1 → K2 → (V → V) → Call S K1 K2 V
  iterates : (K1 → K2 → V → V) → Call S K1 K2 V
  assigns_values : (V → V) → Call S K1 K2 V
  enters : K1 → K2 → EntryCall K1 K2 V → Call S K1 K2 V

module _ {ℓ} {K1 K2 V : Type ℓ} ⦃e1 : Eq K1⦄ ⦃e2 : Eq K2⦄ where
  -- `remove_entry_by_key2` returns as `remove_by_key2` does.
  remove_entry_by_key2_returns :
      (k2 : K2) (d : DoubleMap K1 K2 V)
      → IsSynced d
      → ReturnsSynced (remove_entry_by_key2 k2 d >>= λ r. returned r.0)
  remove_entry_by_key2_returns k2 d s =
      let (d', e, s', l) = remove_by_key2_lem k2 d s in
      go (remove_entry_by_key2 k2 d)
        (d', ap (λ o. o >>= λ r. returned r.0) (sym (remove_entry_by_key2_lem k2 d) ∙ e), s')
    where
      same :
          Outcome (DoubleMap K1 K2 V × Option (K1 × K2 × V))
          → Outcome (DoubleMap K1 K2 V × Option V)
      same o = o >>= λ r. returned (r.0, map_option (λ e. e.2) r.1)

      go :
          (o : Outcome (DoubleMap K1 K2 V × Option (K1 × K2 × V)))
          → ReturnsSynced (same o >>= λ r. returned r.0)
          → ReturnsSynced (o >>= λ r. returned r.0)
      go panicked h = h
      go (returned r) h = h

module _ {ℓ} {S K1 K2 V : Type ℓ} ⦃e1 : Eq K1⦄ ⦃e2 : Eq K2⦄ where
  pub call : Call S K1 K2 V → DoubleMap K1 K2 V → Outcome (DoubleMap K1 K2 V)
  call (inserts k1 k2 v) d = returned (insert k1 k2 v d).0
  call (extends triples) d = returned (extend triples d)
  call (removes_key1 k1) d = returned (remove_by_key1 k1 d).0
  call (removes_key2 k2) d = remove_by_key2 k2 d >>= λ r. returned r.0
  call (removes_keys k1 k2) d = returned (remove_by_keys k1 k2 d).0
  call (removes_entry_key1 k1) d = returned (remove_entry_by_key1 k1 d).0
  call (removes_entry_key2 k2) d = remove_entry_by_key2 k2 d >>= λ r. returned r.0
  call (removes_entry_keys k1 k2) d = returned (remove_entry_by_keys k1 k2 d).0
  call (retains f s) d = returned (retain f s d)
  call clears d = returned (clear d)
  call drains d = returned (drain d).0
  call (assigns_key1 k1 f) d = returned (get_mut_by_key1 k1 f d)
  call (assigns_key2 k2 f) d = returned (get_mut_by_key2 k2 f d)
  call (assigns_keys k1 k2 f) d = returned (get_mut_by_keys k1 k2 f d)
  call (iterates f) d = returned (iter_mut f d)
  call (assigns_values f) d = returned (values_mut f d)
  call (enters k1 k2 c) d = entry k1 k2 d >>= λ r. returned (through c d r)

  pub run : List (Call S K1 K2 V) → DoubleMap K1 K2 V → Outcome (DoubleMap K1 K2 V)
  unfolding call
  run [] d = returned d
  run (c ∷ cs) d = call c d >>= run cs

  call-ReturnsSynced :
      (c : Call S K1 K2 V) (d : DoubleMap K1 K2 V) → IsSynced d → ReturnsSynced (call c d)
  unfolding call clear drain new iter_mut values_mut
  call-ReturnsSynced (inserts k1 k2 v) d s = (_, refl, insert-IsSynced k1 k2 v d s)
  call-ReturnsSynced (extends triples) d s = (_, refl, extend-IsSynced triples d s)
  call-ReturnsSynced (removes_key1 k1) d s = (_, refl, (remove_by_key1_lem k1 d s).1)
  call-ReturnsSynced (removes_key2 k2) d s =
      let (d', e, s', l) = remove_by_key2_lem k2 d s in (d', rw e, s')
  call-ReturnsSynced (removes_keys k1 k2) d s = (_, refl, (remove_by_keys_lem k1 k2 d s).1)
  call-ReturnsSynced (removes_entry_key1 k1) d s = (
    _,
    refl,
    subst IsSynced (ap (λ r. r.0) (remove_entry_by_key1_lem k1 d)) (remove_by_key1_lem k1 d s).1,
  )
  call-ReturnsSynced (removes_entry_key2 k2) d s = remove_entry_by_key2_returns k2 d s
  call-ReturnsSynced (removes_entry_keys k1 k2) d s = (
    _,
    refl,
    subst IsSynced (ap (λ r. r.0) (remove_entry_by_keys_lem k1 k2 d))
        (remove_by_keys_lem k1 k2 d s).1,
  )
  call-ReturnsSynced (retains f st) d s = (_, refl, retain-IsSynced f st d s)
  call-ReturnsSynced clears d s = (_, refl, new-IsSynced)
  call-ReturnsSynced drains d s = (_, refl, new-IsSynced)
  call-ReturnsSynced (assigns_key1 k1 f) d s = (_, refl, (get_mut_by_key1_lem k1 f d s).0)
  call-ReturnsSynced (assigns_key2 k2 f) d s = (_, refl, (get_mut_by_key2_lem k2 f d s).0)
  call-ReturnsSynced (assigns_keys k1 k2 f) d s = (_, refl, (get_mut_by_keys_lem k1 k2 f d s).0)
  call-ReturnsSynced (iterates f) d s = (_, refl, iter_mut-IsSynced f d s)
  call-ReturnsSynced (assigns_values f) d s = (_, refl, iter_mut-IsSynced (λ k1 k2 v. f v) d s)
  call-ReturnsSynced (enters k1 k2 c) d s = entered_returns k1 k2 c d s

  run-ReturnsSynced :
      (cs : List (Call S K1 K2 V)) (d : DoubleMap K1 K2 V) → IsSynced d → ReturnsSynced (run cs d)
  unfolding run
  run-ReturnsSynced [] d s = (d, refl, s)
  run-ReturnsSynced (c ∷ cs) d s =
      let (d', e, s') = call-ReturnsSynced c d s in
      let (d'', e', s'') = run-ReturnsSynced cs d' s' in (d'', rw e e', s'')

  -- From the empty map every sequence of the calls that change it, those on its entries and its mutable
  -- iterators included, with closures that return, runs to its end without a panic, and leaves the two
  -- maps in sync.
  pub run-new_returns : (cs : List (Call S K1 K2 V)) → ReturnsSynced (run cs new)
  run-new_returns cs = run-ReturnsSynced cs new new-IsSynced

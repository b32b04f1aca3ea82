-- ===== src/DoubleMap/Tests.antt =====
-- Runs of acktor-ipc/src/double_map.rs on small maps from numbers to numbers.
use acktor.Base.{
  ◌+◌, ℕ, ◌≡◌, refl, Bool, none, some, List, [], ◌∷◌, ltb, ◌&&◌, if◌then◌else◌, returned, ◌>>=◌,
}
use acktor.Base.Eq.{nat_eq, ◌==◌}
use acktor.HashMap
use acktor.DoubleMap.{
  DoubleMap, new, insert, from_iter, get_by_keys, get_by_key2, contains_key1, contains_key2,
  contains_keys,
}
use acktor.DoubleMap.Sync.{IsSynced}
use acktor.DoubleMap.Insertion.{get_by_keys-insert, from_iter-IsSynced}
use acktor.DoubleMap.Remove.{remove_by_key2, remove_by_keys, retain}
use acktor.DoubleMap.Remove.Lookups.{remove_by_key2_lem, remove_by_keys_lem}
use acktor.DoubleMap.Remove.Retention.{keeping, get_by_keys-retain}
use acktor.DoubleMap.Entry.{Entry, vacant, entry}
use acktor.DoubleMap.Entry.Occupied.{OccupiedEntry}
use acktor.DoubleMap.Entry.Laws.{entry-insert, set_through}
use acktor.DoubleMap.Entry.Calls.{inserts_default, removes, ReturnsSynced}
use acktor.DoubleMap.Trace.{
  assigns_key2, enters, iterates, removes_entry_key2, Call, inserts, removes_key1, removes_key2,
  removes_keys, run, run-new_returns,
}

abbrev triples : List (ℕ × ℕ × ℕ)
triples = (1, 11, 100) ∷ (2, 22, 200) ∷ (1, 22, 300) ∷ []

-- The third triple is skipped.
two_entries :
    from_iter triples
    ≡ record { primary = (1, (11, 100)) ∷ (2, (22, 200)) ∷ []; secondary = (11, 1) ∷ (22, 2) ∷ [] }
unfolding from_iter HashMap.get HashMap.insert
two_entries = refl

abbrev sample : DoubleMap ℕ ℕ ℕ
sample = from_iter triples

abbrev sample-IsSynced : IsSynced sample
sample-IsSynced = from_iter-IsSynced triples

abbrev over_150 : ℕ → ℕ → ℕ → Bool
over_150 a b v = ltb 150 v

abbrev double : ℕ → ℕ
double v = v + v

abbrev calls : List (Call ℕ ℕ ℕ ℕ)
calls =
    inserts 1 11 100
    ∷ inserts 2 22 200
    ∷ assigns_key2 22 double
    ∷ enters 3 33 (inserts_default 300)
    ∷ enters 3 33 removes
    ∷ iterates (λ k1 k2 v. k1 + v)
    ∷ removes_entry_key2 22
    ∷ removes_key2 11
    ∷ removes_keys 2 11
    ∷ removes_key1 2
    ∷ []

run-new_returns_example : ReturnsSynced (run calls new)
run-new_returns_example = run-new_returns calls

get_by_keys-insert_example : get_by_keys 3 33 (insert 3 33 300 sample).0 ≡ some 300
unfolding from_iter contains_keys contains_key1 contains_key2 get_by_keys HashMap.get HashMap.insert
get_by_keys-insert_example = get_by_keys-insert 3 3 33 33 300 sample

get_by_keys-retain_example : get_by_keys 2 22 (retain (keeping over_150) tt sample) ≡ some 200
unfolding from_iter get_by_keys HashMap.get HashMap.insert
get_by_keys-retain_example = get_by_keys-retain over_150 2 22 sample sample-IsSynced

entry-insert_example :
    (entry 1 11 sample >>= λ r. returned (set_through sample 7 r)) ≡ returned (insert 1 11 7 sample)
entry-insert_example = entry-insert 1 11 7 sample sample-IsSynced

abbrev view : OccupiedEntry ℕ ℕ ℕ
view = record { map = sample; key1 = 1; slot = (11, 100); key2 = 11; owner = 1 }

abbrev gap : Entry ℕ ℕ ℕ
gap = vacant (record { map = sample; key1 = 3; key2 = 33 })

remove_by_key2_lem_example :
    (d' : DoubleMap ℕ ℕ ℕ) × (remove_by_key2 22 sample ≡ returned (d', get_by_key2 22 sample))
    × IsSynced d'
    × ((a b : ℕ) → get_by_keys a b d' ≡ (if 22 == b then none else get_by_keys a b sample))
remove_by_key2_lem_example = remove_by_key2_lem 22 sample sample-IsSynced

-- The keys are those of two entries: nothing is removed.
remove_by_keys_lem_example :
    ((remove_by_keys 1 22 sample).1 ≡ get_by_keys 1 22 sample)
    × IsSynced (remove_by_keys 1 22 sample).0
    × ((a b : ℕ)
        → get_by_keys a b (remove_by_keys 1 22 sample).0
          ≡ (if 1 == a && 22 == b then none else get_by_keys a b sample))
remove_by_keys_lem_example = remove_by_keys_lem 1 22 sample sample-IsSynced

-- ===== src/HashMap/Laws.antt =====
-- What the calls promise of lookups, and that no key is ever stored twice.
use acktor.Base.{◌≡◌, refl, Bool, none, some, [], ◌∷◌, arith, if◌then◌else◌, map_option}
use acktor.Base.Eq.{Eq, ◌==◌}
use acktor.HashMap.{HashMap, get, get_key_value, insert, remove, retain}

module _ {ℓ} {K V : Type ℓ} ⦃e : Eq K⦄ where
  pub get-insert :
      (k j : K) (v : V) (m : HashMap K V)
      → get j (insert k v m) ≡ (if k == j then some v else get j m)
  unfolding get insert
  get-insert k j v [] = refl
  get-insert k j v ((i, w) ∷ m) =
      ground (arith, get-insert k j v m, e.same_iff k j, e.same_iff i k, e.same_iff i j)

  pub get-remove :
      (k j : K) (m : HashMap K V) → get j (remove k m) ≡ (if k == j then none else get j m)
  unfolding get remove
  get-remove k j [] = ground arith
  get-remove k j ((i, w) ∷ m) =
      ground (arith, get-remove k j m, e.same_iff k j, e.same_iff i k, e.same_iff i j)

  pub get_key_value-get :
      (k : K) (m : HashMap K V) → get_key_value k m ≡ map_option (λ v. (k, v)) (get k m)
  unfolding get get_key_value
  get_key_value-get k [] = refl
  get_key_value-get k ((j, v) ∷ m) = ground (arith, get_key_value-get k m, e.same_iff j k)

  -- No key is stored twice.
  abbrev pub IsUnique : HashMap K V → Type ℓ
  IsUnique [] = Unit
  IsUnique ((j, v) ∷ m) = (get j m ≡ none) × IsUnique m

  pub insert-IsUnique : (k : K) (v : V) (m : HashMap K V) → IsUnique m → IsUnique (insert k v m)
  unfolding get insert
  insert-IsUnique k v [] u = (refl, tt)
  insert-IsUnique k v ((j, w) ∷ m) u =
      ground (arith, insert-IsUnique k v m u.1, get-insert k j v m, e.same_iff k j, e.same_iff j k)

  pub remove-IsUnique : (k : K) (m : HashMap K V) → IsUnique m → IsUnique (remove k m)
  unfolding remove
  remove-IsUnique k [] u = tt
  remove-IsUnique k ((j, w) ∷ m) u = ground (arith, remove-IsUnique k m u.1, get-remove k j m)

  pub retain-absent :
      (p : K → V → Bool) (k : K) (m : HashMap K V) → get k m ≡ none → get k (retain p m) ≡ none
  unfolding get retain
  retain-absent p k [] h = refl
  retain-absent p k ((i, w) ∷ m) h = ground (arith, retain-absent p k m)

  pub retain-IsUnique : (p : K → V → Bool) (m : HashMap K V) → IsUnique m → IsUnique (retain p m)
  unfolding retain
  retain-IsUnique p [] u = tt
  retain-IsUnique p ((i, w) ∷ m) u = ground (arith, retain-IsUnique p m u.1, retain-absent p i m)

  pub get-retain :
      (p : K → V → Bool) (k : K) (m : HashMap K V)
      → IsUnique m
      → get k (retain p m)
        ≡ elim (get k m) [ none ↦ none | some v ↦ if p k v then some v else none ]
  unfolding get retain
  get-retain p k [] u = refl
  get-retain p k ((i, w) ∷ m) u =
      ground (arith, get-retain p k m u.1, e.same_iff i k, retain-absent p k m)

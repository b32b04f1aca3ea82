-- ===== src/HashMap.antt =====
-- `std::collections::HashMap`, which the program uses under another hasher, as an association
-- list: the order of the list stands for the arbitrary order of iteration.
pub mod Laws
use acktor.Base.{
  ℕ, ◌≡◌, Bool, true, false, not, Option, none, some, List, [], ◌∷◌, length, if◌then◌else◌, is_some,
}
use acktor.Base.Eq.{Eq, ◌==◌}

abbrev pub HashMap {ℓ} : Type ℓ → Type ℓ → Type ℓ
HashMap K V = List (K × V)

module _ {ℓ} {K V : Type ℓ} ⦃e : Eq K⦄ where
  unfoldable pub get : K → HashMap K V → Option V
  get k [] = none
  get k ((j, v) ∷ m) = if j == k then some v else get k m

  -- The entry with the key as it is stored.
  unfoldable pub get_key_value : K → HashMap K V → Option (K × V)
  get_key_value k [] = none
  get_key_value k ((j, v) ∷ m) = if j == k then some (j, v) else get_key_value k m

  abbrev pub contains_key : K → HashMap K V → Bool
  contains_key k m = is_some (get k m)

  -- The map after an insertion; the value that the call returns is `get` before it.
  unfoldable pub insert : K → V → HashMap K V → HashMap K V
  insert k v [] = (k, v) ∷ []
  insert k v ((j, w) ∷ m) = if j == k then (j, v) ∷ m else (j, w) ∷ insert k v m

  -- The map after a removal; the value that the call returns is `get` before it.
  unfoldable pub remove : K → HashMap K V → HashMap K V
  remove k [] = []
  remove k ((j, w) ∷ m) = if j == k then remove k m else (j, w) ∷ remove k m

  unfoldable pub retain : (K → V → Bool) → HashMap K V → HashMap K V
  retain p [] = []
  retain p ((j, w) ∷ m) = if p j w then (j, w) ∷ retain p m else retain p m

abbrev pub len {ℓ} : {K V : Type ℓ} → HashMap K V → ℕ
len m = length m

abbrev pub is_empty {ℓ} : {K V : Type ℓ} → HashMap K V → Bool
is_empty [] = true
is_empty (e ∷ m) = false

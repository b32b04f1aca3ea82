-- ===== src/DoubleMap/Comparison.antt =====
-- The equality of two double maps, which is that of their primary maps.
use acktor.Base.{
  ◌≡◌, refl, Bool, true, false, ◌&&◌, Option, none, some, [], ◌∷◌, eqb, eqb_iff, if◌then◌else◌,
  arith,
}
use acktor.Base.Eq.{Eq, ◌==◌, ==_refl}
use acktor.HashMap
use acktor.HashMap.{HashMap}
use acktor.HashMap.Laws.{IsUnique}
use acktor.DoubleMap.{DoubleMap}
use acktor.DoubleMap.Sync.{IsSynced}

module _ {ℓ} {K2 V : Type ℓ} ⦃e2 : Eq K2⦄ ⦃e : Eq V⦄ where
  abbrev pub holds : Option (K2 × V) → K2 → V → Bool
  holds none k2 v = false
  holds (some (stored, w)) k2 v = stored == k2 && w == v

  holds_found : (o : Option (K2 × V)) (k2 : K2) (v : V) → holds o k2 v ≡ true → o ≡ some (k2, v)
  holds_found none k2 v h = ground arith
  holds_found (some (stored, w)) k2 v h = ground (arith, e2.same_iff stored k2, e.same_iff w v)

  holds_stored : (o : Option (K2 × V)) (k2 : K2) (v : V) → o ≡ some (k2, v) → holds o k2 v ≡ true
  holds_stored none k2 v h = ground arith
  holds_stored (some (stored, w)) k2 v h = ground (arith, e2.same_iff stored k2, e.same_iff w v)

module _ {ℓ} {K1 K2 V : Type ℓ} ⦃e1 : Eq K1⦄ ⦃e2 : Eq K2⦄ ⦃e : Eq V⦄ where
  -- Every entry of the first map stands in the second.
  abbrev pub within : HashMap K1 (K2 × V) → HashMap K1 (K2 × V) → Bool
  within [] n = true
  within ((k1, (k2, v)) ∷ m) n = holds (HashMap.get k1 n) k2 v && within m n

  -- `PartialEq::eq`, with that of the standard hash map.
  unfoldable pub eq : DoubleMap K1 K2 V → DoubleMap K1 K2 V → Bool
  eq d other =
      eqb (HashMap.len d.primary) (HashMap.len other.primary) && within d.primary other.primary

  get-within :
      (k : K1) (p : K2 × V) (m n : HashMap K1 (K2 × V))
      → within m n ≡ true
      → HashMap.get k m ≡ some p
      → HashMap.get k n ≡ some p
  unfolding HashMap.get
  get-within k p [] n h f = ground arith
  get-within k p ((j, (k2, v)) ∷ m) n h f =
      ground (arith, e1.same_iff j k, holds_found (HashMap.get j n) k2 v, get-within k p m n)

  within_lem :
      (m n : HashMap K1 (K2 × V))
      → IsUnique m
      → ((k : K1) (p : K2 × V) → HashMap.get k m ≡ some p → HashMap.get k n ≡ some p)
      → within m n ≡ true
  unfolding HashMap.get
  within_lem [] n u f = refl
  within_lem ((j, (k2, v)) ∷ m) n u f = ground (
    arith,
    holds_stored (HashMap.get j n) k2 v (f j (k2, v) here),
    within_lem m n u.1 (λ k p h. f k p (further k p h)),
  )
    where
      here : (if j == j then some (k2, v) else HashMap.get j m) ≡ some (k2, v)
      here = ground (arith, ==_refl j)

      further :
          (k : K1) (p : K2 × V)
          → HashMap.get k m ≡ some p
          → (if j == k then some (k2, v) else HashMap.get k m) ≡ some p
      further k p h = ground (arith, e1.same_iff j k, u.0, h)

  -- Where two maps are equal, a first key has the same second key and value in both.
  pub eq_lem :
      (d other : DoubleMap K1 K2 V)
      → eq d other ≡ true
      → (k : K1) (p : K2 × V) → HashMap.get k d.primary ≡ some p
      → HashMap.get k other.primary ≡ some p
  unfolding eq
  eq_lem d other h k p f = get-within k p d.primary other.primary (ground (arith, h)) f

  -- A map is equal to itself, and so to its clone.
  pub eq_refl : (d : DoubleMap K1 K2 V) → IsSynced d → eq d d ≡ true
  unfolding eq
  eq_refl d s = ground (
    arith,
    eqb_iff (HashMap.len d.primary) (HashMap.len d.primary),
    within_lem d.primary d.primary s.unique1 (λ k p f. f),
  )

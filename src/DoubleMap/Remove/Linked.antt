-- ===== src/DoubleMap/Remove/Linked.antt =====
-- acktor-ipc/src/double_map.rs: the second map seen along the entries of the first, for `retain`.
use acktor.Base.{◌≡◌, false, none, some, [], ◌∷◌, arith, Bool-cases, inl, inr, ◌≢◌}
use acktor.Base.Eq.{Eq, ◌==◌, ==_refl}
use acktor.HashMap
use acktor.HashMap.{HashMap}
use acktor.HashMap.Laws.{IsUnique, get-remove}
use acktor.DoubleMap.Sync.{partner}

module _ {ℓ} {K1 K2 V : Type ℓ} ⦃e1 : Eq K1⦄ ⦃e2 : Eq K2⦄ where
  -- No entry has the second key.
  abbrev pub Avoids : K2 → HashMap K1 (K2 × V) → Type 0
  Avoids j [] = Unit
  Avoids j ((k1, (k2, v)) ∷ m) = ((k2 == j) ≡ false) × Avoids j m

  -- Every entry is paired in the second map, and the second keys are distinct.
  abbrev pub IsLinked : HashMap K1 (K2 × V) → HashMap K2 K1 → Type ℓ
  IsLinked [] n = Unit
  IsLinked ((k1, (k2, v)) ∷ m) n =
      (HashMap.get k1 m ≡ none) × (HashMap.get k2 n ≡ some k1) × Avoids k2 m × IsLinked m n

  pub remove-IsLinked :
      (j : K2) (m : HashMap K1 (K2 × V)) (n : HashMap K2 K1)
      → Avoids j m
      → IsLinked m n
      → IsLinked m (HashMap.remove j n)
  remove-IsLinked j [] n h l = tt
  remove-IsLinked j ((k1, (k2, v)) ∷ m) n h l =
      ground (
        arith,
        remove-IsLinked j m n h.1 l.3,
        get-remove j k2 n,
        e2.same_iff j k2,
        e2.same_iff k2 j,
      )

  pub forth_kept :
      (k1 a : K1) (b k2 : K2) (v : V) (m : HashMap K1 (K2 × V)) (n : HashMap K2 K1)
      → partner a ((k1, (k2, v)) ∷ m) ≡ some b
      → (partner a m ≡ some b → HashMap.get b n ≡ some a)
      → HashMap.get k2 n ≡ some k1
      → HashMap.get b n ≡ some a
  unfolding HashMap.get
  forth_kept k1 a b k2 v m n h rest own = ground (arith, e1.same_iff k1 a)

  Avoids-of :
      (j : K2) (m : HashMap K1 (K2 × V))
      → IsUnique m
      → ((i : K1) → partner i m ≢ some j)
      → Avoids j m
  unfolding HashMap.get
  Avoids-of j [] u h = tt
  Avoids-of j ((k1, (k2, v)) ∷ m) u h = (
    elim (Bool-cases (k2 == j)) [
      | inl same ↦ absurd (h k1 (ground (arith, ==_refl k1, e2.same_iff k2 j)))
      | inr other ↦ other
    ],
    Avoids-of j m u.1 (λ i p. h i (ground (arith, e1.same_iff k1 i))),
  )

  pub IsLinked-of :
      (m : HashMap K1 (K2 × V)) (n : HashMap K2 K1)
      → IsUnique m
      → ((a : K1) (b : K2) → partner a m ≡ some b → HashMap.get b n ≡ some a)
      → IsLinked m n
  unfolding HashMap.get
  IsLinked-of [] n u forth = tt
  IsLinked-of ((k1, (k2, v)) ∷ m) n u forth =
      let head : HashMap.get k2 n ≡ some k1 = forth k1 k2 (ground (arith, ==_refl k1)) in
      let rest : (a : K1) (b : K2) → partner a m ≡ some b → HashMap.get b n ≡ some a =
        λ a b p. forth a b (ground (arith, e1.same_iff k1 a)) in
      (u.0, head, Avoids-of k2 m u.1 (λ i p. ground (arith, rest i k2 p)), IsLinked-of m n u.1 rest)

-- ===== src/DoubleMap/Iteration.antt =====
-- acktor-ipc/src/double_map/iter.rs and the methods of acktor-ipc/src/double_map.rs that iterate.
use acktor.Base.{
  ℕ, zero, suc, ◌+◌, ◌≡◌, refl, ap, ◌∙◌, Option, none, some, List, [], ◌∷◌, ◌++◌, map, length,
  map_option, arith,
}
use acktor.Base.Eq.{Eq}
use acktor.HashMap
use acktor.HashMap.{HashMap}
use acktor.HashMap.Laws.{IsUnique}
use acktor.DoubleMap.{DoubleMap, iter, keys, values, get_by_key1}
use acktor.DoubleMap.Sync.{IsSynced, partner}

-- An iterator of the hash map is the list of the entries that are still to come.
abbrev pub following {ℓ} : {A I : Type ℓ} → (A → I) → List A → Option I × List A
following item [] = (none, [])
following item (e ∷ rest) = (some (item e), rest)

-- `size_hint` of each of them; `len` is its first part.
unfoldable pub size_hint {ℓ} : {A : Type ℓ} → List A → ℕ × Option ℕ
size_hint rest = (length rest, some (length rest))

-- What `k` calls of `next` answer.
abbrev pub answers {ℓ} :
    {A I : Type ℓ} → ℕ → (List A → Option I × List A) → List A → List (Option I)
answers zero next rest = []
answers (suc k) next rest = (next rest).0 ∷ answers k next (next rest).1

abbrev pub nothing {ℓ} : {I : Type ℓ} → ℕ → List (Option I)
nothing zero = []
nothing (suc k) = none ∷ nothing k

module _ {ℓ} {A I : Type ℓ} (item : A → I) where
  answers-none : (k : ℕ) → answers k (following item) [] ≡ nothing k
  answers-none zero = refl
  answers-none (suc k) = ap (λ l. none ∷ l) (answers-none k)

  -- As many items as the iterator has entries, in their order, and nothing after the last.
  answers-following :
      (k : ℕ) (rest : List A)
      → answers (length rest + k) (following item) rest
        ≡ map (λ i. some i) (map item rest) ++ nothing k
  answers-following k [] = ap (λ n. answers n (following item) []) zero_plus ∙ answers-none k
    where
      zero_plus : 0 + k ≡ k
      zero_plus = omega arith
  answers-following k (e ∷ rest) =
      ap (λ n. answers n (following item) (e ∷ rest)) suc_plus
      ∙ ap (λ l. some (item e) ∷ l) (answers-following k rest)
    where
      suc_plus : suc (length rest) + k ≡ suc (length rest + k)
      suc_plus = omega arith

module _ {ℓ} {K1 K2 V : Type ℓ} where
  -- `next` of `IntoIter`, `Iter`, `IterMut` and `Drain`.
  unfoldable pub next_entry : List (K1 × (K2 × V)) → Option (K1 × K2 × V) × List (K1 × (K2 × V))
  next_entry rest = following (λ e. (e.0, e.1.0, e.1.1)) rest

  -- `next` of `Keys` and `IntoKeys`.
  unfoldable pub next_keys : List (K1 × (K2 × V)) → Option (K1 × K2) × List (K1 × (K2 × V))
  next_keys rest = following (λ e. (e.0, e.1.0)) rest

  -- `next` of `Values`, `ValuesMut` and `IntoValues`.
  unfoldable pub next_value : List (K1 × (K2 × V)) → Option V × List (K1 × (K2 × V))
  next_value rest = following (λ e. e.1.1) rest

  -- The iterators of a map answer with its entries, its keys or its values, as many as they hint at
  -- when the iteration begins, and with `None` from then on.
  pub answers-next_entry :
      (k : ℕ) (d : DoubleMap K1 K2 V)
      → (answers ((size_hint d.primary).0 + k) next_entry d.primary
          ≡ map (λ i. some i) (iter d) ++ nothing k)
        × (answers ((size_hint d.primary).0 + k) next_keys d.primary
            ≡ map (λ i. some i) (keys d) ++ nothing k)
        × (answers ((size_hint d.primary).0 + k) next_value d.primary
            ≡ map (λ i. some i) (values d) ++ nothing k)
  unfolding next_entry next_keys next_value iter keys values size_hint
  answers-next_entry k d = (
    answers-following (λ e. (e.0, e.1.0, e.1.1)) k d.primary,
    answers-following (λ e. (e.0, e.1.0)) k d.primary,
    answers-following (λ e. e.1.1) k d.primary,
  )

  abbrev pub assigned : (K1 → K2 → V → V) → HashMap K1 (K2 × V) → HashMap K1 (K2 × V)
  assigned f [] = []
  assigned f ((k1, (k2, v)) ∷ m) = (k1, (k2, f k1 k2 v)) ∷ assigned f m

  -- `f` is what the caller does to the value that it is lent with its keys.
  unfoldable pub iter_mut : (K1 → K2 → V → V) → DoubleMap K1 K2 V → DoubleMap K1 K2 V
  iter_mut f d = record d { primary = assigned f d.primary }

  unfoldable pub values_mut : (V → V) → DoubleMap K1 K2 V → DoubleMap K1 K2 V
  values_mut f d = record d { primary = assigned (λ k1 k2 v. f v) d.primary }

module _ {ℓ} {K1 K2 V : Type ℓ} ⦃e1 : Eq K1⦄ ⦃e2 : Eq K2⦄ (f : K1 → K2 → V → V) where
  get-assigned :
      (k : K1) (m : HashMap K1 (K2 × V))
      → HashMap.get k (assigned f m) ≡ map_option (λ p. (p.0, f k p.0 p.1)) (HashMap.get k m)
  unfolding HashMap.get
  get-assigned k [] = refl
  get-assigned k ((j, (k2, v)) ∷ m) = ground (arith, get-assigned k m, e1.same_iff j k)

  partner-assigned : (k : K1) (m : HashMap K1 (K2 × V)) → partner k (assigned f m) ≡ partner k m
  partner-assigned k m = ap (map_option (λ p. p.0)) (get-assigned k m) ∙ go (HashMap.get k m)
    where
      go :
          (o : Option (K2 × V))
          → map_option (λ (p : K2 × V). p.0) (map_option (λ p. (p.0, f k p.0 p.1)) o)
            ≡ map_option (λ p. p.0) o
      go none = refl
      go (some p) = refl

  assigned-IsUnique : (m : HashMap K1 (K2 × V)) → IsUnique m → IsUnique (assigned f m)
  assigned-IsUnique [] u = tt
  assigned-IsUnique ((j, (k2, v)) ∷ m) u =
      (get-assigned j m ∙ ap (map_option (λ p. (p.0, f j p.0 p.1))) u.0, assigned-IsUnique m u.1)

  -- The values are assigned in place: the map stays well formed.
  pub iter_mut-IsSynced : (d : DoubleMap K1 K2 V) → IsSynced d → IsSynced (iter_mut f d)
  unfolding iter_mut
  iter_mut-IsSynced d s = record {
    unique1 = assigned-IsUnique d.primary s.unique1;
    unique2 = s.unique2;
    paired = record {
      forth = λ a b h. s.forth a b (ground (arith, partner-assigned a d.primary, h));
      back = λ a b h. partner-assigned a d.primary ∙ s.back a b h;
    };
  }

  -- Every lookup finds the value that was assigned.
  pub get_by_key1-iter_mut :
      (k : K1) (d : DoubleMap K1 K2 V)
      → get_by_key1 k (iter_mut f d) ≡ map_option (λ p. f k p.0 p.1) (HashMap.get k d.primary)
  unfolding get_by_key1 iter_mut
  get_by_key1-iter_mut k d =
      ap (map_option (λ p. p.1)) (get-assigned k d.primary) ∙ go (HashMap.get k d.primary)
    where
      go :
          (o : Option (K2 × V))
          → map_option (λ (p : K2 × V). p.1) (map_option (λ p. (p.0, f k p.0 p.1)) o)
            ≡ map_option (λ p. f k p.0 p.1) o
      go none = refl
      go (some p) = refl

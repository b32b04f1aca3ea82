-- ===== src/DoubleMap/Sync.antt =====
-- The invariant of the double map: the two hash maps describe one set of entries.
use acktor.Base.{◌≡◌, Option, none, some, arith, map_option}
use acktor.Base.Eq.{Eq}
use acktor.HashMap
use acktor.HashMap.{HashMap}
use acktor.HashMap.Laws.{IsUnique, get-insert, get-remove}
use acktor.DoubleMap.{DoubleMap, new}

module _ {ℓ} {K1 K2 V : Type ℓ} ⦃e1 : Eq K1⦄ ⦃e2 : Eq K2⦄ where
  -- The second key of the entry under a first key.
  abbrev pub partner : K1 → HashMap K1 (K2 × V) → Option K2
  partner k1 m = map_option (λ p. p.0) (HashMap.get k1 m)

  -- `primary` pairs a first with a second key exactly where `secondary` pairs them.
  pub record IsPaired (m : HashMap K1 (K2 × V)) (n : HashMap K2 K1) : Type ℓ where
    pub forth : (k1 : K1) (k2 : K2) → partner k1 m ≡ some k2 → HashMap.get k2 n ≡ some k1
    pub back : (k1 : K1) (k2 : K2) → HashMap.get k2 n ≡ some k1 → partner k1 m ≡ some k2

  pub record IsSynced (d : DoubleMap K1 K2 V) : Type ℓ where
    pub unique1 : IsUnique d.primary
    pub unique2 : IsUnique d.secondary
    pub paired : IsPaired d.primary d.secondary
    pub open paired use *

  -- A fresh pair is added to both maps.
  pub insert-IsPaired :
      (k1 : K1) (k2 : K2) (v : V) (m : HashMap K1 (K2 × V)) (n : HashMap K2 K1)
      → HashMap.get k1 m ≡ none
      → HashMap.get k2 n ≡ none
      → IsPaired m n
      → IsPaired (HashMap.insert k1 (k2, v) m) (HashMap.insert k2 k1 n)
  insert-IsPaired k1 k2 v m n h1 h2 s = record {
    forth = λ a b. ground (
      arith,
      get-insert k1 a (k2, v) m,
      get-insert k2 b k1 n,
      e1.same_iff k1 a,
      e2.same_iff k2 b,
      s.forth a b,
    );
    back = λ a b. ground (
      arith,
      get-insert k1 a (k2, v) m,
      get-insert k2 b k1 n,
      e1.same_iff k1 a,
      e2.same_iff k2 b,
      s.back a b,
    );
  }

  -- A new value under the same pair.
  pub assign-IsPaired :
      (k1 : K1) (k2 : K2) (v : V) (m : HashMap K1 (K2 × V)) (n : HashMap K2 K1)
      → partner k1 m ≡ some k2
      → IsPaired m n
      → IsPaired (HashMap.insert k1 (k2, v) m) n
  assign-IsPaired k1 k2 v m n h s = record {
    forth = λ a b. ground (arith, get-insert k1 a (k2, v) m, e1.same_iff k1 a, s.forth a b);
    back = λ a b. ground (arith, get-insert k1 a (k2, v) m, e1.same_iff k1 a, s.back a b);
  }

  -- A pair goes from both maps.
  pub remove-IsPaired :
      (k1 : K1) (k2 : K2) (m : HashMap K1 (K2 × V)) (n : HashMap K2 K1)
      → partner k1 m ≡ some k2
      → IsPaired m n
      → IsPaired (HashMap.remove k1 m) (HashMap.remove k2 n)
  remove-IsPaired k1 k2 m n h s = record {
    forth = λ a b. ground (
      arith,
      get-remove k1 a m,
      get-remove k2 b n,
      e1.same_iff k1 a,
      e2.same_iff k2 b,
      s.forth a b,
      s.forth k1 k2,
    );
    back = λ a b. ground (
      arith,
      get-remove k1 a m,
      get-remove k2 b n,
      e1.same_iff k1 a,
      e2.same_iff k2 b,
      s.back a b,
      s.forth k1 k2,
    );
  }

  pub new-IsSynced : IsSynced new
  unfolding new HashMap.get
  new-IsSynced = record {
    unique1 = tt;
    unique2 = tt;
    paired = record { forth = λ a b. cc; back = λ a b. cc };
  }

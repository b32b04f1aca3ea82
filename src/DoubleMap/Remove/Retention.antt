-- ===== src/DoubleMap/Remove/Retention.antt =====
-- acktor-ipc/src/double_map.rs: `retain` keeps the two maps in sync, and keeps what its
-- predicate accepts.
use acktor.Base.{
  ◌≡◌, ◌∙◌, refl, Bool, true, false, none, some, [], ◌∷◌, arith, if◌then◌else◌, Option-cases,
  Bool-cases, inl, inr,
}
use acktor.Base.Eq.{Eq}
use acktor.HashMap
use acktor.HashMap.{HashMap}
use acktor.HashMap.Laws.{IsUnique, get-remove, remove-IsUnique}
use acktor.DoubleMap.{DoubleMap, get_by_keys}
use acktor.DoubleMap.Remove.{retain_entries, retain}
use acktor.DoubleMap.Sync.{IsSynced, partner}
use acktor.DoubleMap.Remove.Linked.{Avoids, IsLinked, remove-IsLinked, forth_kept, IsLinked-of}

module _ {ℓ} {K1 K2 V : Type ℓ} ⦃e1 : Eq K1⦄ ⦃e2 : Eq K2⦄ where
  module _ {κ} {S : Type κ} (f : S → K1 → K2 → V → S × V × Bool) where
    retain_entries-absent :
        (a : K1) (s : S) (m : HashMap K1 (K2 × V)) (n : HashMap K2 K1)
        → HashMap.get a m ≡ none
        → HashMap.get a (retain_entries f s m n).0 ≡ none
    unfolding retain_entries HashMap.get
    retain_entries-absent a s [] n h = refl
    retain_entries-absent a s ((k1, (k2, v)) ∷ m) n h =
        let r = f s k1 k2 v in
        ground (
          arith,
          retain_entries-absent a r.0 m n,
          retain_entries-absent a r.0 m (HashMap.remove k2 n),
        )

    retain_entries-IsUnique :
        (s : S) (m : HashMap K1 (K2 × V)) (n : HashMap K2 K1)
        → IsUnique m
        → IsUnique (retain_entries f s m n).0
    unfolding retain_entries
    retain_entries-IsUnique s [] n u = tt
    retain_entries-IsUnique s ((k1, (k2, v)) ∷ m) n u =
        let r = f s k1 k2 v in
        ground (
          arith,
          retain_entries-IsUnique r.0 m n,
          retain_entries-IsUnique r.0 m (HashMap.remove k2 n),
          retain_entries-absent k1 r.0 m n,
          retain_entries-absent k1 r.0 m (HashMap.remove k2 n),
        )

    -- A second key that no entry has is kept.
    retain_entries-Avoids :
        (j : K2) (s : S) (m : HashMap K1 (K2 × V)) (n : HashMap K2 K1)
        → Avoids j m
        → HashMap.get j (retain_entries f s m n).1 ≡ HashMap.get j n
    unfolding retain_entries
    retain_entries-Avoids j s [] n h = refl
    retain_entries-Avoids j s ((k1, (k2, v)) ∷ m) n h =
        let r = f s k1 k2 v in
        ground (
          arith,
          retain_entries-Avoids j r.0 m n,
          retain_entries-Avoids j r.0 m (HashMap.remove k2 n),
          get-remove k2 j n,
        )

    -- What stays in the second map was there.
    retain_entries-subset :
        (j : K2) (a : K1) (s : S) (m : HashMap K1 (K2 × V)) (n : HashMap K2 K1)
        → HashMap.get j (retain_entries f s m n).1 ≡ some a
        → HashMap.get j n ≡ some a
    unfolding retain_entries
    retain_entries-subset j a s [] n h = h
    retain_entries-subset j a s ((k1, (k2, v)) ∷ m) n h =
        let r = f s k1 k2 v in
        ground (
          arith,
          retain_entries-subset j a r.0 m n,
          retain_entries-subset j a r.0 m (HashMap.remove k2 n),
          get-remove k2 j n,
        )

    retain_entries-IsUnique2 :
        (s : S) (m : HashMap K1 (K2 × V)) (n : HashMap K2 K1)
        → IsUnique n
        → IsUnique (retain_entries f s m n).1
    unfolding retain_entries
    retain_entries-IsUnique2 s [] n u = u
    retain_entries-IsUnique2 s ((k1, (k2, v)) ∷ m) n u =
        let r = f s k1 k2 v in
        ground (
          arith,
          retain_entries-IsUnique2 r.0 m n,
          retain_entries-IsUnique2 r.0 m (HashMap.remove k2 n),
          remove-IsUnique k2 n u,
        )

    module _ (s : S) (k1 : K1) (k2 : K2) (v : V) (m : HashMap K1 (K2 × V)) (n : HashMap K2 K1) where
      kept_lem :
          (f s k1 k2 v).2 ≡ true
          → retain_entries f s ((k1, (k2, v)) ∷ m) n ≡ (
            (k1, (k2, (f s k1 k2 v).1)) ∷ (retain_entries f (f s k1 k2 v).0 m n).0,
            (retain_entries f (f s k1 k2 v).0 m n).1,
          )
      unfolding retain_entries
      kept_lem h = rw h

      dropped_lem :
          (f s k1 k2 v).2 ≡ false
          → retain_entries f s ((k1, (k2, v)) ∷ m) n
            ≡ retain_entries f (f s k1 k2 v).0 m (HashMap.remove k2 n)
      unfolding retain_entries
      dropped_lem h = rw h

    -- Each pair of a linked list of entries that stays is still paired.
    retain_entries-forth :
        (a : K1) (b : K2) (s : S) (m : HashMap K1 (K2 × V)) (n : HashMap K2 K1)
        → IsLinked m n
        → partner a (retain_entries f s m n).0 ≡ some b
        → HashMap.get b (retain_entries f s m n).1 ≡ some a
    unfolding HashMap.get
    retain_entries-forth a b s [] n l h = unfold retain_entries in cc
    retain_entries-forth a b s ((k1, (k2, v)) ∷ m) n l h = elim (Bool-cases (f s k1 k2 v).2) [
      | inl keep ↦
          let h' = rw (kept_lem s k1 k2 v m n keep) at h in
          rw (kept_lem s k1 k2 v m n keep) (
            forth_kept k1 a b k2 (f s k1 k2 v).1 _ _ h'
              (λ p. retain_entries-forth a b (f s k1 k2 v).0 m n l.3 p)
              (retain_entries-Avoids k2 (f s k1 k2 v).0 m n l.2 ∙ l.1))
      | inr drop ↦
          let h' = rw (dropped_lem s k1 k2 v m n drop) at h in
          rw (dropped_lem s k1 k2 v m n drop) (
            retain_entries-forth a b (f s k1 k2 v).0 m (HashMap.remove k2 n)
              (remove-IsLinked k2 m n l.2 l.3) h')
    ]

    -- Each pair that is still in the second map has its entry in the first.
    retain_entries-back :
        (a : K1) (b : K2) (s : S) (m : HashMap K1 (K2 × V)) (n : HashMap K2 K1)
        → partner a m ≡ some b
        → HashMap.get b (retain_entries f s m n).1 ≡ some a
        → partner a (retain_entries f s m n).0 ≡ some b
    unfolding HashMap.get
    retain_entries-back a b s [] n p h = cc
    retain_entries-back a b s ((k1, (k2, v)) ∷ m) n p h = elim (Bool-cases (f s k1 k2 v).2) [
      | inl keep ↦
          let h' = rw (kept_lem s k1 k2 v m n keep) at h in
          rw (kept_lem s k1 k2 v m n keep)
            (ground (arith, retain_entries-back a b (f s k1 k2 v).0 m n, p, h'))
      | inr drop ↦
          let h' = rw (dropped_lem s k1 k2 v m n drop) at h in
          rw (dropped_lem s k1 k2 v m n drop) (
            retain_entries-back a b (f s k1 k2 v).0 m (HashMap.remove k2 n)
              (ground (
                arith,
                retain_entries-subset b a (f s k1 k2 v).0 m (HashMap.remove k2 n) h',
                get-remove k2 b n,
                e1.same_iff k1 a,
                e2.same_iff k2 b,
              ))
              h')
    ]

  -- `retain` keeps the two maps in sync, whatever the predicate does to the values.
  pub retain-IsSynced {κ} :
      {S : Type κ} (f : S → K1 → K2 → V → S × V × Bool) (s : S) (d : DoubleMap K1 K2 V)
      → IsSynced d
      → IsSynced (retain f s d)
  unfolding retain
  retain-IsSynced f s d h = record {
    unique1 = retain_entries-IsUnique f s d.primary d.secondary h.unique1;
    unique2 = retain_entries-IsUnique2 f s d.primary d.secondary h.unique2;
    paired = record {
      forth = λ a b p.
          retain_entries-forth f a b s d.primary d.secondary
            (IsLinked-of d.primary d.secondary h.unique1 h.forth) p;
      back = λ a b p.
          retain_entries-back f a b s d.primary d.secondary
            (h.back a b (retain_entries-subset f b a s d.primary d.secondary p)) p;
    };
  }

  -- `retain` by a predicate that changes no value.
  abbrev pub keeping : (K1 → K2 → V → Bool) → Unit {0} → K1 → K2 → V → Unit {0} × V × Bool
  keeping p u a b v = (tt, v, p a b v)

  pub get-keeping :
      (p : K1 → K2 → V → Bool) (a : K1) (m : HashMap K1 (K2 × V)) (n : HashMap K2 K1)
      → IsUnique m
      → HashMap.get a (retain_entries (keeping p) tt m n).0
        ≡ elim (HashMap.get a m) [ none ↦ none | some e ↦ if p a e.0 e.1 then some e else none ]
  unfolding HashMap.get retain_entries
  get-keeping p a [] n u = refl
  get-keeping p a ((k1, (k2, v)) ∷ m) n u = ground (
    arith,
    get-keeping p a m n u.1,
    get-keeping p a m (HashMap.remove k2 n) u.1,
    e1.same_iff k1 a,
  )

  -- A pair is found after `retain` where it was found before and the predicate accepts it.
  pub get_by_keys-retain :
      (p : K1 → K2 → V → Bool) (a : K1) (b : K2) (d : DoubleMap K1 K2 V)
      → IsSynced d
      → get_by_keys a b (retain (keeping p) tt d)
        ≡ elim (get_by_keys a b d) [ none ↦ none | some v ↦ if p a b v then some v else none ]
  unfolding get_by_keys retain
  get_by_keys-retain p a b d h = elim (Option-cases (HashMap.get a d.primary)) [
    | inl e ↦ ground (arith, get-keeping p a d.primary d.secondary h.unique1)
    | inr ((stored, v), e) ↦
        ground (arith, get-keeping p a d.primary d.secondary h.unique1, e2.same_iff stored b)
  ]

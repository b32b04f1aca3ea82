-- ===== src/Registry.antt =====
-- acktor-ipc/src/remote/registry.rs: the registry of the actors that other nodes can reach. The
-- concurrent map under it is the dashmap crate's, which is not in the repository: an interface.
pub mod Laws
use acktor.Base.{ℕ, ◌≡◌, Bool, true, false, Option, none, some, if◌then◌else◌, eqb}
use acktor.Actor.Index.{ActorId, as_local}

pub record DashMap (V : Type 0) : Type 1 where
  pub Map : Type 0
  pub empty : Map
  pub get : ℕ → Map → Option V
  pub insert : ℕ → V → Map → Map
  pub remove : ℕ → Map → Map
  pub retain : (ℕ → V → Bool) → Map → Map
  pub get-empty : (i : ℕ) → get i empty ≡ none
  pub get-insert :
      (i j : ℕ) (v : V) (m : Map) → get j (insert i v m) ≡ (if eqb i j then some v else get j m)
  pub get-remove : (i j : ℕ) (m : Map) → get j (remove i m) ≡ (if eqb i j then none else get j m)
  pub get-retain :
      (p : ℕ → V → Bool) (j : ℕ) (m : Map)
      → get j (retain p m)
        ≡ elim (get j m) [ none ↦ none | some v ↦ if p j v then some v else none ]

-- A recipient, known by the index of its actor.
pub record RemoteMailbox : Type 0 where
  pub index : ActorId

-- An operation takes `closed`, the mailboxes that are closed when it runs.
module _ (dash : DashMap RemoteMailbox) where
  open dash use {Map}

  unfoldable pub new : Map
  new = dash.empty

  unfoldable pub retain : (ℕ → RemoteMailbox → Bool) → Map → Map
  retain predicate r = dash.retain predicate r

  -- A closed mailbox is removed by the lookup that meets it.
  unfoldable pub get : (RemoteMailbox → Bool) → ℕ → Map → Map × Option RemoteMailbox
  get closed index r = elim (dash.get index r) [
    | none ↦ (r, none)
    | some recipient ↦ if closed recipient then (dash.remove index r, none) else (r, some recipient)
  ]

  unfoldable pub contains_index : (RemoteMailbox → Bool) → ℕ → Map → Map × Bool
  contains_index closed index r = elim (dash.get index r) [
    | none ↦ (r, false)
    | some recipient ↦ if closed recipient then (dash.remove index r, false) else (r, true)
  ]

  unfoldable pub remove : ℕ → Map → Map × Option RemoteMailbox
  remove index r = (dash.remove index r, dash.get index r)

  -- Where the index is taken the registry is not modified.
  unfoldable pub insert : RemoteMailbox → Map → Map × Bool
  insert actor r =
      let index = as_local actor.index in
      elim (dash.get index r) [ some _ ↦ (r, false) | none ↦ (dash.insert index actor r, true) ]

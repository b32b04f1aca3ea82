-- ===== src/Registry/Laws.antt =====
-- acktor-ipc/src/remote/registry.rs: which mailboxes the registry leads to.
use acktor.Base.{ℕ, ◌≡◌, Bool, Option, none, some, if◌then◌else◌, eqb, eqb_iff, arith}
use acktor.Actor.Index.{as_local}
use acktor.Registry
use acktor.Registry.{DashMap, RemoteMailbox}

module _ (dash : DashMap RemoteMailbox) where
  open dash use {Map}

  -- The mailbox that the registry leads to, if it is open.
  abbrev pub reached : (RemoteMailbox → Bool) → ℕ → Map → Option RemoteMailbox
  reached closed i r = elim (dash.get i r) [
    | none ↦ none
    | some m ↦ if closed m then none else some m
  ]

  -- A lookup returns the mailbox that the index leads to if it is open, and however many closed
  -- ones it evicts, every index leads where it did before.
  get_lem :
      (closed : RemoteMailbox → Bool) (i j : ℕ) (r : Map)
      → ((Registry.get dash closed i r).1 ≡ reached closed i r)
        × (reached closed j (Registry.get dash closed i r).0 ≡ reached closed j r)
  unfolding Registry.get
  get_lem closed i j r = (ground arith, ground (arith, dash.get-remove i j r, eqb_iff i j))

  pub reached-contains_index :
      (closed : RemoteMailbox → Bool) (i j : ℕ) (r : Map)
      → reached closed j (Registry.contains_index dash closed i r).0 ≡ reached closed j r
  unfolding Registry.contains_index
  reached-contains_index closed i j r = ground (arith, dash.get-remove i j r, eqb_iff i j)

  -- A new mailbox never displaces one that is registered under its index: the call then returns
  -- `false` and changes nothing, and otherwise the index leads to the new mailbox.
  insert_lem :
      (m : RemoteMailbox) (j : ℕ) (r : Map)
      → dash.get j (Registry.insert dash m r).0 ≡ (
          if eqb (as_local m.index) j
          then (if (Registry.insert dash m r).1 then some m else dash.get j r)
          else dash.get j r)
  unfolding Registry.insert
  insert_lem m j r = ground (arith, dash.get-insert (as_local m.index) j m r)

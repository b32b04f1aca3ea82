-- ===== src/Actor/Index.antt =====
-- acktor/src/actor/index.rs: the index of an actor.
use acktor.Base.{ℕ, ◌≡◌, ◌↔◌, ◌<◌, ◌≢◌, Bool, true, not, ◌&&◌, arith, eqb}
use acktor.Base.Eq.{Eq}

-- `session` is 0 for an actor of this process.
pub record ActorId : Type 0 where
  pub index : ℕ
  pub session : ℕ

unfoldable pub new : ℕ → ActorId
new index = record { index = index; session = 0 }

-- `session` is a `NonZeroU64` in the code.
unfoldable pub new_remote : ℕ → ℕ → ActorId
new_remote index session = record { index = index; session = session }

abbrev pub as_local : ActorId → ℕ
as_local a = a.index

unfoldable pub is_remote : ActorId → Bool
is_remote a = not (eqb a.session 0)

abbrev pub id_eq : ActorId → ActorId → Bool
id_eq a b = eqb a.index b.index && eqb a.session b.session

pub id_eq_iff : (a b : ActorId) → (id_eq a b ≡ true) ↔ (a ≡ b)
id_eq_iff a b = ground arith

instance abbrev pub id_Eq : Eq ActorId
id_Eq = record { same = id_eq; same_iff = id_eq_iff }

-- A local and a remote index are never equal, whatever the two index numbers are.
pub new-ne-new_remote : (i j s : ℕ) → 0 < s → new i ≢ new_remote j s
unfolding new new_remote
new-ne-new_remote i j s h e = ground arith

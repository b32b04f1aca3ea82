-- ===== src/Node/Forwarding.antt =====
-- acktor-ipc/src/node.rs: the requests for an actor of another process, which the node passes on to
-- the session with that process.
use acktor.Base.Eq.{string_eq}
use acktor.Base.{◌≡◌, ap, Option, none, some, Result, ok, err, String}
use acktor.Actor.Index.{ActorId, id_Eq}
use acktor.ActorMgr.{ActorRef, label}
use acktor.DoubleMap
use acktor.Errors.{SessionError, RecvError}
use acktor.Registry.{DashMap, RemoteMailbox}
use acktor.Node.{
  Node, NodeError, session_not_found, session_error, send_error, recv_error, get_session,
}

-- What becomes of a request to a session: of its send, of the wait for the response, and the
-- response.
abbrev pub Answer : Type 0 → Type 0
Answer E = Result (Result (Result ActorId (SessionError E)) (RecvError E)) E

module _ {E : Type 0} where
  -- The three `?` and `map_err`.
  unfoldable pub answered : Answer E → Result ActorId (NodeError E)
  answered (err e) = err (send_error e)
  answered (ok (err e)) = err (recv_error e)
  answered (ok (ok (err e))) = err (session_error e)
  answered (ok (ok (ok a))) = ok a

  -- The future of a handler, which asks the session that was found when the handler ran.
  unfoldable pub asked :
      Result ActorId (NodeError E) → (ActorId → Answer E) → Result ActorId (NodeError E)
  unfolding answered
  asked (err e) ask = err e
  asked (ok session) ask = answered (ask session)

module _ {F E : Type 0} (dash : DashMap RemoteMailbox) where
  -- `Handler<RemoteCreateActor>`; `ask` sends the request to a session. The handlers leave the node
  -- as it is.
  unfoldable pub remote_create_actor :
      (ActorId → String → Option String → Answer E)
      → ActorRef
      → String
      → Option String
      → Node dash.Map F
      → Result ActorId (NodeError E)
  unfolding asked
  remote_create_actor ask session l config n =
      asked (get_session dash session n) (λ s. ask s l config)

  -- `Handler<RemoteGetActor>`.
  unfoldable pub remote_get_actor :
      (ActorId → ActorRef → Answer E)
      → ActorRef
      → ActorRef
      → Node dash.Map F
      → Result ActorId (NodeError E)
  unfolding asked
  remote_get_actor ask session actor n = asked (get_session dash session n) (λ s. ask s actor)

  -- Where the node has no such session, the request fails, whatever a session would answer.
  pub remote_get_actor_absent :
      (ask : ActorId → ActorRef → Answer E) (l : String) (actor : ActorRef) (n : Node dash.Map F)
      → DoubleMap.get_by_key2 l n.sessions ≡ none
      → remote_get_actor ask (label l) actor n ≡ err (session_not_found (label l))
  unfolding remote_get_actor asked get_session
  remote_get_actor_absent ask l actor n h =
      ap
        (λ o.
          asked (elim o [ none ↦ err (session_not_found (label l)) | some s ↦ ok s ])
            (λ s. ask s actor))
        h

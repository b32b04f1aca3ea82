-- ===== src/Session/Sending.antt =====
-- A send to an actor of another process, from the address to the mailbox of the session:
-- acktor/src/address/remote.rs over acktor-ipc/src/session/proxy.rs over acktor/src/address/local.rs.
use acktor.Base.{Bool}
use acktor.BinaryMessage.{BinaryMessage}
use acktor.Registry.{DashMap, RemoteMailbox}
use acktor.Envelope.{IntoEnvelope}
use acktor.Address.{BoxError}
use acktor.Address.Mpsc.{MpscSender}
use acktor.Address.Local
use acktor.Address.Local.{LocalAddress, State}
use acktor.Address.Local.Delivery
use acktor.Address.Remote
use acktor.Address.Remote.{RemoteProxy}
use acktor.Session.Proxy.{remote_proxy}

-- The proxy of the session whose address is `a`; the address spawns no tasks `T`.
module _ {B G Env : Type 0} (T : Type 0) (mp : MpscSender Env)
    (into : IntoEnvelope Env (BinaryMessage B)) (dash : DashMap RemoteMailbox) (r : dash.Map)
    (a : LocalAddress) (held : Bool) where
  abbrev pub proxy : RemoteProxy B G (State (BoxError G) T mp into)
  proxy =
      remote_proxy dash r
        (record { session = Local.sender (BoxError G) T mp into a; is_held = held }) a.index

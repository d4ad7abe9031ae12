-- ===== src/Server/Handler/Provenance/Connection.antt =====
-- A whole connection of server/server.go sends only credentials that were granted.
use hologram.Prelude.{ℕ, zero, suc, Option, none, some, All}
use hologram.Prelude.Go.{ok, err}
use hologram.Prelude.Keeps.{Keeps, Any, Keeps-pure, Keeps-fuel, Keeps-bind}
use hologram.Protocol.ServerRequest.{ServerRequest}
use hologram.Protocol.Ping.{Ping}
use hologram.Server.Types.{Credentials, User}
use hologram.Server.Handler.State.{Settings, State, Services, pong, handle_ping}
use hologram.Server.Handler.Requests.{handle_server_request}
use hologram.Server.Handler.Loop.{dispatch_message, handle_message, handle_connection}
use hologram.Server.Handler.Sending.{Keeps-receive, Keeps-counter}
use hologram.Server.Handler.Provenance.{IsGranted, IsFaithful, Safe}
use hologram.Server.Handler.Provenance.Requests.{send_plain-Safe, dispatch-Safe}

module _ {Key W : Type 0} (settings : Settings) (services : Services Key W) {Inv : W → Type 0}
    {Auth : User Key → Type 0} {Good : Credentials → Type 0}
    (faithful : IsFaithful services settings.enable_ldap_roles Inv Auth Good) where
  pub handle_ping-Safe : (p : Ping) → Keeps (Safe Good Inv) Any (handle_ping {W = W} p)
  unfolding handle_ping
  handle_ping-Safe p =
      Keeps-bind (Keeps-counter (IsGranted Good) Inv _)
        λ _ _. send_plain-Safe settings services faithful pong tt

  pub handle_message-Safe :
      (p : Option Ping) (r : Option ServerRequest)
      → Keeps (Safe Good Inv) Any (dispatch_message settings services p r)
  unfolding handle_server_request
  handle_message-Safe (some p) r = handle_ping-Safe p
  handle_message-Safe none none = Keeps-pure tt tt
  handle_message-Safe none (some r) = dispatch-Safe settings services faithful _ _ _

  pub handle_connection-Safe :
      (fuel : ℕ) → Keeps (Safe Good Inv) Any (handle_connection settings services fuel)
  unfolding handle_connection handle_message
  handle_connection-Safe zero = Keeps-fuel
  handle_connection-Safe (suc fuel) =
      Keeps-bind (Keeps-receive (IsGranted Good) Inv {Q = Any} (λ _. tt)) (elim [
        | err _ ↦ λ _. Keeps-pure tt tt
        | ok msg ↦ λ _. Keeps-bind (handle_message-Safe _ _) λ _ _. handle_connection-Safe fuel
      ])

  -- If the services keep an invariant of what is behind them, and under it every user that
  -- `Authenticate` returns has `Auth` and all credentials that `AssumeRole` returns for such a user
  -- are `Good`, then a connection on which only good credentials have been sent stays so, whatever the
  -- client sends and however the handler ends: each message with credentials is the wire form of good
  -- ones. The invariant still holds afterwards.
  pub handle_connection-grants :
      (fuel : ℕ) (s : State W)
      → Inv s.world
      → All (IsGranted Good) s.conn.sent
      → let after = (handle_connection settings services fuel s).1 in
        All (IsGranted Good) after.conn.sent × Inv after.world
  handle_connection-grants fuel s i h = ((handle_connection-Safe fuel).at s (h, i)).0

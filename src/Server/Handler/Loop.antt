-- ===== src/Server/Handler/Loop.antt =====
-- server/server.go: `HandleConnection`.
use hologram.Prelude.{ℕ, zero, suc, Option, none, some}
use hologram.Prelude.Go.{ok, err, out_of_fuel, Go, pure, ◌>>=◌, ◌>>◌}
use hologram.Protocol.Ping.{Ping}
use hologram.Protocol.ServerRequest.{ServerRequest}
use hologram.Protocol.Message
use hologram.Protocol.Message.{Message}
use hologram.Server.Handler.State.{Settings, State, Services, fuel_for, receive, handle_ping}
use hologram.Server.Handler.Requests.{handle_server_request}

module _ {Key W : Type 0} (settings : Settings) (services : Services Key W) where
  -- One message: a ping, a request, or something that is dropped.
  abbrev pub dispatch_message : Option Ping → Option ServerRequest → Go (State W) (Unit {0})
  dispatch_message (some p) r = handle_ping p
  dispatch_message none (some r) = handle_server_request settings services r
  dispatch_message none none = pure tt

  unfoldable pub handle_message : Message → Go (State W) (Unit {0})
  handle_message msg =
      dispatch_message (Message.get_ping (some msg)) (Message.get_server_request (some msg))

  -- A read error ends the loop.
  unfoldable pub handle_connection : ℕ → Go (State W) (Unit {0})
  handle_connection zero = λ s. (out_of_fuel, s)
  handle_connection (suc fuel) = do
    r ← receive
    elim r [ err _ ↦ pure tt | ok msg ↦ do handle_message msg; handle_connection fuel ]

  -- A whole connection.
  abbrev pub run_connection : Go (State W) (Unit {0})
  run_connection s = handle_connection (fuel_for s) s

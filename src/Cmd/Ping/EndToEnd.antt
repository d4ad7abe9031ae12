-- ===== src/Cmd/Ping/EndToEnd.antt =====
-- cmd/hologram-ping/main.go against the handler of server/server.go.
use hologram.Prelude.{ℕ, ◌≡◌, refl, String, ◌<>◌, List, [], ◌∷◌, ◌++◌, map}
use hologram.Prelude.Go.{Result, ok, ret, Go, ◌>>=◌}
use hologram.Protocol.Message
use hologram.Protocol.Connection.{Conn, read, write}
use hologram.Server.Handler.State.{Settings, State, Services, pong, handle_ping}
use hologram.Server.Handler.Loop.{handle_message, handle_connection, run_connection}
use hologram.Cmd.Cli.EndToEnd.{fresh}
use hologram.Cmd.Ping.{ping_message, conn_string, main}

module _ {Key W : Type 0} (settings : Settings) (services : Services Key W) (drawn : ℕ)
    (counters : List String) where
  -- The server's side, after it has been given the ping.
  unfoldable pub after_server : W → State W
  after_server w =
      (run_connection settings services (record {
        conn = fresh (ok ping_message ∷ []);
        drawn = drawn;
        counters = counters;
        world = w;
      })).1

  server_answers :
      (w : W)
      → after_server w ≡ record {
        conn = record (fresh []) { sent = pong ∷ [] };
        drawn = drawn;
        counters = counters ++ "messages.ping" ∷ [];
        world = w;
      }
  unfolding after_server handle_connection handle_message handle_ping ◌>>=◌ read write
      Message.get_ping Message.get_server_request
  server_answers w = refl

module _ {Key W V : Type 0} (settings : Settings) (services : Services Key W)
    (dial : String → Go V (Result Conn)) (drawn : ℕ) (counters : List String) where
  -- A ping to the server changes nothing behind the server, and where the program reads what the
  -- server's handler writes when it is given the program's ping, it prints that it got a pong.
  pub main-pong :
      (host : String) (port : ℕ) (v : V) (w : W) {v' : V}
      → dial (conn_string host port) v ≡ (
        ret (ok (fresh (map ok (after_server settings services drawn counters w).conn.sent))),
        v',
      )
      → ((after_server settings services drawn counters w).world ≡ w)
        × (main dial host port v ≡ (
          ret (("sending ping to " <> conn_string host port <> "...\n") ∷ "Got pong!\n" ∷ []),
          v',
        ))
  unfolding main ◌>>=◌ read write Message.get_ping
  main-pong host port v w d =
      rw (server_answers settings services drawn counters w)
        (refl, rw (rw (server_answers settings services drawn counters w) at d) refl)

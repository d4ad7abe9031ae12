-- ===== src/Cmd/Ping.antt =====
-- cmd/hologram-ping/main.go: sends one ping to the server.
pub mod EndToEnd
use hologram.Prelude.{ℕ, String, ◌<>◌, Option, none, some, List, [], ◌∷◌, ◌++◌}
use hologram.Prelude.Decimal.{decimal}
use hologram.Prelude.Go.{Error, Result, ok, err, Outcome, ret, panic, Go, pure, panics, ◌>>=◌}
use hologram.Protocol.Ping.{Ping}
use hologram.Protocol.Message
use hologram.Protocol.Message.{Message, empty_message}
use hologram.Protocol.Connection.{Conn, read, write}

abbrev pub ping_message : Message
ping_message = record empty_message { ping = some (record { type = none }) }

unfoldable pub conn_string : String → ℕ → String
conn_string host port = host <> ":" <> decimal port

abbrev pub pong_lines : Option Ping → List String
pong_lines none = []
pong_lines (some p) = "Got pong!\n" ∷ []

-- What is printed; an error makes the program panic. The error of the write is dropped.
abbrev pub answered : String → Result Message → Outcome (List String)
answered address (err e) = panic
answered address (ok response) =
    ret (("sending ping to " <> address <> "...\n") ∷ pong_lines (Message.get_ping (some response)))

-- `dial` is crypto/tls's.
module _ {W : Type 0} (dial : String → Go W (Result Conn)) where
  abbrev pub with_conn : String → Result Conn → Go W (List String)
  with_conn address (err e) w = panics w
  with_conn address (ok c) w = (answered address (read (write ping_message c).1).0, w)

  unfoldable pub main : String → ℕ → Go W (List String)
  main host port = dial (conn_string host port) >>= with_conn (conn_string host port)

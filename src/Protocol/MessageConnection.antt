-- ===== src/Protocol/MessageConnection.antt =====
-- protocol/handlers.go: `messageConnection`, the connection of the program's handlers over a stream. The
-- handlers are modelled over Connection.antt, which has the interface of this type.
use hologram.Prelude.{Option}
use hologram.Prelude.Go.{Error, Bytes, Result, Go}
use hologram.Protocol.Message.{Message}
use hologram.Protocol.Wire.{read_message, write_message}
use hologram.Protocol.Wire.Stream.{Reader, Writer}

-- The two directions of the `io.ReadWriteCloser` behind it.
pub record MessageConnection : Type 0 where
  pub reader : Reader
  pub writer : Writer

abbrev pub new_message_connection : Reader → Writer → MessageConnection
new_message_connection r w = record { reader = r; writer = w }

module _ (marshal : Message → Result Bytes) (unmarshal : Bytes → Result Message) where
  unfoldable pub read_connection : Go MessageConnection (Result Message)
  read_connection c = let (o, r) = read_message unmarshal c.reader in (o, record c { reader = r })

  unfoldable pub write_connection : Message → Go MessageConnection (Option Error)
  write_connection msg c =
      let (o, w) = write_message marshal msg c.writer in (o, record c { writer = w })

  -- The close of the stream behind it, which comes with its error.
  unfoldable pub close_connection :
      Go MessageConnection (Option Error) → Go MessageConnection (Option Error)
  close_connection internal_close = internal_close

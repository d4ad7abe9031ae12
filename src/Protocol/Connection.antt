-- ===== src/Protocol/Connection.antt =====
-- protocol/handlers.go: a `MessageReadWriteCloser` as a handler sees it, a script of what the peer
-- sends and of what its writes return, with the record of what was sent.
use hologram.Prelude.{Bool, true, Option, none, some, List, [], ◌∷◌, ◌++◌, if◌then◌else◌}
use hologram.Prelude.Go.{Error, Result, err}
use hologram.Protocol.Message.{Message}

-- `incoming` holds the results of the reads to come. Waiting is not modelled: a script stands for a
-- connection that has ended, so that a read behind its last result gives EOF. Where the error with which
-- a connection ends matters, it is the last result of the script.
-- `write_results` holds the results of the writes to come; when it is used up they succeed.
pub record Conn : Type 0 where
  pub incoming : List (Result Message)
  pub write_results : List (Option Error)
  pub sent : List Message
  pub closed : Bool

-- The error of a read or a write on a connection that this side has closed.
abbrev pub err_closed : Error
err_closed = "use of closed network connection"

abbrev next_message : List (Result Message) → Conn → Result Message × Conn
next_message [] c = (err "EOF", c)
next_message (r ∷ rest) c = (r, record c { incoming = rest })

unfoldable pub read : Conn → Result Message × Conn
read c = if c.closed then (err err_closed, c) else next_message c.incoming c

abbrev next_result : List (Option Error) → Message → Conn → Option Error × Conn
next_result [] m c = (none, record c { sent = c.sent ++ m ∷ [] })
next_result (none ∷ rest) m c = (none, record c { sent = c.sent ++ m ∷ []; write_results = rest })
next_result (some e ∷ rest) m c = (some e, record c { write_results = rest })

unfoldable pub write : Message → Conn → Option Error × Conn
write m c = if c.closed then (some err_closed, c) else next_result c.write_results m c

unfoldable pub close : Conn → Option Error × Conn
close c = (none, record c { closed = true })

-- ===== src/Protocol/Wire/Channels.antt =====
-- protocol/wire.go, `Channelize`: a goroutine that reads messages from a connection into a channel,
-- and one that writes the messages of a channel to it. The channels have no buffer, so a send is done
-- when the client of the channel takes it.
use hologram.Prelude.{Option, none, some, List, [], ◌∷◌, ◌++◌, ◌≡◌}
use hologram.Prelude.Go.{Error, Bytes, Result, ok, err, Outcome, ret, panic, out_of_fuel}
use hologram.Protocol.Message.{Message}
use hologram.Protocol.Wire.{read_message, write_message}
use hologram.Protocol.Wire.Stream.{Reader, Writer}
pub mod Order
pub mod Ends
pub mod Failing

-- Where the reading goroutine stands: before `Read`, before `errors <- err` with the message that
-- `Read` returned beside the error, or before `receive <- msg`.
pub data Receiving : Type 0 where
  reading : Receiving
  reporting : Error → Option Message → Receiving
  delivering : Message → Receiving
  crashed : Receiving

-- Where the writing goroutine stands: in the `select`, or before `errors <- writeErr`.
pub data Sending : Type 0 where
  waiting : Sending
  complaining : Error → Sending
  broken : Sending

-- The goroutines, the connection, and what has passed through the three channels.
pub record Channels : Type 0 where
  pub receiving : Receiving
  pub sending : Sending
  pub reader : Reader
  pub writer : Writer
  pub received : List Message
  pub sent : List Message
  pub errors : List Error

-- receive = make(chan *Message); send = make(chan *Message); errors = make(chan error)
unfoldable pub channelize : Reader → Writer → Channels
channelize r w = record {
  receiving = reading;
  sending = waiting;
  reader = r;
  writer = w;
  received = [];
  sent = [];
  errors = [];
}

-- What `Read` returns, as a pair: nil and an error, or the message that was unmarshalled and the
-- error of `proto.Unmarshal`, which has no message to take back.
abbrev pub both_of : Result (Message × Option Error) → Option Message × Option Error
both_of (ok (m, e)) = (some m, e)
both_of (err e) = (none, some e)

-- if msg != nil { receive <- msg }
abbrev pub after_errors : Option Message → Receiving
after_errors none = reading
after_errors (some m) = delivering m

-- if err != nil { errors <- err }
abbrev pub after_read : Option Message × Option Error → Receiving
after_read (m, some e) = reporting e m
after_read (m, none) = after_errors m

abbrev pub after_read_outcome :
    Outcome (Result (Message × Option Error)) × Reader → Channels → Channels
after_read_outcome (ret x, r) c = record c { reader = r; receiving = after_read (both_of x) }
after_read_outcome (panic, r) c = record c { reader = r; receiving = crashed }
after_read_outcome (out_of_fuel, r) c = record c { reader = r; receiving = crashed }

abbrev pub after_write : Outcome (Option Error) → Sending
after_write (ret none) = waiting
after_write (ret (some e)) = complaining e
after_write panic = broken
after_write out_of_fuel = broken

module _ (marshal : Message → Result Bytes) (unmarshal : Bytes → Message × Option Error) where
  abbrev pub receive_from : Receiving → Channels → Channels
  receive_from reading c = after_read_outcome (read_message (λ b. ok (unmarshal b)) c.reader) c
  receive_from (reporting e m) c = record c {
    errors = c.errors ++ e ∷ [];
    receiving = after_errors m;
  }
  receive_from (delivering m) c = record c { received = c.received ++ m ∷ []; receiving = reading }
  receive_from crashed c = c

  -- What the reading goroutine does next.
  unfoldable pub receive_next : Channels → Channels
  receive_next c = receive_from c.receiving c

  -- case msg = <-send: writeErr := Write(c, msg)
  unfoldable pub send_next : Message → Channels → Channels
  send_next m c =
      let (o, w) = write_message marshal m c.writer in
      record c { sent = c.sent ++ m ∷ []; writer = w; sending = after_write o }

  -- errors <- writeErr
  unfoldable pub complain : Error → Channels → Channels
  complain e c = record c { errors = c.errors ++ e ∷ []; sending = waiting }

  -- A step of one of the goroutines, with the clients of the channels that it needs.
  pub data Step : Channels → Channels → Type 0 where
    receives : (c : Channels) → Step c (receive_next c)
    sends : (c : Channels) (m : Message) → c.sending ≡ waiting → Step c (send_next m c)
    complains : (c : Channels) (e : Error) → c.sending ≡ complaining e → Step c (complain e c)

  pub data Reach (c : Channels) : Channels → Type 0 where
    here : Reach c c
    next : {d e : Channels} → Reach c d → Step d e → Reach c e

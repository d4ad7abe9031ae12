-- ===== src/Server/Handler/Sending.antt =====
-- Invariants of the messages that server/server.go sends, for the parts of the handler that touch the
-- connection.
use hologram.Prelude.{◌≡◌, String, arith, All, All-snoc}
use hologram.Prelude.Go.{Result, Go}
use hologram.Prelude.Keeps.{Keeps, Any}
use hologram.Protocol.Message.{Message}
use hologram.Protocol.Connection.{Conn, read, write, close}
use hologram.Server.Handler.State.{State, receive, send, hang_up, counter, outside}

module _ (P : Message → Type 0) where
  sent-read : (c : Conn) → (read c).1.sent ≡ c.sent
  unfolding read
  sent-read c = ground arith

  write-All : (m : Message) (c : Conn) → P m → All P c.sent → All P (write m c).1.sent
  unfolding write
  write-All m c p h = ground (arith, All-snoc P c.sent m h p)

  -- Every message sent so far has `P`.
  abbrev pub AllSent : {W : Type 0} → State W → Type 0
  AllSent s = All P s.conn.sent

module _ {W : Type 0} (P : Message → Type 0) (Inv : W → Type 0) where
  -- Every message sent so far has `P`, and what is behind the interfaces has `Inv`.
  abbrev pub Holds : State W → Type 0
  Holds s = AllSent P s × Inv s.world

  pub Keeps-receive :
      {Q : Result Message → Type 0} → ((r : Result Message) → Q r) → Keeps Holds Q receive
  Keeps-receive q = record { at = λ s h. ((rw (sent-read P s.conn) h.0, h.1), q _) }

  pub Keeps-send : (m : Message) → P m → Keeps Holds Any (send m)
  Keeps-send m p = record { at = λ s h. ((write-All P m s.conn p h.0, h.1), tt) }

  pub Keeps-hang_up : Keeps Holds Any hang_up
  unfolding close
  Keeps-hang_up = record { at = λ s h. (h, tt) }

  pub Keeps-counter : (name : String) → Keeps Holds Any (counter name)
  Keeps-counter name = record { at = λ s h. (h, tt) }

  pub Keeps-outside :
      {A : Type 0} {Q : A → Type 0} {m : Go W A} → Keeps Inv Q m → Keeps Holds Q (outside m)
  Keeps-outside km = record { at = λ s h. let r = km.at s.world h.1 in ((h.0, r.0), r.1) }

-- ===== src/Agent/Session.antt =====
-- A connection of the agent beside the rest of its state, `W`.
use hologram.Prelude.{Option}
use hologram.Prelude.Go.{Error, Result, ret, Go}
use hologram.Protocol.Message.{Message}
use hologram.Protocol.Connection
use hologram.Protocol.Connection.{Conn}

pub record Session (W : Type 0) : Type 0 where
  pub conn : Conn
  pub world : W

module _ {W : Type 0} where
  abbrev pub receive : Go (Session W) (Result Message)
  receive s = let (r, c) = Connection.read s.conn in (ret r, record s { conn = c })

  abbrev pub send : Message → Go (Session W) (Option Error)
  send msg s = let (e, c) = Connection.write msg s.conn in (ret e, record s { conn = c })

  abbrev pub hang_up : Go (Session W) (Option Error)
  hang_up s = let (e, c) = Connection.close s.conn in (ret e, record s { conn = c })

  abbrev pub outside : {A : Type 0} → Go W A → Go (Session W) A
  outside m s = let (o, w) = m s.world in (o, record s { world = w })

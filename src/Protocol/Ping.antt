-- ===== src/Protocol/Ping.antt =====
-- protocol/hologram.pb.go: the message `Ping`.
use hologram.Prelude.{Option, none, some}

pub data RequestResponse : Type 0 where
  request response : RequestResponse

pub record Ping : Type 0 where
  pub type : Option RequestResponse

-- The default of an absent type is `Ping_REQUEST`.
unfoldable pub get_type : Option Ping → RequestResponse
get_type none = request
get_type (some m) = elim m.type [ none ↦ request | some t ↦ t ]

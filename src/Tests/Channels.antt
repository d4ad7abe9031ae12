-- ===== src/Tests/Channels.antt =====
-- The theorems on `Channelize` of protocol/wire.go at concrete inputs.
use hologram.Prelude.{
  String, ◌≡◌, refl, ◌↔◌, Option, none, some, List, [], ◌∷◌, ◌++◌, take, drop, All, arith,
}
use hologram.Prelude.Go.{Error, Bytes, Result, ok, err}
use hologram.Protocol.Message.{Message, empty_message}
use hologram.Protocol.Wire.{write_message, write_buffer}
use hologram.Protocol.Wire.Framing.{encode_header}
use hologram.Protocol.Wire.Stream.{Reader, write_some, write_all}
use hologram.Protocol.Wire.Filling.{pending}
use hologram.Protocol.Wire.RoundTrip.{fresh_writer}
use hologram.Protocol.Wire.Channels.{
  Channels, reading, channelize, receive_next, send_next, complain, receives, sends, complains,
  Reach, here, next,
}
use hologram.Protocol.Wire.Channels.Order.{in_hand}
use hologram.Protocol.Wire.Channels.Ends.{IsCarried, marshalled, channelize-delivers}
use hologram.Protocol.Wire.Channels.Failing.{rounds, rounds-repeated}

-- A message with an error has a form of one byte, and no other has one.
abbrev failed : Message
failed = record empty_message { error = some "no" }

abbrev marshal_error : Option String → Result Bytes
marshal_error none = err "required field not set"
marshal_error (some e) = ok (7 ∷ [])

abbrev marshal : Message → Result Bytes
marshal m = marshal_error m.error

abbrev unmarshal : Bytes → Message × Option Error
unmarshal [] = (empty_message, some "unexpected EOF")
unmarshal (b ∷ bs) = (failed, none)

abbrev silent : Reader
silent = record { segments = []; failure = "EOF" }

-- The first end sends a message, one that has no form, and the first again.
abbrev sent_one : Channels
sent_one = send_next marshal unmarshal failed (channelize silent fresh_writer)

abbrev complaint : Channels
complaint = send_next marshal unmarshal empty_message sent_one

abbrev sender : Channels
sender =
    send_next marshal unmarshal failed
      (complain marshal unmarshal "required field not set" complaint)

sender-Reach : Reach marshal unmarshal (channelize silent fresh_writer) sender
unfolding channelize send_next complain write_message write_buffer write_some write_all
    encode_header
sender-Reach =
    next
      (next (next (next here (sends _ failed refl)) (sends sent_one empty_message refl))
        (complains complaint "required field not set" refl))
      (sends _ failed refl)

abbrev arriving : Reader
arriving = record {
  segments = take 9 sender.writer.written ∷ drop 9 sender.writer.written ∷ [];
  failure = "EOF";
}

-- The second end delivers the first message and reads the second.
abbrev delivered_one : Channels
delivered_one =
    receive_next marshal unmarshal
      (receive_next marshal unmarshal (channelize arriving fresh_writer))

abbrev receiver : Channels
receiver = receive_next marshal unmarshal delivered_one

receiver-Reach : Reach marshal unmarshal (channelize arriving fresh_writer) receiver
receiver-Reach = next (next (next here (receives _)) (receives _)) (receives delivered_one)

arriving-pending : pending arriving ≡ sender.writer.written
unfolding channelize send_next complain write_message write_buffer write_some write_all
    encode_header
arriving-pending = refl

failed-IsCarried : IsCarried marshal unmarshal failed
failed-IsCarried [] h = cc h
failed-IsCarried (b ∷ []) h = (omega arith, refl)
failed-IsCarried (b ∷ c ∷ bs) h = cc h

carried : All (IsCarried marshal unmarshal) sender.sent
unfolding channelize send_next complain
carried = (failed-IsCarried, ((λ b h. cc h), (failed-IsCarried, tt)))

channelize-delivers_example :
    (rest : List Message) × ((receiver.received ++ in_hand receiver.receiving) ++ rest
      ≡ marshalled marshal unmarshal sender.sent)
    × ((rest ≡ []) ↔ (pending receiver.reader ≡ []))
channelize-delivers_example =
    channelize-delivers marshal unmarshal silent arriving fresh_writer sender-Reach carried
      arriving-pending receiver-Reach

rounds-repeated_example :
    ((rounds marshal unmarshal 2 (channelize silent fresh_writer)).errors ≡ "EOF" ∷ "EOF" ∷ [])
    × ((rounds marshal unmarshal 2 (channelize silent fresh_writer)).received ≡ [])
    × ((rounds marshal unmarshal 2 (channelize silent fresh_writer)).receiving ≡ reading)
unfolding channelize
rounds-repeated_example =
    rounds-repeated marshal unmarshal 2 (channelize silent fresh_writer) refl refl

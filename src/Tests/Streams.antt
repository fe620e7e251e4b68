-- ===== src/Tests/Streams.antt =====
-- The framer on a message in pieces. A parsed message is its bytes.
use wavekat_sip.Base.{◌+◌, ◌≡◌, refl, true, false, List, [], ◌∷◌, ◌++◌, Option, none, some, arith}
use wavekat_sip.Framing.{
  Bytes, Framer, push, skip_crlf, find_header_end, content_length, next_message,
}
use wavekat_sip.Framing.Reader.{reading, drain}
use wavekat_sip.Framing.Chunks.{drain_chunks}
use wavekat_sip.Framing.Delivery.{Wire, framer, IsWire, stream_bytes, drain_delivers}
use wavekat_sip.Framing.Task.{arrived, closed, TaskRun, read_task}
use wavekat_sip.Stream.{
  StreamTransport, Received, Event, sends, pings, meets, takes, connect, run_stream,
}
use wavekat_sip.Stream.History.{messages, Settled, met, written}
use wavekat_sip.Stream.Delivery.{run_stream_delivers}

-- Stands for `transport::parse`.
abbrev parse : Bytes → Option Bytes
parse [] = none
parse (b ∷ bs) = some (b ∷ bs)

-- `l:2`.
abbrev head : Bytes
head = b'l' ∷ b':' ∷ b'2' ∷ b'\r' ∷ b'\n' ∷ b'\r' ∷ b'\n' ∷ []

abbrev body : Bytes
body = b'o' ∷ b'k' ∷ []

abbrev empty_framer : Framer
empty_framer = record { buf = []; keepalives = 0 }

abbrev whole : Framer
whole = push empty_framer (head ++ body)

first_read :
    drain parse 1 (push empty_framer head) ≡ some (reading (push empty_framer head) [] none)
unfolding drain next_message find_header_end skip_crlf content_length
first_read = refl

second_read :
    drain parse 2 (push (push empty_framer head) body)
    ≡ some (reading empty_framer ((head ++ body) ∷ []) none)
unfolding drain next_message find_header_end skip_crlf content_length
second_read = refl

drain_chunks_example :
    drain parse (1 + 2) (push (push empty_framer head) body)
    ≡ some (reading empty_framer ([] ++ (head ++ body) ∷ []) none)
drain_chunks_example =
    drain_chunks parse 1 2 (push empty_framer head) (push empty_framer head) empty_framer body []
      ((head ++ body) ∷ []) none first_read second_read

abbrev wire : Wire Bytes
wire = record { pings = 2; head = head; body = body; content = head ++ body }

wire-IsWire : IsWire parse wire
unfolding find_header_end content_length
wire-IsWire = (refl, refl, refl, omega arith, refl)

rest_read : drain parse 1 (framer (b'x' ∷ []) 4) ≡ some (reading (framer (b'x' ∷ []) 4) [] none)
unfolding drain next_message find_header_end skip_crlf content_length
rest_read = refl

drain_delivers_example :
    drain parse (2 + 1) (framer (stream_bytes parse (wire ∷ wire ∷ []) ++ b'x' ∷ []) 0)
    ≡ some (reading (framer (b'x' ∷ []) 4) ((head ++ body) ∷ (head ++ body) ∷ []) none)
drain_delivers_example =
    drain_delivers parse (wire ∷ wire ∷ []) 1 0 (b'x' ∷ []) [] (framer (b'x' ∷ []) 4) none
      (wire-IsWire, (wire-IsWire, ground arith)) rest_read

-- A message in two reads, and then the write side finds the connection dead.
-- A message is sent, another arrives in two reads, a ping finds the connection dead, and the engine
-- takes what there is.
abbrev events : List (Event Bytes)
events =
    sends body 7 true
    ∷ meets (arrived head)
    ∷ takes
    ∷ meets (arrived body)
    ∷ pings false
    ∷ sends body 8 true
    ∷ meets closed
    ∷ takes
    ∷ takes
    ∷ []

run_stream_delivers_example :
    (x : List (Received Bytes) × StreamTransport Bytes) × (run : TaskRun Bytes) × (run_stream parse
        (λ m. m)
        events
        (connect 7)
      ≡ some x)
    × (read_task parse (met 7 false events) empty_framer 0 ≡ some run)
    × (messages x.0 ++ x.1.inbound ≡ run.published)
    × (x.1.reader ≡ run.ending)
    × (x.1.keepalives ≡ run.pongs)
    × (x.1.wire ≡ written (λ m. m) 7 events)
    × Settled x.0
run_stream_delivers_example = run_stream_delivers parse (λ m. m) 7 events refl

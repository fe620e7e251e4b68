-- ===== src/Rtp/Dtmf.antt =====
-- crates/wavekat-sip/src/rtp/dtmf.rs: the digits, the event packets, and the burst that sends one
-- digit. `send_to` may fail; the burst then ends with the error.
pub mod Burst
pub mod Digits
use Prim.Native.Nat.{bit_or}
use wavekat_sip.Base.{
  ℕ, zero, suc, ◌+◌, ◌-◌, ◌*◌, ◌/◌, ◌%◌, min, max, Bool, true, false, List, [], ◌∷◌, ◌++◌, Option,
  none, some, ◌==◌, if◌then◌else◌,
}
use wavekat_sip.Base.Words.{be_bytes16, be_bytes32}
use wavekat_sip.Rtp.{Bytes}

pub data DtmfDigit : Type 0 where
  d0 d1 d2 d3 d4 d5 d6 d7 d8 d9 star pound a b c d : DtmfDigit

unfoldable pub from_char : ℕ → Option DtmfDigit
from_char ch =
    if ch == b'0'
    then some d0
    else if ch == b'1'
    then some d1
    else if ch == b'2'
    then some d2
    else if ch == b'3'
    then some d3
    else if ch == b'4'
    then some d4
    else if ch == b'5'
    then some d5
    else if ch == b'6'
    then some d6
    else if ch == b'7'
    then some d7
    else if ch == b'8'
    then some d8
    else if ch == b'9'
    then some d9
    else if ch == b'*'
    then some star
    else if ch == b'#'
    then some pound
    else if ch == b'a'
    then some a
    else if ch == b'A'
    then some a
    else if ch == b'b'
    then some b
    else if ch == b'B'
    then some b
    else if ch == b'c'
    then some c
    else if ch == b'C'
    then some c
    else if ch == b'd'
    then some d
    else if ch == b'D'
    then some d
    else none

unfoldable pub as_char : DtmfDigit → ℕ
as_char d0 = b'0'
as_char d1 = b'1'
as_char d2 = b'2'
as_char d3 = b'3'
as_char d4 = b'4'
as_char d5 = b'5'
as_char d6 = b'6'
as_char d7 = b'7'
as_char d8 = b'8'
as_char d9 = b'9'
as_char star = b'*'
as_char pound = b'#'
as_char a = b'A'
as_char b = b'B'
as_char c = b'C'
as_char d = b'D'

unfoldable pub from_event_code : ℕ → Option DtmfDigit
from_event_code n =
    if n == 0
    then some d0
    else if n == 1
    then some d1
    else if n == 2
    then some d2
    else if n == 3
    then some d3
    else if n == 4
    then some d4
    else if n == 5
    then some d5
    else if n == 6
    then some d6
    else if n == 7
    then some d7
    else if n == 8
    then some d8
    else if n == 9
    then some d9
    else if n == 10
    then some star
    else if n == 11
    then some pound
    else if n == 12
    then some a
    else if n == 13
    then some b
    else if n == 14
    then some c
    else if n == 15
    then some d
    else none

unfoldable pub event_code : DtmfDigit → ℕ
event_code d0 = 0
event_code d1 = 1
event_code d2 = 2
event_code d3 = 3
event_code d4 = 4
event_code d5 = 5
event_code d6 = 6
event_code d7 = 7
event_code d8 = 8
event_code d9 = 9
event_code star = 10
event_code pound = 11
event_code a = 12
event_code b = 13
event_code c = 14
event_code d = 15

unfoldable pub build_event_payload : ℕ → Bool → ℕ → ℕ → Bytes
build_event_payload event end volume duration_ticks =
    let end_bit = if end then 0x80 else 0x00 in
    event ∷ bit_or end_bit (volume % 64) ∷ be_bytes16 duration_ticks

pub record DtmfBurstConfig : Type 0 where
  pub pt : ℕ
  pub clock_rate : ℕ
  pub burst_ssrc : ℕ
  pub initial_seq : ℕ
  pub initial_timestamp : ℕ
  pub hold_duration_ms : ℕ
  pub volume_dbm0 : ℕ

unfoldable pub build_rtp_dtmf_packet : ℕ → Bool → ℕ → ℕ → ℕ → Bytes → Bytes
build_rtp_dtmf_packet pt marker seq timestamp ssrc event_payload =
    let marker_bit = if marker then 0x80 else 0x00 in
    0x80
    ∷ bit_or marker_bit (pt % 128)
    ∷ (be_bytes16 seq ++ (be_bytes32 timestamp ++ (be_bytes32 ssrc ++ event_payload)))

-- `u16` addition and multiplication that stop at the largest value.
abbrev pub saturating_add : ℕ → ℕ → ℕ
saturating_add x y = min (x + y) 65535

abbrev pub saturating_mul : ℕ → ℕ → ℕ
saturating_mul x y = min (x * y) 65535

abbrev pub redundancy : ℕ
redundancy = 3

-- `(config.clock_rate / 50) as u16`.
abbrev pub ticks_per_packet : DtmfBurstConfig → ℕ
ticks_per_packet config = config.clock_rate / 50 % 65536

-- `config.hold_duration_ms.div_ceil(20).max(1) as u16`.
abbrev pub total_packets : DtmfBurstConfig → ℕ
total_packets config = max ((config.hold_duration_ms + 19) / 20) 1 % 65536

-- What one iteration sends: the packet of an event at a sequence number.
abbrev pub event_packet : DtmfBurstConfig → DtmfDigit → Bool → Bool → ℕ → ℕ → Bytes
event_packet config digit marker end seq duration =
    build_rtp_dtmf_packet config.pt marker seq config.initial_timestamp config.burst_ssrc
      (build_event_payload (event_code digit) end (min config.volume_dbm0 63) duration)

-- The three start packets; `i` is the number sent before.
pub start_packets : ℕ → ℕ → DtmfBurstConfig → DtmfDigit → ℕ → ℕ → List Bytes × ℕ
start_packets zero i config digit seq duration = ([], seq)
start_packets (suc left) i config digit seq duration =
    let (rest, next_seq) = start_packets left (i + 1) config digit ((seq + 1) % 65536) duration in
    (event_packet config digit (i == 0) false seq duration ∷ rest, next_seq)

-- `for _ in 1..total_packets`: the packets, the next sequence number and the last duration.
pub continuation_packets : ℕ → DtmfBurstConfig → DtmfDigit → ℕ → ℕ → List Bytes × ℕ × ℕ
continuation_packets zero config digit seq duration = ([], seq, duration)
continuation_packets (suc left) config digit seq duration =
    let grown = saturating_add duration (ticks_per_packet config) in
    let (rest, next_seq, last) = continuation_packets left config digit ((seq + 1) % 65536) grown in
    (event_packet config digit false false seq grown ∷ rest, next_seq, last)

pub end_packets : ℕ → DtmfBurstConfig → DtmfDigit → ℕ → ℕ → List Bytes × ℕ
end_packets zero config digit seq duration = ([], seq)
end_packets (suc left) config digit seq duration =
    let (rest, next_seq) = end_packets left config digit ((seq + 1) % 65536) duration in
    (event_packet config digit false true seq duration ∷ rest, next_seq)

-- The packets of `send_dtmf_burst`, in order, and the pair that it returns when every `send_to`
-- succeeds.
unfoldable pub dtmf_burst : DtmfBurstConfig → DtmfDigit → List Bytes × (ℕ × ℕ)
unfolding start_packets continuation_packets end_packets
dtmf_burst config digit =
    let ticks = ticks_per_packet config in
    let total = total_packets config in
    let (first, seq1) = start_packets redundancy 0 config digit config.initial_seq ticks in
    let (middle, seq2, duration) = continuation_packets (total - 1) config digit seq1 ticks in
    let (final, seq3) = end_packets redundancy config digit seq2 duration in
    let next_timestamp = (config.initial_timestamp + saturating_mul total ticks) % 4294967296 in
    (first ++ (middle ++ final), (seq3, next_timestamp))

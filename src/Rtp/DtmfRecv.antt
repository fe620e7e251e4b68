-- ===== src/Rtp/DtmfRecv.antt =====
-- crates/wavekat-sip/src/rtp/dtmf_recv.rs.
pub mod Bursts
pub mod Dialling
use wavekat_sip.Base.{
  ℕ, suc, ◌+◌, ◌-◌, ◌*◌, ◌/◌, ◌%◌, ◌^◌, Bool, true, false, not, ◌&&◌, List, [], ◌∷◌, Option, none,
  some, ◌>>=◌, ltb, leb, ◌==◌, if◌then◌else◌, length, drop,
}
use wavekat_sip.Base.Words.{from_be16}
use wavekat_sip.Rtp.{Bytes, RtpHeader, parse, header_len, byte_at, bit_set}
use wavekat_sip.Rtp.Dtmf.{DtmfDigit, from_event_code}

pub record DtmfEventPayload : Type 0 where
  pub event : ℕ
  pub end : Bool
  pub volume : ℕ
  pub duration_ticks : ℕ

unfoldable pub parse_event_payload : Bytes → Option DtmfEventPayload
parse_event_payload buf =
    if ltb (length buf) 4
    then none
    else some (record {
      event = byte_at buf 0;
      end = bit_set (byte_at buf 1 / 128);
      volume = byte_at buf 1 % 64;
      duration_ticks = from_be16 (byte_at buf 2) (byte_at buf 3);
    })

pub data DtmfEvent : Type 0 where
  pressed : DtmfDigit → DtmfEvent
  released : DtmfDigit → ℕ → DtmfEvent

pub record ActiveEvent : Type 0 where
  pub active_ssrc : ℕ
  pub active_timestamp : ℕ
  pub active_event : ℕ
  pub is_released : Bool

pub record DtmfReceiver : Type 0 where
  pub pt : ℕ
  pub active : Option ActiveEvent

abbrev pub new : ℕ → DtmfReceiver
new pt = record { pt = pt; active = none }

-- `a.wrapping_sub(b)` is neither 0 nor 2^31 or more.
unfoldable pub timestamp_newer : ℕ → ℕ → Bool
timestamp_newer a b =
    let forward = (a + 2 ^ 32 - b) % 2 ^ 32 in not (forward == 0) && ltb forward 0x8000_0000

-- `packet.get(from..)`.
abbrev pub get_from : Bytes → ℕ → Option Bytes
get_from packet from = if leb from (length packet) then some (drop from packet) else none

-- The end of `push`: the event becomes the active one.
abbrev pub press :
    RtpHeader → DtmfEventPayload → DtmfDigit → DtmfReceiver → DtmfReceiver × Option DtmfEvent
press header payload digit rx =
    let fresh : ActiveEvent = record {
      active_ssrc = header.ssrc;
      active_timestamp = header.timestamp;
      active_event = payload.event;
      is_released = false;
    } in
    (record rx { active = some fresh }, some (pressed digit))

-- `push` after the packet was read, on the active event.
unfoldable pub track :
    Option ActiveEvent
    → RtpHeader
    → DtmfEventPayload
    → DtmfDigit
    → DtmfReceiver
    → DtmfReceiver × Option DtmfEvent
track none header payload digit rx = press header payload digit rx
track (some active) header payload digit rx =
    let same_event =
      (active.active_ssrc == header.ssrc && active.active_timestamp == header.timestamp)
      && active.active_event == payload.event in
    if same_event
    then (if payload.end && not active.is_released
        then (
          record rx { active = some (record active { is_released = true }) },
          some (released digit payload.duration_ticks),
        )
        else (rx, none))
    else if active.active_ssrc == header.ssrc
        && not (timestamp_newer header.timestamp active.active_timestamp)
    then (rx, none)
    else press header payload digit rx

-- What `push` reads off a packet: the header, the event and its digit.
unfoldable pub read_event : ℕ → Bytes → Option (RtpHeader × DtmfEventPayload × DtmfDigit)
read_event pt packet = do
  header ← parse packet
  if not (header.payload_type == pt) then none else do
    body ← get_from packet (header_len header)
    payload ← parse_event_payload body
    digit ← from_event_code payload.event
    some (header, payload, digit)

push_read :
    Option (RtpHeader × DtmfEventPayload × DtmfDigit)
    → DtmfReceiver
    → DtmfReceiver × Option DtmfEvent
unfolding track
push_read none rx = (rx, none)
push_read (some (header, payload, digit)) rx = track rx.active header payload digit rx

unfoldable pub push : DtmfReceiver → Bytes → DtmfReceiver × Option DtmfEvent
unfolding push_read
push rx packet = push_read (read_event rx.pt packet) rx

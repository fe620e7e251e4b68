-- ===== src/Tests/Media.antt =====
-- RTP headers, the send loop and DTMF digits.
use wavekat_sip.Base.{
  ◌+◌, ◌/◌, ◌%◌, ◌≡◌, ◌≢◌, ◌⊎◌, ◌≤◌, ◌<◌, refl, true, false, List, [], ◌∷◌, ◌++◌, none, some, arith,
  map, length,
}
use wavekat_sip.Rtp.{Bytes, IsBytes, RtpHeader, byte_at, parse}
use wavekat_sip.Rtp.Header.{IsHeader, header_bytes, parse_total}
use wavekat_sip.Rtp.Send.{
  RtpSendConfig, SendEvent, payload, closed, send_loop, delivered, IsConfig, Stream,
  send_loop-Stream,
}
use wavekat_sip.Rtp.Dtmf.{DtmfDigit, DtmfBurstConfig, dtmf_burst}
use wavekat_sip.Rtp.Dtmf.Burst.{
  Copy, to_packet, copy_at, schedule, duration_after, burst_schedule, burst_overflow,
}
use wavekat_sip.Rtp.DtmfRecv.Bursts.{IsBurst, receive_all, press_events, press_reported_once}
use wavekat_sip.Rtp.DtmfRecv.Dialling.{dial, typed, dial_received}

abbrev packet : Bytes
packet = 0x80 ∷ 8 ∷ 0 ∷ 1 ∷ 0 ∷ 0 ∷ 0 ∷ 160 ∷ 0 ∷ 0 ∷ 0 ∷ 7 ∷ []

packet-IsBytes : IsBytes packet
packet-IsBytes = omega arith

parse_total_example :
    ((parse packet ≡ none) × ((length packet < 12) ⊎ (byte_at packet 0 / 64 ≢ 2)))
    ⊎ ((h : RtpHeader) × (rest : Bytes) × (parse packet ≡ some h)
        × (packet ≡ header_bytes h ++ rest)
        × (12 ≤ length packet)
        × (byte_at packet 0 / 64 ≡ 2)
        × IsHeader h)
parse_total_example = parse_total packet packet-IsBytes

abbrev voice : RtpSendConfig
voice = record {
  pt = 8;
  config_ssrc = 7;
  initial_seq = 65535;
  initial_timestamp = 4294967200;
  samples_per_frame = 160;
}

voice-IsConfig : IsConfig voice
voice-IsConfig = omega arith

abbrev frames : List SendEvent
frames = payload (1 ∷ 2 ∷ []) true ∷ payload (3 ∷ []) true ∷ closed ∷ []

send_loop-Stream_example : Stream voice 65535 4294967200 (delivered frames) (send_loop voice frames)
send_loop-Stream_example = send_loop-Stream voice frames voice-IsConfig

abbrev press : DtmfBurstConfig
press = record {
  pt = 101;
  clock_rate = 8000;
  burst_ssrc = 7;
  initial_seq = 65534;
  initial_timestamp = 16000;
  hold_duration_ms = 50;
  volume_dbm0 = 10;
}

press-IsBurst : IsBurst press
press-IsBurst = omega arith

burst_schedule_example : dtmf_burst press DtmfDigit.d5 ≡ (
  map (to_packet press DtmfDigit.d5) (schedule press 3),
  ((65534 + (2 + 6)) % 65536, (16000 + duration_after press 3) % 4294967296),
)
burst_schedule_example = burst_schedule 2 press DtmfDigit.d5 refl (omega arith)

-- 65,536 intervals of 20 ms.
abbrev long_press : DtmfBurstConfig
long_press = record press { hold_duration_ms = 1310720 }

burst_overflow_example :
    (length (dtmf_burst long_press DtmfDigit.d5).0 ≡ 6)
    × ((dtmf_burst long_press DtmfDigit.d5).1.1 ≡ 16000)
burst_overflow_example = burst_overflow long_press DtmfDigit.d5 refl (omega arith)

-- The last two packets of a press, the later one first and twice.
abbrev heard : List Copy
heard =
    copy_at press 7 false true 480
    ∷ copy_at press 7 false true 480
    ∷ copy_at press 5 false false 480
    ∷ []

press_reported_once_example :
    receive_all (record { pt = 101; active = none }) (map (to_packet press DtmfDigit.d5) heard)
    ≡ press_events DtmfDigit.d5 heard
press_reported_once_example =
    press_reported_once press DtmfDigit.d5 press-IsBurst none heard (omega arith) (omega arith)

dial_received_example :
    receive_all (record { pt = 101; active = none }) (dial press (DtmfDigit.d5 ∷ DtmfDigit.d5 ∷ []))
    ≡ typed press 2 (DtmfDigit.d5 ∷ DtmfDigit.d5 ∷ [])
dial_received_example =
    dial_received 2 (DtmfDigit.d5 ∷ DtmfDigit.d5 ∷ []) press none press-IsBurst refl (omega arith)
      (omega arith)

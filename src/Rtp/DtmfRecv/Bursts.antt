-- ===== src/Rtp/DtmfRecv/Bursts.antt =====
-- The receiver on the packets of bursts, in any order, with losses and repetitions.
use Prim.Native.Nat.{bit_or}
use wavekat_sip.Base.{
  length, ℕ, ◌+◌, ◌%◌, min, ◌<◌, ◌≡◌, ◌≢◌, refl, ap, Bool, true, false, not, ◌&&◌, List, [], ◌∷◌,
  Option, none, some, arith, map, All, if◌then◌else◌, ==_refl, ◌⊎◌,
}
use wavekat_sip.Base.Words.{bit_or-top, bit_or-clear, from_be16-be_bytes16}
use wavekat_sip.Rtp.{Bytes}
use wavekat_sip.Rtp.Header.{plain_header, parse-plain, marker_bit}
use wavekat_sip.Rtp.Dtmf.{
  DtmfDigit, DtmfBurstConfig, event_code, build_event_payload, build_rtp_dtmf_packet,
}
use wavekat_sip.Rtp.Dtmf.Burst.{Copy, to_packet}
use wavekat_sip.Rtp.Dtmf.Digits.{digit_round_trips}
use wavekat_sip.Rtp.DtmfRecv.{
  DtmfEventPayload, parse_event_payload, DtmfEvent, pressed, released, ActiveEvent, DtmfReceiver,
  timestamp_newer, read_event, push,
}

-- The fields of a burst fit their widths.
pub record IsBurst (config : DtmfBurstConfig) : Type 0 where
  pub pt_fits : config.pt < 128
  pub ssrc_fits : config.burst_ssrc < 4294967296
  pub ts_fits : config.initial_timestamp < 4294967296
  pub seq_fits : config.initial_seq < 65536

abbrev pub IsCopy : Copy → Type 0
IsCopy c = (c.seq < 65536) × (c.duration < 65536)

-- The event that a copy carries.
abbrev pub payload_of : DtmfBurstConfig → DtmfDigit → Copy → DtmfEventPayload
payload_of config digit c = record {
  event = event_code digit;
  end = c.end;
  volume = min config.volume_dbm0 63;
  duration_ticks = c.duration;
}

marker_bit-or :
    (m : Bool) (x : ℕ) → x < 128 → bit_or (if m then 0x80 else 0x00) (x % 128) ≡ marker_bit m + x
marker_bit-or true x h = omega (arith, bit_or-top (x % 128) (omega arith))
marker_bit-or false x h = omega (arith, bit_or-clear (x % 128) (omega arith))

payload-parse :
    (event volume duration : ℕ) (end : Bool)
    → volume < 64
    → duration < 65536
    → parse_event_payload (build_event_payload event end volume duration)
      ≡ some (record { event = event; end = end; volume = volume; duration_ticks = duration })
unfolding parse_event_payload build_event_payload
payload-parse event volume duration true hv hd =
    ground (arith, bit_or-top (volume % 64) (omega arith), from_be16-be_bytes16 duration hd)
payload-parse event volume duration false hv hd =
    ground (arith, bit_or-clear (volume % 64) (omega arith), from_be16-be_bytes16 duration hd)

length-payload :
    (event volume duration : ℕ) (end : Bool)
    → length (build_event_payload event end volume duration) ≡ 4
unfolding build_event_payload
length-payload event volume duration end = refl

-- A packet of a burst reads back as the header and the event that it was built from.
pub read_event-copy :
    (config : DtmfBurstConfig) (digit : DtmfDigit) (c : Copy)
    → IsBurst config
    → IsCopy c
    → read_event config.pt (to_packet config digit c)
      ≡ some (
        plain_header c.marker config.pt c.seq config.initial_timestamp config.burst_ssrc,
        payload_of config digit c,
        digit,
      )
unfolding read_event build_rtp_dtmf_packet
read_event-copy config digit c v fits =
    let payload =
      build_event_payload (event_code digit) c.end (min config.volume_dbm0 63) c.duration in
    rw (
      marker_bit-or c.marker config.pt v.pt_fits,
      parse-plain c.marker config.pt c.seq config.initial_timestamp config.burst_ssrc payload
          v.pt_fits fits.0 v.ts_fits v.ssrc_fits,
      ==_refl config.pt,
      length-payload (event_code digit) (min config.volume_dbm0 63) c.duration c.end,
      payload-parse (event_code digit) (min config.volume_dbm0 63) c.duration c.end (omega arith)
          fits.1,
      (digit_round_trips digit).1,
    )

-- A receiver for the stream of the burst that may take the burst's event as a new one: it tracks no
-- event, an event of another source, or an older one.
abbrev pub Accepts : DtmfBurstConfig → Option ActiveEvent → Type 0
Accepts config none = Unit
Accepts config (some active) =
    (active.active_ssrc ≢ config.burst_ssrc)
    ⊎ ((active.active_timestamp ≢ config.initial_timestamp)
        × (timestamp_newer config.initial_timestamp active.active_timestamp ≡ true))

-- The event of the burst as the active one.
abbrev pub tracked : DtmfBurstConfig → DtmfDigit → Bool → DtmfReceiver
tracked config digit is_released = record {
  pt = config.pt;
  active = some (record {
    active_ssrc = config.burst_ssrc;
    active_timestamp = config.initial_timestamp;
    active_event = event_code digit;
    is_released = is_released;
  });
}

module _ (config : DtmfBurstConfig) (digit : DtmfDigit) (v : IsBurst config) where
  pub push-first :
      (c : Copy) (active : Option ActiveEvent)
      → IsCopy c
      → Accepts config active
      → push (record { pt = config.pt; active = active }) (to_packet config digit c)
        ≡ (tracked config digit false, some (pressed digit))
  unfolding push
  push-first c none fits ok = rw (read_event-copy config digit c v fits)
  push-first c (some active) fits ok = rw (read_event-copy config digit c v fits) (ground arith)

  pub push-again :
      (c : Copy) (is_released : Bool)
      → IsCopy c
      → push (tracked config digit is_released) (to_packet config digit c) ≡ (
          if c.end && not is_released
          then (tracked config digit true, some (released digit c.duration))
          else (tracked config digit is_released, none))
  unfolding push
  push-again c is_released fits = rw (read_event-copy config digit c v fits) (ground arith)

-- The events of a list of packets, in order, and the receiver after them.
abbrev pub emit : Option DtmfEvent → List DtmfEvent → List DtmfEvent
emit none events = events
emit (some event) events = event ∷ events

unfoldable pub receive_all : DtmfReceiver → List Bytes → List DtmfEvent
receive_all rx [] = []
receive_all rx (p ∷ ps) =
    let (next, event) = push rx p in let rest = receive_all next ps in emit event rest

-- The release that the first end packet reports.
abbrev pub first_release : DtmfDigit → List Copy → List DtmfEvent
first_release digit [] = []
first_release digit (c ∷ cs) =
    let rest = first_release digit cs in if c.end then released digit c.duration ∷ [] else rest

-- What a press is reported as: pressed by its first packet, whatever that is, and released by the
-- first end packet behind it.
abbrev pub press_events : DtmfDigit → List Copy → List DtmfEvent
press_events digit [] = []
press_events digit (c ∷ cs) = pressed digit ∷ first_release digit cs

module _ (config : DtmfBurstConfig) (digit : DtmfDigit) (v : IsBurst config) where
  receive_all-after :
      (cs : List Copy)
      → All IsCopy cs
      → receive_all (tracked config digit true) (map (to_packet config digit) cs) ≡ []
  unfolding receive_all
  receive_all-after [] fits = refl
  receive_all-after (c ∷ cs) fits =
      ground (arith, push-again config digit v c true fits.0, receive_all-after cs fits.1)

  receive_all-held :
      (cs : List Copy)
      → All IsCopy cs
      → receive_all (tracked config digit false) (map (to_packet config digit) cs)
        ≡ first_release digit cs
  unfolding receive_all
  receive_all-held [] fits = refl
  receive_all-held (c ∷ cs) fits = ground (
    arith,
    push-again config digit v c false fits.0,
    receive_all-after cs fits.1,
    receive_all-held cs fits.1,
  )

  -- In a burst whose fields fit their widths: however the packets are lost, repeated and reordered
  -- on the way, a receiver that may take its event as a new one reports exactly one press, with the
  -- first of them that arrives, and at most one release, with the duration of the first end packet
  -- that arrives behind it.
  pub press_reported_once :
      (active : Option ActiveEvent) (cs : List Copy)
      → Accepts config active
      → All IsCopy cs
      → receive_all (record { pt = config.pt; active = active }) (map (to_packet config digit) cs)
        ≡ press_events digit cs
  unfolding receive_all
  press_reported_once active [] ok fits = refl
  press_reported_once active (c ∷ cs) ok fits =
      rw (push-first config digit v c active fits.0 ok)
        (ap (◌∷◌ (pressed digit)) (receive_all-held cs fits.1))

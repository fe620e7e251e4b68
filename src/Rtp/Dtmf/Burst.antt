-- ===== src/Rtp/Dtmf/Burst.antt =====
-- The packets of a burst, against a schedule that says what each of them carries.
use native.Mathlib.Nat.{add-zero}
use wavekat_sip.Base.{
  map-append, ℕ, zero, suc, ◌+◌, ◌-◌, ◌*◌, ◌%◌, min, ◌<◌, ◌≡◌, refl, Bool, true, false, List, [],
  ◌∷◌, ◌++◌, arith, length, map,
}
use wavekat_sip.Rtp.{Bytes}
use wavekat_sip.Rtp.Dtmf.{
  DtmfDigit, DtmfBurstConfig, saturating_add, ticks_per_packet, total_packets, event_packet,
  continuation_packets, dtmf_burst,
}

-- What a packet of a burst says beside the event: `M`, `E`, the sequence number and the duration.
pub record Copy : Type 0 where
  pub marker : Bool
  pub end : Bool
  pub seq : ℕ
  pub duration : ℕ

abbrev pub to_packet : DtmfBurstConfig → DtmfDigit → Copy → Bytes
to_packet config digit c = event_packet config digit c.marker c.end c.seq c.duration

-- The copy with these flags and this duration, `i` packets into the burst.
abbrev pub copy_at : DtmfBurstConfig → ℕ → Bool → Bool → ℕ → Copy
copy_at config i marker end duration = record {
  marker = marker;
  end = end;
  seq = (config.initial_seq + i) % 65536;
  duration = duration;
}

-- The duration field after `n` packet intervals.
abbrev pub duration_after : DtmfBurstConfig → ℕ → ℕ
duration_after config n = min (n * ticks_per_packet config) 65535

-- The growing copies of the intervals from `n + 1` on, `left` of them.
abbrev pub growing : DtmfBurstConfig → ℕ → ℕ → List Copy
growing config zero n = []
growing config (suc left) n =
    copy_at config (n + 2) false false (duration_after config (n + 1)) ∷ growing config left (n + 1)

-- A press of `n` intervals: three start copies, of which only the first has the marker, one copy
-- for each further interval, and three end copies with the whole duration.
abbrev pub schedule : DtmfBurstConfig → ℕ → List Copy
schedule config n =
    copy_at config 0 true false (duration_after config 1)
    ∷ copy_at config 1 false false (duration_after config 1)
    ∷ copy_at config 2 false false (duration_after config 1)
    ∷ (growing config (n - 1) 1
        ++ copy_at config (n + 2) false true (duration_after config n)
          ∷ copy_at config (n + 3) false true (duration_after config n)
          ∷ copy_at config (n + 4) false true (duration_after config n)
          ∷ [])

seq_next : (s n : ℕ) → ((s + (n + 2)) % 65536 + 1) % 65536 ≡ (s + (n + 1 + 2)) % 65536
seq_next s n = omega arith

ticks-lt : (config : DtmfBurstConfig) → ticks_per_packet config < 65536
ticks-lt config = omega arith

duration_step :
    (config : DtmfBurstConfig) (n : ℕ)
    → saturating_add (duration_after config n) (ticks_per_packet config)
      ≡ duration_after config (n + 1)
duration_step config n = omega arith

continuation_packets_lem :
    (left n : ℕ) (config : DtmfBurstConfig) (digit : DtmfDigit)
    → continuation_packets left config digit
        ((config.initial_seq + (n + 2)) % 65536)
        (duration_after config n)
      ≡ (
        map (to_packet config digit) (growing config left n),
        (config.initial_seq + (n + left + 2)) % 65536,
        duration_after config (n + left),
      )
unfolding continuation_packets
continuation_packets_lem zero n config digit = rw add-zero
continuation_packets_lem (suc left) n config digit =
    let count : n + 1 + left ≡ n + suc left = omega arith in
    rw (duration_step, seq_next, continuation_packets_lem left (n + 1) config digit, count)

first_duration : (config : DtmfBurstConfig) → duration_after config 1 ≡ ticks_per_packet config
first_duration config = omega arith

-- The continuation copies follow three start copies.
continuation_packets-first :
    (n : ℕ) (config : DtmfBurstConfig) (digit : DtmfDigit)
    → continuation_packets n config digit
        ((config.initial_seq + 3) % 65536)
        (ticks_per_packet config)
      ≡ (
        map (to_packet config digit) (growing config n 1),
        (config.initial_seq + (n + 3)) % 65536,
        duration_after config (suc n),
      )
continuation_packets-first n config digit =
    let count : 1 + n ≡ suc n = omega arith in
    let next : suc n + 2 ≡ n + 3 = omega arith in
    rw (first_duration config, count, next) at (continuation_packets_lem n 1 config digit)

-- The packets of a burst that lasts `n + 1` intervals, from a 16-bit sequence number on, are those
-- of the schedule; the sequence number returned is the one after them modulo 2^16, and the
-- timestamp is later by the duration that the end packets carry.
pub burst_schedule :
    (n : ℕ) (config : DtmfBurstConfig) (digit : DtmfDigit)
    → total_packets config ≡ suc n
    → config.initial_seq < 65536
    → dtmf_burst config digit ≡ (
      map (to_packet config digit) (schedule config (suc n)),
      (
        (config.initial_seq + (n + 6)) % 65536,
        (config.initial_timestamp + duration_after config (suc n)) % 4294967296,
      ),
    )
unfolding dtmf_burst
burst_schedule n config digit total small =
    let s = config.initial_seq in
    let pred : suc n - 1 ≡ n = omega arith in
    let at_0 : (s + 0) % 65536 ≡ s = omega arith in
    let at_2 : ((s + 1) % 65536 + 1) % 65536 ≡ (s + 2) % 65536 = omega arith in
    let at_3 : ((s + 2) % 65536 + 1) % 65536 ≡ (s + 3) % 65536 = omega arith in
    let at_4 : ((s + (n + 3)) % 65536 + 1) % 65536 ≡ (s + (n + 4)) % 65536 = omega arith in
    let at_5 : ((s + (n + 4)) % 65536 + 1) % 65536 ≡ (s + (n + 5)) % 65536 = omega arith in
    let at_6 : ((s + (n + 5)) % 65536 + 1) % 65536 ≡ (s + (n + 6)) % 65536 = omega arith in
    let end_0 : suc n + 2 ≡ n + 3 = omega arith in
    let end_1 : suc n + 3 ≡ n + 4 = omega arith in
    let end_2 : suc n + 4 ≡ n + 5 = omega arith in
    rw
      (
        total,
        pred,
        at_0,
        first_duration config,
        at_2,
        at_3,
        map-append (to_packet config digit),
        end_0,
        end_1,
        end_2,
      )
      (rw (continuation_packets-first n config digit) (rw (at_4, at_5, at_6)))

-- A hold time whose number of intervals is a multiple of 2^16 (some 22 minutes) sends six packets
-- and returns the 32-bit timestamp that it was given.
pub burst_overflow :
    (config : DtmfBurstConfig) (digit : DtmfDigit)
    → total_packets config ≡ 0
    → config.initial_timestamp < 4294967296
    → (length (dtmf_burst config digit).0 ≡ 6)
      × ((dtmf_burst config digit).1.1 ≡ config.initial_timestamp)
unfolding dtmf_burst
burst_overflow config digit none_left small = rw none_left (refl, omega arith)

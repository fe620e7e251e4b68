-- ===== src/Rtp/DtmfRecv/Dialling.antt =====
-- Whole bursts, and digits that are sent one after the other on one stream: each burst starts from
-- the sequence number and the timestamp that the one before returned.
use mathlib.Core.Path.{ap₂}
use wavekat_sip.Base.{
  ℕ, zero, suc, ◌+◌, ◌-◌, ◌%◌, ◌<◌, ◌≡◌, ◌≢◌, refl, ap, ◌∙◌, Bool, true, false, not, ◌&&◌, List, [],
  ◌∷◌, ◌++◌, Option, none, some, arith, map, All, Bool-cases, inl, inr,
}
use wavekat_sip.Rtp.{Bytes}
use wavekat_sip.Rtp.Dtmf.{DtmfDigit, DtmfBurstConfig, total_packets, ticks_per_packet, dtmf_burst}
use wavekat_sip.Rtp.Dtmf.Burst.{Copy, to_packet, schedule, growing, duration_after, burst_schedule}
use wavekat_sip.Rtp.DtmfRecv.Bursts.{
  IsBurst, IsCopy, Accepts, tracked, push-first, push-again, emit, receive_all, first_release,
  press_reported_once,
}
use wavekat_sip.Rtp.DtmfRecv.{
  DtmfEvent, pressed, released, ActiveEvent, DtmfReceiver, timestamp_newer, push,
}

All-growing :
    (config : DtmfBurstConfig) (left n : ℕ) (rest : List Copy)
    → All IsCopy rest
    → All IsCopy (growing config left n ++ rest)
All-growing config zero n rest h = h
All-growing config (suc left) n rest h =
    ((omega arith, omega arith), All-growing config left (n + 1) rest h)

All-schedule : (config : DtmfBurstConfig) (n : ℕ) → All IsCopy (schedule config n)
All-schedule config n =
    let fits : (i : ℕ) (m : ℕ)
        → ((config.initial_seq + i) % 65536 < 65536) × (duration_after config m < 65536) =
      λ i m. (omega arith, omega arith) in
    (fits 0 1, (fits 1 1, (fits 2 1, All-growing config (n - 1) 1 _ (omega arith))))

first_release-growing :
    (config : DtmfBurstConfig) (digit : DtmfDigit) (left n : ℕ) (rest : List Copy)
    → first_release digit (growing config left n ++ rest) ≡ first_release digit rest
first_release-growing config digit zero n rest = refl
first_release-growing config digit (suc left) n rest =
    first_release-growing config digit left (n + 1) rest

-- A receiver that may take the event as a new one hears a burst of `n + 1` packet intervals as one
-- press and one release, whose duration is that of the whole press.
pub burst_received :
    (n : ℕ) (config : DtmfBurstConfig) (digit : DtmfDigit) (active : Option ActiveEvent)
    → IsBurst config
    → total_packets config ≡ suc n
    → Accepts config active
    → receive_all (record { pt = config.pt; active = active }) (dtmf_burst config digit).0
      ≡ pressed digit ∷ released digit (duration_after config (suc n)) ∷ []
burst_received n config digit active v total ok =
    rw (burst_schedule n config digit total v.seq_fits) (
      press_reported_once config digit v active (schedule config (suc n)) ok
        (All-schedule config (suc n))
      ∙ ap (◌∷◌ (pressed digit)) (first_release-growing config digit (suc n - 1) 1 _))

unfoldable pub receiver_after : DtmfReceiver → List Bytes → DtmfReceiver
receiver_after rx [] = rx
receiver_after rx (p ∷ ps) = receiver_after (push rx p).0 ps

receiver_after-cons :
    (rx : DtmfReceiver) {rx' : DtmfReceiver} (p : Bytes) {o : Option DtmfEvent} (ps : List Bytes)
    → push rx p ≡ (rx', o)
    → receiver_after rx (p ∷ ps) ≡ receiver_after rx' ps
unfolding receiver_after
receiver_after-cons rx p ps e = ap (λ t. receiver_after t.0 ps) e

emit-append : (o : Option DtmfEvent) (xs ys : List DtmfEvent) → emit o (xs ++ ys) ≡ emit o xs ++ ys
emit-append none xs ys = refl
emit-append (some event) xs ys = refl

receive_all-append :
    (ps qs : List Bytes) (rx : DtmfReceiver)
    → receive_all rx (ps ++ qs) ≡ receive_all rx ps ++ receive_all (receiver_after rx ps) qs
unfolding receive_all receiver_after
receive_all-append [] qs rx = refl
receive_all-append (p ∷ ps) qs rx =
    rw (receive_all-append ps qs (push rx p).0) (emit-append (push rx p).1 _ _)

newer :
    (t d : ℕ) → t < 4294967296 → 0 < d → d < 65536 → timestamp_newer ((t + d) % 4294967296) t ≡ true
unfolding timestamp_newer
newer t d ht pos hd = ground arith

-- The configuration of the next burst on the stream.
abbrev pub next_config : DtmfBurstConfig → DtmfDigit → DtmfBurstConfig
next_config config digit =
    let next = (dtmf_burst config digit).1 in
    record config { initial_seq = next.0; initial_timestamp = next.1 }

-- The packets of several digits in a row.
unfoldable pub dial : DtmfBurstConfig → List DtmfDigit → List Bytes
dial config [] = []
dial config (digit ∷ digits) = (dtmf_burst config digit).0 ++ dial (next_config config digit) digits

-- Each digit pressed and released, after `n + 1` intervals.
abbrev pub typed : DtmfBurstConfig → ℕ → List DtmfDigit → List DtmfEvent
typed config n [] = []
typed config n (digit ∷ digits) =
    pressed digit ∷ released digit (duration_after config (suc n)) ∷ typed config n digits

module _ (config : DtmfBurstConfig) (digit : DtmfDigit) (v : IsBurst config) where
  receiver_after-tracked :
      (cs : List Copy) (b : Bool)
      → All IsCopy cs
      → (b' : Bool) × (receiver_after (tracked config digit b) (map (to_packet config digit) cs)
          ≡ tracked config digit b')
  receiver_after-tracked [] b fits = (b, unfold receiver_after in refl)
  receiver_after-tracked (c ∷ cs) b fits = elim (Bool-cases (c.end && not b)) [
    | inl e ↦
        let (b', ih) = receiver_after-tracked cs true fits.1 in
        (b', receiver_after-cons _ _ _ (rw e at (push-again config digit v c b fits.0)) ∙ ih)
    | inr e ↦
        let (b', ih) = receiver_after-tracked cs b fits.1 in
        (b', receiver_after-cons _ _ _ (rw e at (push-again config digit v c b fits.0)) ∙ ih)
  ]

  receiver_after-press :
      (cs : List Copy) (active : Option ActiveEvent)
      → cs ≢ []
      → All IsCopy cs
      → Accepts config active
      → (b : Bool) × (receiver_after
            (record { pt = config.pt; active = active })
            (map (to_packet config digit) cs)
          ≡ tracked config digit b)
  receiver_after-press [] active some_sent fits ok = absurd (some_sent refl)
  receiver_after-press (c ∷ cs) active some_sent fits ok =
      let (b, still) = receiver_after-tracked cs false fits.1 in
      (b, receiver_after-cons _ _ _ (push-first config digit v c active fits.0 ok) ∙ still)

  -- The press that a burst leaves behind is older than the next burst on the stream.
  next-Accepts :
      (n : ℕ) (b : Bool)
      → total_packets config ≡ suc n
      → 0 < ticks_per_packet config
      → Accepts (next_config config digit) (tracked config digit b).active
        × IsBurst (next_config config digit)
  next-Accepts n b total ticking =
      let burst = burst_schedule n config digit total v.seq_fits in
      let d = duration_after config (suc n) in
      let seq_is = ap (λ t. t.1.0) burst in
      let ts_is = ap (λ t. t.1.1) burst in
      let positive : 0 < d = grind arith in
      (
        inr (
          (λ h. absurd (omega (arith, ts_is, positive))),
          rw ts_is (newer config.initial_timestamp d v.ts_fits positive (omega arith)),
        ),
        omega (arith, seq_is, ts_is),
      )

  burst-tracked :
      (n : ℕ) (active : Option ActiveEvent)
      → total_packets config ≡ suc n
      → Accepts config active
      → (b : Bool) × (receiver_after
            (record { pt = config.pt; active = active })
            (dtmf_burst config digit).0
          ≡ tracked config digit b)
  burst-tracked n active total ok = rw (burst_schedule n config digit total v.seq_fits) (
      receiver_after-press (schedule config (suc n)) active (λ h. cc) (All-schedule config (suc n))
        ok)

-- Digits that are sent in a row, each press from where the one before ended, are all received, in
-- order, each as one press and one release, if the fields of the burst fit their widths, a press
-- has at least one packet interval, an interval lasts at least one tick, and the receiver may take
-- the first event as a new one.
pub dial_received :
    (n : ℕ) (digits : List DtmfDigit) (config : DtmfBurstConfig) (active : Option ActiveEvent)
    → IsBurst config
    → total_packets config ≡ suc n
    → 0 < ticks_per_packet config
    → Accepts config active
    → receive_all (record { pt = config.pt; active = active }) (dial config digits)
      ≡ typed config n digits
unfolding dial
dial_received n [] config active v total ticking ok = unfold receive_all in refl
dial_received n (digit ∷ digits) config active v total ticking ok =
    let rx : DtmfReceiver = record { pt = config.pt; active = active } in
    let split =
      receive_all-append (dtmf_burst config digit).0 (dial (next_config config digit) digits) rx in
    let heard = burst_received n config digit active v total ok in
    let (b, after) = burst-tracked config digit v n active total ok in
    let (ready, v') = next-Accepts config digit v n b total ticking in
    let later = dial_received n digits (next_config config digit) _ v' total ticking ready in
    split
    ∙ ap₂ (λ xs ys. xs ++ ys) heard
        (ap (λ r. receive_all r (dial (next_config config digit) digits)) after ∙ later)

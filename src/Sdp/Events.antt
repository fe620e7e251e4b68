-- ===== src/Sdp/Events.antt =====
-- crates/wavekat-sip/src/sdp.rs: `select_codec` and `select_dtmf` on what `parse_sdp` gives.
use mathlib.Core.Path.{subst}
use wavekat_sip.Base.{
  ℕ, ◌≡◌, refl, sym, ◌⊎◌, inl, inr, Option-cases, List-cases, Bool-cases, true, false, arith, List,
  [], ◌∷◌, Option, none, some, ◌==◌, ==_iff, text_eq, All,
}
use wavekat_sip.Sip.{Str}
use wavekat_sip.Text.{from_utf8, lines}
use wavekat_sip.Sdp.{
  AudioCodec, DtmfSpec, IpText, RemoteMedia, RtpMap, Found, nothing_found, read_lines, rtpmap_for,
  rtp_clock_rate, find_clock, select_codec, select_dtmf,
}
use wavekat_sip.Sdp.Parse.{
  first_codec, first_opus, events, event_of, telephone_event, media_of, media, parse_sdp,
}
use wavekat_sip.Sdp.Negotiation.{IsIn, IsSelected, select_codec-IsSelected}

-- A listed payload type that is mapped to telephone-event, at its clock.
abbrev pub IsEvent : List RtpMap → List ℕ → DtmfSpec → Type 0
IsEvent maps pts d =
    IsIn d.payload_type pts
    × (entry : RtpMap) × (rtpmap_for d.payload_type maps ≡ some entry)
    × (text_eq entry.encoding telephone_event ≡ true)
    × (entry.rate ≡ d.clock_rate)

-- What may be selected for a clock: an event at that clock, or another if no event has it, or nothing
-- if no payload type is an event.
abbrev pub IsChosen : List RtpMap → List ℕ → ℕ → Option DtmfSpec → Type 0
IsChosen maps pts clock none = All (λ pt. event_of pt (rtpmap_for pt maps) [] ≡ []) pts
IsChosen maps pts clock (some d) =
    IsEvent maps pts d
    × ((d.clock_rate ≡ clock)
        ⊎ All (λ (e : DtmfSpec). (e.clock_rate == clock) ≡ false) (events maps pts))

IsEvent-more :
    (maps : List RtpMap) (pt : ℕ) (pts : List ℕ) (ds : List DtmfSpec)
    → All (IsEvent maps pts) ds
    → All (IsEvent maps (pt ∷ pts)) ds
IsEvent-more maps pt pts [] all = all
IsEvent-more maps pt pts (d ∷ ds) ((listed, entry, is, named, clock), all) =
    ((inr listed, entry, is, named, clock), IsEvent-more maps pt pts ds all)

events-IsEvent : (maps : List RtpMap) (pts : List ℕ) → All (IsEvent maps pts) (events maps pts)
unfolding events
events-IsEvent maps [] = ground arith
events-IsEvent maps (pt ∷ pts) =
    let more = IsEvent-more maps pt pts (events maps pts) (events-IsEvent maps pts) in
    elim (Option-cases (rtpmap_for pt maps)) [
      | inl e ↦ rw e more
      | inr (entry, e) ↦ elim (Bool-cases (text_eq entry.encoding telephone_event)) [
        | inl e' ↦ rw (e, e') ((inl refl, entry, e, e', refl), more)
        | inr e' ↦ rw (e, e') more
      ]
    ]

no_events : (maps : List RtpMap) (pts : List ℕ) → events maps pts ≡ [] → IsChosen maps pts 0 none
unfolding events
no_events maps [] e = ground arith
no_events maps (pt ∷ pts) e = elim (Option-cases (rtpmap_for pt maps)) [
  | inl m ↦ (rw m refl, no_events maps pts (ground (arith, m, e)))
  | inr (entry, m) ↦ elim (Bool-cases (text_eq entry.encoding telephone_event)) [
    | inl m' ↦ absurd (ground (arith, m, m', e))
    | inr m' ↦ (rw (m, m') refl, no_events maps pts (ground (arith, m, m', e)))
  ]
]

find_clock-cases :
    (P : DtmfSpec → Type 0) (clock : ℕ) (ds : List DtmfSpec)
    → All P ds
    → ((d : DtmfSpec) × (find_clock clock ds ≡ some d) × P d × (d.clock_rate ≡ clock))
      ⊎ ((find_clock clock ds ≡ none) × All (λ (e : DtmfSpec). (e.clock_rate == clock) ≡ false) ds)
unfolding find_clock
find_clock-cases P clock [] all = inr (refl, ground arith)
find_clock-cases P clock (d ∷ ds) (p, all) = elim (Bool-cases (d.clock_rate == clock)) [
  | inl e ↦ inl (d, ground (arith, e), p, (==_iff d.clock_rate clock).0 e)
  | inr e ↦ elim (find_clock-cases P clock ds all) [
    | inl (x, is, p', c) ↦ inl (x, ground (arith, e, is), p', c)
    | inr (is, rest) ↦ inr (ground (arith, e, is), (e, rest))
  ]
]

select_dtmf-IsChosen :
    (m : RemoteMedia) (maps : List RtpMap) (pts : List ℕ) (codec : AudioCodec)
    → m.dtmf_events ≡ events maps pts
    → IsChosen maps pts (rtp_clock_rate codec) (select_dtmf m codec)
unfolding select_dtmf
select_dtmf-IsChosen m maps pts codec is =
    let clock = rtp_clock_rate codec in
    let ds = events maps pts in
    let Chosen = IsChosen maps pts clock in
    elim (find_clock-cases (IsEvent maps pts) clock ds (events-IsEvent maps pts)) [
      | inl (d, found, event, at_clock) ↦
          let value : select_dtmf m codec ≡ some d = ground (arith, is, found) in
          subst Chosen (sym value) (event, inl at_clock)
      | inr (found, others) ↦ elim (List-cases ds) [
        | inl empty ↦
            let value : select_dtmf m codec ≡ none = ground (arith, is, found, empty) in
            subst Chosen (sym value) (no_events maps pts empty)
        | inr (d, rest, more) ↦
            let value : select_dtmf m codec ≡ some d = ground (arith, is, found, more) in
            let all : All (IsEvent maps pts) (d ∷ rest) =
              subst (All (IsEvent maps pts)) more (events-IsEvent maps pts) in
            subst Chosen (sym value) (all.0, inr others)
      ]
    ]

media_of-found :
    (found : Found) {m : RemoteMedia}
    → media_of found ≡ media m
    → (m.opus_payload_type ≡ first_opus found.rtpmaps found.audio_pts)
      × (m.codec ≡ first_codec found.rtpmaps found.audio_pts)
      × (m.dtmf_events ≡ events found.rtpmaps found.audio_pts)
unfolding media_of
media_of-found found e = ground (arith, e)

-- For every body that parses, whatever its lines: Opus is selected if a payload type of the audio line
-- resolves to it, at a payload type of the body; otherwise the first payload type that resolves gives
-- the codec, and none is selected exactly if none resolves. For any codec the telephone-event that is
-- selected is one that the body lists and maps, at the codec's clock if the body has one at it; none
-- is selected only if the body has no telephone-event.
pub parse_sdp-selects :
    (ip : IpText) (bytes : List ℕ) (codec : AudioCodec) {m : RemoteMedia}
    → parse_sdp ip bytes ≡ media m
    → (text : Str) × (found : Found) × (from_utf8 bytes ≡ some text)
      × (found ≡ read_lines ip (lines text) nothing_found)
      × IsSelected found.rtpmaps found.audio_pts (select_codec m)
      × IsChosen found.rtpmaps found.audio_pts (rtp_clock_rate codec) (select_dtmf m codec)
unfolding parse_sdp
parse_sdp-selects ip bytes codec {m} e = elim (Option-cases (from_utf8 bytes)) [
  | inl none_is ↦ absurd (ground (arith, none_is, e))
  | inr (text, some_is) ↦
      let found = read_lines ip (lines text) nothing_found in
      let (opus_is, codec_is, events_are) =
        media_of-found found {m = m} (ground (arith, some_is, e)) in
      (
        text,
        found,
        some_is,
        refl,
        select_codec-IsSelected m found.rtpmaps found.audio_pts opus_is codec_is,
        select_dtmf-IsChosen m found.rtpmaps found.audio_pts codec events_are,
      )
]

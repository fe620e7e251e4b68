-- ===== src/Sdp/Parse.antt =====
-- crates/wavekat-sip/src/sdp.rs, `parse_sdp`: the payload types of a body, resolved to codecs.
use wavekat_sip.Base.{
  ℕ, Bool, true, false, ◌&&◌, List, [], ◌∷◌, Option, none, some, ◌==◌, if◌then◌else◌, text_eq,
}
use wavekat_sip.Sip.{Str}
use wavekat_sip.Text.{from_utf8, lines}
use wavekat_sip.Sdp.{
  AudioCodec, pcmu, pcma, opus, DtmfSpec, IpText, RemoteMedia, RtpMap, Found, nothing_found,
  read_lines, rtpmap_for,
}

abbrev pub opus_name : Str
opus_name = b'o' ∷ b'p' ∷ b'u' ∷ b's' ∷ []

abbrev pub pcmu_name : Str
pcmu_name = b'p' ∷ b'c' ∷ b'm' ∷ b'u' ∷ []

abbrev pub pcma_name : Str
pcma_name = b'p' ∷ b'c' ∷ b'm' ∷ b'a' ∷ []

abbrev pub telephone_event : Str
telephone_event =
    b't' ∷ b'e' ∷ b'l' ∷ b'e' ∷ b'p' ∷ b'h' ∷ b'o' ∷ b'n' ∷ b'e' ∷ b'-' ∷ b'e' ∷ b'v' ∷ b'e' ∷ b'n'
    ∷ b't' ∷ []

-- The closure `resolve`: an explicit mapping wins over the static numbers.
abbrev pub static_codec : ℕ → Option AudioCodec
static_codec pt = if pt == 0 then some pcmu else if pt == 8 then some pcma else none

abbrev pub mapped_codec : ℕ → RtpMap → Option AudioCodec
mapped_codec pt entry =
    if text_eq entry.encoding opus_name && entry.rate == 48000
    then some (opus pt)
    else if text_eq entry.encoding pcmu_name && entry.rate == 8000
    then some pcmu
    else if text_eq entry.encoding pcma_name && entry.rate == 8000
    then some pcma
    else none

unfoldable pub resolve : List RtpMap → ℕ → Option AudioCodec
resolve maps pt = elim (rtpmap_for pt maps) [
  | none ↦ static_codec pt
  | some entry ↦ mapped_codec pt entry
]

-- `find_map(resolve)`.
unfoldable pub first_codec : List RtpMap → List ℕ → Option AudioCodec
unfolding resolve
first_codec maps [] = none
first_codec maps (pt ∷ pts) =
    let rest = first_codec maps pts in
    elim (resolve maps pt) [ none ↦ rest | some codec ↦ some codec ]

abbrev pub is_opus : Option AudioCodec → Bool
is_opus (some (opus pt)) = true
is_opus _ = false

unfoldable pub first_opus : List RtpMap → List ℕ → Option ℕ
unfolding resolve
first_opus maps [] = none
first_opus maps (pt ∷ pts) =
    let rest = first_opus maps pts in if is_opus (resolve maps pt) then some pt else rest

-- The `filter_map` of the telephone events.
abbrev pub event_of : ℕ → Option RtpMap → List DtmfSpec → List DtmfSpec
event_of pt none rest = rest
event_of pt (some entry) rest =
    if text_eq entry.encoding telephone_event
    then record { payload_type = pt; clock_rate = entry.rate } ∷ rest
    else rest

unfoldable pub events : List RtpMap → List ℕ → List DtmfSpec
events maps [] = []
events maps (pt ∷ pts) = event_of pt (rtpmap_for pt maps) (events maps pts)

abbrev pub first_pt : List ℕ → Option ℕ
first_pt [] = none
first_pt (pt ∷ pts) = some pt

pub data SdpError : Type 0 where
  not_utf8 no_address no_audio no_payload_type : SdpError

pub data Parsed : Type 0 where
  media : RemoteMedia → Parsed
  refused : SdpError → Parsed

-- The `match` at the end.
unfoldable pub media_of : Found → Parsed
unfolding first_codec first_opus events
media_of found = elim found.found_addr [
  | none ↦ refused no_address
  | some addr ↦ elim found.found_port [
    | none ↦ refused no_audio
    | some port ↦ elim (first_pt found.audio_pts) [
      | none ↦ refused no_payload_type
      | some pt ↦ media (record {
        addr = addr;
        media_port = port;
        first_payload_type = pt;
        codec = first_codec found.rtpmaps found.audio_pts;
        opus_payload_type = first_opus found.rtpmaps found.audio_pts;
        dtmf_events = events found.rtpmaps found.audio_pts;
      })
    ]
  ]
]

unfoldable pub parse_sdp : IpText → List ℕ → Parsed
unfolding media_of
parse_sdp ip bytes = elim (from_utf8 bytes) [
  | none ↦ refused not_utf8
  | some text ↦ media_of (read_lines ip (lines text) nothing_found)
]

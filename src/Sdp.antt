-- ===== src/Sdp.antt =====
-- crates/wavekat-sip/src/sdp.rs: the offers and answers of a call. A body is its bytes. The text of an
-- IP address is the record `IpText`, an address a number; an error is its case, not its text.
pub mod Build
pub mod Events
pub mod Negotiation
pub mod Inline
pub mod Lines
pub mod Menu
pub mod Parse
pub mod Reading
pub mod RoundTrip
use wavekat_sip.Base.{
  ℕ, ◌+◌, ◌-◌, ◌^◌, Bool, true, false, ◌&&◌, ◌||◌, List, [], ◌∷◌, ◌++◌, Option, none, some, ◌>>=◌,
  leb, ◌==◌, if◌then◌else◌, length, get_elem?, drop, text_eq,
}
use wavekat_sip.Sip.{Str}
use wavekat_sip.Text.{
  from_utf8, trim, to_ascii_lowercase, split, parse_uint, lines, split_whitespace, first_word,
  strip_prefix,
}

pub data MediaDirection : Type 0 where
  send_recv send_only inactive : MediaDirection

pub data AudioCodec : Type 0 where
  pcmu pcma : AudioCodec
  opus : ℕ → AudioCodec

pub record DtmfSpec : Type 0 where
  pub payload_type : ℕ
  pub clock_rate : ℕ

pub data CodecMenu : Type 0 where
  full : CodecMenu
  pinned : AudioCodec → Option DtmfSpec → CodecMenu

pub record IpText : Type 0 where
  pub print : ℕ → Str
  pub parse : Str → Option ℕ

-- `AudioCodec::payload_type`.
abbrev pub codec_payload_type : AudioCodec → ℕ
codec_payload_type pcmu = 0
codec_payload_type pcma = 8
codec_payload_type (opus pt) = pt

abbrev pub rtp_clock_rate : AudioCodec → ℕ
rtp_clock_rate pcmu = 8000
rtp_clock_rate pcma = 8000
rtp_clock_rate (opus pt) = 48000

pub record RemoteMedia : Type 0 where
  pub addr : ℕ
  pub media_port : ℕ
  pub first_payload_type : ℕ
  pub codec : Option AudioCodec
  pub opus_payload_type : Option ℕ
  pub dtmf_events : List DtmfSpec

unfoldable pub find_clock : ℕ → List DtmfSpec → Option DtmfSpec
find_clock clock [] = none
find_clock clock (d ∷ ds) =
    let rest = find_clock clock ds in if d.clock_rate == clock then some d else rest

abbrev pub first_event : List DtmfSpec → Option DtmfSpec
first_event [] = none
first_event (d ∷ ds) = some d

abbrev pub or_else : {A : Type 0} → Option A → Option A → Option A
or_else none other = other
or_else (some a) other = some a

abbrev opus_of : Option ℕ → Option AudioCodec
opus_of none = none
opus_of (some pt) = some (opus pt)

unfoldable pub select_codec : RemoteMedia → Option AudioCodec
select_codec offer = or_else (opus_of offer.opus_payload_type) offer.codec

unfoldable pub select_dtmf : RemoteMedia → AudioCodec → Option DtmfSpec
unfolding find_clock
select_dtmf offer codec =
    or_else (find_clock (rtp_clock_rate codec) offer.dtmf_events) (first_event offer.dtmf_events)

-- `RemoteMedia::dtmf`.
unfoldable pub dtmf : RemoteMedia → Option DtmfSpec
unfolding select_dtmf
dtmf media = elim media.codec [
  | none ↦ first_event media.dtmf_events
  | some codec ↦ select_dtmf media codec
]

-- One `a=rtpmap:` line: payload type, lowercased name and clock.
pub record RtpMap : Type 0 where
  pub mapped : ℕ
  pub encoding : Str
  pub rate : ℕ

-- What the loop over the lines has found.
pub record Found : Type 0 where
  pub found_addr : Option ℕ
  pub found_port : Option ℕ
  pub audio_pts : List ℕ
  pub rtpmaps : List RtpMap

abbrev pub nothing_found : Found
nothing_found = record { found_addr = none; found_port = none; audio_pts = []; rtpmaps = [] }

abbrev pub c_ip4 : Str
c_ip4 = b'c' ∷ b'=' ∷ b'I' ∷ b'N' ∷ b' ' ∷ b'I' ∷ b'P' ∷ b'4' ∷ b' ' ∷ []

abbrev pub c_ip6 : Str
c_ip6 = b'c' ∷ b'=' ∷ b'I' ∷ b'N' ∷ b' ' ∷ b'I' ∷ b'P' ∷ b'6' ∷ b' ' ∷ []

abbrev pub m_audio : Str
m_audio = b'm' ∷ b'=' ∷ b'a' ∷ b'u' ∷ b'd' ∷ b'i' ∷ b'o' ∷ b' ' ∷ []

abbrev pub a_rtpmap : Str
a_rtpmap = b'a' ∷ b'=' ∷ b'r' ∷ b't' ∷ b'p' ∷ b'm' ∷ b'a' ∷ b'p' ∷ b':' ∷ []

abbrev is_some : {A : Type 0} → Option A → Bool
is_some none = false
is_some (some a) = true

abbrev or_empty : Option Str → Str
or_empty none = []
or_empty (some s) = s

-- The `if let Ok(pt)` over the payload types.
unfoldable pub numbers : ℕ → List Str → List ℕ
numbers limit [] = []
numbers limit (w ∷ ws) =
    let rest = numbers limit ws in elim (parse_uint limit w) [ none ↦ rest | some n ↦ n ∷ rest ]

unfoldable pub read_audio : Str → Found → Found
unfolding numbers
read_audio line found =
    let parts = split_whitespace line in
    record found {
      found_port = elim (get_elem? parts 1) [
        | none ↦ found.found_port
        | some port ↦ parse_uint 65535 port
      ];
      audio_pts = found.audio_pts ++ numbers 255 (drop 3 parts);
    }

unfoldable pub read_rtpmap : Str → Found → Found
read_rtpmap rest found =
    let (pt_text, mapping) = first_word rest in
    let pieces = split b'/' mapping in
    let name = to_ascii_lowercase (or_empty (get_elem? pieces 0)) in
    let map : Option RtpMap = (do
      pt ← parse_uint 255 pt_text
      rate ← parse_uint (2 ^ 32 - 1) (or_empty (get_elem? pieces 1))
      some (record { mapped = pt; encoding = name; rate = rate })) in
    elim map [ none ↦ found | some entry ↦ record found { rtpmaps = found.rtpmaps ++ entry ∷ [] } ]

module _ (ip : IpText) where
  unfoldable pub read_connection : Str → Found → Found
  read_connection line found = elim (get_elem? (split_whitespace line) 2) [
    | none ↦ found
    | some text ↦ record found { found_addr = ip.parse text }
  ]

  -- One trimmed line of the body; the three tests exclude each other, as they start differently.
  unfoldable pub read_trimmed : Str → Found → Found
  unfolding read_connection read_audio read_rtpmap
  read_trimmed line found =
      let first =
        if is_some (strip_prefix c_ip4 line) || is_some (strip_prefix c_ip6 line)
        then read_connection line found
        else found in
      let second = if is_some (strip_prefix m_audio line) then read_audio line first else first in
      elim (strip_prefix a_rtpmap line) [ none ↦ second | some rest ↦ read_rtpmap rest second ]

  unfoldable pub read_line : Str → Found → Found
  unfolding read_trimmed
  read_line raw found = read_trimmed (trim raw) found

  unfoldable pub read_lines : List Str → Found → Found
  unfolding read_line
  read_lines [] found = found
  read_lines (line ∷ rest) found = read_lines rest (read_line line found)

unfoldable pub rtpmap_for : ℕ → List RtpMap → Option RtpMap
rtpmap_for pt [] = none
rtpmap_for pt (entry ∷ maps) =
    let rest = rtpmap_for pt maps in if entry.mapped == pt then some entry else rest

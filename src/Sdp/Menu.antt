-- ===== src/Sdp/Menu.antt =====
-- crates/wavekat-sip/src/sdp.rs: what the menu of a body says, and the end of `parse_sdp` on it.
use wavekat_sip.Base.{ℕ, ◌<◌, ◌≤◌, ◌^◌, ◌≡◌, ◌≢◌, refl, arith, List, [], ◌∷◌, Option, none, some}
use wavekat_sip.Text.{decimal}
use wavekat_sip.Text.Decimal.{Reads, decimal-Reads}
use wavekat_sip.Sdp.{
  AudioCodec, pcmu, pcma, opus, DtmfSpec, CodecMenu, full, pinned, RemoteMedia, RtpMap, Found,
  codec_payload_type, rtpmap_for,
}
use wavekat_sip.Sdp.Build.{menu_pts}
use wavekat_sip.Sdp.Parse.{media, media_of}
use wavekat_sip.Sdp.Reading.{codec_map, event_map, ReadsAll}

-- A menu whose numbers fit their types, with an event type of its own payload type.
abbrev pub IsEvent : AudioCodec → Option DtmfSpec → Type 0
IsEvent codec none = Unit
IsEvent codec (some d) =
    (d.payload_type ≤ 255) × (d.clock_rate < 2 ^ 32) × (codec_payload_type codec ≢ d.payload_type)

abbrev pub IsMenu : CodecMenu → Type 0
IsMenu full = Unit
IsMenu (pinned codec event) = (codec_payload_type codec ≤ 255) × IsEvent codec event

abbrev pub event_list : Option DtmfSpec → List DtmfSpec
event_list none = []
event_list (some d) = d ∷ []

abbrev pub opus_number : AudioCodec → Option ℕ
opus_number pcmu = none
opus_number pcma = none
opus_number (opus pt) = some pt

abbrev pub spec : ℕ → ℕ → DtmfSpec
spec pt clock = record { payload_type = pt; clock_rate = clock }

-- What a menu says, at this address and port.
abbrev pub menu_media : ℕ → ℕ → CodecMenu → RemoteMedia
menu_media a port full = record {
  addr = a;
  media_port = port;
  first_payload_type = 111;
  codec = some (opus 111);
  opus_payload_type = some 111;
  dtmf_events = spec 101 8000 ∷ spec 110 48000 ∷ [];
}
menu_media a port (pinned codec event) = record {
  addr = a;
  media_port = port;
  first_payload_type = codec_payload_type codec;
  codec = some codec;
  opus_payload_type = opus_number codec;
  dtmf_events = event_list event;
}

-- The payload types and the mappings of a menu.
abbrev pub pt_list : Option DtmfSpec → List ℕ
pt_list none = []
pt_list (some d) = d.payload_type ∷ []

abbrev pub pts_of : CodecMenu → List ℕ
pts_of full = 111 ∷ 0 ∷ 8 ∷ 101 ∷ 110 ∷ []
pts_of (pinned codec event) = codec_payload_type codec ∷ pt_list event

abbrev pub map_list : Option DtmfSpec → List RtpMap
map_list none = []
map_list (some d) = event_map d ∷ []

abbrev pub maps_of : CodecMenu → List RtpMap
maps_of full =
    codec_map (opus 111)
    ∷ codec_map pcmu
    ∷ codec_map pcma
    ∷ event_map (spec 101 8000)
    ∷ event_map (spec 110 48000)
    ∷ []
maps_of (pinned codec event) = codec_map codec ∷ map_list event

abbrev pub found_of : ℕ → ℕ → List ℕ → List RtpMap → Found
found_of a port pts maps = record {
  found_addr = some a;
  found_port = some port;
  audio_pts = pts;
  rtpmaps = maps;
}

pub media_of-menu :
    (a port : ℕ) (menu : CodecMenu)
    → IsMenu menu
    → media_of (found_of a port (pts_of menu) (maps_of menu)) ≡ media (menu_media a port menu)
unfolding media_of rtpmap_for
media_of-menu a port full h = refl
media_of-menu a port (pinned pcmu none) (le, h) = refl
media_of-menu a port (pinned pcma none) (le, h) = refl
media_of-menu a port (pinned (opus pt) none) (le, h) = ground arith
media_of-menu a port (pinned pcmu (some d)) (le, (le', lt, ne)) = ground (arith, ne)
media_of-menu a port (pinned pcma (some d)) (le, (le', lt, ne)) = ground (arith, ne)
media_of-menu a port (pinned (opus pt) (some d)) (le, (le', lt, ne)) = ground (arith, ne)

number_word : (n : ℕ) → n ≤ 255 → Reads n (decimal n) × (n ≤ 255)
number_word n le = (decimal-Reads n (omega (arith, le)), le)

pub pt_words : (menu : CodecMenu) → IsMenu menu → ReadsAll (pts_of menu) (menu_pts menu)
unfolding decimal
pt_words full h =
    let (a, a') = number_word 111 (omega arith) in
    let (b, b') = number_word 0 (omega arith) in
    let (c, c') = number_word 8 (omega arith) in
    let (d, d') = number_word 101 (omega arith) in
    let (e, e') = number_word 110 (omega arith) in (a, a', (b, b', (c, c', (d, d', (e, e', tt)))))
pt_words (pinned codec none) (le, h) =
    let (a, a') = number_word (codec_payload_type codec) le in (a, a', tt)
pt_words (pinned codec (some d)) (le, (le', lt, ne)) =
    let (a, a') = number_word (codec_payload_type codec) le in
    let (b, b') = number_word d.payload_type le' in (a, a', (b, b', tt))

-- ===== src/Tests/Offers.antt =====
-- The initial offer and a pinned answer, read back, and what is selected of them. An IP address is one
-- digit.
use wavekat_sip.Base.{
  ℕ, zero, suc, ap, arith, All, ◌+◌, ◌-◌, ◌≡◌, refl, [], ◌∷◌, Option, none, some,
}
use wavekat_sip.Sip.{Str}
use wavekat_sip.Text.{
  from_utf8, lines, decimal, strip_prefix, trim, parse_uint, first_word, split, split_whitespace,
  to_ascii_lowercase,
}
use wavekat_sip.Sdp.{
  send_only, pcmu, opus, DtmfSpec, pinned, IpText, RemoteMedia, Found, nothing_found, read_lines,
  rtpmap_for, rtp_clock_rate, select_codec, select_dtmf,
}
use wavekat_sip.Sdp.Build.{build_sdp_offer, build_sdp_with}
use wavekat_sip.Sdp.Parse.{media, parse_sdp}
use wavekat_sip.Sdp.Negotiation.{IsSelected}
use wavekat_sip.Text.Words.{IsVisible}
use wavekat_sip.Sdp.Reading.{IpLaws}
use wavekat_sip.Sdp.Menu.{menu_media}
use wavekat_sip.Sdp.RoundTrip.{parse_sdp-build_sdp_with}
use wavekat_sip.Sdp.Events.{IsChosen, parse_sdp-selects}

abbrev digit : Str → Option ℕ
digit [] = none
digit (c ∷ s) = some (c - b'0')

abbrev ip : IpText
ip = record { print = λ n. (n + b'0') ∷ []; parse = digit }

abbrev event : ℕ → ℕ → DtmfSpec
event pt clock = record { payload_type = pt; clock_rate = clock }

abbrev offered : RemoteMedia
offered = record {
  addr = 7;
  media_port = 5004;
  first_payload_type = 111;
  codec = some (opus 111);
  opus_payload_type = some 111;
  dtmf_events = event 101 8000 ∷ event 110 48000 ∷ [];
}

offer_reads : parse_sdp ip (build_sdp_offer ip 7 5004) ≡ media offered
unfolding parse_sdp build_sdp_offer from_utf8 decimal read_lines lines strip_prefix trim parse_uint
    first_word split split_whitespace rtpmap_for to_ascii_lowercase
offer_reads = refl

answer_reads :
    parse_sdp ip (build_sdp_with ip 7 6000 (pinned pcmu (some (event 101 8000))) send_only 3)
    ≡ media (record {
      addr = 7;
      media_port = 6000;
      first_payload_type = 0;
      codec = some pcmu;
      opus_payload_type = none;
      dtmf_events = event 101 8000 ∷ [];
    })
unfolding parse_sdp build_sdp_with from_utf8 decimal read_lines lines strip_prefix trim parse_uint
    first_word split split_whitespace rtpmap_for to_ascii_lowercase
answer_reads = refl

parse_sdp-selects_example :
    (text : Str) × (found : Found) × (from_utf8 (build_sdp_offer ip 7 5004) ≡ some text)
    × (found ≡ read_lines ip (lines text) nothing_found)
    × IsSelected found.rtpmaps found.audio_pts (select_codec offered)
    × IsChosen found.rtpmaps found.audio_pts
        (rtp_clock_rate (opus 111))
        (select_dtmf offered (opus 111))
parse_sdp-selects_example =
    parse_sdp-selects ip (build_sdp_offer ip 7 5004) (opus 111) {m = offered} offer_reads

-- An address is written as one stroke more than its number.
abbrev strokes : ℕ → Str
strokes zero = []
strokes (suc n) = b'|' ∷ strokes n

abbrev count_strokes : Str → ℕ
count_strokes [] = 0
count_strokes (c ∷ s) = suc (count_strokes s)

abbrev tallied : Str → Option ℕ
tallied [] = none
tallied (c ∷ s) = some (count_strokes s)

abbrev pub tally : IpText
tally = record { print = λ n. b'|' ∷ strokes n; parse = tallied }

count_strokes-strokes : (n : ℕ) → count_strokes (strokes n) ≡ n
count_strokes-strokes zero = refl
count_strokes-strokes (suc n) = ap (λ m. suc m) (count_strokes-strokes n)

strokes-IsVisible : (n : ℕ) → All IsVisible (strokes n)
strokes-IsVisible zero = tt
strokes-IsVisible (suc n) =
    (record { above = omega arith; below = omega arith }, strokes-IsVisible n)

pub tally-IpLaws : IpLaws tally
tally-IpLaws = record {
  reads = λ a. ap some (count_strokes-strokes a);
  first = λ a. b'|';
  rest = strokes;
  is = λ a. refl;
  visible = λ a. strokes-IsVisible (suc a);
}

parse_sdp-build_sdp_with_example :
    parse_sdp tally (build_sdp_with tally 7 6000 (pinned pcmu (some (event 101 8000))) send_only 3)
    ≡ media (menu_media 7 6000 (pinned pcmu (some (event 101 8000))))
parse_sdp-build_sdp_with_example =
    parse_sdp-build_sdp_with tally 7 6000 (pinned pcmu (some (event 101 8000))) send_only 3
      tally-IpLaws (omega arith) (omega arith) (omega arith)

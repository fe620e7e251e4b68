-- ===== src/Sdp/Inline.antt =====
-- crates/wavekat-sip/src/sdp.rs: the lines that `build_sdp_with` writes are printable ASCII.
use wavekat_sip.Base.{
  ℕ, append_assoc, ◌<◌, ◌≤◌, ◌^◌, arith, List, [], ◌∷◌, ◌++◌, Option, none, some, All,
}
use wavekat_sip.Sip.{Str}
use wavekat_sip.Text.{decimal}
use wavekat_sip.Text.Words.{IsVisible, IsInline, All-append, All-map, visible-IsInline}
use wavekat_sip.Text.Decimal.{decimal-Reads, Reads-IsVisible}
use wavekat_sip.Sdp.{
  MediaDirection, send_recv, send_only, inactive, AudioCodec, pcmu, pcma, opus, DtmfSpec, CodecMenu,
  full, pinned, a_rtpmap, m_audio, codec_payload_type,
}
use wavekat_sip.Sdp.Build.{
  a_fmtp, in_ip4, rtpmap_line, rtpmap_encoding, event_encoding, all_events, inband_fec, event_pts,
  menu_pts, menu_lines, fec_lines, event_lines, join,
}
use wavekat_sip.Sdp.Parse.{telephone_event}
use wavekat_sip.Sdp.Lines.{o_start, rtp_avp, direction_line, sdp_lines}
use wavekat_sip.Sdp.Reading.{ReadsAll}
use wavekat_sip.Sdp.Menu.{IsEvent, IsMenu, spec, pt_list, pt_words}

inline_visible : (s : Str) → All IsVisible s → All IsInline s
inline_visible s v = All-map IsVisible IsInline visible-IsInline s v

-- A number between two texts of a line.
numbered :
    (before : Str) (n : ℕ) (after : Str)
    → n < 10 ^ 20
    → All IsInline before
    → All IsInline after
    → All IsInline (before ++ (decimal n ++ after))
numbered before n after small b a = All-append IsInline before (decimal n ++ after) b (
    All-append IsInline (decimal n) after
      (inline_visible (decimal n) (Reads-IsVisible n (decimal n) (decimal-Reads n small))) a)

event_lines-inline :
    (codec : AudioCodec) (event : Option DtmfSpec) (rest : List Str)
    → IsEvent codec event
    → All (All IsInline) rest
    → All (All IsInline) (event_lines event ++ rest)
event_lines-inline codec none rest h r = r
event_lines-inline codec (some d) rest (le, lt, ne) r =
    let clock = inline_visible (decimal d.clock_rate) (
      Reads-IsVisible d.clock_rate (decimal d.clock_rate)
        (decimal-Reads d.clock_rate (omega (arith, lt)))) in
    (
      numbered a_rtpmap d.payload_type (b' ' ∷ event_encoding d.clock_rate) (omega (arith, le))
          (omega arith)
          (All-append IsInline (b' ' ∷ (telephone_event ++ b'/' ∷ [])) (decimal d.clock_rate)
            (omega arith) clock),
      (
        numbered a_fmtp d.payload_type (b' ' ∷ all_events) (omega (arith, le)) (omega arith)
            (omega arith),
        r,
      ),
    )

codec_lines-inline :
    (codec : AudioCodec) (rest : List Str)
    → codec_payload_type codec ≤ 255
    → All (All IsInline) rest
    → All
        (All IsInline)
        (rtpmap_line (codec_payload_type codec) (rtpmap_encoding codec) ∷ (fec_lines codec ++ rest))
codec_lines-inline pcmu rest le r =
    (numbered a_rtpmap 0 (b' ' ∷ rtpmap_encoding pcmu) (omega arith) (omega arith) (omega arith), r)
codec_lines-inline pcma rest le r =
    (numbered a_rtpmap 8 (b' ' ∷ rtpmap_encoding pcma) (omega arith) (omega arith) (omega arith), r)
codec_lines-inline (opus pt) rest le r = (
  numbered a_rtpmap pt (b' ' ∷ rtpmap_encoding (opus pt)) (omega (arith, le)) (omega arith)
      (omega arith),
  (numbered a_fmtp pt (b' ' ∷ inband_fec) (omega (arith, le)) (omega arith) (omega arith), r),
)

direction-inline : (direction : MediaDirection) → All IsInline (direction_line direction)
direction-inline send_recv = omega arith
direction-inline send_only = omega arith
direction-inline inactive = omega arith

menu_lines-inline :
    (menu : CodecMenu) (rest : List Str)
    → IsMenu menu
    → All (All IsInline) rest
    → All (All IsInline) (menu_lines menu ++ rest)
menu_lines-inline full rest h r =
    let low = spec 101 8000 in
    let high = spec 110 48000 in
    let events_high = event_lines (some high) ++ rest in
    let events_low = event_lines (some low) ++ events_high in
    let from_pcma = rtpmap_line 8 (rtpmap_encoding pcma) ∷ events_low in
    let from_pcmu = rtpmap_line 0 (rtpmap_encoding pcmu) ∷ from_pcma in
    codec_lines-inline (opus 111) from_pcmu (omega arith) (
      codec_lines-inline pcmu from_pcma (omega arith) (
        codec_lines-inline pcma events_low (omega arith) (
          event_lines-inline pcmu (some low) events_high (omega arith)
            (event_lines-inline pcmu (some high) rest (omega arith) r))))
menu_lines-inline (pinned codec event) rest (le, h) r =
    rw (append_assoc (fec_lines codec) (event_lines event) rest) (
      codec_lines-inline codec (event_lines event ++ rest) le
        (event_lines-inline codec event rest h r))

pts-inline :
    (n : ℕ) (ns : List ℕ) (w : Str) (ws : List Str)
    → ReadsAll (n ∷ ns) (w ∷ ws)
    → All IsInline (join (b' ' ∷ []) (w ∷ ws))
unfolding join
pts-inline n [] w [] (r, le, h) = inline_visible w (Reads-IsVisible n w r)
pts-inline n [] w (v ∷ ws) (r, le, h) = elim h [ ]
pts-inline n (m ∷ ns) w [] (r, le, h) = elim h [ ]
pts-inline n (m ∷ ns) w (v ∷ ws) (r, le, h) =
    All-append IsInline w (b' ' ∷ join (b' ' ∷ []) (v ∷ ws))
      (inline_visible w (Reads-IsVisible n w r)) (omega arith, pts-inline m ns v ws h)

words-inline : (menu : CodecMenu) → IsMenu menu → All IsInline (join (b' ' ∷ []) (menu_pts menu))
unfolding decimal
words-inline full h =
    pts-inline 111 (0 ∷ 8 ∷ 101 ∷ 110 ∷ []) (decimal 111)
      (decimal 0 ∷ decimal 8 ∷ decimal 101 ∷ decimal 110 ∷ []) (pt_words full h)
words-inline (pinned codec event) h =
    pts-inline (codec_payload_type codec) (pt_list event) (decimal (codec_payload_type codec))
      (event_pts event) (pt_words (pinned codec event) h)

pub sdp_lines-inline :
    (addr : Str) (port : ℕ) (menu : CodecMenu) (direction : MediaDirection) (version : ℕ)
    → All IsVisible addr
    → port ≤ 65535
    → version < 2 ^ 32
    → IsMenu menu
    → All (All IsInline) (sdp_lines addr port menu direction version)
sdp_lines-inline addr port menu direction version visible small fits h =
    let host = inline_visible addr visible in
    let after : List (List ℕ) = direction_line direction ∷ [] in
    (
      omega arith,
      (
        numbered o_start version (b' ' ∷ (in_ip4 ++ addr)) (omega (arith, fits)) (omega arith)
            (All-append IsInline (b' ' ∷ in_ip4) addr (omega arith) host),
        (
          omega arith,
          (
            All-append IsInline (b'c' ∷ b'=' ∷ in_ip4) addr (omega arith) host,
            (
              omega arith,
              (
                numbered m_audio port (rtp_avp ++ join (b' ' ∷ []) (menu_pts menu))
                    (omega (arith, small)) (omega arith)
                    (All-append IsInline rtp_avp (join (b' ' ∷ []) (menu_pts menu)) (omega arith)
                      (words-inline menu h)),
                menu_lines-inline menu after h (direction-inline direction, tt),
              ),
            ),
          ),
        ),
      ),
    )

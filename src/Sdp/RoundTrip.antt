-- ===== src/Sdp/RoundTrip.antt =====
-- crates/wavekat-sip/src/sdp.rs: a body that `build_sdp_with` writes is what `parse_sdp` reads.
use mathlib.Core.Path.{subst}
use wavekat_sip.Base.{
  ℕ, append_assoc, ◌<◌, ◌≤◌, ◌^◌, ◌≡◌, refl, sym, ap, ◌∙◌, inl, arith, List, [], ◌∷◌, ◌++◌, Option,
  none, some, All, append-nil,
}
use wavekat_sip.Sip.{Str}
use wavekat_sip.Text.{lines, decimal, split, to_ascii_lowercase, from_utf8}
use wavekat_sip.Text.Words.{IsVisible, EndsVisible-append, All-EndsVisible, split-piece, split-last}
use wavekat_sip.Text.Decimal.{decimal-Reads, Reads-EndsVisible, Reads-without}
use wavekat_sip.Sdp.{
  MediaDirection, AudioCodec, pcmu, pcma, opus, DtmfSpec, CodecMenu, full, pinned, IpText, RtpMap,
  Found, nothing_found, codec_payload_type, read_line, read_lines,
}
use wavekat_sip.Sdp.Build.{
  rtpmap_line, rtpmap_encoding, fmtp_line, event_encoding, all_events, inband_fec, menu_pts,
  menu_lines, fec_lines, event_lines, join, build_sdp_with,
}
use wavekat_sip.Sdp.Parse.{media, media_of, parse_sdp, telephone_event}
use wavekat_sip.Sdp.Lines.{
  text_of, lines-text_of, from_utf8-text_of, o_line, v_line, s_line, c_line, t_line, m_line,
  direction_line, sdp_lines, build_sdp_with-lines,
}
use wavekat_sip.Sdp.Reading.{
  IpLaws, codec_map, event_map, add_map, add_audio, read_line-v, read_line-s, read_line-t,
  read_line-direction, read_line-o, read_line-fmtp, read_line-c, read_line-m, read_line-rtpmap,
}
use wavekat_sip.Sdp.Inline.{sdp_lines-inline}
use wavekat_sip.Sdp.Menu.{
  IsEvent, IsMenu, spec, menu_media, pt_list, pts_of, map_list, maps_of, found_of, media_of-menu,
  pt_words,
}

module _ (ip : IpText) where
  step :
      (l : Str) (ls : List Str) (found found' : Found)
      → read_line ip l found ≡ found'
      → read_lines ip (l ∷ ls) found ≡ read_lines ip ls found'
  unfolding read_lines
  step l ls found found' e = ap (read_lines ip ls) e

  codec_line :
      (codec : AudioCodec) (found : Found)
      → codec_payload_type codec ≤ 255
      → read_line ip (rtpmap_line (codec_payload_type codec) (rtpmap_encoding codec)) found
        ≡ add_map (codec_map codec) found
  unfolding split decimal to_ascii_lowercase
  codec_line pcmu found le =
      read_line-rtpmap ip 0 8000 (b'P' ∷ b'C' ∷ b'M' ∷ b'U' ∷ []) [] (rtpmap_encoding pcmu) found le
        (omega arith) refl (record { above = omega arith; below = omega arith })
  codec_line pcma found le =
      read_line-rtpmap ip 8 8000 (b'P' ∷ b'C' ∷ b'M' ∷ b'A' ∷ []) [] (rtpmap_encoding pcma) found le
        (omega arith) refl (record { above = omega arith; below = omega arith })
  codec_line (opus pt) found le =
      read_line-rtpmap ip pt 48000 (b'o' ∷ b'p' ∷ b'u' ∷ b's' ∷ []) ((b'2' ∷ []) ∷ [])
        (rtpmap_encoding (opus pt)) found le (omega arith) refl
        (record { above = omega arith; below = omega arith })

  event_line :
      (d : DtmfSpec) (found : Found)
      → d.payload_type ≤ 255
      → d.clock_rate < 2 ^ 32
      → read_line ip (rtpmap_line d.payload_type (event_encoding d.clock_rate)) found
        ≡ add_map (event_map d) found
  unfolding to_ascii_lowercase
  event_line d found le lt =
      let r = decimal-Reads d.clock_rate (omega (arith, lt)) in
      read_line-rtpmap ip d.payload_type d.clock_rate telephone_event []
        (event_encoding d.clock_rate) found le lt
        (split-piece b'/' telephone_event (decimal d.clock_rate) (ground arith) refl
          ∙ ap (λ t. telephone_event ∷ t)
              (split-last b'/' (decimal d.clock_rate)
                (Reads-without d.clock_rate (decimal d.clock_rate) b'/' r (inl (omega arith)))))
        (EndsVisible-append (telephone_event ++ b'/' ∷ []) (decimal d.clock_rate)
          (Reads-EndsVisible d.clock_rate (decimal d.clock_rate) r))

  event_block :
      (event : Option DtmfSpec) (codec : AudioCodec) (rest : List Str) (found : Found)
      → IsEvent codec event
      → read_lines ip (event_lines event ++ rest) found
        ≡ read_lines ip rest (record found { rtpmaps = found.rtpmaps ++ map_list event })
  event_block none codec rest found h =
      ap (λ maps. read_lines ip rest (record found { rtpmaps = maps }))
        (sym (append-nil found.rtpmaps))
  event_block (some d) codec rest found (le, lt, ne) =
      let l = rtpmap_line d.payload_type (event_encoding d.clock_rate) in
      let l' = fmtp_line d.payload_type all_events in
      step l (l' ∷ rest) found (add_map (event_map d) found) (event_line d found le lt)
      ∙ step l' rest (add_map (event_map d) found) (add_map (event_map d) found) (
          read_line-fmtp ip d.payload_type all_events (add_map (event_map d) found)
            (record { above = omega arith; below = omega arith }))

  fec_block :
      (codec : AudioCodec) (rest : List Str) (found : Found)
      → read_lines ip (fec_lines codec ++ rest) found ≡ read_lines ip rest found
  fec_block pcmu rest found = refl
  fec_block pcma rest found = refl
  fec_block (opus pt) rest found =
      step (fmtp_line pt inband_fec) rest found found (
        read_line-fmtp ip pt inband_fec found (record { above = omega arith; below = omega arith }))

  menu_block :
      (menu : CodecMenu) (rest : List Str) (a port : ℕ)
      → IsMenu menu
      → read_lines ip (menu_lines menu ++ rest) (found_of a port (pts_of menu) [])
        ≡ read_lines ip rest (found_of a port (pts_of menu) (maps_of menu))
  menu_block full rest a port h =
      let found = λ (maps : List RtpMap). found_of a port (pts_of full) maps in
      let low = spec 101 8000 in
      let high = spec 110 48000 in
      let opus_map = codec_map (opus 111) in
      let maps = opus_map ∷ codec_map pcmu ∷ codec_map pcma ∷ [] in
      step _ _ (found []) (found (opus_map ∷ [])) (codec_line (opus 111) (found []) (omega arith))
      ∙ fec_block (opus 111) _ (found (opus_map ∷ []))
      ∙ step _ _ (found (opus_map ∷ [])) (found (opus_map ∷ codec_map pcmu ∷ []))
          (codec_line pcmu (found (opus_map ∷ [])) (omega arith))
      ∙ step _ (event_lines (some low) ++ (event_lines (some high) ++ rest))
          (found (opus_map ∷ codec_map pcmu ∷ [])) (found maps)
          (codec_line pcma (found (opus_map ∷ codec_map pcmu ∷ [])) (omega arith))
      ∙ event_block (some low) pcmu (event_lines (some high) ++ rest) (found maps) (omega arith)
      ∙ event_block (some high) pcmu rest (found (maps ++ event_map low ∷ [])) (omega arith)
  menu_block (pinned codec event) rest a port (le, h) =
      let pts = pts_of (pinned codec event) in
      let l = rtpmap_line (codec_payload_type codec) (rtpmap_encoding codec) in
      let with_codec = found_of a port pts (codec_map codec ∷ []) in
      step l ((fec_lines codec ++ event_lines event) ++ rest) (found_of a port pts []) with_codec
        (codec_line codec (found_of a port pts []) le)
      ∙ ap (λ ls. read_lines ip ls with_codec)
          (append_assoc (fec_lines codec) (event_lines event) rest)
      ∙ fec_block codec (event_lines event ++ rest) with_codec
      ∙ event_block event codec rest with_codec h

  audio_line :
      (port : ℕ) (menu : CodecMenu) (found : Found)
      → port ≤ 65535
      → IsMenu menu
      → read_line ip (m_line port (join (b' ' ∷ []) (menu_pts menu))) found
        ≡ add_audio port (pts_of menu) found
  audio_line port full found small h =
      read_line-m ip port 111 (0 ∷ 8 ∷ 101 ∷ 110 ∷ []) _ _ found small (pt_words full h)
  audio_line port (pinned codec event) found small h =
      read_line-m ip port (codec_payload_type codec) (pt_list event) _ _ found small
        (pt_words (pinned codec event) h)

  header_block :
      (a port version x : ℕ) (s : Str) (menu : CodecMenu) (direction : MediaDirection)
      → port ≤ 65535
      → IsMenu menu
      → All IsVisible (x ∷ s)
      → ip.parse (x ∷ s) ≡ some a
      → read_lines ip (sdp_lines (x ∷ s) port menu direction version) nothing_found
        ≡ read_lines ip
            (menu_lines menu ++ direction_line direction ∷ [])
            (found_of a port (pts_of menu) [])
  header_block a port version x s menu direction small h visible reads =
      let start = nothing_found in
      let located : Found = record start { found_addr = some a } in
      let m = m_line port (join (b' ' ∷ []) (menu_pts menu)) in
      let rest = menu_lines menu ++ direction_line direction ∷ [] in
      step v_line _ start start (read_line-v ip start)
      ∙ step (o_line version (x ∷ s)) _ start start
          (read_line-o ip version (x ∷ s) start (All-EndsVisible x s visible))
      ∙ step s_line _ start start (read_line-s ip start)
      ∙ step (c_line (x ∷ s)) _ start located (read_line-c ip a x s start visible reads)
      ∙ step t_line (m ∷ rest) located located (read_line-t ip located)
      ∙ step m rest located (found_of a port (pts_of menu) [])
          (audio_line port menu located small h)

  read_lines-menu :
      (a port version x : ℕ) (s : Str) (menu : CodecMenu) (direction : MediaDirection)
      → port ≤ 65535
      → IsMenu menu
      → All IsVisible (x ∷ s)
      → ip.parse (x ∷ s) ≡ some a
      → read_lines ip (sdp_lines (x ∷ s) port menu direction version) nothing_found
        ≡ found_of a port (pts_of menu) (maps_of menu)
  unfolding read_lines
  read_lines-menu a port version x s menu direction small h visible reads =
      let all = found_of a port (pts_of menu) (maps_of menu) in
      header_block a port version x s menu direction small h visible reads
      ∙ menu_block menu (direction_line direction ∷ []) a port h
      ∙ read_line-direction ip direction all

parse_sdp-lines :
    (ip : IpText) (body : List ℕ) (ls : List Str)
    → from_utf8 body ≡ some body
    → lines body ≡ ls
    → parse_sdp ip body ≡ media_of (read_lines ip ls nothing_found)
unfolding parse_sdp
parse_sdp-lines ip body ls e e' =
    let read : parse_sdp ip body ≡ media_of (read_lines ip (lines body) nothing_found) =
      ground (arith, e) in
    read ∙ ap (λ l. media_of (read_lines ip l nothing_found)) e'

-- A body that is built with a menu whose numbers fit their types, and an event type that is not
-- the codec's, parses to the address, the port, the codec and the events of the menu: the full menu
-- as Opus first with both events, a pinned one as its codec and its event alone. The direction and
-- the version make no difference.
pub parse_sdp-build_sdp_with :
    (ip : IpText) (a port : ℕ) (menu : CodecMenu) (direction : MediaDirection) (version : ℕ)
    → IpLaws ip
    → port ≤ 65535
    → version < 2 ^ 32
    → IsMenu menu
    → parse_sdp ip (build_sdp_with ip a port menu direction version)
      ≡ media (menu_media a port menu)
parse_sdp-build_sdp_with ip a port menu direction version laws small fits h =
    let text = ip.print a in
    let ls = sdp_lines text port menu direction version in
    let plain = sdp_lines-inline text port menu direction version (laws.visible a) small fits h in
    let read =
      subst
        (λ t.
          read_lines ip (sdp_lines t port menu direction version) nothing_found
          ≡ found_of a port (pts_of menu) (maps_of menu))
        (sym (laws.is a))
        (read_lines-menu ip a port version (laws.first a) (laws.rest a) menu direction small h
          (subst (All IsVisible) (laws.is a) (laws.visible a))
          (subst (λ t. ip.parse t ≡ some a) (laws.is a) (laws.reads a))) in
    ap (parse_sdp ip) (build_sdp_with-lines ip a port menu direction version)
    ∙ parse_sdp-lines ip (text_of ls) ls (from_utf8-text_of ls plain) (lines-text_of ls plain)
    ∙ ap media_of read
    ∙ media_of-menu a port menu h

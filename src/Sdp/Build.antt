-- ===== src/Sdp/Build.antt =====
-- crates/wavekat-sip/src/sdp.rs, `build_sdp_with`: the body of an offer or an answer. A text of ASCII
-- characters is its own bytes.
use wavekat_sip.Base.{ℕ, List, [], ◌∷◌, ◌++◌, Option, none, some}
use wavekat_sip.Sip.{Str}
use wavekat_sip.Text.{decimal}
use wavekat_sip.Sdp.{
  MediaDirection, send_recv, send_only, inactive, AudioCodec, pcmu, pcma, opus, DtmfSpec, CodecMenu,
  full, pinned, IpText, codec_payload_type, a_rtpmap, m_audio,
}

abbrev pub attribute : MediaDirection → Str
attribute send_recv = b's' ∷ b'e' ∷ b'n' ∷ b'd' ∷ b'r' ∷ b'e' ∷ b'c' ∷ b'v' ∷ []
attribute send_only = b's' ∷ b'e' ∷ b'n' ∷ b'd' ∷ b'o' ∷ b'n' ∷ b'l' ∷ b'y' ∷ []
attribute inactive = b'i' ∷ b'n' ∷ b'a' ∷ b'c' ∷ b't' ∷ b'i' ∷ b'v' ∷ b'e' ∷ []

abbrev pub rtpmap_encoding : AudioCodec → Str
rtpmap_encoding pcmu = b'P' ∷ b'C' ∷ b'M' ∷ b'U' ∷ b'/' ∷ b'8' ∷ b'0' ∷ b'0' ∷ b'0' ∷ []
rtpmap_encoding pcma = b'P' ∷ b'C' ∷ b'M' ∷ b'A' ∷ b'/' ∷ b'8' ∷ b'0' ∷ b'0' ∷ b'0' ∷ []
rtpmap_encoding (opus pt) =
    b'o' ∷ b'p' ∷ b'u' ∷ b's' ∷ b'/' ∷ b'4' ∷ b'8' ∷ b'0' ∷ b'0' ∷ b'0' ∷ b'/' ∷ b'2' ∷ []

abbrev pub rtpmap_line : ℕ → Str → Str
rtpmap_line pt encoding = a_rtpmap ++ (decimal pt ++ b' ' ∷ encoding)

abbrev pub a_fmtp : Str
a_fmtp = b'a' ∷ b'=' ∷ b'f' ∷ b'm' ∷ b't' ∷ b'p' ∷ b':' ∷ []

abbrev pub fmtp_line : ℕ → Str → Str
fmtp_line pt parameters = a_fmtp ++ (decimal pt ++ b' ' ∷ parameters)

abbrev pub inband_fec : Str
inband_fec =
    b'u' ∷ b's' ∷ b'e' ∷ b'i' ∷ b'n' ∷ b'b' ∷ b'a' ∷ b'n' ∷ b'd' ∷ b'f' ∷ b'e' ∷ b'c' ∷ b'=' ∷ b'1'
    ∷ []

abbrev pub all_events : Str
all_events = b'0' ∷ b'-' ∷ b'1' ∷ b'5' ∷ []

abbrev pub event_encoding : ℕ → Str
event_encoding clock =
    (b't' ∷ b'e' ∷ b'l' ∷ b'e' ∷ b'p' ∷ b'h' ∷ b'o' ∷ b'n' ∷ b'e' ∷ b'-' ∷ b'e' ∷ b'v' ∷ b'e' ∷ b'n'
      ∷ b't' ∷ b'/' ∷ [])
    ++ decimal clock

abbrev pub fec_lines : AudioCodec → List Str
fec_lines (opus pt) = fmtp_line pt inband_fec ∷ []
fec_lines codec = []

abbrev pub event_pts : Option DtmfSpec → List Str
event_pts none = []
event_pts (some d) = decimal d.payload_type ∷ []

abbrev pub event_lines : Option DtmfSpec → List Str
event_lines none = []
event_lines (some d) =
    rtpmap_line d.payload_type (event_encoding d.clock_rate)
    ∷ fmtp_line d.payload_type all_events
    ∷ []

-- The payload types of the `m=` line, and the `a=` lines, of a menu.
abbrev pub menu_pts : CodecMenu → List Str
menu_pts full = decimal 111 ∷ (b'0' ∷ []) ∷ (b'8' ∷ []) ∷ decimal 101 ∷ decimal 110 ∷ []
menu_pts (pinned codec event) = decimal (codec_payload_type codec) ∷ event_pts event

abbrev pub menu_lines : CodecMenu → List Str
menu_lines full =
    rtpmap_line 111 (rtpmap_encoding (opus 111))
    ∷ fmtp_line 111 inband_fec
    ∷ rtpmap_line 0 (rtpmap_encoding pcmu)
    ∷ rtpmap_line 8 (rtpmap_encoding pcma)
    ∷ rtpmap_line 101 (event_encoding 8000)
    ∷ fmtp_line 101 all_events
    ∷ rtpmap_line 110 (event_encoding 48000)
    ∷ fmtp_line 110 all_events
    ∷ []
menu_lines (pinned codec event) =
    rtpmap_line (codec_payload_type codec) (rtpmap_encoding codec)
    ∷ (fec_lines codec ++ event_lines event)

-- `join`.
unfoldable pub join : Str → List Str → Str
join sep [] = []
join sep (s ∷ []) = s
join sep (s ∷ t ∷ rest) = s ++ (sep ++ join sep (t ∷ rest))

abbrev pub crlf : Str
crlf = b'\r' ∷ b'\n' ∷ []

abbrev pub in_ip4 : Str
in_ip4 = b'I' ∷ b'N' ∷ b' ' ∷ b'I' ∷ b'P' ∷ b'4' ∷ b' ' ∷ []

module _ (ip : IpText) where
  unfoldable pub build_sdp_with : ℕ → ℕ → CodecMenu → MediaDirection → ℕ → List ℕ
  unfolding join
  build_sdp_with local_ip rtp_port menu direction version =
      (b'v' ∷ b'=' ∷ b'0' ∷ [])
      ++ (crlf
          ++ ((b'o' ∷ b'=' ∷ b'w' ∷ b'a' ∷ b'v' ∷ b'e' ∷ b'k' ∷ b'a' ∷ b't' ∷ b' ' ∷ b'0' ∷ b' '
                ∷ [])
              ++ (decimal version
                  ++ (b' '
                      ∷ (in_ip4
                          ++ (ip.print local_ip
                              ++ (crlf
                                  ++ ((b's' ∷ b'=' ∷ b'w' ∷ b'a' ∷ b'v' ∷ b'e' ∷ b'k' ∷ b'a' ∷ b't'
                                        ∷ b'-' ∷ b's' ∷ b'i' ∷ b'p' ∷ [])
                                      ++ (crlf
                                          ++ ((b'c' ∷ b'=' ∷ [])
                                              ++ (in_ip4
                                                  ++ (ip.print local_ip
                                                      ++ (crlf
                                                          ++ ((b't' ∷ b'=' ∷ b'0' ∷ b' ' ∷ b'0'
                                                            ∷ [])
                                                            ++ (crlf
                                                            ++ (m_audio
                                                            ++ (decimal rtp_port
                                                            ++ ((b' ' ∷ b'R' ∷ b'T' ∷ b'P' ∷ b'/'
                                                            ∷ b'A' ∷ b'V' ∷ b'P' ∷ b' ' ∷ [])
                                                            ++ (join (b' ' ∷ []) (menu_pts menu)
                                                            ++ (crlf
                                                            ++ (join crlf (menu_lines menu)
                                                            ++ (crlf
                                                            ++ ((b'a' ∷ b'=' ∷ [])
                                                            ++ (attribute direction
                                                            ++ crlf))))))))))))))))))))))))

  unfoldable pub build_sdp_offer : ℕ → ℕ → List ℕ
  unfolding build_sdp_with
  build_sdp_offer local_ip rtp_port = build_sdp_with local_ip rtp_port full send_recv 0

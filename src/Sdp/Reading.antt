-- ===== src/Sdp/Reading.antt =====
-- crates/wavekat-sip/src/sdp.rs, `parse_sdp`: what it reads of the lines that `build_sdp_with` writes.
use mathlib.Core.Path.{subst}
use wavekat_sip.Base.{
  ℕ, ◌-◌, ◌<◌, ◌≤◌, ◌^◌, ◌≡◌, refl, sym, ap, ◌∙◌, arith, List, [], ◌∷◌, ◌++◌, some, All,
}
use wavekat_sip.Sip.{Str}
use wavekat_sip.Text.{
  trim, split_whitespace, split_at_whitespace, non_empty, strip_prefix, parse_uint, first_word,
  split, decimal, to_ascii_lowercase,
}
use wavekat_sip.Text.Words.{
  IsVisible, StartsVisible, EndsVisible, All-EndsVisible, EndsVisible-append, trim-visible,
  split_at_whitespace-word, split_at_whitespace-last, first_word-word,
}
use wavekat_sip.Text.Decimal.{
  Reads, decimal-Reads, Reads-IsVisible, Reads-EndsVisible, parse_uint-Reads,
}
use wavekat_sip.Sdp.{
  MediaDirection, send_recv, send_only, inactive, AudioCodec, pcmu, pcma, opus, DtmfSpec, IpText,
  RtpMap, Found, m_audio, a_rtpmap, codec_payload_type, rtp_clock_rate, numbers, read_connection,
  read_audio, read_rtpmap, read_trimmed, read_line,
}
use wavekat_sip.Sdp.Parse.{opus_name, pcmu_name, pcma_name, telephone_event}
use wavekat_sip.Sdp.Build.{a_fmtp, rtpmap_line, fmtp_line, in_ip4, join}
use wavekat_sip.Sdp.Lines.{
  o_start, rtp_avp, o_line, v_line, s_line, c_line, t_line, m_line, direction_line,
}

-- Documented behaviour of `IpAddr`: its text is visible ASCII and reads back.
pub record IpLaws (ip : IpText) : Type 0 where
  pub reads : (a : ℕ) → ip.parse (ip.print a) ≡ some a
  pub first : ℕ → ℕ
  pub rest : ℕ → Str
  pub is : (a : ℕ) → ip.print a ≡ first a ∷ rest a
  pub visible : (a : ℕ) → All IsVisible (ip.print a)

-- The mapping that a line for this codec gives.
abbrev pub codec_name : AudioCodec → Str
codec_name pcmu = pcmu_name
codec_name pcma = pcma_name
codec_name (opus pt) = opus_name

abbrev pub codec_map : AudioCodec → RtpMap
codec_map codec = record {
  mapped = codec_payload_type codec;
  encoding = codec_name codec;
  rate = rtp_clock_rate codec;
}

abbrev pub event_map : DtmfSpec → RtpMap
event_map d = record { mapped = d.payload_type; encoding = telephone_event; rate = d.clock_rate }

abbrev pub add_map : RtpMap → Found → Found
add_map entry found = record found { rtpmaps = found.rtpmaps ++ entry ∷ [] }

abbrev pub add_audio : ℕ → List ℕ → Found → Found
add_audio port pts found = record found {
  found_port = some port;
  audio_pts = found.audio_pts ++ pts;
}

abbrev c_in : Str
c_in = b'c' ∷ b'=' ∷ b'I' ∷ b'N' ∷ []

abbrev ip4 : Str
ip4 = b'I' ∷ b'P' ∷ b'4' ∷ []

module _ (ip : IpText) where
  pub read_line-v : (found : Found) → read_line ip v_line found ≡ found
  unfolding read_line trim strip_prefix
  read_line-v found = refl

  pub read_line-s : (found : Found) → read_line ip s_line found ≡ found
  unfolding read_line trim strip_prefix
  read_line-s found = refl

  pub read_line-t : (found : Found) → read_line ip t_line found ≡ found
  unfolding read_line trim strip_prefix
  read_line-t found = refl

  pub read_line-direction :
      (direction : MediaDirection) (found : Found)
      → read_line ip (direction_line direction) found ≡ found
  unfolding read_line trim strip_prefix
  read_line-direction send_recv found = refl
  read_line-direction send_only found = refl
  read_line-direction inactive found = refl

  -- A line that starts and ends with visible characters is read as it is.
  read_line-visible :
      (line : Str) (found : Found)
      → StartsVisible line
      → EndsVisible line
      → read_line ip line found ≡ read_trimmed ip line found
  unfolding read_line
  read_line-visible line found starts ends =
      ap (λ l. read_trimmed ip l found) (trim-visible line starts ends)

  pub read_line-o :
      (version : ℕ) (addr : Str) (found : Found)
      → EndsVisible addr
      → read_line ip (o_line version addr) found ≡ found
  unfolding read_trimmed strip_prefix
  read_line-o version addr found ends =
      read_line-visible (o_line version addr) found
        (record { above = omega arith; below = omega arith })
        (EndsVisible-append o_start (decimal version ++ (b' ' ∷ (in_ip4 ++ addr))) (
          EndsVisible-append (decimal version) (b' ' ∷ (in_ip4 ++ addr))
            (EndsVisible-append (b' ' ∷ in_ip4) addr ends)))

  pub read_line-fmtp :
      (pt : ℕ) (parameters : Str) (found : Found)
      → EndsVisible parameters
      → read_line ip (fmtp_line pt parameters) found ≡ found
  unfolding read_trimmed strip_prefix
  read_line-fmtp pt parameters found ends =
      read_line-visible (fmtp_line pt parameters) found
        (record { above = omega arith; below = omega arith })
        (EndsVisible-append a_fmtp (decimal pt ++ (b' ' ∷ parameters)) (
          EndsVisible-append (decimal pt) (b' ' ∷ parameters)
            (EndsVisible-append (b' ' ∷ []) parameters ends)))

  c_words :
      (x : ℕ) (s : Str)
      → All IsVisible (x ∷ s)
      → split_whitespace (c_line (x ∷ s)) ≡ c_in ∷ ip4 ∷ (x ∷ s) ∷ []
  unfolding split_whitespace
  c_words x s visible = ap non_empty (
      split_at_whitespace-word c_in (ip4 ++ b' ' ∷ x ∷ s) (omega arith)
      ∙ ap (λ t. c_in ∷ t)
          (split_at_whitespace-word ip4 (x ∷ s) (omega arith)
            ∙ ap (λ t. ip4 ∷ t) (split_at_whitespace-last (x ∷ s) visible)))

  read_connection-third :
      (line : Str) (a : ℕ) (u v t : Str) (found : Found)
      → split_whitespace line ≡ u ∷ v ∷ t ∷ []
      → ip.parse t ≡ some a
      → read_connection ip line found ≡ record found { found_addr = some a }
  unfolding read_connection
  read_connection-third line a u v t found e e' = ground (arith, e, e')

  pub read_line-c :
      (a x : ℕ) (s : Str) (found : Found)
      → All IsVisible (x ∷ s)
      → ip.parse (x ∷ s) ≡ some a
      → read_line ip (c_line (x ∷ s)) found ≡ record found { found_addr = some a }
  unfolding read_trimmed strip_prefix
  read_line-c a x s found visible reads =
      read_line-visible (c_line (x ∷ s)) found (record { above = omega arith; below = omega arith })
        (EndsVisible-append (b'c' ∷ b'=' ∷ in_ip4) (x ∷ s) (All-EndsVisible x s visible))
      ∙ read_connection-third (c_line (x ∷ s)) a c_in ip4 (x ∷ s) found (c_words x s visible) reads

-- The words of a line are the texts of these payload types.
abbrev pub ReadsAll : List ℕ → List Str → Type 0
ReadsAll [] [] = Unit
ReadsAll [] (w ∷ ws) = ⊥
ReadsAll (n ∷ ns) [] = ⊥
ReadsAll (n ∷ ns) (w ∷ ws) = Reads n w × (n ≤ 255) × ReadsAll ns ws

non_empty-first :
    (w : Str) (x : ℕ) (s : Str) (ws : List Str) → w ≡ x ∷ s → non_empty (w ∷ ws) ≡ w ∷ non_empty ws
non_empty-first w x s ws e = subst (λ t. non_empty (t ∷ ws) ≡ t ∷ non_empty ws) (sym e) refl

non_empty-ReadsAll : (ns : List ℕ) (ws : List Str) → ReadsAll ns ws → non_empty ws ≡ ws
non_empty-ReadsAll [] [] h = refl
non_empty-ReadsAll [] (w ∷ ws) h = elim h [ ]
non_empty-ReadsAll (n ∷ ns) [] h = elim h [ ]
non_empty-ReadsAll (n ∷ ns) (w ∷ ws) (r, le, h) =
    non_empty-first w r.first r.rest ws r.is ∙ ap (λ t. w ∷ t) (non_empty-ReadsAll ns ws h)

numbers-cons :
    (limit n : ℕ) (w : Str) (ws : List Str)
    → parse_uint limit w ≡ some n
    → numbers limit (w ∷ ws) ≡ n ∷ numbers limit ws
unfolding numbers
numbers-cons limit n w ws e = ground (arith, e)

numbers-ReadsAll : (ns : List ℕ) (ws : List Str) → ReadsAll ns ws → numbers 255 ws ≡ ns
unfolding numbers
numbers-ReadsAll [] [] h = refl
numbers-ReadsAll [] (w ∷ ws) h = elim h [ ]
numbers-ReadsAll (n ∷ ns) [] h = elim h [ ]
numbers-ReadsAll (n ∷ ns) (w ∷ ws) (r, le, h) =
    numbers-cons 255 n w ws (parse_uint-Reads 255 n w r le)
    ∙ ap (λ t. n ∷ t) (numbers-ReadsAll ns ws h)

split-join :
    (n : ℕ) (ns : List ℕ) (w : Str) (ws : List Str)
    → ReadsAll (n ∷ ns) (w ∷ ws)
    → split_at_whitespace (join (b' ' ∷ []) (w ∷ ws)) ≡ w ∷ ws
unfolding join
split-join n [] w [] (r, le, h) = split_at_whitespace-last w (Reads-IsVisible n w r)
split-join n [] w (v ∷ ws) (r, le, h) = elim h [ ]
split-join n (m ∷ ns) w [] (r, le, h) = elim h [ ]
split-join n (m ∷ ns) w (v ∷ ws) (r, le, h) =
    split_at_whitespace-word w (join (b' ' ∷ []) (v ∷ ws)) (Reads-IsVisible n w r)
    ∙ ap (λ t. w ∷ t) (split-join m ns v ws h)

abbrev m_word : Str
m_word = b'm' ∷ b'=' ∷ b'a' ∷ b'u' ∷ b'd' ∷ b'i' ∷ b'o' ∷ []

abbrev avp_word : Str
avp_word = b'R' ∷ b'T' ∷ b'P' ∷ b'/' ∷ b'A' ∷ b'V' ∷ b'P' ∷ []

m_words :
    (port n : ℕ) (ns : List ℕ) (w : Str) (ws : List Str)
    → Reads port (decimal port)
    → ReadsAll (n ∷ ns) (w ∷ ws)
    → split_whitespace (m_line port (join (b' ' ∷ []) (w ∷ ws)))
      ≡ m_word ∷ decimal port ∷ avp_word ∷ w ∷ ws
unfolding split_whitespace
m_words port n ns w ws r all =
    let pts = join (b' ' ∷ []) (w ∷ ws) in
    ap non_empty (
      split_at_whitespace-word m_word (decimal port ++ b' ' ∷ (avp_word ++ b' ' ∷ pts))
        (omega arith)
      ∙ ap (λ t. m_word ∷ t)
          (split_at_whitespace-word (decimal port) (avp_word ++ b' ' ∷ pts)
              (Reads-IsVisible port (decimal port) r)
            ∙ ap (λ t. decimal port ∷ t)
                (split_at_whitespace-word avp_word pts (omega arith)
                  ∙ ap (λ t. avp_word ∷ t) (split-join n ns w ws all))))
    ∙ ap (λ t. m_word ∷ t)
        (non_empty-first (decimal port) r.first r.rest (avp_word ∷ w ∷ ws) r.is
          ∙ ap (λ t. decimal port ∷ avp_word ∷ t) (non_empty-ReadsAll (n ∷ ns) (w ∷ ws) all))

read_audio-words :
    (line : Str) (port : ℕ) (u p v : Str) (ws : List Str) (ns : List ℕ) (found : Found)
    → split_whitespace line ≡ u ∷ p ∷ v ∷ ws
    → parse_uint 65535 p ≡ some port
    → numbers 255 ws ≡ ns
    → read_audio line found ≡ add_audio port ns found
unfolding read_audio
read_audio-words line port u p v ws ns found e e' e'' = ground (arith, e, e', e'')

join-EndsVisible :
    (n : ℕ) (ns : List ℕ) (w : Str) (ws : List Str)
    → ReadsAll (n ∷ ns) (w ∷ ws)
    → EndsVisible (join (b' ' ∷ []) (w ∷ ws))
unfolding join
join-EndsVisible n [] w [] (r, le, h) = Reads-EndsVisible n w r
join-EndsVisible n [] w (v ∷ ws) (r, le, h) = elim h [ ]
join-EndsVisible n (m ∷ ns) w [] (r, le, h) = elim h [ ]
join-EndsVisible n (m ∷ ns) w (v ∷ ws) (r, le, h) =
    let rest = join (b' ' ∷ []) (v ∷ ws) in
    EndsVisible-append w (b' ' ∷ rest)
      (EndsVisible-append (b' ' ∷ []) rest (join-EndsVisible m ns v ws h))

module _ (ip : IpText) where
  pub read_line-m :
      (port n : ℕ) (ns : List ℕ) (w : Str) (ws : List Str) (found : Found)
      → port ≤ 65535
      → ReadsAll (n ∷ ns) (w ∷ ws)
      → read_line ip (m_line port (join (b' ' ∷ []) (w ∷ ws))) found ≡ add_audio port (n ∷ ns) found
  unfolding read_trimmed strip_prefix
  read_line-m port n ns w ws found small all =
      let r = decimal-Reads port (omega (arith, small)) in
      let pts = join (b' ' ∷ []) (w ∷ ws) in
      let line = m_line port pts in
      read_line-visible ip line found (record { above = omega arith; below = omega arith })
        (EndsVisible-append m_audio (decimal port ++ (rtp_avp ++ pts)) (
          EndsVisible-append (decimal port) (rtp_avp ++ pts)
            (EndsVisible-append rtp_avp pts (join-EndsVisible n ns w ws all))))
      ∙ read_audio-words line port m_word (decimal port) avp_word (w ∷ ws) (n ∷ ns) found
          (m_words port n ns w ws r all) (parse_uint-Reads 65535 port (decimal port) r small)
          (numbers-ReadsAll (n ∷ ns) (w ∷ ws) all)

  -- A mapping line, whose encoding has a name and a rate.
  read_rtpmap-parts :
      (pt rate : ℕ) (rest name digits more : Str) (pieces : List Str) (found : Found)
      → first_word rest ≡ (digits, more)
      → split b'/' more ≡ name ∷ decimal rate ∷ pieces
      → parse_uint 255 digits ≡ some pt
      → parse_uint (2 ^ 32 - 1) (decimal rate) ≡ some rate
      → read_rtpmap rest found
        ≡ add_map (record { mapped = pt; encoding = to_ascii_lowercase name; rate = rate }) found
  unfolding read_rtpmap
  read_rtpmap-parts pt rate rest name digits more pieces found e e' e'' e''' =
      ground (arith, e, e', e'', e''')

  pub read_line-rtpmap :
      (pt rate : ℕ) (name : Str) (pieces : List Str) (encoding : Str) (found : Found)
      → pt ≤ 255
      → rate < 2 ^ 32
      → split b'/' encoding ≡ name ∷ decimal rate ∷ pieces
      → EndsVisible encoding
      → read_line ip (rtpmap_line pt encoding) found
        ≡ add_map (record { mapped = pt; encoding = to_ascii_lowercase name; rate = rate }) found
  unfolding read_trimmed strip_prefix
  read_line-rtpmap pt rate name pieces encoding found small small' split_is ends =
      let r = decimal-Reads pt (omega (arith, small)) in
      let r' = decimal-Reads rate (omega (arith, small')) in
      read_line-visible ip (rtpmap_line pt encoding) found
        (record { above = omega arith; below = omega arith })
        (EndsVisible-append a_rtpmap (decimal pt ++ b' ' ∷ encoding) (
          EndsVisible-append (decimal pt) (b' ' ∷ encoding)
            (EndsVisible-append (b' ' ∷ []) encoding ends)))
      ∙ read_rtpmap-parts pt rate (decimal pt ++ b' ' ∷ encoding) name (decimal pt) encoding pieces
          found (first_word-word (decimal pt) encoding (Reads-IsVisible pt (decimal pt) r)) split_is
          (parse_uint-Reads 255 pt (decimal pt) r small)
          (parse_uint-Reads (2 ^ 32 - 1) rate (decimal rate) r' (omega (arith, small')))

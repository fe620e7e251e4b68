-- ===== src/Sdp/Lines.antt =====
-- crates/wavekat-sip/src/sdp.rs, `build_sdp_with`: the body as its lines.
use wavekat_sip.Base.{
  ℕ, ◌<◌, ◌≡◌, refl, ap, ◌∙◌, arith, List, [], ◌∷◌, ◌++◌, append_assoc, some, All,
}
use wavekat_sip.Sip.{Str}
use wavekat_sip.Text.{from_utf8, lines, decimal}
use wavekat_sip.Text.Words.{IsInline, All-append, All-map, from_utf8-inline, lines-line}
use wavekat_sip.Sdp.{MediaDirection, CodecMenu, full, pinned, IpText, m_audio}
use wavekat_sip.Sdp.Build.{attribute, menu_pts, menu_lines, join, crlf, in_ip4, build_sdp_with}

-- Lines, each with its line break.
abbrev pub text_of : List Str → Str
text_of [] = []
text_of (l ∷ ls) = l ++ b'\r' ∷ b'\n' ∷ text_of ls

pub lines-text_of : (ls : List Str) → All (All IsInline) ls → lines (text_of ls) ≡ ls
unfolding lines
lines-text_of [] a = refl
lines-text_of (l ∷ ls) (h, a) =
    lines-line l (text_of ls) h ∙ ap (λ rest. l ∷ rest) (lines-text_of ls a)

inline-ascii : (c : ℕ) → IsInline c → c < 128
inline-ascii c h = omega (arith, h.below)

text_of-ascii : (ls : List Str) → All (All IsInline) ls → All (λ c. c < 128) (text_of ls)
text_of-ascii [] a = ground arith
text_of-ascii (l ∷ ls) (h, a) =
    All-append (λ c. c < 128) l (b'\r' ∷ b'\n' ∷ text_of ls)
      (All-map IsInline (λ c. c < 128) inline-ascii l h)
      (omega arith, (omega arith, text_of-ascii ls a))

pub from_utf8-text_of :
    (ls : List Str) → All (All IsInline) ls → from_utf8 (text_of ls) ≡ some (text_of ls)
from_utf8-text_of ls a = from_utf8-inline (text_of ls) (text_of-ascii ls a)

text_of-append : (ls ms : List Str) → text_of (ls ++ ms) ≡ text_of ls ++ text_of ms
text_of-append [] ms = refl
text_of-append (l ∷ ls) ms = simp (text_of-append ls ms, append_assoc)

join-text_of :
    (l : Str) (ls : List Str) (rest : Str)
    → join crlf (l ∷ ls) ++ (crlf ++ rest) ≡ text_of (l ∷ ls) ++ rest
unfolding join
join-text_of l [] rest = simp append_assoc
join-text_of l (m ∷ ls) rest = simp (append_assoc, join-text_of m ls rest)

menu-text_of :
    (menu : CodecMenu) (rest : Str)
    → join crlf (menu_lines menu) ++ (crlf ++ rest) ≡ text_of (menu_lines menu) ++ rest
menu-text_of full rest = join-text_of _ _ rest
menu-text_of (pinned codec event) rest = join-text_of _ _ rest

abbrev pub v_line : Str
v_line = b'v' ∷ b'=' ∷ b'0' ∷ []

abbrev pub o_start : Str
o_start = b'o' ∷ b'=' ∷ b'w' ∷ b'a' ∷ b'v' ∷ b'e' ∷ b'k' ∷ b'a' ∷ b't' ∷ b' ' ∷ b'0' ∷ b' ' ∷ []

abbrev pub rtp_avp : Str
rtp_avp = b' ' ∷ b'R' ∷ b'T' ∷ b'P' ∷ b'/' ∷ b'A' ∷ b'V' ∷ b'P' ∷ b' ' ∷ []

abbrev pub o_line : ℕ → Str → Str
o_line version addr = o_start ++ (decimal version ++ (b' ' ∷ (in_ip4 ++ addr)))

abbrev pub s_line : Str
s_line =
    b's' ∷ b'=' ∷ b'w' ∷ b'a' ∷ b'v' ∷ b'e' ∷ b'k' ∷ b'a' ∷ b't' ∷ b'-' ∷ b's' ∷ b'i' ∷ b'p' ∷ []

abbrev pub c_line : Str → Str
c_line addr = (b'c' ∷ b'=' ∷ []) ++ (in_ip4 ++ addr)

abbrev pub t_line : Str
t_line = b't' ∷ b'=' ∷ b'0' ∷ b' ' ∷ b'0' ∷ []

abbrev pub m_line : ℕ → Str → Str
m_line port pts = m_audio ++ (decimal port ++ (rtp_avp ++ pts))

abbrev pub direction_line : MediaDirection → Str
direction_line direction = (b'a' ∷ b'=' ∷ []) ++ attribute direction

abbrev pub sdp_lines : Str → ℕ → CodecMenu → MediaDirection → ℕ → List Str
sdp_lines addr port menu direction version =
    v_line
    ∷ o_line version addr
    ∷ s_line
    ∷ c_line addr
    ∷ t_line
    ∷ m_line port (join (b' ' ∷ []) (menu_pts menu))
    ∷ (menu_lines menu ++ direction_line direction ∷ [])

pub build_sdp_with-lines :
    (ip : IpText) (a port : ℕ) (menu : CodecMenu) (direction : MediaDirection) (version : ℕ)
    → build_sdp_with ip a port menu direction version
      ≡ text_of (sdp_lines (ip.print a) port menu direction version)
unfolding build_sdp_with
build_sdp_with-lines ip a port menu direction version =
    rw
      (
        menu-text_of menu ((b'a' ∷ b'=' ∷ []) ++ (attribute direction ++ crlf)),
        text_of-append (menu_lines menu) (direction_line direction ∷ []),
      )
      (simp append_assoc)

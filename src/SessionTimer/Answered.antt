-- ===== src/SessionTimer/Answered.antt =====
-- crates/wavekat-sip/src/session_timer.rs with callee.rs: the headers that an answer carries for a
-- session timer, as the caller reads them.
use mathlib.Core.Path.{subst}
use wavekat_sip.Base.{
  ℕ, ◌+◌, ◌-◌, ◌*◌, ◌≤◌, ◌≡◌, refl, inl, inr, Option-cases, arith, List, [], ◌∷◌, ◌++◌, Option,
  none, some,
}
use wavekat_sip.Sip.{Str, Header}
use wavekat_sip.Text.{parse_uint, digits_from, split, trim}
use wavekat_sip.Answer.{echoed}
use wavekat_sip.SessionTimer.{
  u32_max, SessionExpires, UasSessionTimer, parse, other_header_value, session_expires_in,
  min_se_in, next_piece, params_from, negotiate_uas, uas_timer, supports_timer, unwrap_or,
  min_se_name, session_expires_name,
}

digits_from-le :
    (limit acc : ℕ) (s : Str) (n : ℕ) → acc ≤ limit → digits_from limit acc s ≡ some n → n ≤ limit
unfolding digits_from
digits_from-le limit acc [] n small e = ground arith
digits_from-le limit acc (c ∷ s) n small e =
    ground (arith, digits_from-le limit (acc * 10 + (c - 48)) s n)

-- A number that reads within a limit.
pub parse_uint-le : (limit : ℕ) (s : Str) (n : ℕ) → parse_uint limit s ≡ some n → n ≤ limit
unfolding parse_uint
parse_uint-le limit [] n e = ground arith
parse_uint-le limit (c ∷ []) n e = digits_from-le limit 0 (c ∷ []) n (omega arith) e
parse_uint-le limit (c ∷ d ∷ s) n e =
    ground (arith, digits_from-le limit 0 (d ∷ s) n, digits_from-le limit 0 (c ∷ d ∷ s) n)

parse-le : (v : Str) (se : SessionExpires) → parse v ≡ some se → se.interval_secs ≤ u32_max
unfolding parse
parse-le v se e =
    let (first, params) = next_piece (split b';' v) in
    elim (Option-cases (parse_uint u32_max (trim first))) [
      | inl h ↦ let impossible : none ≡ some se = rw h at e in ground arith
      | inr (n, h) ↦
          let le = parse_uint-le u32_max (trim first) n h in
          elim (Option-cases (params_from none params)) [
            | inl h' ↦ let impossible : none ≡ some se = rw (h, h') at e in ground arith
            | inr (found, h') ↦
                let made : some (record { interval_secs = n; refresher = found }) ≡ some se =
                  rw (h, h') at e in
                ground arith
          ]
    ]

session_expires_in-le :
    (hs : List Header) (se : SessionExpires)
    → session_expires_in hs ≡ some se
    → se.interval_secs ≤ u32_max
unfolding session_expires_in
session_expires_in-le hs se e =
    let names = session_expires_name ∷ (b'x' ∷ []) ∷ [] in
    elim (Option-cases (other_header_value hs names)) [
      | inl h ↦ let impossible : none ≡ some se = rw h at e in ground arith
      | inr (raw, h) ↦ parse-le raw se (rw h at e)
    ]

min_se_in-le : (hs : List Header) (n : ℕ) → min_se_in hs ≡ some n → n ≤ u32_max
unfolding min_se_in
min_se_in-le hs n e = elim (Option-cases (other_header_value hs (min_se_name ∷ []))) [
  | inl h ↦ let impossible : none ≡ some n = rw h at e in ground arith
  | inr (raw, h) ↦
      let (first, _) = next_piece (split b';' raw) in
      parse_uint-le u32_max (trim first) n (rw h at e)
]

unwrap-le : (o : Option ℕ) → ((n : ℕ) → o ≡ some n → n ≤ u32_max) → unwrap_or 0 o ≤ u32_max
unwrap-le none h = omega arith
unwrap-le (some n) h = h n refl

-- The interval of an echo has 32 bits.
pub echo-le :
    (hs : List Header) (u : UasSessionTimer)
    → negotiate_uas hs ≡ some u
    → u.echo.interval_secs ≤ u32_max
unfolding negotiate_uas
echo-le hs u e = elim (Option-cases (session_expires_in hs)) [
  | inl h ↦ let impossible : none ≡ some u = rw h at e in ground arith
  | inr (se, h) ↦
      let le = session_expires_in-le hs se h in
      let floor = unwrap-le (min_se_in hs) (min_se_in-le hs) in
      let made : some (uas_timer se (min_se_in hs) (supports_timer hs)) ≡ some u = rw h at e in
      let interval : (uas_timer se (min_se_in hs) (supports_timer hs)).echo.interval_secs
          ≤ u32_max =
        omega (arith, le, floor) in
      let u_is : uas_timer se (min_se_in hs) (supports_timer hs) ≡ u = ground arith in
      subst (λ t. t.echo.interval_secs ≤ u32_max) u_is interval
]

pub other_header_value-append :
    (hs more : List Header) (names : List Str)
    → other_header_value hs names ≡ none
    → other_header_value (hs ++ more) names ≡ other_header_value more names
unfolding other_header_value
other_header_value-append [] more names e = refl
other_header_value-append (h ∷ hs) more names e =
    ground (arith, other_header_value-append hs more names)

pub other_header_value-echoed :
    (hs : List Header) (names : List Str) → other_header_value (echoed hs) names ≡ none
unfolding other_header_value echoed
other_header_value-echoed [] names = refl
other_header_value-echoed (h ∷ hs) names = ground (arith, other_header_value-echoed hs names)

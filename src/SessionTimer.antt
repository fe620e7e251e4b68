-- ===== src/SessionTimer.antt =====
-- crates/wavekat-sip/src/session_timer.rs: RFC 4028 session timers, their headers and negotiation.
-- An error message of a parser is only logged, so a parser returns an Option.
pub mod Run
pub mod Agreement
pub mod Answered
pub mod Headers
use wavekat_sip.Base.{
  ℕ, zero, suc, ◌+◌, ◌-◌, ◌*◌, ◌/◌, min, max, Bool, true, false, not, ◌&&◌, ◌||◌, List, [], ◌∷◌,
  ◌++◌, Option, none, some, ◌>>=◌, ltb, ◌==◌, if◌then◌else◌,
}
use wavekat_sip.Text.{trim, eq_ignore_ascii_case, split, split_once, parse_uint, decimal}
use wavekat_sip.Sip.{Str, Header, supported, require, other_header}

abbrev pub min_session_expires_secs : ℕ
min_session_expires_secs = 90

abbrev pub default_session_expires_secs : ℕ
default_session_expires_secs = 1800

abbrev pub max_expiry_headroom_secs : ℕ
max_expiry_headroom_secs = 32

abbrev pub u32_max : ℕ
u32_max = 4294967295

pub data Refresher : Type 0 where
  uac uas : Refresher

abbrev pub refresher_name : Str
refresher_name = b'r' ∷ b'e' ∷ b'f' ∷ b'r' ∷ b'e' ∷ b's' ∷ b'h' ∷ b'e' ∷ b'r' ∷ []

abbrev pub as_str : Refresher → Str
as_str uac = b'u' ∷ b'a' ∷ b'c' ∷ []
as_str uas = b'u' ∷ b'a' ∷ b's' ∷ []

-- `Refresher::parse`.
unfoldable pub parse_refresher : Str → Option Refresher
unfolding eq_ignore_ascii_case
parse_refresher s =
    if eq_ignore_ascii_case s (as_str uac)
    then some uac
    else if eq_ignore_ascii_case s (as_str uas)
    then some uas
    else none

pub record SessionExpires : Type 0 where
  pub interval_secs : ℕ
  pub refresher : Option Refresher

-- The loop of `SessionExpires::parse` over the parameters.
unfoldable pub params_from : Option Refresher → List Str → Option (Option Refresher)
unfolding parse_refresher trim split_once eq_ignore_ascii_case
params_from found [] = some found
params_from found (param ∷ params) =
    let skipped = params_from found params in
    elim (split_once b'=' param) [
      | none ↦ skipped
      | some (name, val) ↦
          if eq_ignore_ascii_case (trim name) refresher_name
          then (do r ← parse_refresher (trim val); params_from (some r) params)
          else skipped
    ]

-- `SessionExpires::header_value`.
unfoldable pub header_value : SessionExpires → Str
header_value se = elim se.refresher [
  | none ↦ decimal se.interval_secs
  | some r ↦ decimal se.interval_secs ++ (b';' ∷ (refresher_name ++ (b'=' ∷ as_str r)))
]

-- The first piece of a split, which has at least one, and the others.
abbrev pub next_piece : List Str → Str × List Str
next_piece [] = ([], [])
next_piece (piece ∷ pieces) = (piece, pieces)

-- `SessionExpires::parse`.
unfoldable pub parse : Str → Option SessionExpires
unfolding params_from split trim parse_uint
parse value =
    let (first, params) = next_piece (split b';' value) in
    do
      secs ← parse_uint u32_max (trim first)
      found ← params_from none params
      some (record { interval_secs = secs; refresher = found })

abbrev pub timer_tag : Str
timer_tag = b't' ∷ b'i' ∷ b'm' ∷ b'e' ∷ b'r' ∷ []

abbrev pub supported_timer_header : Header
supported_timer_header = supported timer_tag

abbrev pub require_timer_header : Header
require_timer_header = require timer_tag

abbrev pub session_expires_name : Str
session_expires_name =
    b'S' ∷ b'e' ∷ b's' ∷ b's' ∷ b'i' ∷ b'o' ∷ b'n' ∷ b'-' ∷ b'E' ∷ b'x' ∷ b'p' ∷ b'i' ∷ b'r' ∷ b'e'
    ∷ b's' ∷ []

-- `SessionExpires::header`.
abbrev pub session_expires_header : SessionExpires → Header
session_expires_header se = other_header session_expires_name (header_value se)

abbrev pub min_se_name : Str
min_se_name = b'M' ∷ b'i' ∷ b'n' ∷ b'-' ∷ b'S' ∷ b'E' ∷ []

abbrev pub supported_name : Str
supported_name = b'S' ∷ b'u' ∷ b'p' ∷ b'p' ∷ b'o' ∷ b'r' ∷ b't' ∷ b'e' ∷ b'd' ∷ []

unfoldable pub any_name : Str → List Str → Bool
unfolding eq_ignore_ascii_case
any_name name [] = false
any_name name (n ∷ ns) = eq_ignore_ascii_case name n || any_name name ns

-- `other_header_value`.
unfoldable pub other_header_value : List Header → List Str → Option Str
unfolding any_name
other_header_value [] names = none
other_header_value (other_header name value ∷ hs) names =
    let later = other_header_value hs names in if any_name name names then some value else later
other_header_value (_ ∷ hs) names = other_header_value hs names

unfoldable pub session_expires_in : List Header → Option SessionExpires
unfolding other_header_value parse
session_expires_in hs = do
  raw ← other_header_value hs (session_expires_name ∷ (b'x' ∷ []) ∷ [])
  parse raw

unfoldable pub min_se_in : List Header → Option ℕ
unfolding other_header_value split trim parse_uint
min_se_in hs = do
  raw ← other_header_value hs (min_se_name ∷ [])
  let (first, _) = next_piece (split b';' raw)
  parse_uint u32_max (trim first)

any_timer : List Str → Bool
unfolding trim eq_ignore_ascii_case
any_timer [] = false
any_timer (piece ∷ pieces) = eq_ignore_ascii_case (trim piece) timer_tag || any_timer pieces

has_timer_token : Str → Bool
unfolding any_timer split
has_timer_token value = any_timer (split b',' value)

unfoldable pub supports_timer : List Header → Bool
unfolding has_timer_token any_name
supports_timer [] = false
supports_timer (supported s ∷ hs) = has_timer_token s || supports_timer hs
supports_timer (other_header name value ∷ hs) =
    any_name name (supported_name ∷ (b'k' ∷ []) ∷ []) && has_timer_token value || supports_timer hs
supports_timer (_ ∷ hs) = supports_timer hs

pub record SessionTimer : Type 0 where
  pub interval_secs : ℕ
  pub we_are_refresher : Bool

-- In seconds.
abbrev pub refresh_after : SessionTimer → ℕ
refresh_after t = t.interval_secs / 2

abbrev pub expiry_after : SessionTimer → ℕ
expiry_after t = t.interval_secs - min (t.interval_secs / 3) max_expiry_headroom_secs

-- `refresher == Refresher::Uas`.
abbrev pub is_uas : Refresher → Bool
is_uas uac = false
is_uas uas = true

abbrev pub peer_is_uas : Option Refresher → Bool
peer_is_uas none = false
peer_is_uas (some r) = is_uas r

-- `negotiate_uac` on what `session_expires_in` gives.
abbrev pub uac_timer : SessionExpires → SessionTimer
uac_timer se = record {
  interval_secs = max (se.interval_secs) min_session_expires_secs;
  we_are_refresher = not (peer_is_uas (se.refresher));
}

unfoldable pub negotiate_uac : List Header → Option SessionTimer
unfolding session_expires_in
negotiate_uac hs = do se ← session_expires_in hs; some (uac_timer se)

pub record UasSessionTimer : Type 0 where
  pub timer : SessionTimer
  pub echo : SessionExpires
  pub require_timer : Bool

abbrev pub unwrap_or {ℓ} : {A : Type ℓ} → A → Option A → A
unwrap_or a none = a
unwrap_or a (some b) = b

-- `negotiate_uas` on what the header functions give.
abbrev pub uas_timer : SessionExpires → Option ℕ → Bool → UasSessionTimer
uas_timer se min_se peer_supports =
    let floor = max (unwrap_or 0 min_se) min_session_expires_secs in
    let interval = max (se.interval_secs) floor in
    let chosen = if peer_supports then unwrap_or uac (se.refresher) else uas in
    record {
      timer = record { interval_secs = interval; we_are_refresher = is_uas chosen };
      echo = record { interval_secs = interval; refresher = some chosen };
      require_timer = peer_supports;
    }

unfoldable pub negotiate_uas : List Header → Option UasSessionTimer
unfolding session_expires_in min_se_in supports_timer
negotiate_uas hs = do
  se ← session_expires_in hs
  some (uas_timer se (min_se_in hs) (supports_timer hs))

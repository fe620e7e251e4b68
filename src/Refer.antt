-- ===== src/Refer.antt =====
-- crates/wavekat-sip/src/refer.rs and dtmf_info.rs: the Refer-To header of a transfer, the status of a
-- NOTIFY body, and a digit as the body of an INFO. A URI is its text, a text its bytes.
pub mod Replaces
use wavekat_sip.Base.{
  ℕ, ◌+◌, ◌-◌, ◌/◌, ◌%◌, Bool, true, false, not, ◌&&◌, ◌||◌, List, [], ◌∷◌, ◌++◌, Option, none,
  some, ◌>>=◌, leb, ltb, ◌==◌, if◌then◌else◌,
}
use wavekat_sip.Sip.{Str, Header, other_header, content_type, Response}
use wavekat_sip.Text.{from_utf8, trim, lines, split_whitespace, strip_prefix, parse_uint, decimal}
use wavekat_sip.Dialog.{DialogId}
use wavekat_sip.Rtp.Dtmf.{DtmfDigit, as_char}

pub record DialogTriplet : Type 0 where
  pub triplet_call : Str
  pub triplet_local : Str
  pub triplet_remote : Str

-- `Call::dialog_triplet` of caller.rs.
abbrev pub dialog_triplet : DialogId → DialogTriplet
dialog_triplet i = record {
  triplet_call = i.id_call;
  triplet_local = i.local_tag;
  triplet_remote = i.remote_tag;
}

abbrev pub refer_to : Str
refer_to = b'R' ∷ b'e' ∷ b'f' ∷ b'e' ∷ b'r' ∷ b'-' ∷ b'T' ∷ b'o' ∷ []

abbrev pub to_tag : Str
to_tag = b';' ∷ b't' ∷ b'o' ∷ b'-' ∷ b't' ∷ b'a' ∷ b'g' ∷ b'=' ∷ []

abbrev pub from_tag : Str
from_tag = b';' ∷ b'f' ∷ b'r' ∷ b'o' ∷ b'm' ∷ b'-' ∷ b't' ∷ b'a' ∷ b'g' ∷ b'=' ∷ []

abbrev pub query : Str
query = b'?' ∷ b'R' ∷ b'e' ∷ b'p' ∷ b'l' ∷ b'a' ∷ b'c' ∷ b'e' ∷ b's' ∷ b'=' ∷ []

unfoldable pub refer_to_header : Str → Header
refer_to_header target = other_header refer_to (b'<' ∷ (target ++ b'>' ∷ []))

abbrev pub is_unreserved : ℕ → Bool
is_unreserved b =
    (leb b'A' b && leb b b'Z')
    || (leb b'a' b && leb b b'z')
    || (leb b'0' b && leb b b'9')
    || b == b'-'
    || b == b'_'
    || b == b'.'
    || b == b'~'

-- A digit of `{b:02X}`.
abbrev pub upper_hex : ℕ → ℕ
upper_hex n = if ltb n 10 then n + b'0' else n - 10 + b'A'

unfoldable pub escape_uri_header_value : Str → Str
escape_uri_header_value [] = []
escape_uri_header_value (b ∷ s) =
    let rest = escape_uri_header_value s in
    if is_unreserved b then b ∷ rest else b'%' ∷ upper_hex (b / 16) ∷ upper_hex (b % 16) ∷ rest

unfoldable pub refer_to_with_replaces : Str → DialogTriplet → Header
unfolding escape_uri_header_value
refer_to_with_replaces target replaces =
    let raw =
      replaces.triplet_call
      ++ (to_tag ++ (replaces.triplet_remote ++ (from_tag ++ replaces.triplet_local))) in
    other_header refer_to (b'<' ∷ (target ++ (query ++ (escape_uri_header_value raw ++ b'>' ∷ []))))

abbrev first_line : List Str → Option Str
first_line [] = none
first_line (line ∷ rest) = some line

-- The status after the version token.
abbrev status_of : List Str → Option ℕ
status_of (version ∷ status ∷ rest) =
    strip_prefix (b'S' ∷ b'I' ∷ b'P' ∷ b'/' ∷ []) version >>= λ v. parse_uint 65535 status
status_of _ = none

unfoldable pub parse_sipfrag_status : List ℕ → Option ℕ
parse_sipfrag_status body = do
  text ← from_utf8 body
  line ← first_line (lines text)
  status_of (split_whitespace (trim line))

abbrev pub is_final_sipfrag : ℕ → Bool
is_final_sipfrag code = leb 200 code

abbrev signal : Str
signal = b'S' ∷ b'i' ∷ b'g' ∷ b'n' ∷ b'a' ∷ b'l' ∷ b'=' ∷ []

abbrev duration : Str
duration = b'\n' ∷ b'D' ∷ b'u' ∷ b'r' ∷ b'a' ∷ b't' ∷ b'i' ∷ b'o' ∷ b'n' ∷ b'=' ∷ []

unfoldable pub build_info_body : DtmfDigit → ℕ → Str
build_info_body digit duration_ms = signal ++ (as_char digit ∷ (duration ++ decimal duration_ms))

-- `dtmf_info::content_type_header`.
abbrev pub dtmf_content_type : Header
dtmf_content_type = content_type (
    b'a' ∷ b'p' ∷ b'p' ∷ b'l' ∷ b'i' ∷ b'c' ∷ b'a' ∷ b't' ∷ b'i' ∷ b'o' ∷ b'n' ∷ b'/' ∷ b'd' ∷ b't'
    ∷ b'm' ∷ b'f' ∷ b'-' ∷ b'r' ∷ b'e' ∷ b'l' ∷ b'a' ∷ b'y' ∷ [])

pub data InfoOutcome : Type 0 where
  accepted : ℕ → InfoOutcome
  unsupported_media : InfoOutcome
  other_failure : ℕ → InfoOutcome
  dialog_not_confirmed : InfoOutcome

abbrev pub is_accepted : InfoOutcome → Bool
is_accepted (accepted status) = true
is_accepted _ = false

abbrev pub should_stop : InfoOutcome → Bool
should_stop unsupported_media = true
should_stop _ = false

unfoldable pub classify : Option Response → InfoOutcome
classify none = dialog_not_confirmed
classify (some resp) =
    let code = resp.status_code in
    if leb 200 code && ltb code 300
    then accepted code
    else if code == 415
    then unsupported_media
    else other_failure code

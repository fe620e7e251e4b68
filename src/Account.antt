-- ===== src/Account.antt =====
-- crates/wavekat-sip/src/account.rs: the account, and the fingerprint that a TLS policy pins. An
-- error message is for a log, so a parser returns an Option; a `str` of this file is its bytes.
pub mod Fingerprint
use wavekat_sip.Base.{
  ℕ, zero, suc, ◌+◌, ◌-◌, ◌*◌, ◌/◌, ◌%◌, Bool, true, false, ◌&&◌, ◌||◌, List, [], ◌∷◌, ◌++◌, Option,
  none, some, ◌>>=◌, leb, ltb, ◌==◌, if◌then◌else◌, length,
}
use wavekat_sip.Sip.{Str}
use wavekat_sip.Transaction.{Transport}

pub data TlsPolicy : Type 0 where
  system_roots : TlsPolicy
  pinned : List ℕ → TlsPolicy

pub record SipAccount : Type 0 where
  pub account_name : Str
  pub username : Str
  pub password : Str
  pub domain : Str
  pub auth_name : Option Str
  pub server_name : Option Str
  pub fixed_port : Option ℕ
  pub over : Transport
  pub tls_policy : TlsPolicy

abbrev pub auth_username : SipAccount → Str
auth_username a = elim (a.auth_name) [ none ↦ a.username | some n ↦ n ]

abbrev pub server : SipAccount → Str
server a = elim (a.server_name) [ none ↦ a.domain | some n ↦ n ]

abbrev pub default_port : Transport → ℕ
default_port Transport.tls = 5061
default_port Transport.udp = 5060
default_port Transport.tcp = 5060

abbrev pub port : SipAccount → ℕ
port a = elim (a.fixed_port) [ none ↦ default_port (a.over) | some n ↦ n ]

-- The value of an ASCII hexadecimal digit.
unfoldable pub hex_value : ℕ → Option ℕ
hex_value c =
    if leb b'0' c && leb c b'9'
    then some (c - b'0')
    else if leb b'a' c && leb c b'f'
    then some (c - b'a' + 10)
    else if leb b'A' c && leb c b'F'
    then some (c - b'A' + 10)
    else none

-- `chunks(2)` and `from_str_radix(_, 16)`; a text whose bytes are not all digits is refused.
unfoldable pub hex_pairs : List ℕ → Option (List ℕ)
unfolding hex_value
hex_pairs [] = some []
hex_pairs (c ∷ []) = do hi ← hex_value c; some (hi ∷ [])
hex_pairs (c ∷ d ∷ rest) = do
  hi ← hex_value c
  lo ← hex_value d
  bytes ← hex_pairs rest
  some ((hi * 16 + lo) ∷ bytes)

unfoldable pub parse_hex_sha256 : List ℕ → Option (List ℕ)
unfolding hex_pairs
parse_hex_sha256 hex = let parsed = hex_pairs hex in if length hex == 64 then parsed else none

unfoldable pub pinned_from_hex : List ℕ → Option TlsPolicy
unfolding parse_hex_sha256
pinned_from_hex hex = do sha256 ← parse_hex_sha256 hex; some (pinned sha256)

abbrev pub hex_digit : ℕ → ℕ
hex_digit n = if ltb n 10 then n + b'0' else n - 10 + b'a'

-- `hex_sha256::serialize`: each byte as `{b:02x}`.
unfoldable pub hex_of : List ℕ → List ℕ
hex_of [] = []
hex_of (b ∷ bytes) = hex_digit (b / 16 % 16) ∷ hex_digit (b % 16) ∷ hex_of bytes

-- `hex_sha256::deserialize`: `visit_str`, and `visit_seq` for a sequence of bytes.
pub data Stored : Type 0 where
  stored_text : List ℕ → Stored
  stored_bytes : List ℕ → Stored

unfoldable pub deserialize : Stored → Option (List ℕ)
unfolding parse_hex_sha256
deserialize (stored_text hex) = parse_hex_sha256 hex
deserialize (stored_bytes bytes) = if length bytes == 32 then some bytes else none

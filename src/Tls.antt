-- ===== src/Tls.antt =====
-- crates/wavekat-sip/src/stack/tls.rs and tls_error.rs: which certificate a policy accepts, and what a
-- refusal says. The digest, the verifier of the platform and rustls are parameters: a handshake
-- either fails before a certificate comes, or presents one, and ends if its verifier refuses it.
pub mod FirstUse
use wavekat_sip.Base.{
  ℕ, Bool, List, [], ◌∷◌, ◌++◌, map, Option, none, some, ◌>>=◌, ◌==◌, text_eq, if◌then◌else◌,
}
use wavekat_sip.Sip.{Str}
use wavekat_sip.Text.{strip_prefix}
use wavekat_sip.Account.{TlsPolicy, system_roots, pinned, hex_of}

-- `rustls::CertificateError`, the others by their text.
pub data CertificateError : Type 0 where
  expired expired_context not_valid_yet not_valid_yet_context : CertificateError
  not_valid_for_name_context : List Str → CertificateError
  not_valid_for_name unknown_issuer bad_encoding revoked bad_signature : CertificateError
  application_verification_failure : CertificateError
  other_certificate : Str → CertificateError

pub data TlsError : Type 0 where
  invalid_certificate : CertificateError → TlsError
  other_tls : Str → TlsError

pub data CertFailure : Type 0 where
  has_expired not_yet_valid : CertFailure
  name_mismatch : List Str → CertFailure
  unknown_root was_revoked forged pin_mismatch malformed : CertFailure
  other_failure : Str → CertFailure

pub record UntrustedCertificate : Type 0 where
  pub sha256 : List ℕ
  pub reason : CertFailure

unfoldable strip_last : ℕ → Str → Option Str
strip_last c [] = none
strip_last c (d ∷ []) = if d == c then some [] else none
strip_last c (d ∷ e ∷ s) = do rest ← strip_last c (e ∷ s); some (d ∷ rest)

abbrev dns_name : Str
dns_name = b'D' ∷ b'n' ∷ b's' ∷ b'N' ∷ b'a' ∷ b'm' ∷ b'e' ∷ []

abbrev ip_address : Str
ip_address = b'I' ∷ b'p' ∷ b'A' ∷ b'd' ∷ b'd' ∷ b'r' ∷ b'e' ∷ b's' ∷ b's' ∷ []

abbrev uri_name : Str
uri_name =
    b'U' ∷ b'n' ∷ b'i' ∷ b'f' ∷ b'o' ∷ b'r' ∷ b'm' ∷ b'R' ∷ b'e' ∷ b's' ∷ b'o' ∷ b'u' ∷ b'r' ∷ b'c'
    ∷ b'e' ∷ b'I' ∷ b'd' ∷ b'e' ∷ b'n' ∷ b't' ∷ b'i' ∷ b'f' ∷ b'i' ∷ b'e' ∷ b'r' ∷ []

unfoldable unquoted : Str → Str
unfolding strip_prefix strip_last
unquoted inner = elim (strip_prefix (34 ∷ []) inner >>= strip_last 34) [
  | none ↦ inner
  | some name ↦ name
]

-- The loop of `presented_name` over the kinds of name.
unfoldable named_as : List Str → Str → Str
unfolding strip_prefix strip_last unquoted
named_as [] raw = raw
named_as (kind ∷ kinds) raw =
    let later = named_as kinds raw in
    elim (strip_prefix kind raw >>= λ r. strip_prefix (40 ∷ []) r >>= strip_last 41) [
      | none ↦ later
      | some inner ↦ unquoted inner
    ]

unfoldable pub presented_name : Str → Str
unfolding named_as
presented_name raw = named_as (dns_name ∷ ip_address ∷ uri_name ∷ []) raw

abbrev pub certificate_prefix : Str
certificate_prefix =
    b'c' ∷ b'e' ∷ b'r' ∷ b't' ∷ b'i' ∷ b'f' ∷ b'i' ∷ b'c' ∷ b'a' ∷ b't' ∷ b'e' ∷ b':' ∷ b' ' ∷ []

unfoldable pub cert_failure : TlsError → CertFailure
unfolding presented_name
cert_failure (invalid_certificate expired) = has_expired
cert_failure (invalid_certificate expired_context) = has_expired
cert_failure (invalid_certificate not_valid_yet) = not_yet_valid
cert_failure (invalid_certificate not_valid_yet_context) = not_yet_valid
cert_failure (invalid_certificate (not_valid_for_name_context names)) =
    name_mismatch (map presented_name names)
cert_failure (invalid_certificate not_valid_for_name) = name_mismatch []
cert_failure (invalid_certificate unknown_issuer) = unknown_root
cert_failure (invalid_certificate bad_encoding) = malformed
cert_failure (invalid_certificate revoked) = was_revoked
cert_failure (invalid_certificate bad_signature) = forged
cert_failure (invalid_certificate application_verification_failure) = pin_mismatch
cert_failure (invalid_certificate (other_certificate text)) =
    other_failure (certificate_prefix ++ text)
cert_failure (other_tls text) = other_failure text

-- The source of an error of the handshake: an error of rustls, or of the connection.
pub data IoSource : Type 0 where
  from_rustls : TlsError → IoSource
  from_connection : Str → IoSource

pub data ConnectError : Type 0 where
  bad_server_name : ConnectError
  untrusted : UntrustedCertificate → ConnectError
  failed_io : IoSource → ConnectError

-- A leaf certificate, and the failure after it was accepted, if there is one.
pub data Handshake : Type 0 where
  fails_early : IoSource → Handshake
  presents : List ℕ → Option IoSource → Handshake

abbrev pub fingerprint_hex : UntrustedCertificate → List ℕ
fingerprint_hex u = hex_of u.sha256

-- What `connect` makes of an error, by the fingerprint that was recorded.
unfoldable pub report : IoSource → Option (List ℕ) → ConnectError
unfolding cert_failure
report (from_rustls (invalid_certificate c)) (some digest) =
    untrusted (record { sha256 = digest; reason = cert_failure (invalid_certificate c) })
report source slot = failed_io source

-- The end of a handshake, by the verdict on its certificate.
unfoldable pub concluded : Option (List ℕ) → Option TlsError → Option IoSource → Option ConnectError
unfolding report
concluded slot (some e) rest = some (report (from_rustls e) slot)
concluded slot none (some e) = some (report e slot)
concluded slot none none = none

module _ (sha256 : List ℕ → List ℕ) (platform : List ℕ → Option TlsError) where
  -- `verify_server_cert` of the verifier that the policy selects: the error, if it refuses.
  unfoldable pub verify_server_cert : TlsPolicy → List ℕ → Option TlsError
  verify_server_cert system_roots leaf = platform leaf
  verify_server_cert (pinned pin) leaf =
      if text_eq (sha256 leaf) pin
      then none
      else some (invalid_certificate application_verification_failure)

  -- `RecordingVerifier` around it: the fingerprint is kept whatever the verdict is.
  unfoldable pub recorded : TlsPolicy → List ℕ → Option (List ℕ) × Option TlsError
  unfolding verify_server_cert
  recorded policy leaf = (some (sha256 leaf), verify_server_cert policy leaf)

  -- `tls::connect`; whether the domain is a name that TLS can carry. None is success.
  unfoldable pub connect : Bool → TlsPolicy → Handshake → Option ConnectError
  unfolding recorded report concluded
  connect named policy (fails_early e) =
      if named then some (report e none) else some bad_server_name
  connect named policy (presents leaf rest) =
      let (slot, verdict) = recorded policy leaf in
      if named then concluded slot verdict rest else some bad_server_name

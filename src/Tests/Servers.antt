-- ===== src/Tests/Servers.antt =====
-- An account, its fingerprint, and the search for its server.
use wavekat_sip.Base.{
  ℕ, zero, true, ◌≢◌, ◌≡◌, refl, List, [], ◌∷◌, Option, none, some, arith, text_eq, All,
  if◌then◌else◌,
}
use mathlib.Core.List.{Perm}
use wavekat_sip.Sip.{Str}
use wavekat_sip.Transaction.{Transport}
use wavekat_sip.Account.{TlsPolicy, system_roots, SipAccount, pinned_from_hex}
use wavekat_sip.Account.Fingerprint.{IsByte}
use wavekat_sip.Tls.{
  TlsError, invalid_certificate, unknown_issuer, unknown_root, pin_mismatch, UntrustedCertificate,
  untrusted, presents, fingerprint_hex, connect, presented_name,
}
use wavekat_sip.Tls.FirstUse.{refused_then_pinned}
use wavekat_sip.Resolve.{
  SrvRecord, SocketAddr, Lookup, found, no_address, Dns, by_srv, location_plan, order_candidates,
  resolve_with,
}
use wavekat_sip.Resolve.Order.{IsAscending, order_candidates_refines}
use wavekat_sip.Resolve.Search.{FoundIn, Settles, resolve_with_search}

abbrev digest : List ℕ
digest =
    0 ∷ 255 ∷ 16 ∷ 171 ∷ 1 ∷ 2 ∷ 3 ∷ 4 ∷ 5 ∷ 6 ∷ 7 ∷ 8 ∷ 9 ∷ 10 ∷ 11 ∷ 12 ∷ 13 ∷ 14 ∷ 15 ∷ 16 ∷ 17
    ∷ 18 ∷ 19 ∷ 20 ∷ 21 ∷ 22 ∷ 23 ∷ 24 ∷ 25 ∷ 26 ∷ 27 ∷ 28 ∷ []

digest-IsByte : All IsByte digest
digest-IsByte = ground arith

-- Stands for the digest: of certificates that begin with 0, and of the others.
abbrev digest_of : List ℕ → List ℕ
digest_of (zero ∷ der) = digest
digest_of _ =
    9 ∷ 9 ∷ 9 ∷ 9 ∷ 9 ∷ 9 ∷ 9 ∷ 9 ∷ 9 ∷ 9 ∷ 9 ∷ 9 ∷ 9 ∷ 9 ∷ 9 ∷ 9 ∷ 9 ∷ 9 ∷ 9 ∷ 9 ∷ 9 ∷ 9 ∷ 9 ∷ 9
    ∷ 9 ∷ 9 ∷ 9 ∷ 9 ∷ 9 ∷ 9 ∷ 9 ∷ 9 ∷ []

-- A platform that trusts nobody.
abbrev distrusts : List ℕ → Option TlsError
distrusts leaf = some (invalid_certificate unknown_issuer)

abbrev refused : UntrustedCertificate
refused = record { sha256 = digest; reason = unknown_root }

digests_differ : digest_of (1 ∷ []) ≢ digest_of (0 ∷ 1 ∷ [])
digests_differ e = ground (arith, e)

was_refused :
    connect digest_of distrusts true system_roots (presents (0 ∷ 1 ∷ []) none)
    ≡ some (untrusted refused)
unfolding connect
was_refused = refl

refused_then_pinned_example :
    (pin : TlsPolicy) × (pinned_from_hex (fingerprint_hex refused) ≡ some pin)
    × (connect digest_of distrusts true pin (presents (0 ∷ 1 ∷ []) none) ≡ none)
    × (connect digest_of distrusts true pin (presents (1 ∷ []) none)
        ≡ some (untrusted (record { sha256 = digest_of (1 ∷ []); reason = pin_mismatch })))
refused_then_pinned_example =
    refused_then_pinned digest_of distrusts system_roots (0 ∷ 1 ∷ []) (1 ∷ []) none none refused
      refl digest-IsByte digests_differ was_refused

-- `DnsName("a")`, and a name of another kind.
bare_name :
    presented_name (b'D' ∷ b'n' ∷ b's' ∷ b'N' ∷ b'a' ∷ b'm' ∷ b'e' ∷ 40 ∷ 34 ∷ b'a' ∷ 34 ∷ 41 ∷ [])
    ≡ b'a' ∷ []
unfolding presented_name
bare_name = refl

abbrev srv_record : ℕ → ℕ → ℕ → SrvRecord
srv_record p w n = record { priority = p; weight = w; srv_port = 5070; target = n ∷ [] }

abbrev answers : List SrvRecord
answers = srv_record 20 0 3 ∷ srv_record 10 60 1 ∷ srv_record 10 40 2 ∷ []

-- The names are one byte long; only the name 3 has an address.
abbrev address_of : Str → ℕ → Lookup
address_of name p =
    if text_eq name (3 ∷ []) then found (record { ip = 9; addr_port = p }) else no_address

abbrev dns : Dns
dns = record { srv = λ name. some answers; lookup = address_of; parse_ip = λ host. none }

abbrev account : Option ℕ → SipAccount
account p = record {
  account_name = [];
  username = 97 ∷ [];
  password = [];
  domain = 100 ∷ [];
  auth_name = none;
  server_name = none;
  fixed_port = p;
  over = Transport.udp;
  tls_policy = system_roots;
}

order_candidates_refines_example :
    (out : List SrvRecord) × (order_candidates answers 42 ≡ some out)
    × Perm out answers
    × IsAscending out
order_candidates_refines_example = order_candidates_refines answers 42

abbrev query : Str
query = b'_' ∷ b's' ∷ b'i' ∷ b'p' ∷ b'.' ∷ b'_' ∷ b'u' ∷ b'd' ∷ b'p' ∷ b'.' ∷ 100 ∷ []

located : location_plan dns (account none) ≡ by_srv query (100 ∷ []) 5060
unfolding location_plan
located = refl

resolve_with_search_example :
    (cs : List SrvRecord) × (o : Option SocketAddr) × (l : Lookup) × (order_candidates answers 42
      ≡ some cs)
    × FoundIn dns cs o
    × (resolve_with dns (account none) 42 ≡ some l)
    × Settles dns o answers (100 ∷ []) 5060 l
resolve_with_search_example =
    resolve_with_search dns (account none) 42 query (100 ∷ []) 5060 located

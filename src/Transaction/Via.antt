-- ===== src/Transaction/Via.antt =====
-- `transport_of` and `via_value` of crates/wavekat-sip/src/stack/transaction/mod.rs.
use wavekat_sip.Base.{List, [], ◌∷◌, ◌++◌, Option, none, some}
use wavekat_sip.Sip.{
  Str, UriTransport, tcp, tls, sctp, tls_sctp, Param, transport, Scheme, sips, Uri,
}
use wavekat_sip.Transaction.{Transport}

abbrev named : UriTransport → Transport
named tls = Transport.tls
named tls_sctp = Transport.tls
named tcp = Transport.tcp
named sctp = Transport.tcp
named _ = Transport.udp

-- The first `transport` parameter.
abbrev transport_param : List Param → Option UriTransport
transport_param [] = none
transport_param (transport t ∷ ps) = some t
transport_param (p ∷ ps) = transport_param ps

abbrev by_scheme : Option Scheme → Transport
by_scheme (some sips) = Transport.tls
by_scheme _ = Transport.udp

unfoldable pub transport_of : Uri → Transport
transport_of uri = elim (transport_param (uri.params)) [
  | none ↦ by_scheme (uri.scheme)
  | some t ↦ named t
]

abbrev pub proto : Transport → Str
proto Transport.udp = b'U' ∷ b'D' ∷ b'P' ∷ []
proto Transport.tcp = b'T' ∷ b'C' ∷ b'P' ∷ []
proto Transport.tls = b'T' ∷ b'L' ∷ b'S' ∷ []

-- The parameter of a contact, none over UDP.
abbrev pub transport_suffix : Transport → Str
transport_suffix Transport.udp = []
transport_suffix Transport.tcp =
    b';' ∷ b't' ∷ b'r' ∷ b'a' ∷ b'n' ∷ b's' ∷ b'p' ∷ b'o' ∷ b'r' ∷ b't' ∷ b'=' ∷ b't' ∷ b'c' ∷ b'p'
    ∷ []
transport_suffix Transport.tls =
    b';' ∷ b't' ∷ b'r' ∷ b'a' ∷ b'n' ∷ b's' ∷ b'p' ∷ b'o' ∷ b'r' ∷ b't' ∷ b'=' ∷ b't' ∷ b'l' ∷ b's'
    ∷ []

unfoldable pub via_value : Transport → Str → Str → Str
via_value over sent_by branch =
    (b'S' ∷ b'I' ∷ b'P' ∷ b'/' ∷ b'2' ∷ b'.' ∷ b'0' ∷ b'/' ∷ [])
    ++ (proto over
        ++ (b' '
            ∷ (sent_by
                ++ ((b';' ∷ b'r' ∷ b'p' ∷ b'o' ∷ b'r' ∷ b't' ∷ b';' ∷ b'b' ∷ b'r' ∷ b'a' ∷ b'n'
                      ∷ b'c' ∷ b'h' ∷ b'=' ∷ [])
                    ++ branch))))

-- `contact_uri`; the local address is its text.
unfoldable pub contact_uri : Str → Str → Transport → Str
contact_uri username local over =
    (b's' ∷ b'i' ∷ b'p' ∷ b':' ∷ []) ++ (username ++ (b'@' ∷ (local ++ transport_suffix over)))

-- ===== src/Transaction/Ack.antt =====
-- `build_non_2xx_ack` of crates/wavekat-sip/src/stack/transaction/mod.rs.
use wavekat_sip.Base.{◌<◌, ◌^◌, ◌≡◌, arith, List, [], ◌∷◌, ◌++◌, Option, some, ◌>>=◌}
use wavekat_sip.Sip.{
  Str, ack, invite, Header, via, from, to, call_id, cseq, route, max_forwards, content_length,
  Request, Response, TypedCseq, Rsip, RsipLaws,
}
use wavekat_sip.Transaction.Key.{from_request}

-- The loop that copies the `Route` headers.
unfoldable pub routes_of : List Header → List Header
routes_of [] = []
routes_of (route v ∷ hs) = route v ∷ routes_of hs
routes_of (h ∷ hs) = routes_of hs

module _ (r : Rsip) where
  unfoldable pub build_non_2xx_ack : Request → Response → Option Request
  build_non_2xx_ack inv resp = do
    via_value ← r.via_header inv.headers
    from_value ← r.from_header inv.headers
    to_value ← r.to_header resp.headers
    call_id_value ← r.call_id_header inv.headers
    cseq_value ← r.cseq_header inv.headers
    typed ← r.typed_cseq cseq_value
    let new_cseq : TypedCseq = record { seq = typed.seq; cseq_method = ack }
    let tail : List Header =
        max_forwards r.max_forwards_default ∷ content_length r.content_length_default ∷ []
    let routes : List Header = routes_of inv.headers
    some (record {
      method = ack;
      uri = inv.uri;
      version = inv.version;
      headers =
          via via_value
          ∷ from from_value
          ∷ to to_value
          ∷ call_id call_id_value
          ∷ cseq (r.cseq_value new_cseq)
          ∷ (routes ++ tail);
      body = [];
    })

  echoes_lem :
      RsipLaws r
      → (inv : Request) (resp : Response) {acked : Request} {raw : Str} {c : TypedCseq}
      → r.cseq_header inv.headers ≡ some raw
      → r.typed_cseq raw ≡ some c
      → c.seq < 2 ^ 32
      → build_non_2xx_ack inv resp ≡ some acked
      → (r.to_header acked.headers ≡ r.to_header resp.headers)
        × ((r.cseq_header acked.headers >>= λ t. r.typed_cseq t)
            ≡ some (record { seq = c.seq; cseq_method = ack }))
        × (acked.uri ≡ inv.uri)
        × (acked.method ≡ ack)
        × (acked.body ≡ [])
  unfolding build_non_2xx_ack
  echoes_lem laws inv resp {acked} {raw} {c} raw_is c_is small built =
      grind (arith, laws.to_first, laws.cseq_first, laws.cseq_round_trip)

  -- The ACK that is built for an INVITE whose `CSeq` reads as a 32-bit number has the transaction key
  -- of the INVITE. It echoes the `To` of the response and that number with the method ACK; it goes to
  -- the URI of the INVITE and has no body.
  pub build_non_2xx_ack_echoes :
      RsipLaws r
      → (inv : Request) (resp : Response) {acked : Request} {raw : Str} {c : TypedCseq}
      → inv.method ≡ invite
      → r.cseq_header inv.headers ≡ some raw
      → r.typed_cseq raw ≡ some c
      → c.seq < 2 ^ 32
      → build_non_2xx_ack inv resp ≡ some acked
      → (from_request r acked ≡ from_request r inv)
        × (r.to_header acked.headers ≡ r.to_header resp.headers)
        × ((r.cseq_header acked.headers >>= λ t. r.typed_cseq t)
            ≡ some (record { seq = c.seq; cseq_method = ack }))
        × (acked.uri ≡ inv.uri)
        × (acked.method ≡ ack)
        × (acked.body ≡ [])
  unfolding build_non_2xx_ack from_request
  build_non_2xx_ack_echoes laws inv resp {acked} {raw} {c} m raw_is c_is small built =
      let same_key : from_request r acked ≡ from_request r inv = grind (arith, laws.via_first) in
      let echoes = echoes_lem laws inv resp raw_is c_is small built in
      (same_key, echoes.0, echoes.1, echoes.2, echoes.3, echoes.4)

-- ===== src/Answer/Agreement.antt =====
-- crates/wavekat-sip/src/stack/response.rs with dialog.rs and transaction/mod.rs: the response
-- belongs to the transaction of its request, and makes one dialog of the two sides.
use mathlib.Core.List.{reverse}
use wavekat_sip.Base.{
  ℕ, ◌%◌, ◌^◌, ◌≤◌, ◌≡◌, refl, inl, inr, Option-cases, length, ap, ◌∙◌, true, List, [], ◌∷◌, ◌++◌,
  Option, none, some, arith,
}
use wavekat_sip.Sip.{
  Str, Header, via, to, contact, content_length, Param, tag, Uri, Request, Response, TypedCseq,
  RsipLaws, first_via, first_to, first_cseq,
}
use wavekat_sip.Transaction.Key.{from_request, from_response, build}
use wavekat_sip.Dialog.{DialogRsip, TypedParty, Dialog, tag_of, id, collect_routes, uac, uas}
use wavekat_sip.Dialog.Identity.{DialogLaws, mirror, route_sets_mirror}
use wavekat_sip.Answer.{
  ResponseBody, echoed, body_headers, body_bytes, add_tag, with_tag, contact_headers,
  build_response,
}

abbrev pub first_contact : List Header → Option Str
first_contact [] = none
first_contact (contact v ∷ hs) = some v
first_contact (h ∷ hs) = first_contact hs

-- Documented behaviour of rsip: the accessors return the first header of their kind.
pub record AnswerLaws (r : DialogRsip) : Type 0 where
  pub dialog_laws : DialogLaws r
  pub contact_first : (hs : List Header) → r.contact_header hs ≡ first_contact hs

-- A header that is not echoed.
first_via-echoed :
    (hs rest : List Header) → first_via rest ≡ none → first_via (echoed hs ++ rest) ≡ first_via hs
unfolding echoed
first_via-echoed [] rest e = e
first_via-echoed (via v ∷ hs) rest e = refl
first_via-echoed (h ∷ hs) rest e = ground (arith, first_via-echoed hs rest e)

first_cseq-echoed :
    (hs rest : List Header)
    → first_cseq rest ≡ none
    → first_cseq (echoed hs ++ rest) ≡ first_cseq hs
unfolding echoed
first_cseq-echoed [] rest e = e
first_cseq-echoed (h ∷ hs) rest e = ground (arith, first_cseq-echoed hs rest e)

first_to-echoed : (hs rest : List Header) → first_to (echoed hs ++ rest) ≡ first_to rest
unfolding echoed
first_to-echoed [] rest = refl
first_to-echoed (h ∷ hs) rest = ground (arith, first_to-echoed hs rest)

first_contact-echoed :
    (hs rest : List Header) → first_contact (echoed hs ++ rest) ≡ first_contact rest
unfolding echoed
first_contact-echoed [] rest = refl
first_contact-echoed (h ∷ hs) rest = ground (arith, first_contact-echoed hs rest)

tag_of-add : (ps : List Param) (t : Str) → tag_of ps ≡ none → tag_of (ps ++ tag t ∷ []) ≡ some t
unfolding tag_of
tag_of-add [] t e = refl
tag_of-add (p ∷ ps) t e = ground (arith, tag_of-add ps t)

module _ (r : DialogRsip) where
  collect_routes-echoed :
      (hs rest : List Header)
      → collect_routes r rest ≡ []
      → collect_routes r (echoed hs ++ rest) ≡ collect_routes r hs
  unfolding echoed collect_routes
  collect_routes-echoed [] rest e = e
  collect_routes-echoed (h ∷ hs) rest e = ground (arith, collect_routes-echoed hs rest e)

  -- What follows the echoed headers.
  abbrev tail : TypedParty → Option Str → Option Uri → Option ResponseBody → Str → List Header
  tail p to_tag c body len =
      to (r.party_value (with_tag r to_tag p))
      ∷ (contact_headers r c ++ (body_headers body ++ content_length len ∷ []))

  tail_lem :
      (p : TypedParty) (to_tag : Option Str) (c : Option Uri) (body : Option ResponseBody)
      (len : Str)
      → (first_via (tail p to_tag c body len) ≡ none)
        × (first_cseq (tail p to_tag c body len) ≡ none)
        × (collect_routes r (tail p to_tag c body len) ≡ [])
  unfolding collect_routes
  tail_lem p to_tag none none len = (refl, refl, refl)
  tail_lem p to_tag none (some b) len = (refl, refl, refl)
  tail_lem p to_tag (some uri) none len = (refl, refl, refl)
  tail_lem p to_tag (some uri) (some b) len = (refl, refl, refl)

  abbrev length_text : Option ResponseBody → Str
  length_text body = r.length_value (length (body_bytes body) % 2 ^ 32)

  built_lem :
      (req : Request) (status : ℕ) (to_tag : Option Str) (c : Option Uri)
      (body : Option ResponseBody) {resp : Response}
      → build_response r req status to_tag c body ≡ some resp
      → (raw_to : Str) × (p : TypedParty) × (r.base.to_header req.headers ≡ some raw_to)
        × (r.typed_party raw_to ≡ some p)
        × (resp.headers ≡ echoed req.headers ++ tail p to_tag c body (length_text body))
        × (resp.status_code ≡ status)
  unfolding build_response
  built_lem req status to_tag c body built = elim (Option-cases (r.base.to_header req.headers)) [
    | inl e ↦ absurd (ground (arith, e))
    | inr (raw, e) ↦ elim (Option-cases (r.typed_party raw)) [
      | inl e' ↦ absurd (ground (arith, e, e'))
      | inr (p, e') ↦ (raw, p, e, e', ground (arith, e, e'), ground (arith, e, e'))
    ]
  ]

  -- The response to a request whose `CSeq` names the method of the request has the request's
  -- transaction key, and reaches the client transaction that waits for it.
  pub build_response-same_key :
      RsipLaws r.base
      → (req : Request) (status : ℕ) (to_tag : Option Str) (c : Option Uri)
        (body : Option ResponseBody) {resp : Response} {raw : Str} {typed : TypedCseq}
      → r.base.cseq_header req.headers ≡ some raw
      → r.base.typed_cseq raw ≡ some typed
      → typed.cseq_method ≡ req.method
      → build_response r req status to_tag c body ≡ some resp
      → from_response r.base resp ≡ from_request r.base req
  unfolding build_response from_response from_request build
  build_response-same_key laws req status to_tag c body {resp} raw_is typed_is m built =
      let (raw_to, p, _, _, headers_are, _) = built_lem req status to_tag c body built in
      let (no_via, no_cseq, _) = tail_lem p to_tag c body (length_text body) in
      let via_kept =
        first_via-echoed req.headers (tail p to_tag c body (length_text body)) no_via in
      let cseq_kept =
        first_cseq-echoed req.headers (tail p to_tag c body (length_text body)) no_cseq in
      grind (arith, laws.via_first, laws.cseq_first)

  -- What the caller reads in the answer.
  reads_lem :
      AnswerLaws r
      → (inv : Request) (status : ℕ) (t : Str) (c : Uri) (body : Option ResponseBody)
        {resp : Response} {raw_to : Str} {p : TypedParty}
      → r.base.to_header inv.headers ≡ some raw_to
      → r.typed_party raw_to ≡ some p
      → tag_of p.party_params ≡ none
      → build_response r inv status (some t) (some c) body ≡ some resp
      → (r.base.to_header resp.headers ≡ some (r.party_value (add_tag t p)))
        × (r.contact_header resp.headers ≡ some (r.contact_value c))
        × (collect_routes r resp.headers ≡ collect_routes r inv.headers)
        × (resp.status_code ≡ status)
  unfolding with_tag
  reads_lem laws inv status t c body {resp} {raw_to} {p} raw_is p_is untagged built =
      let (raw, q, raw_is', q_is, headers_are, status_is) =
        built_lem inv status (some t) (some c) body built in
      let rest = tail q (some t) (some c) body (length_text body) in
      let (_, _, no_routes) = tail_lem q (some t) (some c) body (length_text body) in
      let to_first = first_to-echoed inv.headers rest in
      let contact_first = first_contact-echoed inv.headers rest in
      let routes = collect_routes-echoed inv.headers rest no_routes in
      let own = laws.dialog_laws.tag_first p in
      let same : q ≡ p = grind arith in
      let tagged_is : with_tag r (some t) q ≡ add_tag t p = grind (arith, same, own, untagged) in
      (
        ap r.base.to_header headers_are
            ∙ laws.dialog_laws.base_laws.to_first (echoed inv.headers ++ rest)
            ∙ to_first
            ∙ ap (λ x. some (r.party_value x)) tagged_is,
        ap r.contact_header headers_are
            ∙ laws.contact_first (echoed inv.headers ++ rest)
            ∙ contact_first,
        ap (collect_routes r) headers_are ∙ routes,
        status_is,
      )

  -- A callee answers an INVITE that has no `To` tag with a 2xx that carries its tag and its contact,
  -- and makes its dialog; the `CSeq` of the INVITE, and the `To` and the contact of the answer read
  -- back. Then the caller makes its dialog of the answer: it is confirmed and is the callee's with
  -- the tags the other way round, its requests go to the callee's contact, over the callee's route
  -- set backwards, and its numbers go on from that of the INVITE.
  pub answer_makes_dialog :
      AnswerLaws r
      → (inv : Request) (status : ℕ) (t : Str) (c c' : Uri) (body : Option ResponseBody)
        {resp : Response} {raw_to raw_cseq : Str} {p : TypedParty} {number : TypedCseq}
        {d' : Dialog}
      → 200 ≤ status
      → r.base.to_header inv.headers ≡ some raw_to
      → r.typed_party raw_to ≡ some p
      → tag_of p.party_params ≡ none
      → r.base.cseq_header inv.headers ≡ some raw_cseq
      → r.base.typed_cseq raw_cseq ≡ some number
      → r.typed_party (r.party_value (add_tag t p)) ≡ some (add_tag t p)
      → r.typed_contact (r.contact_value c') ≡ some c'
      → build_response r inv status (some t) (some c') body ≡ some resp
      → uas r inv t c' ≡ some d'
      → (d : Dialog) × (uac r inv resp c ≡ some d)
        × (id d ≡ mirror (id d'))
        × (d.route_set ≡ reverse d'.route_set)
        × (d.remote_target ≡ c')
        × (d.local_seq ≡ number.seq)
        × (d.is_confirmed ≡ true)
  unfolding uac uas
  answer_makes_dialog laws inv status t c c' body {resp} {raw_to} {raw_cseq} {p} {number} {d'} final
        raw_is p_is untagged cseq_is number_is to_reads contact_reads built made =
      let (to_is, contact_is, routes, status_is) =
        reads_lem laws inv status t c' body raw_is p_is untagged built in
      let has_tag = tag_of-add p.party_params t untagged in
      elim (Option-cases (uac r inv resp c)) [
        | inl e ↦ absurd (grind arith)
        | inr (d, e) ↦ (
          d,
          e,
          grind arith,
          route_sets_mirror r inv resp t c c' d d' e made routes,
          grind arith,
          grind arith,
          grind arith,
        )
      ]

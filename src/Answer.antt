-- ===== src/Answer.antt =====
-- crates/wavekat-sip/src/stack/response.rs: the response to a request. A status is its code, a body
-- with its content type the record `ResponseBody`.
pub mod Agreement
use wavekat_sip.Base.{ℕ, ◌%◌, ◌^◌, List, [], ◌∷◌, ◌++◌, Option, none, some, ◌>>=◌, length}
use wavekat_sip.Sip.{
  Str, Header, via, from, to, call_id, cseq, record_route, contact, content_type, content_length,
  tag, Uri, Request, Response,
}
use wavekat_sip.Dialog.{DialogRsip, TypedParty}

pub record ResponseBody : Type 0 where
  pub content : Str
  pub bytes : List ℕ

-- The loop that echoes headers.
unfoldable pub echoed : List Header → List Header
echoed [] = []
echoed (via v ∷ hs) = via v ∷ echoed hs
echoed (from v ∷ hs) = from v ∷ echoed hs
echoed (call_id v ∷ hs) = call_id v ∷ echoed hs
echoed (cseq v ∷ hs) = cseq v ∷ echoed hs
echoed (record_route v ∷ hs) = record_route v ∷ echoed hs
echoed (h ∷ hs) = echoed hs

abbrev pub body_headers : Option ResponseBody → List Header
body_headers none = []
body_headers (some b) = content_type (b.content) ∷ []

abbrev pub body_bytes : Option ResponseBody → List ℕ
body_bytes none = []
body_bytes (some b) = b.bytes

abbrev pub add_tag : Str → TypedParty → TypedParty
add_tag t p = record p { party_params = p.party_params ++ tag t ∷ [] }

module _ (r : DialogRsip) where
  -- The tag is added unless there is one.
  unfoldable pub with_tag : Option Str → TypedParty → TypedParty
  with_tag none p = p
  with_tag (some t) p = elim (r.party_tag p) [ none ↦ add_tag t p | some own ↦ p ]

  abbrev pub contact_headers : Option Uri → List Header
  contact_headers none = []
  contact_headers (some uri) = contact (r.contact_value uri) ∷ []

  unfoldable pub build_response :
      Request → ℕ → Option Str → Option Uri → Option ResponseBody → Option Response
  unfolding echoed with_tag
  build_response req status to_tag our_contact body = do
    raw_to ← r.base.to_header req.headers
    typed_to ← r.typed_party raw_to
    some (record {
      status_code = status;
      version = req.version;
      headers =
          echoed req.headers
          ++ to (r.party_value (with_tag to_tag typed_to))
            ∷ (contact_headers our_contact
                ++ (body_headers body
                    ++ content_length (r.length_value (length (body_bytes body) % 2 ^ 32)) ∷ []));
      body = body_bytes body;
    })

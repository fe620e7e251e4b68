-- ===== src/Tests/Answers.antt =====
-- An INVITE over two proxies, and its answer. A `From` or `To` is its tag, empty for none.
use wavekat_sip.Base.{◌≡◌, refl, true, [], ◌∷◌, Option, none, some, arith}
use mathlib.Core.List.{reverse}
use wavekat_sip.Sip.{
  Str, via, from, to, call_id, cseq, invite, contact, record_route, tag, Request, Response,
}
use wavekat_sip.Transaction.Key.{from_request, from_response}
use wavekat_sip.Dialog.{DialogRsip, TypedParty, Dialog, tag_of, id, uac, uas}
use wavekat_sip.Dialog.Identity.{mirror}
use wavekat_sip.Answer.{ResponseBody, build_response}
use wavekat_sip.Answer.Agreement.{AnswerLaws, build_response-same_key, answer_makes_dialog}
use wavekat_sip.Tests.Fixtures.{rsip, rsip-RsipLaws, branch, uri, request_of}
use wavekat_sip.Tests.Dialogs.{dialog_rsip}

abbrev read_party : Str → TypedParty
read_party [] = record { party_name = none; party_uri = uri; party_params = [] }
read_party t = record { party_name = none; party_uri = uri; party_params = tag t ∷ [] }

abbrev pub tagging : DialogRsip
tagging = record dialog_rsip { typed_party = λ t. some (read_party t) }

pub tagging-AnswerLaws : AnswerLaws tagging
tagging-AnswerLaws = record {
  dialog_laws = record {
    base_laws = rsip-RsipLaws;
    from_first = λ hs. refl;
    call_id_first = λ hs. refl;
    tag_first = λ p. refl;
  };
  contact_first = λ hs. refl;
}

abbrev pub asks : Request
asks = record (request_of invite) {
  headers =
      via branch
      ∷ record_route (1 ∷ [])
      ∷ record_route (2 ∷ [])
      ∷ from (97 ∷ [])
      ∷ to []
      ∷ call_id (99 ∷ [])
      ∷ cseq (7 ∷ 4 ∷ 0 ∷ [])
      ∷ contact (5 ∷ [])
      ∷ [];
}

abbrev offer : ResponseBody
offer = record { content = 1 ∷ []; bytes = 2 ∷ [] }

abbrev answered : Option Response
answered = build_response tagging asks 200 (some (98 ∷ [])) (some uri) (some offer)

abbrev answer : Response
answer = elim answered [
  | some resp ↦ resp
  | none ↦ record { status_code = 0; version = 0; headers = []; body = [] }
]

answer_built : answered ≡ some answer
unfolding build_response
answer_built = refl

build_response-same_key_example : from_response rsip answer ≡ from_request rsip asks
build_response-same_key_example =
    build_response-same_key tagging rsip-RsipLaws asks 200 (some (98 ∷ [])) (some uri) (some offer)
      {raw = 7 ∷ 4 ∷ 0 ∷ []} {typed = record { seq = 7; cseq_method = invite }} refl refl refl
      answer_built

abbrev pub callee : Dialog
callee = record {
  call = 99 ∷ [];
  local = record { display_name = none; uri = uri; party_tag = 98 ∷ [] };
  remote = record { display_name = none; uri = uri; party_tag = 97 ∷ [] };
  local_contact = uri;
  remote_target = uri;
  route_set = (1 ∷ []) ∷ (2 ∷ []) ∷ [];
  local_seq = 0;
  is_confirmed = true;
}

callee_made : uas tagging asks (98 ∷ []) uri ≡ some callee
unfolding uas
callee_made = refl

untagged : tag_of ((read_party []).party_params) ≡ none
unfolding tag_of
untagged = refl

answer_makes_dialog_example :
    (d : Dialog) × (uac tagging asks answer uri ≡ some d)
    × (id d ≡ mirror (id callee))
    × (d.route_set ≡ reverse callee.route_set)
    × (d.remote_target ≡ uri)
    × (d.local_seq ≡ 7)
    × (d.is_confirmed ≡ true)
unfolding tag_of
answer_makes_dialog_example =
    answer_makes_dialog tagging tagging-AnswerLaws asks 200 (98 ∷ []) uri uri (some offer)
      {raw_to = []} {raw_cseq = 7 ∷ 4 ∷ 0 ∷ []} {p = read_party []}
      {number = record { seq = 7; cseq_method = invite }} (omega arith) refl refl untagged refl refl
      refl refl answer_built callee_made

-- ===== src/Tests/Dialogs.antt =====
-- One dialog seen from both sides. A `From` or `To` is its tag.
use wavekat_sip.Base.{◌++◌, All, ◌+◌, ◌≡◌, refl, true, List, [], ◌∷◌, Option, none, some, arith}
use wavekat_sip.Sip.{
  other_header, Str, Header, bye, info, invite, contact, record_route, tag, Request, Response,
}
use wavekat_sip.Dialog.{DialogRsip, Party, Dialog, tag_of, id, id_from_request, uac, uas, compose}
use wavekat_sip.Dialog.Identity.{DialogLaws, IsReadable, mirror, answer_tag, sides_find_each_other}
use wavekat_sip.Dialog.Requests.{Draft, send_all, IsNumbered, send_all-IsNumbered}
use wavekat_sip.Answer.Agreement.{first_contact}
use wavekat_sip.Refer.{dialog_triplet, refer_to, query, refer_to_with_replaces}
use wavekat_sip.Refer.Replaces.{unescape, IsSafe, replaces_of, refer_to_with_replaces-names}
use wavekat_sip.Tests.Fixtures.{rsip, rsip-RsipLaws, headers, uri, request_of, response_of}

abbrev pub tag_or_empty : Option Str → Str
tag_or_empty none = []
tag_or_empty (some t) = t

abbrev pub dialog_rsip : DialogRsip
dialog_rsip = record {
  base = rsip;
  contact_header = first_contact;
  typed_party =
      λ t. some (record { party_name = none; party_uri = uri; party_params = tag t ∷ [] });
  party_value = λ p. tag_or_empty (tag_of p.party_params);
  party_tag = λ p. tag_of p.party_params;
  typed_contact = λ v. some uri;
  contact_value = λ u. [];
  typed_routes = λ v. some (v ∷ []);
  route_value = λ rs. [];
  length_value = λ n. n ∷ [];
}

pub dialog_rsip-DialogLaws : DialogLaws dialog_rsip
dialog_rsip-DialogLaws = record {
  base_laws = rsip-RsipLaws;
  from_first = λ hs. refl;
  call_id_first = λ hs. refl;
  tag_first = λ p. refl;
}

abbrev routed : List Header
routed = record_route (1 ∷ []) ∷ record_route (2 ∷ []) ∷ contact (5 ∷ []) ∷ headers invite

abbrev asks : Request
asks = record (request_of invite) { headers = routed }

abbrev answers : Response
answers = record (response_of invite 200) { headers = routed }

abbrev party : Str → Party
party t = record { display_name = none; uri = uri; party_tag = t }

abbrev pub caller : Dialog
caller = record {
  call = 99 ∷ [];
  local = party (97 ∷ []);
  remote = party (98 ∷ []);
  local_contact = uri;
  remote_target = uri;
  route_set = (2 ∷ []) ∷ (1 ∷ []) ∷ [];
  local_seq = 7;
  is_confirmed = true;
}

abbrev pub callee : Dialog
callee = record {
  call = 99 ∷ [];
  local = party (98 ∷ []);
  remote = party (97 ∷ []);
  local_contact = uri;
  remote_target = uri;
  route_set = (1 ∷ []) ∷ (2 ∷ []) ∷ [];
  local_seq = 0;
  is_confirmed = true;
}

caller_made : uac dialog_rsip asks answers uri ≡ some caller
unfolding uac
caller_made = refl

callee_made : uas dialog_rsip asks (98 ∷ []) uri ≡ some callee
unfolding uas
callee_made = refl

answer_tagged : answer_tag dialog_rsip answers ≡ some (98 ∷ [])
unfolding tag_of
answer_tagged = refl

caller-IsReadable : IsReadable dialog_rsip caller
unfolding tag_of
caller-IsReadable = (refl, refl)

pub callee-IsReadable : IsReadable dialog_rsip callee
unfolding tag_of
callee-IsReadable = (refl, refl)

sides_find_each_other_example :
    (id caller ≡ mirror (id callee))
    × (id_from_request dialog_rsip (compose dialog_rsip callee (7 ∷ []) bye 1 [] [])
        ≡ some (id caller))
    × (id_from_request dialog_rsip (compose dialog_rsip caller (7 ∷ []) bye 1 [] [])
        ≡ some (id callee))
sides_find_each_other_example =
    sides_find_each_other dialog_rsip dialog_rsip-DialogLaws asks answers (98 ∷ []) uri uri caller
      callee (7 ∷ []) bye 1 [] [] caller_made callee_made answer_tagged caller-IsReadable
      callee-IsReadable

abbrev drafts : List Draft
drafts =
    record { branch = 7 ∷ []; draft_method = info; extra = []; content = 1 ∷ [] }
    ∷ record { branch = 8 ∷ []; draft_method = bye; extra = []; content = [] }
    ∷ []

send_all-IsNumbered_example :
    IsNumbered dialog_rsip uri 7 drafts (send_all dialog_rsip caller drafts).1
    × (id (send_all dialog_rsip caller drafts).0 ≡ id caller)
    × ((send_all dialog_rsip caller drafts).0.route_set ≡ caller.route_set)
    × ((send_all dialog_rsip caller drafts).0.local_seq ≡ 7 + 2)
send_all-IsNumbered_example =
    send_all-IsNumbered dialog_rsip rsip-RsipLaws caller drafts (omega arith)

refer_to_with_replaces-names_example :
    (escaped : Str) × (refer_to_with_replaces (116 ∷ []) (dialog_triplet (id caller))
      ≡ other_header refer_to (b'<' ∷ ((116 ∷ []) ++ (query ++ (escaped ++ b'>' ∷ [])))))
    × (unescape escaped ≡ some (replaces_of (id callee)))
    × All IsSafe escaped
refer_to_with_replaces-names_example =
    refer_to_with_replaces-names (116 ∷ []) (id caller) (id callee) refl (ground arith)

-- ===== src/Dialog.antt =====
-- crates/wavekat-sip/src/stack/dialog.rs: a dialog, and the requests that are built in it. The
-- typed headers of rsip are the record `DialogRsip`; a `UriWithParams`, which the crate only copies,
-- is its text. The branch that `gen_branch` draws is an argument.
pub mod Identity
pub mod Requests
use mathlib.Core.List.{reverse}
use wavekat_sip.Base.{
  ℕ, ◌+◌, ◌*◌, ◌%◌, ◌^◌, ◌<◌, ◌≡◌, Bool, true, List, [], ◌∷◌, ◌++◌, Option, none, some, ◌>>=◌, leb,
  length,
}
use wavekat_sip.Sip.{
  Str, Method, ack, Header, via, from, to, call_id, cseq, route, record_route, max_forwards,
  contact, content_length, Param, tag, Uri, Request, Response, TypedCseq, Rsip, RsipLaws,
}
use wavekat_sip.Transaction.Via.{transport_of, via_value}

-- `rsip::typed::From` and `rsip::typed::To`.
pub record TypedParty : Type 0 where
  pub party_name : Option Str
  pub party_uri : Uri
  pub party_params : List Param

-- What the dialog code calls of rsip, `none` being its error.
pub record DialogRsip : Type 0 where
  pub base : Rsip
  pub contact_header : List Header → Option Str
  pub typed_party : Str → Option TypedParty
  pub party_value : TypedParty → Str
  pub party_tag : TypedParty → Option Str
  pub typed_contact : Str → Option Uri
  pub contact_value : Uri → Str
  pub typed_routes : Str → Option (List Str)
  pub route_value : List Str → Str
  pub length_value : ℕ → Str

pub record Party : Type 0 where
  pub display_name : Option Str
  pub uri : Uri
  pub party_tag : Str

pub record DialogId : Type 0 where
  pub id_call : Str
  pub local_tag : Str
  pub remote_tag : Str

pub record Dialog : Type 0 where
  pub call : Str
  pub local : Party
  pub remote : Party
  pub local_contact : Uri
  pub remote_target : Uri
  pub route_set : List Str
  pub local_seq : ℕ
  pub is_confirmed : Bool

unfoldable pub tag_of : List Param → Option Str
tag_of [] = none
tag_of (tag t ∷ ps) = some t
tag_of (p ∷ ps) = tag_of ps

abbrev pub id : Dialog → DialogId
id d = record { id_call = d.call; local_tag = d.local.party_tag; remote_tag = d.remote.party_tag }

abbrev pub confirm : Dialog → Dialog
confirm d = record d { is_confirmed = true }

abbrev party_of : TypedParty → Str → Party
party_of p t = record { display_name = p.party_name; uri = p.party_uri; party_tag = t }

-- The header value of one end, with its tag.
abbrev pub tagged : Party → TypedParty
tagged p = record {
  party_name = p.display_name;
  party_uri = p.uri;
  party_params = tag p.party_tag ∷ [];
}

module _ (r : DialogRsip) where
  -- `collect_routes`.
  unfoldable pub collect_routes : List Header → List Str
  collect_routes [] = []
  collect_routes (record_route v ∷ hs) = elim (r.typed_routes v) [
    | none ↦ collect_routes hs
    | some uris ↦ uris ++ collect_routes hs
  ]
  collect_routes (h ∷ hs) = collect_routes hs

  -- `DialogId::from_request`.
  unfoldable pub id_from_request : Request → Option DialogId
  id_from_request req = do
    raw_to ← r.base.to_header req.headers
    typed_to ← r.typed_party raw_to
    raw_from ← r.base.from_header req.headers
    typed_from ← r.typed_party raw_from
    call_value ← r.base.call_id_header req.headers
    to_tag ← r.party_tag typed_to
    from_tag ← r.party_tag typed_from
    some (record { id_call = call_value; local_tag = to_tag; remote_tag = from_tag })

  -- `Dialog::uac`.
  unfoldable pub uac : Request → Response → Uri → Option Dialog
  unfolding collect_routes tag_of
  uac inv resp local_contact = do
    raw_from ← r.base.from_header inv.headers
    typed_from ← r.typed_party raw_from
    raw_to ← r.base.to_header resp.headers
    typed_to ← r.typed_party raw_to
    raw_cseq ← r.base.cseq_header inv.headers
    typed_cseq ← r.base.typed_cseq raw_cseq
    call_value ← r.base.call_id_header inv.headers
    from_tag ← tag_of typed_from.party_params
    to_tag ← tag_of typed_to.party_params
    raw_contact ← r.contact_header resp.headers
    target ← r.typed_contact raw_contact
    some (record {
      call = call_value;
      local = party_of typed_from from_tag;
      remote = party_of typed_to to_tag;
      local_contact = local_contact;
      remote_target = target;
      route_set = reverse (collect_routes resp.headers);
      local_seq = typed_cseq.seq;
      is_confirmed = leb 200 resp.status_code;
    })

  -- `Dialog::uas`.
  unfoldable pub uas : Request → Str → Uri → Option Dialog
  unfolding collect_routes tag_of
  uas inv our_tag local_contact = do
    raw_from ← r.base.from_header inv.headers
    typed_from ← r.typed_party raw_from
    raw_to ← r.base.to_header inv.headers
    typed_to ← r.typed_party raw_to
    call_value ← r.base.call_id_header inv.headers
    from_tag ← tag_of typed_from.party_params
    raw_contact ← r.contact_header inv.headers
    target ← r.typed_contact raw_contact
    some (record {
      call = call_value;
      local = party_of typed_to our_tag;
      remote = party_of typed_from from_tag;
      local_contact = local_contact;
      remote_target = target;
      route_set = collect_routes inv.headers;
      local_seq = 0;
      is_confirmed = true;
    })

  abbrev pub routes_header : List Str → List Header
  routes_header [] = []
  routes_header (x ∷ xs) = route (r.route_value (x ∷ xs)) ∷ []

  unfoldable pub compose : Dialog → Str → Method → ℕ → List Header → List ℕ → Request
  compose d branch method seq extra body =
      let sent_via =
        via_value (transport_of d.local_contact) d.local_contact.host_with_port branch in
      record {
        method = method;
        uri = d.remote_target;
        version = 2;
        headers =
            via sent_via
            ∷ max_forwards r.base.max_forwards_default
            ∷ from (r.party_value (tagged d.local))
            ∷ to (r.party_value (tagged d.remote))
            ∷ call_id d.call
            ∷ cseq (r.base.cseq_value (record { seq = seq; cseq_method = method }))
            ∷ (routes_header d.route_set
                ++ contact (r.contact_value d.local_contact)
                  ∷ (extra ++ content_length (r.length_value (length body % 2 ^ 32)) ∷ []));
        body = body;
      }

  unfoldable pub new_request_with : Dialog → Str → Method → List Header → List ℕ → Dialog × Request
  unfolding compose
  new_request_with d branch method extra body =
      let seq = (d.local_seq + 1) % 2 ^ 32 in
      (record d { local_seq = seq }, compose d branch method seq extra body)

  unfoldable pub new_request : Dialog → Str → Method → Dialog × Request
  unfolding new_request_with
  new_request d branch method = new_request_with d branch method [] []

  unfoldable pub ack_2xx : Dialog → Str → ℕ → Request
  unfolding compose
  ack_2xx d branch invite_cseq = compose d branch ack invite_cseq [] []

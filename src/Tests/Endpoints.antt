-- ===== src/Tests/Endpoints.antt =====
-- An endpoint with one call and one pending INVITE, which the peer ends.
use wavekat_sip.Base.{ℕ, ◌≡◌, refl, arith, [], ◌∷◌, ◌++◌, none, some}
use wavekat_sip.Sip.{Response, Str, bye, cancel, invite}
use wavekat_sip.Transaction.Key.{TransactionKey, key_eq, from_request}
use wavekat_sip.Dialog.{id, compose}
use wavekat_sip.Call.{build_cancel}
use wavekat_sip.Ua.Router.{Incoming}
use wavekat_sip.Endpoint.{Endpoint, PendingInvite, dialog_id_eq, registered_at, route_inbound}
use wavekat_sip.Endpoint.Teardown.{Answers, HasTo, bye_terminates, cancel_terminates}
use wavekat_sip.Tests.Fixtures.{rsip, rsip-RsipLaws, branch, request_of}
use wavekat_sip.Tests.Dialogs.{
  dialog_rsip, dialog_rsip-DialogLaws, caller, callee, callee-IsReadable,
}
use wavekat_sip.Tests.Answers.{tagging}
use wavekat_sip.Tests.Agents.{agent_rsip, key, the_cancel, cancel_built, keyed, numbered}

abbrev gen_tag : ℕ → Str
gen_tag n = n ∷ []

abbrev pending : PendingInvite
pending = record { pending_invite = request_of invite; pending_token = 6 }

abbrev pub endpoint : Endpoint
endpoint = record {
  dialogs = [];
  terminations = (id caller, 5) ∷ [];
  incoming_invites = (key, pending) ∷ [];
  answers = [];
  calls = [];
  handed = [];
  fired = [];
  drawn = 0;
}

call_found : registered_at dialog_id_eq (id caller) endpoint.terminations ≡ some 5
unfolding registered_at
call_found = refl

bye_terminates_example :
    let req = compose dialog_rsip callee (7 ∷ []) bye 1 [] [] in
    let inc : Incoming = record { incoming_key = key; incoming_req = req; incoming_peer = 0 } in
    let after = route_inbound dialog_rsip gen_tag inc endpoint in
    (ok : Response) × Answers dialog_rsip req 200 (0 ∷ []) ok
    × (after.fired ≡ 5 ∷ [])
    × (after.answers ≡ (key, ok) ∷ [])
    × (after.handed ≡ [])
    × (after.calls ≡ [])
bye_terminates_example =
    bye_terminates dialog_rsip gen_tag dialog_rsip-DialogLaws caller callee key 0 1 5 (7 ∷ []) [] []
      endpoint refl callee-IsReadable call_found

invite_found : registered_at key_eq key endpoint.incoming_invites ≡ some pending
unfolding registered_at
invite_found = refl

abbrev cancel_key : TransactionKey
cancel_key = record { key_branch = branch; key_sent_by = []; key_method = cancel }

cancel_keyed : from_request rsip the_cancel ≡ some cancel_key
unfolding from_request build_cancel
cancel_keyed = refl

has_to : HasTo tagging (request_of invite)
has_to = (_, _, refl, refl)

cancel_terminates_example :
    let inc : Incoming = record {
      incoming_key = cancel_key;
      incoming_req = the_cancel;
      incoming_peer = 0;
    } in
    let after = route_inbound tagging gen_tag inc endpoint in
    let again = route_inbound tagging gen_tag inc after in
    (ok : Response) × (refused : Response) × (ok' : Response) × Answers tagging the_cancel 200
      (0 ∷ [])
      ok
    × Answers tagging (request_of invite) 487 (1 ∷ []) refused
    × Answers tagging the_cancel 200 (gen_tag after.drawn) ok'
    × (after.answers ≡ (cancel_key, ok) ∷ (key, refused) ∷ [])
    × (after.fired ≡ 6 ∷ [])
    × (registered_at key_eq key after.incoming_invites ≡ none)
    × (again.fired ≡ after.fired)
    × (again.answers ≡ after.answers ++ (cancel_key, ok') ∷ [])
cancel_terminates_example =
    cancel_terminates agent_rsip gen_tag rsip-RsipLaws pending key cancel_key 0 endpoint refl keyed
      (omega (arith, numbered)) has_to invite_found cancel_built cancel_keyed

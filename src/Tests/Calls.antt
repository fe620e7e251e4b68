-- ===== src/Tests/Calls.antt =====
-- A call that comes in and is accepted, and a call that is held, resumed and left.
use wavekat_sip.Base.{◌≡◌, refl, arith, true, false, List, [], ◌∷◌, ◌++◌, none, some}
use wavekat_sip.Sip.{Request, Response}
use wavekat_sip.Transaction.Key.{key_eq}
use wavekat_sip.Dialog.{uas}
use wavekat_sip.Answer.{build_response}
use wavekat_sip.Call.{answered}
use wavekat_sip.Endpoint.{Endpoint, dialog_id_eq, registered_at, unregister_at}
use wavekat_sip.Sdp.{pinned, opus, full, RemoteMedia, select_codec, select_dtmf, dtmf}
use wavekat_sip.Sdp.Menu.{IsMenu, menu_media}
use wavekat_sip.SessionTimer.{negotiate_uas, negotiate_uac}
use wavekat_sip.Calls.{Call, new_call}
use wavekat_sip.Transaction.Via.{transport_of, via_value}
use wavekat_sip.Calls.Effects.{ReadsVia}
use wavekat_sip.Tests.Fixtures.{uri}
use wavekat_sip.Calls.Acts.{
  Act, hold, transfer, end_call, refresh_session, perform_all, Trace, moved, seq_after,
  version_after, held_after,
}
use wavekat_sip.Calls.Control.{perform_all_lem}
use wavekat_sip.Calls.Dialing.{connected, conclude_call}
use wavekat_sip.Calls.Incoming.{
  Station, IncomingCall, Answered, ok, err, accept, timer_of, append_headers, timer_headers,
}
use wavekat_sip.Calls.Sessions.{Agree, session_answered}
use wavekat_sip.Calls.Answering.{accept_agrees}
use wavekat_sip.Tests.Answers.{tagging, asks, callee}
use wavekat_sip.Tests.Sessions.{asked}
use wavekat_sip.Tests.Agents.{agent_rsip, agent_rsip-AgentLaws, key}
use wavekat_sip.Tests.Endpoints.{endpoint}
use wavekat_sip.Tests.Flows.{account, outside, ua, quiet}
use wavekat_sip.Tests.Offers.{tally, tally-IpLaws}

abbrev offered : RemoteMedia
offered = menu_media 7 5004 full

abbrev call : Call
call = (new_call callee 3 none offered 6000 endpoint).0

abbrev acts : List Act
acts = hold true ∷ refresh_session [] none ∷ hold false ∷ transfer (1 ∷ []) ∷ end_call ∷ []

reads_via : ReadsVia agent_rsip call.dialog
unfolding new_call
reads_via branch =
    let sent = via_value (transport_of uri) uri.host_with_port branch in
    (record { via_branch = some sent; sent_by = [] }, sent, refl, refl)

negotiated : call.remote_media.codec ≡ some (opus 111)
unfolding new_call
negotiated = refl

perform_all_lem_example :
    let x = perform_all agent_rsip outside ua tally 9 acts call quiet in
    (reqs : List Request) × (x.2.wire ≡ [] ++ reqs)
    × Trace agent_rsip outside tally 9
        (opus 111)
        []
        call.dialog.local_seq
        call.sdp_version
        call
        acts
        x.0
        reqs
    × (x.1
        ≡ moved
            (seq_after call.dialog.local_seq acts)
            (version_after call.sdp_version acts)
            (held_after call.held acts x.0)
            call)
perform_all_lem_example =
    perform_all_lem agent_rsip agent_rsip-AgentLaws outside ua tally 9 (opus 111) acts call quiet
      reads_via negotiated

abbrev station : Station
station = record { account = account; local_ip = 9; local_addr = 10 ∷ [] }

abbrev incoming : IncomingCall
incoming = record {
  call_key = key;
  request = asks;
  cancelled = 6;
  local_tag = 98 ∷ [];
  offer = offered;
}

abbrev outcome : Answered Call × Endpoint
outcome = accept agent_rsip true tally station incoming (some 6000) 4 endpoint

abbrev the_call : Call
the_call = elim (outcome.0) [ ok c ↦ c | err e ↦ call ]

was_accepted : outcome ≡ (ok the_call, outcome.1)
unfolding accept select_codec select_dtmf build_response uas new_call negotiate_uas unregister_at
was_accepted = refl

selected : select_codec offered ≡ some (opus 111)
unfolding select_codec
selected = refl

IsMenu-pinned : IsMenu (pinned (opus 111) (select_dtmf offered (opus 111)))
unfolding select_dtmf
IsMenu-pinned = omega arith

accept_agrees_example :
    (resp : Response) × (outcome.1.answers ≡ endpoint.answers ++ (key, resp) ∷ [])
    × (resp.status_code ≡ 200)
    × (registered_at key_eq key outcome.1.incoming_invites ≡ none)
    × (registered_at dialog_id_eq the_call.dialog_id outcome.1.terminations
        ≡ some the_call.terminated)
    × (the_call.remote_media.codec ≡ some (opus 111))
    × (let x = conclude_call tally 7000 5 (answered callee resp) endpoint in
        (theirs : Call) × (x.0 ≡ connected theirs)
        × (theirs.remote_media.addr ≡ 9)
        × (theirs.remote_media.media_port ≡ 6000)
        × (theirs.remote_media.codec ≡ some (opus 111))
        × (dtmf theirs.remote_media ≡ select_dtmf offered (opus 111))
        × (the_call.session_timer ≡ timer_of (negotiate_uas asks.headers))
        × Agree asks.headers (negotiate_uas asks.headers) theirs.session_timer)
accept_agrees_example =
    accept_agrees agent_rsip tally station incoming 6000 4 endpoint the_call (outcome.1) (opus 111)
      callee 7000 5 endpoint tally-IpLaws (omega arith) selected IsMenu-pinned was_accepted

-- An INVITE that asks for a timer, and its answer before the timer's headers are put on it.
abbrev asks_timer : Request
asks_timer = record asks { headers = asked ++ asks.headers }

abbrev plain_answer : Response
plain_answer = elim (build_response tagging asks_timer 200 (some (98 ∷ [])) none none) [
  | some resp ↦ resp
  | none ↦ record { status_code = 0; version = 0; headers = []; body = [] }
]

plain_answer_built :
    build_response tagging asks_timer 200 (some (98 ∷ [])) none none ≡ some plain_answer
unfolding build_response
plain_answer_built = refl

session_answered_example :
    let timer = negotiate_uas asks_timer.headers in
    Agree asks_timer.headers timer
      (negotiate_uac (append_headers (timer_headers timer) plain_answer).headers)
session_answered_example =
    session_answered tagging asks_timer 200 (some (98 ∷ [])) none none plain_answer
      plain_answer_built

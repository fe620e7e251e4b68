-- ===== src/Tests/Flows.antt =====
-- A registrar whose first REGISTER is challenged, and a call that is given up.
use wavekat_sip.Base.{ℕ, ◌*◌, ◌≤◌, ◌≡◌, arith, false, List, [], ◌∷◌, ◌++◌, none, some, length}
use wavekat_sip.Sip.{Method, Request, invite}
use wavekat_sip.Transaction.{Transport}
use wavekat_sip.Engine.State.{response_event, terminated_event}
use wavekat_sip.Account.{SipAccount, system_roots}
use wavekat_sip.Call.{CallConfig, CallOutcome}
use wavekat_sip.Ua.{
  Outside, Ua, Air, Select, received, cancelled, await_final, await_final_cancellable,
}
use wavekat_sip.Ua.Cancelling.{before_end, statuses, events, await_final_cancels}
use wavekat_sip.Ua.Calling.{call_cancellable}
use wavekat_sip.Ua.Counting.{count_of}
use wavekat_sip.Ua.Acknowledging.{Acknowledges, call_ends}
use wavekat_sip.Ua.Numbers.{Rising}
use wavekat_sip.Ua.Router.{
  RouterInput, subscribed, published, run_router, deliveries, arrivals, run_router_routes,
}
use wavekat_sip.Registrar.{Registrar, World, new_state}
use wavekat_sip.Registrar.Operations.{
  Operation, refresh, ask, leave, operate_all, registrar_never_reuses_cseq,
}
use wavekat_sip.Tests.Fixtures.{rsip, uri, request_of, response_of}
use wavekat_sip.Tests.Agents.{agent_rsip, agent_rsip-AgentLaws, key, the_cancel, cancel_built}

-- Ringing, then the token, then the failure that the CANCEL brings about.
abbrev meets : List Select
meets =
    received (response_event key (response_of invite 180))
    ∷ cancelled
    ∷ received (response_event key (response_of invite 487))
    ∷ []

await_final_cancels_example :
    let w = await_final_cancellable agent_rsip (request_of invite) false false false meets in
    (w.cancels ≡ the_cancel ∷ [])
    × (w.final ≡ await_final (events meets))
    × (w.progress ≡ statuses (before_end meets))
await_final_cancels_example = await_final_cancels agent_rsip (request_of invite) meets cancel_built

-- The first request is challenged, every later one accepted.
abbrev status_after : List Request → ℕ
status_after [] = 401
status_after (req ∷ reqs) = 200

abbrev pub outside : Outside
outside = record {
  gen_branch = λ n. n ∷ [];
  gen_cnonce = λ n. n ∷ [];
  now = λ n. n;
  deliver =
      λ n reqs req. some (response_event key (response_of req.method (status_after reqs)) ∷ []);
  deliver_call = λ n reqs req.
      some (received (response_event key (response_of req.method (status_after reqs))) ∷ []);
}

abbrev pub ua : Ua
ua = record { local_addr = 10 ∷ []; agent_name = some (119 ∷ []) }

abbrev pub account : SipAccount
account = record {
  account_name = [];
  username = 97 ∷ [];
  password = 5 ∷ [];
  domain = 100 ∷ [];
  auth_name = none;
  server_name = none;
  fixed_port = none;
  over = Transport.udp;
  tls_policy = system_roots;
}

abbrev registrar : Registrar
registrar = record {
  account = account;
  expires = 60;
  registrar_call = 99 ∷ [];
  registrar_tag = 97 ∷ [];
  contact_text = 5 ∷ [];
}

abbrev pub quiet : Air
quiet = record { wire = []; tick = 0 }

abbrev operations : List Operation
operations = refresh ∷ ask ∷ refresh ∷ leave ∷ []

registrar_never_reuses_cseq_example :
    (w : World) × (operate_all agent_rsip outside ua registrar operations
        (record { state = new_state; air = quiet })
      ≡ some w)
    × Rising agent_rsip 0 w.air.wire w.state.cseq
    × (length w.air.wire ≤ 4 * 4)
registrar_never_reuses_cseq_example =
    registrar_never_reuses_cseq agent_rsip outside ua registrar agent_rsip-AgentLaws operations
      (omega arith)

abbrev call_config : CallConfig
call_config = record {
  callee = uri;
  caller = uri;
  call_contact = uri;
  call_from_tag = 97 ∷ [];
  invite_call = 99 ∷ [];
  sdp = [];
  extra_headers = [];
  call_login = 97 ∷ [];
  call_secret = 5 ∷ [];
}

call_ends_example :
    (outcome : CallOutcome) × (air' : Air) × (request : Request) × (earlier : List Request)
    × (acks : List Request) × (call_cancellable agent_rsip outside ua call_config 1 quiet
        ≡ some (outcome, air'))
    × (air'.wire ≡ earlier ++ acks)
    × Acknowledges agent_rsip outside ua call_config request earlier outcome acks
    × (request.method ≡ invite)
    × (count_of Method.ack earlier ≡ 0)
    × (count_of invite earlier ≤ 2)
call_ends_example = call_ends agent_rsip agent_rsip-AgentLaws outside ua call_config 1 quiet

-- The latest input first: a response after the end of its transaction, which nobody gets.
abbrev history : List RouterInput
history =
    published (response_event key (response_of invite 200))
    ∷ published (terminated_event key)
    ∷ published (response_event key (response_of invite 180))
    ∷ subscribed key 3
    ∷ []

run_router_routes_example :
    ((run_router rsip history).delivered ≡ deliveries rsip history)
    × ((run_router rsip history).incoming ≡ arrivals rsip history)
run_router_routes_example = run_router_routes rsip history

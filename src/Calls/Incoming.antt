-- ===== src/Calls/Incoming.antt =====
-- crates/wavekat-sip/src/callee.rs and inbound.rs, with next_incoming_call of endpoint.rs: a call that
-- comes in, and the answer to a request of a dialog. `running` says whether the engine takes an
-- answer; the port of the RTP socket is none if the socket does not bind.
use wavekat_sip.Base.{
  ℕ, Bool, true, false, List, [], ◌∷◌, ◌++◌, Option, none, some, ltb, if◌then◌else◌,
}
use wavekat_sip.Sip.{Str, Header, Request, Response, Uri}
use wavekat_sip.Transaction.Key.{TransactionKey}
use wavekat_sip.Transaction.Via.{contact_uri}
use wavekat_sip.Account.{SipAccount}
use wavekat_sip.Dialog.{uas}
use wavekat_sip.Answer.{ResponseBody, build_response}
use wavekat_sip.Auth.{AgentRsip}
use wavekat_sip.Call.{application_sdp}
use wavekat_sip.Ua.Router.{Incoming}
use wavekat_sip.Endpoint.{Endpoint, register_incoming, unregister_incoming}
use wavekat_sip.Sdp.{send_recv, AudioCodec, pinned, IpText, RemoteMedia, select_codec, select_dtmf}
use wavekat_sip.Sdp.Build.{build_sdp_with}
use wavekat_sip.Sdp.Parse.{media, refused, parse_sdp}
use wavekat_sip.SessionTimer.{
  SessionTimer, UasSessionTimer, negotiate_uas, supported_timer_header, require_timer_header,
  session_expires_header,
}
use wavekat_sip.Calls.{Call, new_call}

-- What the endpoint tells of itself.
pub record Station : Type 0 where
  pub account : SipAccount
  pub local_ip : ℕ
  pub local_addr : Str

pub record IncomingCall : Type 0 where
  pub call_key : TransactionKey
  pub request : Request
  pub cancelled : ℕ
  pub local_tag : Str
  pub offer : RemoteMedia

pub data AnswerError : Type 0 where
  not_built stopped no_socket bad_contact no_dialog : AnswerError
  no_supported_codec : ℕ → AnswerError
  not_a_failure : ℕ → AnswerError

pub data Answered (A : Type 0) : Type 0 where
  ok : A → Answered A
  err : AnswerError → Answered A

-- `Ua::answer`.
abbrev pub put_answer : Bool → TransactionKey → Response → Endpoint → Endpoint
put_answer true key resp e = record e { answers = e.answers ++ (key, resp) ∷ [] }
put_answer false key resp e = e

abbrev pub sent_answer : Bool → Answered (Unit {0})
sent_answer true = ok tt
sent_answer false = err stopped

abbrev pub append_headers : List Header → Response → Response
append_headers hs resp = record resp { headers = resp.headers ++ hs }

-- The headers of a session timer in the answer.
abbrev pub timer_headers : Option UasSessionTimer → List Header
timer_headers none = []
timer_headers (some uas) =
    supported_timer_header
    ∷ session_expires_header (uas.echo)
    ∷ (if uas.require_timer then require_timer_header ∷ [] else [])

abbrev pub timer_of : Option UasSessionTimer → Option SessionTimer
timer_of none = none
timer_of (some uas) = some (uas.timer)

abbrev pub sdp_body : List ℕ → ResponseBody
sdp_body bytes = record { content = application_sdp; bytes = bytes }

abbrev sdp_of : Option (List ℕ) → Option ResponseBody
sdp_of none = none
sdp_of (some bytes) = some (sdp_body bytes)

-- The loop of `next_incoming_call` over the announced calls: the first whose offer parses.
unfoldable pub next_offer : IpText → List Incoming → Option (Incoming × RemoteMedia) × List Incoming
next_offer ip [] = (none, [])
next_offer ip (inc ∷ rest) = elim (parse_sdp ip inc.incoming_req.body) [
  | media m ↦ (some (inc, m), rest)
  | refused e ↦ next_offer ip rest
]

-- `next_incoming_call`, with the drawn tag and the token of the new call.
unfoldable pub next_incoming_call : IpText → Str → ℕ → Endpoint → Option IncomingCall × Endpoint
unfolding next_offer
next_incoming_call ip tag token e =
    let (found, rest) = next_offer ip e.calls in
    let e1 : Endpoint = record e { calls = rest } in
    elim found [
      | none ↦ (none, e1)
      | some (inc, m) ↦ (
        some (record {
          call_key = inc.incoming_key;
          request = inc.incoming_req;
          cancelled = token;
          local_tag = tag;
          offer = m;
        }),
        register_incoming inc.incoming_key inc.incoming_req token e1,
      )
    ]

module _ (r : AgentRsip) (running : Bool) where
  -- `InboundRequest::respond`.
  unfoldable pub respond :
      TransactionKey → Request → ℕ → List Header → Option (List ℕ) → Endpoint → Bool × Endpoint
  respond key req status extra sdp e =
      elim (build_response r.dialogs req status none none (sdp_of sdp)) [
        | none ↦ (false, e)
        | some resp ↦ (running, put_answer running key (append_headers extra resp) e)
      ]

  -- `InboundRequest::ok`.
  abbrev pub respond_ok : TransactionKey → Request → Endpoint → Bool × Endpoint
  respond_ok key req e = respond key req 200 [] none e

  -- A response with no body and the tag of the call.
  unfoldable pub answer_plain : IncomingCall → ℕ → Endpoint → Answered (Unit {0}) × Endpoint
  answer_plain c status e =
      elim (build_response r.dialogs c.request status (some c.local_tag) none none) [
        | none ↦ (err not_built, e)
        | some resp ↦ (sent_answer running, put_answer running c.call_key resp e)
      ]

  abbrev pub ring : IncomingCall → Endpoint → Answered (Unit {0}) × Endpoint
  ring c e = answer_plain c 180 e

  unfoldable pub reject : IncomingCall → ℕ → Endpoint → Answered (Unit {0}) × Endpoint
  unfolding answer_plain
  reject c status e =
      let e1 = unregister_incoming c.call_key e in
      if ltb status 300 then (err (not_a_failure status), e1) else answer_plain c status e1

  -- The refusal of an offer without a codec that is known.
  unfoldable pub refuse_offer : IncomingCall → Endpoint → Answered Call × Endpoint
  refuse_offer c e = elim (build_response r.dialogs c.request 488 (some c.local_tag) none none) [
    | none ↦ (err not_built, e)
    | some resp ↦
        (err (no_supported_codec c.offer.first_payload_type), put_answer running c.call_key resp e)
  ]

  -- The end of `accept`: the dialog and the call, once the answer is sent.
  unfoldable pub establish :
      IncomingCall
      → AudioCodec
      → Uri
      → ℕ
      → Option UasSessionTimer
      → ℕ
      → Endpoint
      → Answered Call × Endpoint
  unfolding new_call
  establish c codec contact port timer token e =
      elim (uas r.dialogs c.request c.local_tag contact) [
        | none ↦ (err no_dialog, e)
        | some dialog ↦
            let (call, e') =
              new_call dialog token (timer_of timer) (record (c.offer) { codec = some codec }) port
                e in
            (ok call, e')
      ]

  module _ (ip : IpText) (station : Station) where
    -- `accept` once a codec is selected and the socket is bound.
    unfoldable pub accept_with :
        IncomingCall → AudioCodec → ℕ → ℕ → Endpoint → Answered Call × Endpoint
    unfolding establish
    accept_with c codec port token e =
        let menu = pinned codec (select_dtmf c.offer codec) in
        let answer = build_sdp_with ip station.local_ip port menu send_recv 0 in
        let timer = negotiate_uas c.request.headers in
        let username = station.account.username in
        elim (r.parse_uri (contact_uri username station.local_addr (station.account.over))) [
          | none ↦ (err bad_contact, e)
          | some contact ↦
              elim (build_response r.dialogs c.request 200 (some c.local_tag) (some contact)
                (some (sdp_body answer))) [
                  | none ↦ (err not_built, e)
                  | some resp ↦
                      let e1 =
                        put_answer running c.call_key (append_headers (timer_headers timer) resp)
                          e in
                      if running
                      then establish c codec contact port timer token e1
                      else (err stopped, e1)
                ]
        ]

    unfoldable pub accept : IncomingCall → Option ℕ → ℕ → Endpoint → Answered Call × Endpoint
    unfolding accept_with refuse_offer
    accept c rtp_port token e =
        let e1 = unregister_incoming c.call_key e in
        elim (select_codec c.offer) [
          | none ↦ refuse_offer c e1
          | some codec ↦ elim rtp_port [
            | none ↦ (err no_socket, e1)
            | some port ↦ accept_with c codec port token e1
          ]
        ]

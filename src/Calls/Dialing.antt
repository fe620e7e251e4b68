-- ===== src/Calls/Dialing.antt =====
-- crates/wavekat-sip/src/caller.rs: `dial_inner`. The tags that `gen_tag` draws are arguments, and the
-- port of the RTP socket is none if the socket does not bind.
use wavekat_sip.Base.{ℕ, List, [], ◌∷◌, ◌++◌, Option, none, some}
use wavekat_sip.Sip.{Str, Uri}
use wavekat_sip.Transaction.Via.{contact_uri}
use wavekat_sip.Account.{SipAccount, auth_username}
use wavekat_sip.Auth.{AgentRsip}
use wavekat_sip.Call.{
  CallConfig, CallOutcome, answered, rejected, unauthorized, timed_out, engine_stopped,
}
use wavekat_sip.Ua.{Outside, Ua, Air}
use wavekat_sip.Ua.Calling.{call_cancellable}
use wavekat_sip.Endpoint.{Endpoint}
use wavekat_sip.Sdp.{IpText}
use wavekat_sip.Sdp.Build.{build_sdp_offer}
use wavekat_sip.Sdp.Parse.{SdpError, media, refused, parse_sdp}
use wavekat_sip.SessionTimer.{
  default_session_expires_secs, SessionExpires, supported_timer_header, session_expires_header,
  negotiate_uac,
}
use wavekat_sip.Calls.{Call, new_call}
use wavekat_sip.Calls.Incoming.{Station}

pub data DialError : Type 0 where
  no_socket bad_from bad_contact authentication_failed no_answer stopped : DialError
  call_rejected : ℕ → DialError
  bad_answer : SdpError → DialError

pub data Dialed : Type 0 where
  connected : Call → Dialed
  failed : DialError → Dialed

abbrev pub from_uri : SipAccount → Str
from_uri a = b's' ∷ b'i' ∷ b'p' ∷ b':' ∷ (a.username ++ b'@' ∷ a.domain)

abbrev pub our_domain : Str
our_domain = b'@' ∷ b'w' ∷ b'a' ∷ b'v' ∷ b'e' ∷ b'k' ∷ b'a' ∷ b't' ∷ b'.' ∷ b'c' ∷ b'o' ∷ b'm' ∷ []

abbrev pub our_expires : SessionExpires
our_expires = record { interval_secs = default_session_expires_secs; refresher = none }

-- The configuration of the call, for this offer.
abbrev pub call_config : SipAccount → Uri → Uri → Uri → Str → Str → List ℕ → CallConfig
call_config a target from contact tag call_tag offer = record {
  callee = target;
  caller = from;
  call_contact = contact;
  call_from_tag = tag;
  invite_call = call_tag ++ our_domain;
  sdp = offer;
  extra_headers = supported_timer_header ∷ session_expires_header our_expires ∷ [];
  call_login = auth_username a;
  call_secret = a.password;
}

-- The `match` on the outcome, with the token of the new call.
unfoldable pub conclude_call : IpText → ℕ → ℕ → CallOutcome → Endpoint → Dialed × Endpoint
unfolding new_call
conclude_call ip port token (answered dialog resp) e = elim (parse_sdp ip resp.body) [
  | refused error ↦ (failed (bad_answer error), e)
  | media m ↦
      let (call, e') = new_call dialog token (negotiate_uac resp.headers) m port e in
      (connected call, e')
]
conclude_call ip port token (rejected status) e = (failed (call_rejected status), e)
conclude_call ip port token unauthorized e = (failed authentication_failed, e)
conclude_call ip port token timed_out e = (failed no_answer, e)
conclude_call ip port token engine_stopped e = (failed stopped, e)

module _ (r : AgentRsip) (out : Outside) (ua : Ua) (ip : IpText) (station : Station) where
  -- `dial_inner`; none only if the loop of the call runs out of fuel.
  unfoldable pub dial_inner :
      Uri → Option ℕ → Str → Str → ℕ → Endpoint → Air → Option (Dialed × Endpoint × Air)
  unfolding conclude_call
  dial_inner target rtp_port tag call_tag token e air = elim rtp_port [
    | none ↦ some (failed no_socket, e, air)
    | some port ↦ elim (r.parse_uri (from_uri station.account)) [
      | none ↦ some (failed bad_from, e, air)
      | some from ↦
          elim (r.parse_uri
            (contact_uri (station.account.username) station.local_addr (station.account.over))) [
              | none ↦ some (failed bad_contact, e, air)
              | some contact ↦
                  let offer = build_sdp_offer ip station.local_ip port in
                  let cfg = call_config station.account target from contact tag call_tag offer in
                  elim (call_cancellable r out ua cfg 1 air) [
                    | none ↦ none
                    | some (outcome, air') ↦
                        let (dialed, e') = conclude_call ip port token outcome e in
                        some (dialed, e', air')
                  ]
            ]
    ]
  ]

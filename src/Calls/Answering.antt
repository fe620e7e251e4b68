-- ===== src/Calls/Answering.antt =====
-- crates/wavekat-sip/src/callee.rs with caller.rs and sdp.rs: a call that is accepted, and the call that
-- its caller makes of the answer.
use wavekat_sip.Base.{
  text_eq_refl, ℕ, ◌≤◌, ◌≡◌, refl, sym, ap, ◌∙◌, inl, inr, Option-cases, arith, true, List, [], ◌∷◌,
  ◌++◌, Option, none, some,
}
use wavekat_sip.Sip.{Response, Uri}
use wavekat_sip.Transaction.Via.{contact_uri}
use wavekat_sip.Transaction.Key.{key_eq}
use wavekat_sip.Dialog.{Dialog, DialogId, id, uas}
use wavekat_sip.Answer.{build_response}
use wavekat_sip.Auth.{AgentRsip}
use wavekat_sip.Call.{answered}
use wavekat_sip.Endpoint.{Endpoint, dialog_id_eq, registered_at, register_at, unregister_incoming}
use wavekat_sip.Sdp.{
  send_recv, AudioCodec, DtmfSpec, pinned, IpText, RemoteMedia, select_codec, select_dtmf,
  find_clock, dtmf,
}
use wavekat_sip.Sdp.Build.{build_sdp_with}
use wavekat_sip.Sdp.Parse.{media, parse_sdp}
use wavekat_sip.Sdp.Reading.{IpLaws}
use wavekat_sip.Sdp.Menu.{IsMenu, menu_media}
use wavekat_sip.Sdp.RoundTrip.{parse_sdp-build_sdp_with}
use wavekat_sip.SessionTimer.{negotiate_uas, negotiate_uac}
use wavekat_sip.Calls.{Call, new_call}
use wavekat_sip.Calls.Dialing.{connected, conclude_call}
use wavekat_sip.Calls.Incoming.{
  Station, IncomingCall, ok, put_answer, append_headers, timer_headers, timer_of, sdp_body, accept,
  accept_with, establish, refuse_offer,
}
use wavekat_sip.Endpoint.Teardown.{unregister_at-gone}
use wavekat_sip.Calls.Sessions.{Agree, build_response-parts, session_answered}

-- The event that a pinned body lists is the one that is selected of it.
select_dtmf-pinned :
    (a port : ℕ) (codec : AudioCodec) (event : Option DtmfSpec)
    → dtmf (menu_media a port (pinned codec event)) ≡ event
unfolding dtmf find_clock
select_dtmf-pinned a port codec none = refl
select_dtmf-pinned a port codec (some d) = ground arith

module _ (r : AgentRsip) (ip : IpText) (station : Station) where
  -- What an accepted call has sent and made, after it is no longer pending in `e`.
  abbrev Accepts : IncomingCall → ℕ → ℕ → Endpoint → Call → Endpoint → Type 0
  Accepts c port token e call e' =
      (codec : AudioCodec) × (contact : Uri) × (resp : Response) × (dialog : Dialog) × (select_codec
          c.offer
        ≡ some codec)
      × (build_response r.dialogs c.request 200 (some c.local_tag) (some contact) (
            some (
              sdp_body (
                build_sdp_with ip station.local_ip port (pinned codec (select_dtmf c.offer codec))
                  send_recv 0)))
          ≡ some resp)
      × (uas r.dialogs c.request c.local_tag contact ≡ some dialog)
      × ((call, e')
          ≡ new_call dialog token (timer_of (negotiate_uas c.request.headers))
              (record (c.offer) { codec = some codec }) port
              (put_answer true c.call_key
                (append_headers (timer_headers (negotiate_uas c.request.headers)) resp) e))

  accept-Accepts :
      (c : IncomingCall) (port token : ℕ) (e : Endpoint) (call : Call) (e' : Endpoint)
      → accept r true ip station c (some port) token e ≡ (ok call, e')
      → Accepts c port token (unregister_incoming c.call_key e) call e'
  unfolding accept accept_with establish refuse_offer
  accept-Accepts c port token e call e' h =
      let target =
        contact_uri (station.account.username) station.local_addr (station.account.over) in
      elim (Option-cases (select_codec c.offer)) [
        | inl a ↦
            let refusal = build_response r.dialogs c.request 488 (some c.local_tag) none none in
            let impossible : ⊥ = ground (arith, a, h, Option-cases refusal) in absurd impossible
        | inr (codec, a) ↦
            let answer =
              build_sdp_with ip station.local_ip port (pinned codec (select_dtmf c.offer codec))
                send_recv 0 in
            elim (Option-cases (r.parse_uri target)) [
              | inl b ↦ let impossible : ⊥ = ground (arith, a, b, h) in absurd impossible
              | inr (contact, b) ↦
                  elim (Option-cases (
                    build_response r.dialogs c.request 200 (some c.local_tag) (some contact)
                      (some (sdp_body answer)))) [
                        | inl d ↦
                            let impossible : ⊥ = ground (arith, a, b, d, h) in absurd impossible
                        | inr (resp, d) ↦
                            elim (Option-cases (uas r.dialogs c.request c.local_tag contact)) [
                              | inl f ↦
                                  let impossible : ⊥ = ground (arith, a, b, d, f, h) in
                                  absurd impossible
                              | inr (dialog, f) ↦ (
                                codec,
                                contact,
                                resp,
                                dialog,
                                a,
                                d,
                                f,
                                ground (arith, a, b, d, f, h),
                              )
                            ]
                      ]
            ]
      ]

registered-dialog :
    (d : Dialog) (token : ℕ) (table : List (DialogId × ℕ))
    → registered_at dialog_id_eq (id d) (register_at dialog_id_eq (id d) token table) ≡ some token
unfolding registered_at register_at
registered-dialog d token table =
    rw (text_eq_refl d.call, text_eq_refl d.local.party_tag, text_eq_refl d.remote.party_tag) refl

conclude_call-media :
    (ip : IpText) (port token : ℕ) (dialog : Dialog) (resp : Response) (m : RemoteMedia)
    (e : Endpoint)
    → parse_sdp ip resp.body ≡ media m
    → (conclude_call ip port token (answered dialog resp) e).0
      ≡ connected (new_call dialog token (negotiate_uac resp.headers) m port e).0
unfolding conclude_call
conclude_call-media ip port token dialog resp m e h = ground (arith, h)

-- A callee whose engine runs accepts a call, with a port and a menu whose numbers fit their types.
-- The INVITE is no longer pending, its one answer is a 200 with the body of the codec that is
-- selected of the offer, and the BYE of the call's dialog will fire its token. A caller that
-- concludes its call with that answer gets a call too, at the callee's address and port: both have
-- the selected codec, the caller the event that the callee selected, and their session timers agree.
pub accept_agrees :
    (r : AgentRsip) (ip : IpText) (station : Station) (c : IncomingCall) (port token : ℕ)
    (e : Endpoint) (call : Call) (e' : Endpoint) (codec : AudioCodec) (dialog : Dialog)
    (own_port own_token : ℕ) (ours : Endpoint)
    → IpLaws ip
    → port ≤ 65535
    → select_codec c.offer ≡ some codec
    → IsMenu (pinned codec (select_dtmf c.offer codec))
    → accept r true ip station c (some port) token e ≡ (ok call, e')
    → (resp : Response) × (e'.answers ≡ e.answers ++ (c.call_key, resp) ∷ [])
      × (resp.status_code ≡ 200)
      × (registered_at key_eq c.call_key e'.incoming_invites ≡ none)
      × (registered_at dialog_id_eq call.dialog_id e'.terminations ≡ some call.terminated)
      × (call.remote_media.codec ≡ some codec)
      × (let x = conclude_call ip own_port own_token (answered dialog resp) ours in
          (theirs : Call) × (x.0 ≡ connected theirs)
          × (theirs.remote_media.addr ≡ station.local_ip)
          × (theirs.remote_media.media_port ≡ port)
          × (theirs.remote_media.codec ≡ some codec)
          × (dtmf theirs.remote_media ≡ select_dtmf c.offer codec)
          × (call.session_timer ≡ timer_of (negotiate_uas c.request.headers))
          × Agree c.request.headers (negotiate_uas c.request.headers) theirs.session_timer)
unfolding new_call
accept_agrees r ip station c port token e call e' codec dialog own_port own_token ours laws small
      sel menu h =
    let event = select_dtmf c.offer codec in
    let timer = negotiate_uas c.request.headers in
    let m = menu_media station.local_ip port (pinned codec event) in
    let (codec', contact, bare, d, sel', built', uas_is, made) =
      accept-Accepts r ip station c port token e call e' h in
    let codec_is : codec' ≡ codec = ground arith in
    let built = rw codec_is at built' in
    let resp = append_headers (timer_headers timer) bare in
    let (status_is, body_is, plain) =
      build_response-parts r.dialogs c.request 200 (some c.local_tag) (some contact) _ bare built in
    let read : parse_sdp ip resp.body ≡ media m =
      ap (parse_sdp ip) body_is
      ∙ parse_sdp-build_sdp_with ip station.local_ip port (pinned codec event) send_recv 0 laws
          small (omega arith) menu in
    let theirs = (new_call dialog own_token (negotiate_uac resp.headers) m own_port ours).0 in
    (
      resp,
      ap (λ x. x.1.answers) made,
      status_is,
      ap (λ x. registered_at key_eq c.call_key x.1.incoming_invites) made
          ∙ unregister_at-gone c.call_key e.incoming_invites,
      ap (λ x. registered_at dialog_id_eq x.0.dialog_id x.1.terminations) made
          ∙ registered-dialog d token e.terminations
          ∙ ap (λ x. some x.0.terminated) (sym made),
      ap (λ x. x.0.remote_media.codec) made ∙ ap some codec_is,
      (
        theirs,
        conclude_call-media ip own_port own_token dialog resp m ours read,
        refl,
        refl,
        refl,
        select_dtmf-pinned station.local_ip port codec event,
        ap (λ x. x.0.session_timer) made,
        session_answered r.dialogs c.request 200 (some c.local_tag) (some contact) _ bare built,
      ),
    )

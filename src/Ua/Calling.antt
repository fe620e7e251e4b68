-- ===== src/Ua/Calling.antt =====
-- crates/wavekat-sip/src/stack/ua.rs: `call_cancellable`, and the requests inside a dialog. The loop of
-- a call runs on fuel; a call has at most two rounds.
use wavekat_sip.Base.{
  ℕ, zero, suc, ◌+◌, Bool, true, false, not, ◌&&◌, List, [], ◌∷◌, ◌++◌, Option, none, some,
  if◌then◌else◌,
}
use wavekat_sip.Sip.{Str, Method, Header, Request, Response}
use wavekat_sip.Dialog.{Dialog, uac, ack_2xx, new_request, new_request_with}
use wavekat_sip.Auth.{AgentRsip, build_retry}
use wavekat_sip.Call.{
  CallConfig, call_creds, CallOutcome, answered, rejected, unauthorized, timed_out, engine_stopped,
  build_invite, cseq_of,
}
use wavekat_sip.Ua.{
  Outside, Ua, Air, ticked, await_final, is_success, is_challenge, await_final_cancellable,
  start_client, start_call,
}

-- What one round of a call comes to: an outcome, with the ACK that is sent for it, or another INVITE.
pub data CallStep : Type 0 where
  ends : CallOutcome → List Request → CallStep
  calls_again : Request → CallStep

module _ (r : AgentRsip) where
  -- The branches on a final response, with the draws for an ACK or an answer to a challenge.
  unfoldable pub judge_call : CallConfig → Bool → Request → Response → Str → Str → CallStep
  judge_call cfg challenged request resp fresh cnonce =
      let code = resp.status_code in
      if is_success code
      then (elim (uac r.dialogs request resp cfg.call_contact) [
        | none ↦ ends (rejected code) []
        | some dialog ↦
            ends (answered dialog resp) (ack_2xx r.dialogs dialog fresh (cseq_of r request) ∷ [])
      ])
      else if is_challenge code && not challenged
      then (elim (build_retry r request resp (call_creds cfg) fresh cnonce) [
        | some retry ↦ calls_again retry
        | none ↦ ends unauthorized []
      ])
      else if is_challenge code
      then ends unauthorized []
      else ends (rejected code) []

  abbrev pub put_on : List Request → Air → Air
  put_on reqs air = record { wire = air.wire ++ reqs; tick = air.tick + 1 }

  module _ (out : Outside) (ua : Ua) where
    -- One round: send the INVITE, wait with the cancel token, and judge.
    unfoldable pub call_round : CallConfig → Bool → Request → Air → CallStep × Air
    unfolding judge_call start_call await_final_cancellable
    call_round cfg challenged request air =
        let (air1, meets) = start_call r out ua request air in
        elim meets [
          | none ↦ (ends engine_stopped [], air1)
          | some ss ↦
              let waiting = await_final_cancellable r request false false false ss in
              let air2 = put_on waiting.cancels air1 in
              elim waiting.final [
                | none ↦ (ends timed_out [], air2)
                | some resp ↦ (
                  judge_call cfg challenged request resp (out.gen_branch air2.tick)
                      (out.gen_cnonce air2.tick),
                  air2,
                )
              ]
        ]

    unfoldable pub call_loop : ℕ → CallConfig → Bool → Request → Air → Option (CallOutcome × Air)
    unfolding call_round
    call_loop zero cfg challenged request air = none
    call_loop (suc fuel) cfg challenged request air =
        let (step, air') = call_round cfg challenged request air in
        elim step [
          | ends outcome acks ↦ some (outcome, put_on acks air')
          | calls_again retry ↦ call_loop fuel cfg true retry (ticked air')
        ]

    unfoldable pub call_cancellable : CallConfig → ℕ → Air → Option (CallOutcome × Air)
    unfolding call_loop
    call_cancellable cfg first_cseq air =
        let request = build_invite r cfg first_cseq ua.local_addr (out.gen_branch air.tick) in
        call_loop 2 cfg false request (ticked air)

    -- `send_in_dialog`.
    unfoldable pub send_in_dialog : Request → Air → Option Response × Air
    unfolding start_client
    send_in_dialog request air =
        let (air', events) = start_client r out ua request air in
        elim events [ none ↦ (none, air') | some evs ↦ (await_final evs, air') ]

    unfoldable pub hangup : Dialog → Air → Bool × Dialog × Air
    unfolding send_in_dialog
    hangup dialog air =
        let (dialog', request) =
          new_request r.dialogs dialog (out.gen_branch air.tick) Method.bye in
        let (resp, air') = send_in_dialog request (ticked air) in
        (elim resp [ none ↦ false | some final ↦ is_success final.status_code ], dialog', air')

    unfoldable pub reinvite : Dialog → List Header → List ℕ → Air → Option Response × Dialog × Air
    unfolding send_in_dialog
    reinvite dialog extra body air =
        let (dialog', request) =
          new_request_with r.dialogs dialog (out.gen_branch air.tick) Method.invite extra body in
        let (resp, air') = send_in_dialog request (ticked air) in
        let ack = ack_2xx r.dialogs dialog' (out.gen_branch air'.tick) (cseq_of r request) in
        elim resp [
          | none ↦ (none, dialog', air')
          | some final ↦ (
            some final,
            dialog',
            if is_success final.status_code then put_on (ack ∷ []) air' else air',
          )
        ]

    unfoldable pub info : Dialog → List Header → List ℕ → Air → Option Response × Dialog × Air
    unfolding send_in_dialog
    info dialog extra body air =
        let (dialog', request) =
          new_request_with r.dialogs dialog (out.gen_branch air.tick) Method.info extra body in
        let (resp, air') = send_in_dialog request (ticked air) in (resp, dialog', air')

    unfoldable pub refer : Dialog → List Header → Air → Option Response × Dialog × Air
    unfolding send_in_dialog
    refer dialog extra air =
        let (dialog', request) =
          new_request_with r.dialogs dialog (out.gen_branch air.tick) Method.refer extra [] in
        let (resp, air') = send_in_dialog request (ticked air) in (resp, dialog', air')

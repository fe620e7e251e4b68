-- ===== src/Calls.antt =====
-- crates/wavekat-sip/src/caller.rs: an established call and what is done with it. The peer's address is
-- left out, of the RTP socket only its port is kept; a target of a transfer is its text. An error is
-- its case, not its text.
pub mod Acts
pub mod Control
pub mod Dialing
pub mod Effects
pub mod Incoming
pub mod Sessions
pub mod Answering
use wavekat_sip.Base.{
  ℕ, ◌+◌, ◌%◌, ◌^◌, Bool, true, false, List, [], ◌∷◌, ◌++◌, Option, none, some, if◌then◌else◌,
}
use wavekat_sip.Sip.{Str, Header, content_type, Uri, Response}
use wavekat_sip.Dialog.{Dialog, DialogId, id}
use wavekat_sip.Auth.{AgentRsip}
use wavekat_sip.Call.{application_sdp}
use wavekat_sip.Rtp.Dtmf.{DtmfDigit}
use wavekat_sip.Sdp.{
  MediaDirection, send_recv, send_only, AudioCodec, CodecMenu, full, pinned, IpText, RemoteMedia,
  dtmf,
}
use wavekat_sip.Sdp.Build.{build_sdp_with}
use wavekat_sip.SessionTimer.{SessionTimer}
use wavekat_sip.SessionTimer.Run.{Reply, answered, not_confirmed}
use wavekat_sip.Refer.{
  DialogTriplet, refer_to_header, refer_to_with_replaces, build_info_body, dtmf_content_type,
  InfoOutcome, classify,
}
use wavekat_sip.Ua.{Outside, Ua, Air, is_success}
use wavekat_sip.Ua.Calling.{hangup, reinvite, info, refer}
use wavekat_sip.Ua.Calling as Flow
use wavekat_sip.Endpoint.{Endpoint, register_termination, unregister_termination}

pub data CallError : Type 0 where
  refused : ℕ → CallError
  no_final_response bye_not_acknowledged : CallError

-- `Ok(())` or an error.
pub data Done : Type 0 where
  ok : Done
  err : CallError → Done

pub record Call : Type 0 where
  pub dialog : Dialog
  pub dialog_id : DialogId
  pub peer_uri : Uri
  pub terminated : ℕ
  pub held : Bool
  pub sdp_version : ℕ
  pub session_timer : Option SessionTimer
  pub remote_media : RemoteMedia
  pub local_rtp_port : ℕ

-- `Call::new`: the call, and the endpoint with its token registered.
unfoldable pub new_call :
    Dialog → ℕ → Option SessionTimer → RemoteMedia → ℕ → Endpoint → Call × Endpoint
new_call dialog token timer media port e = (
  record {
    dialog = dialog;
    dialog_id = id dialog;
    peer_uri = dialog.remote_target;
    terminated = token;
    held = false;
    sdp_version = 0;
    session_timer = timer;
    remote_media = media;
    local_rtp_port = port;
  },
  register_termination (id dialog) token e,
)

-- `Drop for Call`.
abbrev pub drop_call : Call → Endpoint → Endpoint
drop_call c e = unregister_termination c.dialog_id e

-- The match on the final response of a request that asks for something.
abbrev pub verdict : Option Response → Done
verdict none = err no_final_response
verdict (some resp) = if is_success resp.status_code then ok else err (refused resp.status_code)

abbrev pub is_ok : Done → Bool
is_ok ok = true
is_ok (err e) = false

abbrev pub hold_direction : Bool → MediaDirection
hold_direction true = send_only
hold_direction false = send_recv

-- The menu of a re-offer.
abbrev pub offer_menu : RemoteMedia → CodecMenu
offer_menu media = elim (media.codec) [ none ↦ full | some codec ↦ pinned codec (dtmf media) ]

abbrev pub refresh_headers : List Header → List ℕ → List Header
refresh_headers headers [] = headers
refresh_headers headers (b ∷ body) = headers ++ content_type application_sdp ∷ []

abbrev pub body_of : Option (List ℕ) → List ℕ
body_of none = []
body_of (some body) = body

abbrev pub with_dialog : Dialog → Call → Call
with_dialog d c = record c { dialog = d }

module _ (r : AgentRsip) (out : Outside) (ua : Ua) where
  -- `set_hold`; the version is a `u32`.
  unfoldable pub set_hold : IpText → ℕ → Bool → Call → Air → Done × Call × Air
  set_hold ip local_ip on c air =
      let version = (c.sdp_version + 1) % 2 ^ 32 in
      let offer =
        build_sdp_with ip local_ip c.local_rtp_port (offer_menu c.remote_media) (hold_direction on)
          version in
      let (resp, d, air') =
        reinvite r out ua c.dialog (content_type application_sdp ∷ []) offer air in
      let done = verdict resp in
      (
        done,
        record c { dialog = d; sdp_version = version; held = if is_ok done then on else c.held },
        air',
      )

  unfoldable pub send_dtmf_info : DtmfDigit → ℕ → Call → Air → InfoOutcome × Call × Air
  send_dtmf_info digit duration_ms c air =
      let (resp, d, air') =
        info r out ua c.dialog (dtmf_content_type ∷ []) (build_info_body digit duration_ms) air in
      (classify resp, with_dialog d c, air')

  unfoldable pub blind_transfer : Str → Call → Air → Done × Call × Air
  blind_transfer target c air =
      let (resp, d, air') = refer r out ua c.dialog (refer_to_header target ∷ []) air in
      (verdict resp, with_dialog d c, air')

  unfoldable pub attended_transfer : Str → DialogTriplet → Call → Air → Done × Call × Air
  attended_transfer target replaces c air =
      let (resp, d, air') =
        refer r out ua c.dialog (refer_to_with_replaces target replaces ∷ []) air in
      (verdict resp, with_dialog d c, air')

  -- `Call::hangup`, and `send_bye` of the handle of `session_handle`, which shares the dialog.
  unfoldable pub hang_up : Call → Air → Done × Call × Air
  hang_up c air =
      let (acked, d, air') = hangup r out ua c.dialog air in
      (if acked then ok else err bye_not_acknowledged, with_dialog d c, air')

  -- `refresh` of the handle of `session_handle`.
  unfoldable pub refresh : List Header → Option (List ℕ) → Call → Air → Reply × Call × Air
  refresh headers body c air =
      let bytes = body_of body in
      let (resp, d, air') = reinvite r out ua c.dialog (refresh_headers headers bytes) bytes air in
      (elim resp [ none ↦ not_confirmed | some final ↦ answered final ], with_dialog d c, air')

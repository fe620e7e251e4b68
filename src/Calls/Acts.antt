-- ===== src/Calls/Acts.antt =====
-- crates/wavekat-sip/src/caller.rs: the operations of a call in a row, and what they are to send.
use wavekat_sip.Base.{
  ℕ, ◌+◌, ◌%◌, ◌^◌, ◌≡◌, Bool, false, List, [], ◌∷◌, ◌++◌, Option, if◌then◌else◌,
}
use wavekat_sip.Sip.{Str, Method, Header, Request}
use wavekat_sip.Auth.{AgentRsip}
use wavekat_sip.Rtp.Dtmf.{DtmfDigit}
use wavekat_sip.Sdp.{MediaDirection, send_recv, send_only, AudioCodec, pinned, dtmf, IpText}
use wavekat_sip.Sdp.Build.{build_sdp_with}
use wavekat_sip.Refer.{DialogTriplet, build_info_body, is_accepted}
use wavekat_sip.SessionTimer.Run.{Reply, answered, not_confirmed, refresh_error}
use wavekat_sip.Ua.{Outside, Ua, Air, is_success}
use wavekat_sip.Calls.{
  Call, is_ok, body_of, set_hold, send_dtmf_info, blind_transfer, attended_transfer, hang_up,
  refresh,
}
use wavekat_sip.Calls.Effects.{Sends}

-- An operation of the call or of its session handle.
pub data Act : Type 0 where
  hold : Bool → Act
  press : DtmfDigit → ℕ → Act
  transfer : Str → Act
  transfer_to_call : Str → DialogTriplet → Act
  end_call : Act
  refresh_session : List Header → Option (List ℕ) → Act

-- What the operation reports, as a Boolean.
abbrev pub is_answered_2xx : Reply → Bool
is_answered_2xx (answered resp) = is_success resp.status_code
is_answered_2xx not_confirmed = false
is_answered_2xx refresh_error = false

abbrev pub act_method : Act → Method
act_method (hold on) = Method.invite
act_method (press digit ms) = Method.info
act_method (transfer target) = Method.refer
act_method (transfer_to_call target replaces) = Method.refer
act_method end_call = Method.bye
act_method (refresh_session headers body) = Method.invite

-- One more re-offer.
abbrev pub next_version : Act → ℕ → ℕ
next_version (hold on) n = (n + 1) % 2 ^ 32
next_version act n = n

abbrev pub next_held : Act → Bool → Bool → Bool
next_held (hold on) accepted held = if accepted then on else held
next_held act accepted held = held

-- The hold that was accepted last.
abbrev pub held_after : Bool → List Act → List Bool → Bool
held_after held (act ∷ acts) (accepted ∷ oks) = held_after (next_held act accepted held) acts oks
held_after held acts oks = held

-- The number of the last request, and the version of the last offer, after some operations.
abbrev pub seq_after : ℕ → List Act → ℕ
seq_after n [] = n
seq_after n (act ∷ acts) = seq_after ((n + 1) % 2 ^ 32) acts

abbrev pub version_after : ℕ → List Act → ℕ
version_after n [] = n
version_after n (act ∷ acts) = version_after (next_version act n) acts

module _ (r : AgentRsip) (out : Outside) (ua : Ua) (ip : IpText) (local_ip : ℕ) where
  unfoldable pub perform : Act → Call → Air → Bool × Call × Air
  perform (hold on) c air =
      let (done, c', air') = set_hold r out ua ip local_ip on c air in (is_ok done, c', air')
  perform (press digit ms) c air =
      let (outcome, c', air') = send_dtmf_info r out ua digit ms c air in
      (is_accepted outcome, c', air')
  perform (transfer target) c air =
      let (done, c', air') = blind_transfer r out ua target c air in (is_ok done, c', air')
  perform (transfer_to_call target replaces) c air =
      let (done, c', air') = attended_transfer r out ua target replaces c air in
      (is_ok done, c', air')
  perform end_call c air = let (done, c', air') = hang_up r out ua c air in (is_ok done, c', air')
  perform (refresh_session headers body) c air =
      let (reply, c', air') = refresh r out ua headers body c air in
      (is_answered_2xx reply, c', air')

  unfoldable pub perform_all : List Act → Call → Air → List Bool × Call × Air
  unfolding perform
  perform_all [] c air = ([], c, air)
  perform_all (act ∷ acts) c air =
      let (accepted, c1, air1) = perform act c air in
      let (oks, c2, air2) = perform_all acts c1 air1 in (accepted ∷ oks, c2, air2)

-- The call with another number, version and hold.
abbrev pub moved : ℕ → ℕ → Bool → Call → Call
moved n v held c = record c {
  dialog = record (c.dialog) { local_seq = n };
  sdp_version = v;
  held = held;
}

-- What a re-offer says of the direction.
abbrev pub direction_of : Bool → MediaDirection
direction_of held = if held then send_only else send_recv

module _ (ip : IpText) (local_ip : ℕ) (codec : AudioCodec) where
  -- The body that an operation sends, `version` being the one of a re-offer, which has this codec
  -- alone, with its event.
  abbrev pub act_body : Act → ℕ → Call → List ℕ
  act_body (hold on) version c =
      build_sdp_with ip local_ip c.local_rtp_port (pinned codec (dtmf c.remote_media))
        (direction_of on) version
  act_body (press digit ms) version c = build_info_body digit ms
  act_body (transfer target) version c = []
  act_body (transfer_to_call target replaces) version c = []
  act_body end_call version c = []
  act_body (refresh_session headers body) version c = body_of body

module _ (r : AgentRsip) (out : Outside) (ip : IpText) (local_ip : ℕ) (codec : AudioCodec) where
  -- What the operations send in turn behind the requests `wire`, from the number `n` and the version
  -- `v` on.
  abbrev pub Trace : List Request → ℕ → ℕ → Call → List Act → List Bool → List Request → Type 0
  Trace wire n v c [] oks reqs = (oks ≡ []) × (reqs ≡ [])
  Trace wire n v c (act ∷ acts) [] reqs = ⊥
  Trace wire n v c (act ∷ acts) (accepted ∷ oks) reqs =
      (now : List Request) × (later : List Request) × (reqs ≡ now ++ later)
      × Sends r out wire accepted ((n + 1) % 2 ^ 32) (act_method act)
          (act_body ip local_ip codec act (next_version act v) c) c.dialog.remote_target now
      × Trace (wire ++ now) ((n + 1) % 2 ^ 32) (next_version act v) c acts oks later

-- ===== src/Calls/Control.antt =====
-- crates/wavekat-sip/src/caller.rs: what a call sends in its dialog, and what it keeps, over any
-- sequence of its operations.
use mathlib.Core.Path.{subst}
use wavekat_sip.Base.{
  ℕ, ◌+◌, ◌%◌, ◌^◌, ◌≡◌, refl, sym, ap, ◌∙◌, arith, Bool, true, false, List, [], ◌∷◌, ◌++◌,
  append_assoc, append-nil, Option, none, some, if◌then◌else◌,
}
use wavekat_sip.Sip.{Method, content_type, Request, Response}
use wavekat_sip.Auth.{AgentRsip}
use wavekat_sip.Auth.Retry.{AgentLaws}
use wavekat_sip.Sdp.{AudioCodec, full, pinned, RemoteMedia, dtmf, IpText}
use wavekat_sip.Sdp.Build.{build_sdp_with}
use wavekat_sip.Call.{application_sdp}
use wavekat_sip.Refer.{
  classify, refer_to_header, refer_to_with_replaces, dtmf_content_type, build_info_body,
  is_accepted,
}
use wavekat_sip.SessionTimer.Run.{answered, not_confirmed}
use wavekat_sip.Ua.{Outside, Ua, Air}
use wavekat_sip.Ua.Calling.{hangup, reinvite, info, refer}
use wavekat_sip.Calls.{
  Call, ok, err, is_ok, bye_not_acknowledged, verdict, refresh_headers, offer_menu, hold_direction,
  body_of, set_hold, send_dtmf_info, blind_transfer, attended_transfer, hang_up, refresh,
}
use wavekat_sip.Calls.Effects.{
  ReadsVia, is_accepting, Effect, refer-Effect, info-Effect, hangup-Effect, reinvite-Effect,
}
use wavekat_sip.Calls.Acts.{
  Act, hold, press, transfer, transfer_to_call, end_call, refresh_session, is_answered_2xx,
  act_method, next_version, next_held, held_after, seq_after, version_after, perform, perform_all,
  moved, direction_of, act_body, Trace,
}

module _ (ip : IpText) (local_ip : ℕ) (codec : AudioCodec) where
  act_body-moved :
      (act : Act) (version n v : ℕ) (held : Bool) (c : Call)
      → act_body ip local_ip codec act version (moved n v held c)
        ≡ act_body ip local_ip codec act version c
  act_body-moved (hold on) version n v held c = refl
  act_body-moved (press digit ms) version n v held c = refl
  act_body-moved (transfer target) version n v held c = refl
  act_body-moved (transfer_to_call target replaces) version n v held c = refl
  act_body-moved end_call version n v held c = refl
  act_body-moved (refresh_session headers body) version n v held c = refl

hold_direction-direction_of : (on : Bool) → hold_direction on ≡ direction_of on
hold_direction-direction_of true = refl
hold_direction-direction_of false = refl

offer_menu-pinned :
    (media : RemoteMedia) (codec : AudioCodec)
    → media.codec ≡ some codec
    → offer_menu media ≡ pinned codec (dtmf media)
offer_menu-pinned media codec e =
    ap (λ (o : Option AudioCodec). elim o [ none ↦ full | some c ↦ pinned c (dtmf media) ]) e

accepting-verdict : (resp : Option Response) → is_accepting resp ≡ is_ok (verdict resp)
accepting-verdict none = refl
accepting-verdict (some final) = ground arith

accepting-classify : (resp : Option Response) → is_accepting resp ≡ is_accepted (classify resp)
unfolding classify
accepting-classify none = refl
accepting-classify (some final) = ground arith

accepting-reply :
    (resp : Option Response)
    → is_accepting resp ≡ is_answered_2xx (elim resp [ none ↦ not_confirmed | some f ↦ answered f ])
accepting-reply none = refl
accepting-reply (some final) = refl

acknowledged : (acked : Bool) → acked ≡ is_ok (if acked then ok else err bye_not_acknowledged)
acknowledged true = refl
acknowledged false = refl

module _ (r : AgentRsip) (laws : AgentLaws r) (out : Outside) (ua : Ua) (ip : IpText) (local_ip : ℕ)
    (codec : AudioCodec) where
  -- One operation: what it sends, and the call that it leaves.
  abbrev Performs : Act → Call → Air → Bool × Call × Air → Type 0
  Performs act c air (accepted, c', air') =
      Effect r out (act_method act)
        (act_body ip local_ip codec act (next_version act c.sdp_version) c) c.dialog air accepted
        c'.dialog air'
      × (c' ≡ record c {
        dialog = c'.dialog;
        sdp_version = next_version act c.sdp_version;
        held = next_held act accepted c.held;
      })

  perform-Performs :
      (act : Act) (c : Call) (air : Air)
      → ReadsVia r c.dialog
      → c.remote_media.codec ≡ some codec
      → Performs act c air (perform r out ua ip local_ip act c air)
  unfolding perform set_hold send_dtmf_info blind_transfer attended_transfer hang_up refresh
  perform-Performs (hold on) c air reads is =
      let offer =
        build_sdp_with ip local_ip c.local_rtp_port (offer_menu c.remote_media) (hold_direction on)
          ((c.sdp_version + 1) % 2 ^ 32) in
      let x = reinvite r out ua c.dialog (content_type application_sdp ∷ []) offer air in
      let offer_is : offer ≡ act_body ip local_ip codec (hold on) ((c.sdp_version + 1) % 2 ^ 32) c =
        ap
          (λ menu.
            build_sdp_with ip local_ip c.local_rtp_port menu (hold_direction on)
              ((c.sdp_version + 1) % 2 ^ 32))
          (offer_menu-pinned c.remote_media codec is)
        ∙ ap
            (λ d.
              build_sdp_with ip local_ip c.local_rtp_port (pinned codec (dtmf c.remote_media)) d
                ((c.sdp_version + 1) % 2 ^ 32))
            (hold_direction-direction_of on) in
      rw (← accepting-verdict x.0) (
        subst (λ body. Effect r out Method.invite body c.dialog air (is_accepting x.0) x.1 x.2)
            offer_is
            (reinvite-Effect r laws out ua c.dialog (content_type application_sdp ∷ []) offer air
              reads),
        refl,
      )
  perform-Performs (press digit ms) c air reads is =
      let x = info r out ua c.dialog (dtmf_content_type ∷ []) (build_info_body digit ms) air in
      rw (← accepting-classify x.0) (
        info-Effect r laws out ua c.dialog (dtmf_content_type ∷ []) (build_info_body digit ms) air
            reads,
        refl,
      )
  perform-Performs (transfer target) c air reads is =
      let headers = refer_to_header target ∷ [] in
      let x = refer r out ua c.dialog headers air in
      rw (← accepting-verdict x.0) (refer-Effect r laws out ua c.dialog headers air reads, refl)
  perform-Performs (transfer_to_call target replaces) c air reads is =
      let headers = refer_to_with_replaces target replaces ∷ [] in
      let x = refer r out ua c.dialog headers air in
      rw (← accepting-verdict x.0) (refer-Effect r laws out ua c.dialog headers air reads, refl)
  perform-Performs end_call c air reads is =
      let x = hangup r out ua c.dialog air in
      rw (← acknowledged x.0) (hangup-Effect r laws out ua c.dialog air reads, refl)
  perform-Performs (refresh_session headers body) c air reads is =
      let bytes = body_of body in
      let more = refresh_headers headers bytes in
      let x = reinvite r out ua c.dialog more bytes air in
      rw (← accepting-reply x.0) (reinvite-Effect r laws out ua c.dialog more bytes air reads, refl)

  abbrev Traced : ℕ → ℕ → Bool → List Act → Call → Air → List Bool × Call × Air → Type 0
  Traced n v held acts c air (oks, c', air') =
      (reqs : List Request) × (air'.wire ≡ air.wire ++ reqs)
      × Trace r out ip local_ip codec air.wire n v c acts oks reqs
      × (c' ≡ moved (seq_after n acts) (version_after v acts) (held_after held acts oks) c)

  perform_all-Traced :
      (acts : List Act) (n v : ℕ) (held : Bool) (c : Call) (air : Air)
      → ReadsVia r c.dialog
      → c.remote_media.codec ≡ some codec
      → Traced n v held acts c air (perform_all r out ua ip local_ip acts (moved n v held c) air)
  unfolding perform_all
  perform_all-Traced [] n v held c air reads is =
      ([], sym (append-nil air.wire), (refl, refl), refl)
  perform_all-Traced (act ∷ acts) n v held c air reads is =
      let before = moved n v held c in
      let x = perform r out ua ip local_ip act before air in
      let ((now, wire, sends, dialog_is), call_is) = perform-Performs act before air reads is in
      let n' : ℕ = (n + 1) % 2 ^ 32 in
      let v' = next_version act v in
      let held' = next_held act x.0 held in
      let next : x.1 ≡ moved n' v' held' c =
        call_is ∙ ap (λ d. record c { dialog = d; sdp_version = v'; held = held' }) dialog_is in
      let ih : Traced n' v' held' acts c x.2 (perform_all r out ua ip local_ip acts x.1 x.2) =
        rw next (perform_all-Traced acts n' v' held' c x.2 reads is) in
      let (later, wire', trace, call_is') = ih in
      (
        now ++ later,
        wire' ∙ ap (λ w. w ++ later) wire ∙ append_assoc air.wire now later,
        (
          now,
          later,
          refl,
          rw (act_body-moved ip local_ip codec act v' n v held c) at sends,
          rw wire at trace,
        ),
        call_is',
      )

  -- A call has negotiated a codec, and the `Via` that it prints reads back. Its operations, in any
  -- order, whatever the peer answers and whenever the engine stops: each sends its request to the
  -- remote target, with its method and body and the next sequence number, and reports whether the
  -- final response that the engine delivers is a 2xx; if the engine does not take that request, it
  -- sends nothing and reports a failure. An accepted INVITE, and no other, is followed by its ACK, with
  -- its number. A hold offers the negotiated codec alone with its event, send-only, a resume the same
  -- both ways, under the next version. In the end the call is on hold as the last accepted of these
  -- says; its dialog but for the number, its peer, timer, media and port are as before.
  pub perform_all_lem :
      (acts : List Act) (c : Call) (air : Air)
      → ReadsVia r c.dialog
      → c.remote_media.codec ≡ some codec
      → let x = perform_all r out ua ip local_ip acts c air in
        (reqs : List Request) × (x.2.wire ≡ air.wire ++ reqs)
        × Trace r out ip local_ip codec air.wire c.dialog.local_seq c.sdp_version c acts x.0 reqs
        × (x.1
            ≡ moved
                (seq_after c.dialog.local_seq acts)
                (version_after c.sdp_version acts)
                (held_after c.held acts x.0)
                c)
  perform_all_lem acts c air reads is =
      perform_all-Traced acts c.dialog.local_seq c.sdp_version c.held c air reads is

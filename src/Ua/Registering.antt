-- ===== src/Ua/Registering.antt =====
-- crates/wavekat-sip/src/stack/ua.rs: `register` and `register_query`. The loop runs on fuel; a
-- registration has at most two rounds.
use wavekat_sip.Base.{
  ℕ, zero, suc, Bool, true, false, not, ◌&&◌, Option, none, some, ◌==◌, if◌then◌else◌,
}
use wavekat_sip.Sip.{Str, Request, Response}
use wavekat_sip.Auth.{AgentRsip, build_retry}
use wavekat_sip.Registration.{
  RegisterConfig, register_creds, RegisterOutcome, registered, unauthorized, interval_too_brief,
  failed, timed_out, engine_stopped, RegisterAttempt, RegisterProbe, answered, probe_timed_out,
  probe_stopped, build_register, build_register_query, granted_expires, min_expires,
}
use wavekat_sip.Call.{cseq_of}
use wavekat_sip.Ua.{Outside, Ua, Air, ticked, await_final, is_success, is_challenge, start_client}

-- What one round of a registration comes to.
pub data Step : Type 0 where
  settled : RegisterOutcome → Step
  again : Request → Step

abbrev or_lifetime : ℕ → Option ℕ → ℕ
or_lifetime lifetime none = lifetime
or_lifetime lifetime (some granted) = granted

module _ (r : AgentRsip) where
  -- The branches on a final response, with the draws for an answer to a challenge.
  unfoldable pub judge : RegisterConfig → Bool → Request → Response → Str → Str → Step
  judge cfg challenged request resp fresh cnonce =
      let code = resp.status_code in
      if is_success code
      then settled (registered (or_lifetime cfg.lifetime (granted_expires r resp)))
      else if is_challenge code && not challenged
      then (elim (build_retry r request resp (register_creds cfg) fresh cnonce) [
        | some retry ↦ again retry
        | none ↦ settled unauthorized
      ])
      else if is_challenge code
      then settled unauthorized
      else if code == 423
      then (elim (min_expires r resp) [
        | some least ↦ settled (interval_too_brief least)
        | none ↦ settled (failed code)
      ])
      else settled (failed code)

  module _ (out : Outside) (ua : Ua) where
    -- One round: send, wait and judge.
    unfoldable pub round : RegisterConfig → Bool → Request → Air → Step × Air
    unfolding judge start_client
    round cfg challenged request air =
        let (air', events) = start_client r out ua request air in
        elim events [
          | none ↦ (settled engine_stopped, air')
          | some evs ↦ elim (await_final evs) [
            | none ↦ (settled timed_out, air')
            | some resp ↦ (
              judge cfg challenged request resp (out.gen_branch air'.tick)
                  (out.gen_cnonce air'.tick),
              ticked air',
            )
          ]
        ]

    unfoldable pub register_loop :
        ℕ → RegisterConfig → Bool → Request → Air → Option (RegisterAttempt × Air)
    unfolding round
    register_loop zero cfg challenged request air = none
    register_loop (suc fuel) cfg challenged request air =
        let (step, air') = round cfg challenged request air in
        elim step [
          | settled outcome ↦
              some (record { outcome = outcome; last_cseq = cseq_of r request }, air')
          | again retry ↦ register_loop fuel cfg true retry air'
        ]

    unfoldable pub register : RegisterConfig → ℕ → Air → Option (RegisterAttempt × Air)
    unfolding register_loop
    register cfg first_cseq air =
        let request = build_register r cfg first_cseq ua.local_addr (out.gen_branch air.tick) in
        register_loop 2 cfg false request (ticked air)

    unfoldable pub register_query : RegisterConfig → ℕ → Air → RegisterProbe × Air
    unfolding start_client
    register_query cfg seq air =
        let request = build_register_query r cfg seq ua.local_addr (out.gen_branch air.tick) in
        let (air', events) = start_client r out ua request (ticked air) in
        elim events [
          | none ↦ (probe_stopped, air')
          | some evs ↦ elim (await_final evs) [
            | none ↦ (probe_timed_out, air')
            | some resp ↦ (answered (resp.status_code), air')
          ]
        ]

-- ===== src/SessionTimer/Run/Ends.antt =====
-- crates/wavekat-sip/src/session_timer.rs, `session_timer_loop`: how a run ends.
use wavekat_sip.Base.{
  ℕ, suc, ◌≤◌, ◌≡◌, refl, max, Bool, true, false, Bool-cases, inl, inr, List, [], ◌∷◌, Option, none,
  some, arith, All,
}
use wavekat_sip.SessionTimer.{
  uac, SessionExpires, SessionTimer, session_expires_in, min_session_expires_secs,
}
use wavekat_sip.SessionTimer.Run.{
  SessionTimerOutcome, cancelled, expired, refresh_failed, dialog_gone, answered, not_confirmed,
  refresh_error, Wake, slept, peer_refreshed, cancel, Act, refresh, send_bye, Ran, adopted,
  refresher_loop, watchdog_loop, session_timer_loop,
}

abbrev pub byes : List Act → ℕ
byes [] = 0
byes (refresh se ∷ acts) = byes acts
byes (send_bye ∷ acts) = suc (byes acts)

-- The BYEs that an outcome stands for.
abbrev pub byes_for : Option SessionTimerOutcome → ℕ
byes_for none = 0
byes_for (some cancelled) = 0
byes_for (some expired) = 1
byes_for (some refresh_failed) = 1
byes_for (some dialog_gone) = 0

abbrev pub has_cancel : List Wake → Bool
has_cancel [] = false
has_cancel (slept x ∷ ws) = has_cancel ws
has_cancel (peer_refreshed ∷ ws) = has_cancel ws
has_cancel (cancel ∷ ws) = true

-- A refresh asks for at least 90 seconds and names us, the sender, as the refresher.
abbrev pub IsSound : Act → Type 0
IsSound (refresh se) = (90 ≤ se.interval_secs) × (se.refresher ≡ some uac)
IsSound send_bye = Unit

-- A run that is stopped has an outcome.
abbrev pub Stops : Bool → Option SessionTimerOutcome → Type 0
Stops true none = ⊥
Stops true (some o) = Unit
Stops false o = Unit

abbrev pub IsRun : Bool → Ran → Type 0
IsRun stopped r = (byes r.acts ≡ byes_for r.outcome) × All IsSound r.acts × Stops stopped r.outcome

watchdog-IsRun : (ws : List Wake) → IsRun (has_cancel ws) (watchdog_loop ws)
unfolding watchdog_loop
watchdog-IsRun [] = ground arith
watchdog-IsRun (cancel ∷ ws) = ground arith
watchdog-IsRun (peer_refreshed ∷ ws) = watchdog-IsRun ws
watchdog-IsRun (slept x ∷ ws) = ground arith

module _ (successful : ℕ → Bool) where
  adopted_floor : (secs : ℕ) (o : Option SessionExpires) → 90 ≤ secs → 90 ≤ adopted secs o
  unfolding adopted
  adopted_floor secs none h = h
  adopted_floor secs (some se) h = omega arith

  refresher-IsRun :
      (secs : ℕ) (ws : List Wake)
      → 90 ≤ secs
      → IsRun (has_cancel ws) (refresher_loop successful secs ws)
  unfolding refresher_loop
  refresher-IsRun secs [] h = ground arith
  refresher-IsRun secs (cancel ∷ ws) h = ground arith
  refresher-IsRun secs (peer_refreshed ∷ ws) h = refresher-IsRun secs ws h
  refresher-IsRun secs (slept (answered resp) ∷ ws) h =
      let se = session_expires_in resp.headers in
      let ih = refresher-IsRun (adopted secs se) ws (adopted_floor secs se h) in
      elim (Bool-cases (successful resp.status_code)) [
        | inl ok ↦ rw ok (ih.0, ((h, refl), ih.1), ih.2)
        | inr rejected ↦ rw rejected (ground arith)
      ]
  refresher-IsRun secs (slept not_confirmed ∷ ws) h = ground arith
  refresher-IsRun secs (slept refresh_error ∷ ws) h = ground arith

  -- A run of the loop sends one BYE when its outcome is `Expired` or `RefreshFailed` and none
  -- otherwise, every refresh asks for at least 90 seconds with us as the refresher, and a run in
  -- which the token is cancelled has an outcome.
  pub session_timer_loop_ends :
      (timer : SessionTimer) (ws : List Wake)
      → let r = session_timer_loop successful timer ws in
        (byes r.acts ≡ byes_for r.outcome) × All IsSound r.acts × Stops (has_cancel ws) r.outcome
  unfolding session_timer_loop
  session_timer_loop_ends timer ws =
      let secs = max (timer.interval_secs) min_session_expires_secs in
      elim (Bool-cases timer.we_are_refresher) [
        | inl ours ↦ rw ours (refresher-IsRun secs ws (omega arith))
        | inr theirs ↦ rw theirs (watchdog-IsRun ws)
      ]

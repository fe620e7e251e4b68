-- ===== src/SessionTimer/Agreement.antt =====
-- crates/wavekat-sip/src/session_timer.rs: what the two sides of a call negotiate fits together.
use wavekat_sip.Base.{
  ◌+◌, ◌≤◌, ◌≡◌, refl, sym, not, Option-cases, inl, inr, List, none, some, arith,
}
use mathlib.Core.Path.{subst}
use wavekat_sip.Sip.{Header}
use wavekat_sip.SessionTimer.{
  SessionExpires, SessionTimer, UasSessionTimer, refresh_after, expiry_after, min_se_in,
  session_expires_in, supports_timer, unwrap_or, uac_timer, uas_timer, negotiate_uac, negotiate_uas,
}

abbrev Agrees : List Header → List Header → UasSessionTimer → Type 0
Agrees invite answer u =
    (t : SessionTimer) × (negotiate_uac answer ≡ some t)
    × (t.interval_secs ≡ u.timer.interval_secs)
    × (t.we_are_refresher ≡ not (u.timer.we_are_refresher))
    × (90 ≤ t.interval_secs)
    × (unwrap_or 0 (min_se_in invite) ≤ t.interval_secs)

uas_timer-Agrees :
    (invite answer : List Header) (se : SessionExpires)
    → let u = uas_timer se (min_se_in invite) (supports_timer invite) in
      session_expires_in answer ≡ some u.echo → Agrees invite answer u
unfolding negotiate_uac
uas_timer-Agrees invite answer se echoed =
    let u = uas_timer se (min_se_in invite) (supports_timer invite) in
    (uac_timer u.echo, rw echoed, omega arith, refl, omega arith, omega arith)

-- When the answerer's negotiation succeeds and the caller reads back the `Session-Expires` that the
-- answerer echoes, the caller's negotiation succeeds too: both run the timer at one interval, which
-- is at least 90 seconds and the caller's own Min-SE, and exactly one of them is the refresher.
pub negotiation_agrees :
    (invite answer : List Header) (u : UasSessionTimer)
    → negotiate_uas invite ≡ some u
    → session_expires_in answer ≡ some u.echo
    → (t : SessionTimer) × (negotiate_uac answer ≡ some t)
      × (t.interval_secs ≡ u.timer.interval_secs)
      × (t.we_are_refresher ≡ not (u.timer.we_are_refresher))
      × (90 ≤ t.interval_secs)
      × (unwrap_or 0 (min_se_in invite) ≤ t.interval_secs)
unfolding negotiate_uac negotiate_uas
negotiation_agrees invite answer u h echoed = elim (Option-cases (session_expires_in invite)) [
  | inl missing ↦ let impossible : none ≡ some u = rw missing at h in ground arith
  | inr (se, is_se) ↦
      let made : some (uas_timer se (min_se_in invite) (supports_timer invite)) ≡ some u =
        rw is_se at h in
      let u_is : uas_timer se (min_se_in invite) (supports_timer invite) ≡ u = ground arith in
      subst (λ u. Agrees invite answer u) u_is
        (uas_timer-Agrees invite answer se (rw (sym u_is) at echoed))
]

-- At an interval of 90 seconds or more, the refresh of one side is due at least 15 seconds before
-- the other side gives the session up, and that is not after the interval.
pub refresh_before_expiry :
    (t u : SessionTimer)
    → t.interval_secs ≡ u.interval_secs
    → 90 ≤ t.interval_secs
    → (refresh_after t + 15 ≤ expiry_after u) × (expiry_after u ≤ u.interval_secs)
refresh_before_expiry t u same floor = ground arith

-- ===== src/Tests/Sessions.antt =====
-- A session timer that is asked for 60 seconds.
use wavekat_sip.Base.{◌≡◌, refl, true, false, List, [], ◌∷◌, some, ◌==◌, All}
use wavekat_sip.Sip.{Header, invite, supported, other_header}
use wavekat_sip.SessionTimer.{
  uas, SessionTimer, UasSessionTimer, negotiate_uas, timer_tag, session_expires_name,
}
use wavekat_sip.SessionTimer.Run.{Wake, slept, answered, cancel, session_timer_loop}
use wavekat_sip.SessionTimer.Run.Ends.{
  byes, byes_for, has_cancel, IsSound, Stops, session_timer_loop_ends,
}
use wavekat_sip.Tests.Fixtures.{response_of}

-- `Supported: timer` and `Session-Expires: 60;refresher=uas`.
abbrev pub asked : List Header
asked =
    supported timer_tag
    ∷ other_header session_expires_name (
        b'6' ∷ b'0' ∷ b';' ∷ b'r' ∷ b'e' ∷ b'f' ∷ b'r' ∷ b'e' ∷ b's' ∷ b'h' ∷ b'e' ∷ b'r' ∷ b'='
        ∷ b'u' ∷ b'a' ∷ b's' ∷ [])
    ∷ []

abbrev agreed : UasSessionTimer
agreed = record {
  timer = record { interval_secs = 90; we_are_refresher = true };
  echo = record { interval_secs = 90; refresher = some uas };
  require_timer = true;
}

asked-agreed : negotiate_uas asked ≡ some agreed
unfolding negotiate_uas
asked-agreed = refl

abbrev watching : SessionTimer
watching = record { interval_secs = 90; we_are_refresher = false }

-- One refresh is accepted, the next is rejected.
abbrev wakes : List Wake
wakes =
    slept (answered (response_of invite 200))
    ∷ slept (answered (response_of invite 481))
    ∷ cancel
    ∷ []

session_timer_loop_ends_example :
    let r = session_timer_loop (λ code. code == 200) agreed.timer wakes in
    (byes r.acts ≡ byes_for r.outcome) × All IsSound r.acts × Stops (has_cancel wakes) r.outcome
session_timer_loop_ends_example = session_timer_loop_ends (λ code. code == 200) agreed.timer wakes

-- ===== src/SessionTimer/Run.antt =====
-- crates/wavekat-sip/src/session_timer.rs, `session_timer_loop`: a run is a list of what the loop's
-- `select!` meets in turn, with the replies of the dialog. Which status codes are successful is
-- rsip's, the parameter `successful`.
pub mod Ends
use wavekat_sip.Base.{ℕ, max, Bool, true, false, List, [], ◌∷◌, Option, none, some, if◌then◌else◌}
use wavekat_sip.Sip.{Header, Response}
use wavekat_sip.SessionTimer.{
  Refresher, uac, SessionExpires, SessionTimer, min_session_expires_secs, session_expires_in,
}

pub data SessionTimerOutcome : Type 0 where
  cancelled expired refresh_failed dialog_gone : SessionTimerOutcome

-- What `SessionDialogOps::refresh` returns.
pub data Reply : Type 0 where
  answered : Response → Reply
  not_confirmed : Reply
  refresh_error : Reply

-- The branch that a `select!` takes: the sleep is over (with the reply to the refresh, when we
-- refresh), the peer has refreshed, or the token is cancelled.
pub data Wake : Type 0 where
  slept : Reply → Wake
  peer_refreshed : Wake
  cancel : Wake

-- What the loop does with the dialog. A refresh carries `Supported: timer` and the
-- `Session-Expires` of its field.
pub data Act : Type 0 where
  refresh : SessionExpires → Act
  send_bye : Act

-- The acts of a run, and its outcome once it has one.
pub record Ran : Type 0 where
  pub acts : List Act
  pub outcome : Option SessionTimerOutcome

abbrev pub ran : List Act → Option SessionTimerOutcome → Ran
ran acts outcome = record { acts = acts; outcome = outcome }

abbrev pub with_act : Act → Ran → Ran
with_act a r = record r { acts = a ∷ r.acts }

-- The interval that a 2xx grants, or the one so far.
pub adopted : ℕ → Option SessionExpires → ℕ
adopted secs none = secs
adopted secs (some granted) = max (granted.interval_secs) min_session_expires_secs

abbrev pub refresh_headers : ℕ → SessionExpires
refresh_headers secs = record { interval_secs = secs; refresher = some uac }

-- The loop of the side that waits for the peer's refreshes.
pub watchdog_loop : List Wake → Ran
watchdog_loop [] = ran [] none
watchdog_loop (cancel ∷ ws) = ran [] (some cancelled)
watchdog_loop (peer_refreshed ∷ ws) = watchdog_loop ws
watchdog_loop (slept _ ∷ ws) = ran (send_bye ∷ []) (some expired)

module _ (successful : ℕ → Bool) where
  -- The loop of the refresher.
  pub refresher_loop : ℕ → List Wake → Ran
  unfolding session_expires_in adopted
  refresher_loop secs [] = ran [] none
  refresher_loop secs (cancel ∷ ws) = ran [] (some cancelled)
  refresher_loop secs (peer_refreshed ∷ ws) = refresher_loop secs ws
  refresher_loop secs (slept (answered resp) ∷ ws) =
      let rest = refresher_loop (adopted secs (session_expires_in resp.headers)) ws in
      if successful resp.status_code
      then with_act (refresh (refresh_headers secs)) rest
      else ran (refresh (refresh_headers secs) ∷ send_bye ∷ []) (some refresh_failed)
  refresher_loop secs (slept not_confirmed ∷ ws) =
      ran (refresh (refresh_headers secs) ∷ []) (some dialog_gone)
  refresher_loop secs (slept refresh_error ∷ ws) =
      ran (refresh (refresh_headers secs) ∷ send_bye ∷ []) (some refresh_failed)

  unfoldable pub session_timer_loop : SessionTimer → List Wake → Ran
  unfolding refresher_loop watchdog_loop
  session_timer_loop timer ws =
      let secs = max (timer.interval_secs) min_session_expires_secs in
      let refreshing = refresher_loop secs ws in
      let watching = watchdog_loop ws in if timer.we_are_refresher then refreshing else watching

-- ===== src/Keepalive.antt =====
-- crates/wavekat-sip/src/stack/keepalive.rs: the task that pings a stream connection and closes it
-- when it is dead. A run is the list of the rounds of its loop.
pub mod Rounds
use wavekat_sip.Base.{
  ℕ, suc, Bool, true, false, not, ◌&&◌, List, [], ◌∷◌, Option, none, some, ltb, ◌==◌, if◌then◌else◌,
}

-- In milliseconds.
pub record StreamKeepalive : Type 0 where
  pub interval : ℕ
  pub pong_timeout : ℕ

abbrev pub default_keepalive : StreamKeepalive
default_keepalive = record { interval = 30000; pong_timeout = 10000 }

abbrev pub ping : List ℕ
ping = b'\r' ∷ b'\n' ∷ b'\r' ∷ b'\n' ∷ []

unfoldable pub pong_missed : ℕ → ℕ → Bool
pong_missed before after = ltb 0 before && after == before

-- What one round of the loop meets: whether the token is cancelled in the first sleep and in the
-- second, whether the ping is written, and the keepalives counted before and after.
pub record Round : Type 0 where
  pub cancelled_first : Bool
  pub before : ℕ
  pub written : Bool
  pub cancelled_then : Bool
  pub after : ℕ

pub data Verdict : Type 0 where
  stood_down ping_failed no_answer : Verdict

-- The pings written, and why the loop returned once it has. It cancels `closed` itself when the
-- verdict is `ping_failed` or `no_answer`.
pub record Pinged : Type 0 where
  pub pings : ℕ
  pub verdict : Option Verdict

abbrev pub pinged : ℕ → Option Verdict → Pinged
pinged n v = record { pings = n; verdict = v }

abbrev pub with_ping : Pinged → Pinged
with_ping p = record p { pings = suc p.pings }

unfoldable pub run : List Round → Pinged
unfolding pong_missed
run [] = pinged 0 none
run (r ∷ rs) =
    let later = run rs in
    if r.cancelled_first
    then pinged 0 (some stood_down)
    else if not r.written
    then pinged 0 (some ping_failed)
    else if r.before == 0
    then with_ping later
    else if r.cancelled_then
    then pinged 1 (some stood_down)
    else if pong_missed r.before r.after
    then pinged 1 (some no_answer)
    else with_ping later

-- ===== src/Transaction.antt =====
-- crates/wavekat-sip/src/stack/transaction/mod.rs: the base timers and the actions that a
-- transaction asks its caller to perform. A `Duration` is its number of milliseconds.
pub mod Ack
pub mod ClientInvite
pub mod ClientNonInvite
pub mod Key
pub mod Machine
pub mod ServerInvite
pub mod ServerNonInvite
pub mod Via
use wavekat_sip.Base.{ℕ, ◌*◌, Bool, true, false, ◌==◌, if◌then◌else◌}
use wavekat_sip.Sip.{Request, Response, SipMessage}

-- `account::Transport`.
pub data Transport : Type 0 where
  udp tcp tls : Transport

pub data Reliability : Type 0 where
  reliable unreliable : Reliability

abbrev pub is_reliable : Reliability → Bool
is_reliable reliable = true
is_reliable unreliable = false

-- `From<Transport> for Reliability`.
unfoldable pub reliability_of : Transport → Reliability
reliability_of udp = unreliable
reliability_of tcp = reliable
reliability_of tls = reliable

pub record Timers : Type 0 where
  pub t1 : ℕ
  pub t2 : ℕ
  pub t4 : ℕ

abbrev pub default_timers : Timers
default_timers = record { t1 = 500; t2 = 4000; t4 = 5000 }

-- Timers B, F and H.
abbrev pub timeout : Timers → ℕ
timeout t = t.t1 * 64

abbrev pub timer_d : Timers → Reliability → ℕ
timer_d t rel = if is_reliable rel then 0 else 32000

abbrev pub timer_i : Timers → Reliability → ℕ
timer_i t rel = if is_reliable rel then 0 else t.t4

abbrev pub timer_j : Timers → Reliability → ℕ
timer_j t rel = if is_reliable rel then 0 else timeout t

abbrev pub timer_k : Timers → Reliability → ℕ
timer_k t rel = if is_reliable rel then 0 else t.t4

pub data TimerId : Type 0 where
  a b d e f g h i j k : TimerId

abbrev pub timer_code : TimerId → ℕ
timer_code a = 0
timer_code b = 1
timer_code d = 2
timer_code e = 3
timer_code f = 4
timer_code g = 5
timer_code h = 6
timer_code i = 7
timer_code j = 8
timer_code k = 9

-- `==` on timer ids.
abbrev pub timer_eq : TimerId → TimerId → Bool
timer_eq x y = timer_code x == timer_code y

pub data TxAction : Type 0 where
  send : SipMessage → TxAction
  start_timer : TimerId → ℕ → TxAction
  stop_timer : TimerId → TxAction
  deliver_response : Response → TxAction
  deliver_request : Request → TxAction
  timed_out terminated : TxAction

-- ===== src/Transaction/ServerInvite.antt =====
-- crates/wavekat-sip/src/stack/transaction/server_invite.rs.
pub mod Life
use wavekat_sip.Base.{ℕ, ◌*◌, min, List, [], ◌∷◌, ◌++◌, Option, none, some, ltb, if◌then◌else◌}
use wavekat_sip.Sip.{Method, ack, invite, Request, Response, response}
use wavekat_sip.Transaction.{
  Reliability, is_reliable, Timers, timeout, timer_i, TimerId, TxAction, send, start_timer,
  stop_timer, deliver_request, timed_out, terminated,
}

pub data State : Type 0 where
  proceeding completed confirmed ended : State

pub record ServerInvite : Type 0 where
  pub state : State
  pub timers : Timers
  pub rel : Reliability
  pub last_provisional : Option Response
  pub last_final : Option Response
  pub timer_g : ℕ

unfoldable pub start : Request → Timers → Reliability → ServerInvite × List TxAction
start inv timers rel = (
  record {
    state = proceeding;
    timers = timers;
    rel = rel;
    last_provisional = none;
    last_final = none;
    timer_g = timers.t1;
  },
  deliver_request inv ∷ [],
)

-- `send_response` with a final of 300 or more.
send_failure : ServerInvite → Response → ServerInvite × List TxAction
send_failure tx resp =
    let sends = send (response resp) ∷ [] in
    let actions =
      if is_reliable tx.rel then sends else sends ++ start_timer TimerId.g tx.timers.t1 ∷ [] in
    (
      record tx { last_final = some resp; state = completed },
      actions ++ start_timer TimerId.h (timeout tx.timers) ∷ [],
    )

send_in : State → ServerInvite → Response → ServerInvite × List TxAction
unfolding send_failure
send_in proceeding tx resp =
    if ltb resp.status_code 200
    then (record tx { last_provisional = some resp }, send (response resp) ∷ [])
    else if ltb resp.status_code 300
    then (record tx { state = ended }, send (response resp) ∷ terminated ∷ [])
    else send_failure tx resp
send_in _ tx resp = (tx, [])

unfoldable pub send_response : ServerInvite → Response → ServerInvite × List TxAction
unfolding send_in
send_response tx resp = send_in tx.state tx resp

resend : Option Response → List TxAction
resend none = []
resend (some resp) = send (response resp) ∷ []

-- The ACK of our final response.
on_ack : ServerInvite → ServerInvite × List TxAction
on_ack tx =
    let stops = stop_timer TimerId.g ∷ stop_timer TimerId.h ∷ [] in
    if is_reliable tx.rel then (record tx { state = ended }, stops ++ terminated ∷ []) else (
      record tx { state = confirmed },
      stops ++ start_timer TimerId.i (timer_i tx.timers tx.rel) ∷ [],
    )

request_in : Method → State → ServerInvite → ServerInvite × List TxAction
unfolding resend on_ack
request_in invite proceeding tx = (tx, resend tx.last_provisional)
request_in invite completed tx = (tx, resend tx.last_final)
request_in ack completed tx = on_ack tx
request_in _ _ tx = (tx, [])

unfoldable pub on_request : ServerInvite → Request → ServerInvite × List TxAction
unfolding request_in
on_request tx req = request_in req.method tx.state tx

timer_in : State → TimerId → ServerInvite → ServerInvite × List TxAction
unfolding resend
timer_in completed TimerId.g tx =
    let grown = min (tx.timer_g * 2) tx.timers.t2 in
    (record tx { timer_g = grown }, resend tx.last_final ++ start_timer TimerId.g grown ∷ [])
timer_in completed TimerId.h tx = (record tx { state = ended }, timed_out ∷ terminated ∷ [])
timer_in confirmed TimerId.i tx = (record tx { state = ended }, terminated ∷ [])
timer_in _ _ tx = (tx, [])

unfoldable pub on_timer : ServerInvite → TimerId → ServerInvite × List TxAction
unfolding timer_in
on_timer tx id = timer_in tx.state id tx

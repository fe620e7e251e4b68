-- ===== src/Transaction/ServerNonInvite.antt =====
-- crates/wavekat-sip/src/stack/transaction/server_non_invite.rs.
pub mod Life
use wavekat_sip.Base.{List, [], ◌∷◌, Option, none, some, ltb, if◌then◌else◌}
use wavekat_sip.Sip.{Request, Response, response}
use wavekat_sip.Transaction.{
  Reliability, is_reliable, Timers, timer_j, TimerId, TxAction, send, start_timer, deliver_request,
  terminated,
}

pub data State : Type 0 where
  trying proceeding completed ended : State

pub record ServerNonInvite : Type 0 where
  pub state : State
  pub timers : Timers
  pub rel : Reliability
  pub last_response : Option Response

unfoldable pub start : Request → Timers → Reliability → ServerNonInvite × List TxAction
start req timers rel = (
  record { state = trying; timers = timers; rel = rel; last_response = none },
  deliver_request req ∷ [],
)

-- `send_response` in `Trying` and `Proceeding`.
send_open : ServerNonInvite → Response → ServerNonInvite × List TxAction
send_open tx resp =
    let kept : ServerNonInvite = record tx { last_response = some resp } in
    if ltb resp.status_code 200
    then (record kept { state = proceeding }, send (response resp) ∷ [])
    else if is_reliable tx.rel
    then (record kept { state = ended }, send (response resp) ∷ terminated ∷ [])
    else (
      record kept { state = completed },
      send (response resp) ∷ start_timer TimerId.j (timer_j tx.timers tx.rel) ∷ [],
    )

send_in : State → ServerNonInvite → Response → ServerNonInvite × List TxAction
unfolding send_open
send_in completed tx resp = (tx, [])
send_in ended tx resp = (tx, [])
send_in _ tx resp = send_open tx resp

unfoldable pub send_response : ServerNonInvite → Response → ServerNonInvite × List TxAction
unfolding send_in
send_response tx resp = send_in tx.state tx resp

resend : Option Response → List TxAction
resend none = []
resend (some resp) = send (response resp) ∷ []

request_in : State → ServerNonInvite → ServerNonInvite × List TxAction
unfolding resend
request_in trying tx = (tx, [])
request_in proceeding tx = (tx, resend tx.last_response)
request_in completed tx = (tx, resend tx.last_response)
request_in ended tx = (tx, [])

unfoldable pub on_request : ServerNonInvite → Request → ServerNonInvite × List TxAction
unfolding request_in
on_request tx req = request_in tx.state tx

timer_in : State → TimerId → ServerNonInvite → ServerNonInvite × List TxAction
timer_in completed TimerId.j tx = (record tx { state = ended }, terminated ∷ [])
timer_in _ _ tx = (tx, [])

unfoldable pub on_timer : ServerNonInvite → TimerId → ServerNonInvite × List TxAction
unfolding timer_in
on_timer tx id = timer_in tx.state id tx

-- ===== src/Transaction/ClientInvite.antt =====
-- crates/wavekat-sip/src/stack/transaction/client_invite.rs.
pub mod Life
use wavekat_sip.Base.{ℕ, ◌*◌, List, [], ◌∷◌, ◌++◌, Option, none, some, ltb, leb, if◌then◌else◌}
use wavekat_sip.Sip.{Request, Response, Rsip, request}
use wavekat_sip.Transaction.Ack.{build_non_2xx_ack}
use wavekat_sip.Transaction.{
  Reliability, is_reliable, Timers, timeout, timer_d, TimerId, TxAction, send, start_timer,
  stop_timer, deliver_response, timed_out, terminated,
}

pub data State : Type 0 where
  calling proceeding completed ended : State

pub record ClientInvite : Type 0 where
  pub state : State
  pub timers : Timers
  pub rel : Reliability
  pub inv : Request
  pub timer_a : ℕ

unfoldable pub start : Request → Timers → Reliability → ClientInvite × List TxAction
start inv timers rel =
    let sends = send (request inv) ∷ [] in
    let actions =
      if is_reliable rel then sends else sends ++ start_timer TimerId.a timers.t1 ∷ [] in
    let tx : ClientInvite = record {
      state = calling;
      timers = timers;
      rel = rel;
      inv = inv;
      timer_a = timers.t1;
    } in
    (tx, actions ++ start_timer TimerId.b (timeout timers) ∷ [])

-- `on_provisional`; the first argument is the state.
on_provisional : State → ClientInvite → Response → ClientInvite × List TxAction
on_provisional calling tx resp = (
  record tx { state = proceeding },
  stop_timer TimerId.a ∷ stop_timer TimerId.b ∷ deliver_response resp ∷ [],
)
on_provisional _ tx resp = (tx, deliver_response resp ∷ [])

-- `on_final_failure`, after `build_non_2xx_ack`.
on_final_failure : Option Request → ClientInvite → Response → ClientInvite × List TxAction
on_final_failure none tx resp = (tx, [])
on_final_failure (some acked) tx resp =
    let actions = send (request acked) ∷ deliver_response resp ∷ [] in
    if is_reliable tx.rel then (record tx { state = ended }, actions ++ terminated ∷ []) else (
      record tx { state = completed },
      actions ++ start_timer TimerId.d (timer_d tx.timers tx.rel) ∷ [],
    )

resend_ack : Option Request → List TxAction
resend_ack none = []
resend_ack (some acked) = send (request acked) ∷ []

module _ (r : Rsip) where
  -- The arm `Calling | Proceeding` of `on_response`.
  on_pending : ClientInvite → Response → ClientInvite × List TxAction
  unfolding on_provisional on_final_failure
  on_pending tx resp =
      if ltb resp.status_code 200
      then on_provisional tx.state tx resp
      else if ltb resp.status_code 300
      then (record tx { state = ended }, deliver_response resp ∷ terminated ∷ [])
      else on_final_failure (build_non_2xx_ack r tx.inv resp) tx resp

  response_in : State → ClientInvite → Response → ClientInvite × List TxAction
  unfolding on_pending resend_ack
  response_in calling tx resp = on_pending tx resp
  response_in proceeding tx resp = on_pending tx resp
  response_in completed tx resp =
      (tx, if leb 300 resp.status_code then resend_ack (build_non_2xx_ack r tx.inv resp) else [])
  response_in ended tx resp = (tx, [])

  unfoldable pub on_response : ClientInvite → Response → ClientInvite × List TxAction
  unfolding response_in
  on_response tx resp = response_in tx.state tx resp

timer_in : State → TimerId → ClientInvite → ClientInvite × List TxAction
timer_in calling TimerId.a tx =
    let doubled = tx.timer_a * 2 in
    (record tx { timer_a = doubled }, send (request tx.inv) ∷ start_timer TimerId.a doubled ∷ [])
timer_in calling TimerId.b tx = (record tx { state = ended }, timed_out ∷ terminated ∷ [])
timer_in completed TimerId.d tx = (record tx { state = ended }, terminated ∷ [])
timer_in _ _ tx = (tx, [])

unfoldable pub on_timer : ClientInvite → TimerId → ClientInvite × List TxAction
unfolding timer_in
on_timer tx id = timer_in tx.state id tx

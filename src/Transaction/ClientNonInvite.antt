-- ===== src/Transaction/ClientNonInvite.antt =====
-- crates/wavekat-sip/src/stack/transaction/client_non_invite.rs.
pub mod Life
use wavekat_sip.Base.{ℕ, ◌*◌, min, List, [], ◌∷◌, ◌++◌, ltb, if◌then◌else◌}
use wavekat_sip.Sip.{Request, Response, request}
use wavekat_sip.Transaction.{
  Reliability, is_reliable, Timers, timeout, timer_k, TimerId, TxAction, send, start_timer,
  stop_timer, deliver_response, timed_out, terminated,
}

pub data State : Type 0 where
  trying proceeding completed ended : State

pub record ClientNonInvite : Type 0 where
  pub state : State
  pub timers : Timers
  pub rel : Reliability
  pub req : Request
  pub timer_e : ℕ

unfoldable pub start : Request → Timers → Reliability → ClientNonInvite × List TxAction
start req timers rel =
    let sends = send (request req) ∷ [] in
    let actions =
      if is_reliable rel then sends else sends ++ start_timer TimerId.e timers.t1 ∷ [] in
    let tx : ClientNonInvite = record {
      state = trying;
      timers = timers;
      rel = rel;
      req = req;
      timer_e = timers.t1;
    } in
    (tx, actions ++ start_timer TimerId.f (timeout timers) ∷ [])

enter_completed : ClientNonInvite → Response → ClientNonInvite × List TxAction
enter_completed tx resp =
    if is_reliable tx.rel
    then (record tx { state = ended }, deliver_response resp ∷ terminated ∷ [])
    else (
      record tx { state = completed },
      stop_timer TimerId.e
          ∷ stop_timer TimerId.f
          ∷ deliver_response resp
          ∷ start_timer TimerId.k (timer_k tx.timers tx.rel)
          ∷ [],
    )

-- The arm `Trying | Proceeding` of `on_response`.
on_pending : ClientNonInvite → Response → ClientNonInvite × List TxAction
unfolding enter_completed
on_pending tx resp =
    if ltb resp.status_code 200
    then (record tx { state = proceeding }, deliver_response resp ∷ [])
    else enter_completed tx resp

response_in : State → ClientNonInvite → Response → ClientNonInvite × List TxAction
unfolding on_pending
response_in trying tx resp = on_pending tx resp
response_in proceeding tx resp = on_pending tx resp
response_in completed tx resp = (tx, [])
response_in ended tx resp = (tx, [])

unfoldable pub on_response : ClientNonInvite → Response → ClientNonInvite × List TxAction
unfolding response_in
on_response tx resp = response_in tx.state tx resp

retransmit : ClientNonInvite → List TxAction
retransmit tx = send (request tx.req) ∷ start_timer TimerId.e tx.timer_e ∷ []

timer_in : State → TimerId → ClientNonInvite → ClientNonInvite × List TxAction
unfolding retransmit
timer_in trying TimerId.e tx =
    let backed_off : ClientNonInvite = record tx { timer_e = min (tx.timer_e * 2) tx.timers.t2 } in
    (backed_off, retransmit backed_off)
timer_in proceeding TimerId.e tx =
    let pinned : ClientNonInvite = record tx { timer_e = tx.timers.t2 } in
    (pinned, retransmit pinned)
timer_in trying TimerId.f tx = (record tx { state = ended }, timed_out ∷ terminated ∷ [])
timer_in proceeding TimerId.f tx = (record tx { state = ended }, timed_out ∷ terminated ∷ [])
timer_in completed TimerId.k tx = (record tx { state = ended }, terminated ∷ [])
timer_in _ _ tx = (tx, [])

unfoldable pub on_timer : ClientNonInvite → TimerId → ClientNonInvite × List TxAction
unfolding timer_in
on_timer tx id = timer_in tx.state id tx

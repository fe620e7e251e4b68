-- ===== src/Transaction/ServerInvite/Life.antt =====
-- The life of a server INVITE transaction, over every order of the user's responses, received
-- requests and timers.
use mathlib.Core.Path.{subst}
use wavekat_sip.Base.{
  double_pow, ℕ, zero, suc, ◌*◌, ◌^◌, min, ◌≤◌, ◌≡◌, true, false, List, [], ◌∷◌, some, arith,
}
use wavekat_sip.Sip.{invite, Request, Response, response}
use wavekat_sip.Transaction.{
  Reliability, reliable, unreliable, Timers, TimerId, TxAction, send, start_timer, timed_out,
  terminated,
}
use wavekat_sip.Transaction.Machine.{
  Armed, terminations, terminations-append, World, begin, perform, set_armed, Reach, started,
  handled, fired,
}
use wavekat_sip.Transaction.ServerInvite.{
  State, proceeding, completed, confirmed, ended, ServerInvite, start, send_response, on_request,
  on_timer,
}

-- What the engine feeds the machine: the user's response, or a request with its key.
pub data Input : Type 0 where
  respond : Response → Input
  receive : Request → Input

unfoldable pub handle : ServerInvite → Input → ServerInvite × List TxAction
unfolding send_response on_request
handle tx (respond resp) = send_response tx resp
handle tx (receive req) = on_request tx req

abbrev pub finished : State → ℕ
finished ended = 1
finished _ = 0

-- In `Completed` there is a stored failure, which a firing of Timer G sends again.
abbrev pub Replays : World ServerInvite → Type 0
Replays w =
    (final : Response) × (w.tx.last_final ≡ some final)
    × (300 ≤ final.status_code)
    × ((on_timer w.tx TimerId.g).1
        ≡ send (response final)
          ∷ start_timer TimerId.g (min (w.tx.timer_g * 2) w.tx.timers.t2)
          ∷ [])

abbrev pub Alive : State → World ServerInvite → Type 0
Alive proceeding w =
    (w.armed TimerId.g ≡ false) × (w.armed TimerId.h ≡ false) × (w.armed TimerId.i ≡ false)
Alive completed w =
    (w.armed TimerId.h ≡ true)
    × ((on_timer w.tx TimerId.h).1 ≡ timed_out ∷ terminated ∷ [])
    × ((on_timer w.tx TimerId.h).0.state ≡ ended)
    × Replays w
Alive confirmed w =
    (w.armed TimerId.g ≡ false)
    × (w.armed TimerId.h ≡ false)
    × (w.armed TimerId.i ≡ true)
    × ((on_timer w.tx TimerId.i).1 ≡ terminated ∷ [])
    × ((on_timer w.tx TimerId.i).0.state ≡ ended)
Alive ended w = Unit

abbrev pub Resends : Reliability → State → Armed → Type 0
Resends reliable s armed = armed TimerId.g ≡ false
Resends unreliable completed armed = armed TimerId.g ≡ true
Resends unreliable _ armed = Unit

record Inv (w : World ServerInvite) : Type 0 where
  one_end : terminations w.log ≡ finished w.tx.state
  alive : Alive w.tx.state w
  resends : Resends w.tx.rel w.tx.state w.armed

start-Inv : (inv : Request) (ts : Timers) (rel : Reliability) → Inv (begin (start inv ts rel))
unfolding start on_timer
start-Inv inv ts rel = ground arith

handled-Inv :
    (w : World ServerInvite) (input : Input) → Inv w → Inv (perform w w.armed (handle w.tx input))
unfolding handle on_timer
handled-Inv w (respond resp) v =
    ground (arith, terminations-append w.log (handle w.tx (respond resp)).1)
handled-Inv w (receive req) v =
    ground (arith, terminations-append w.log (handle w.tx (receive req)).1)

fired-Inv :
    (w : World ServerInvite) (id : TimerId)
    → w.armed id ≡ true
    → Inv w
    → Inv (perform w (set_armed id false w.armed) (on_timer w.tx id))
unfolding on_timer
fired-Inv w id on v = ground (arith, terminations-append w.log (on_timer w.tx id).1)

Reach-Inv :
    (inv : Request) (ts : Timers) (rel : Reliability) {w : World ServerInvite}
    → Reach handle on_timer (start inv ts rel) w
    → Inv w
Reach-Inv inv ts rel started = start-Inv inv ts rel
Reach-Inv inv ts rel (handled {w} input before) = handled-Inv w input (Reach-Inv inv ts rel before)
Reach-Inv inv ts rel (fired {w} id on before) = fired-Inv w id on (Reach-Inv inv ts rel before)

-- On every run `Terminated` is reported exactly once, on entering that state. No run gets stuck: in
-- `Completed` Timer H runs, its firing ends the transaction with a timeout, and a firing of Timer G
-- sends the stored failure again; in `Confirmed` Timers G and H are off, Timer I runs, and its
-- firing ends the transaction; in `Proceeding` no timer runs. Over a reliable transport Timer G
-- never runs; over an unreliable one it runs as long as the state is `Completed`.
pub server_invite_life :
    (inv : Request) (ts : Timers) (rel : Reliability) {w : World ServerInvite}
    → Reach handle on_timer (start inv ts rel) w
    → (terminations w.log ≡ finished w.tx.state)
      × Alive w.tx.state w
      × Resends w.tx.rel w.tx.state w.armed
server_invite_life inv ts rel run =
    let v = Reach-Inv inv ts rel run in (v.one_end, v.alive, v.resends)

-- On every run, a retransmitted INVITE in `Completed` changes nothing and is answered by a failure
-- response, of status 300 or more.
pub server_invite_replays :
    (inv req : Request) (ts : Timers) (rel : Reliability) {w : World ServerInvite}
    → Reach handle on_timer (start inv ts rel) w
    → w.tx.state ≡ completed
    → req.method ≡ invite
    → (final : Response) × (300 ≤ final.status_code)
      × (on_request w.tx req ≡ (w.tx, send (response final) ∷ []))
unfolding on_request
server_invite_replays inv req ts rel {w} run is_completed is_invite =
    let v = subst (λ s. Alive s w) is_completed (Reach-Inv inv ts rel run).alive in
    (v.3.0, v.3.2, ground arith)

-- A failure with status `final` was sent, and Timer G has fired `n` times.
abbrev pub after_g : ℕ → ServerInvite → ServerInvite
after_g zero tx = tx
after_g (suc n) tx = (on_timer (after_g n tx) TimerId.g).0

after_g_lem :
    (n : ℕ) (inv : Request) (ts : Timers) (rel : Reliability) (final : Response)
    → 300 ≤ final.status_code
    → let tx = after_g (suc n) (send_response (start inv ts rel).0 final).0 in
      (tx.state ≡ completed)
      × (tx.last_final ≡ some final)
      × (tx.timers ≡ ts)
      × (tx.timer_g ≡ min (ts.t1 * 2 ^ suc n) ts.t2)
unfolding on_timer start send_response
after_g_lem zero inv ts rel final big = ground (arith, double_pow ts.t1 0)
after_g_lem (suc n) inv ts rel final big =
    let h = after_g_lem n inv ts rel final big in
    ground (arith, h.0, h.1, h.2, h.3, double_pow ts.t1 (suc n))

-- With no ACK, each firing of Timer G sends the failure again, and the interval doubles up to T2:
-- after `n` firings it is `min (T1 · 2 ^ n) T2`.
pub server_invite_backoff :
    (n : ℕ) (inv : Request) (ts : Timers) (rel : Reliability) (final : Response)
    → 300 ≤ final.status_code
    → (on_timer (after_g n (send_response (start inv ts rel).0 final).0) TimerId.g).1
      ≡ send (response final) ∷ start_timer TimerId.g (min (ts.t1 * 2 ^ suc n) ts.t2) ∷ []
unfolding on_timer start send_response
server_invite_backoff zero inv ts rel final big = ground (arith, double_pow ts.t1 0)
server_invite_backoff (suc n) inv ts rel final big =
    let h = after_g_lem n inv ts rel final big in
    ground (arith, h.0, h.1, h.2, h.3, double_pow ts.t1 (suc n))

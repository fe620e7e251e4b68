-- ===== src/Transaction/ServerNonInvite/Life.antt =====
-- The life of a server non-INVITE transaction, over every order of the user's responses, received
-- requests and timers.
use wavekat_sip.Base.{
  ℕ, ◌≤◌, ◌<◌, ◌≡◌, refl, true, false, List, [], ◌∷◌, ◌++◌, Option, none, some, arith,
}
use wavekat_sip.Sip.{Request, Response, request, response}
use wavekat_sip.Transaction.{
  Reliability, Timers, TimerId, TxAction, send, start_timer, stop_timer, deliver_response,
  deliver_request, timed_out, terminated,
}
use wavekat_sip.Transaction.Machine.{
  terminations, terminations-append, World, begin, perform, set_armed, Reach, started, handled,
  fired,
}
use wavekat_sip.Transaction.ServerNonInvite.{
  State, trying, proceeding, completed, ended, ServerNonInvite, start, send_response, on_request,
  on_timer,
}

-- What the engine feeds the machine: the user's response, or a request with its key.
pub data Input : Type 0 where
  respond : Response → Input
  receive : Request → Input

unfoldable pub handle : ServerNonInvite → Input → ServerNonInvite × List TxAction
unfolding send_response on_request
handle tx (respond resp) = send_response tx resp
handle tx (receive req) = on_request tx req

abbrev pub finished : State → ℕ
finished ended = 1
finished _ = 0

-- A stored response of one kind.
abbrev pub Provisional : Option Response → Type 0
Provisional none = ⊥
Provisional (some last) = last.status_code < 200

abbrev pub Final : Option Response → Type 0
Final none = ⊥
Final (some last) = 200 ≤ last.status_code

-- The stored response: none in `Trying`, a provisional one in `Proceeding`, a final one in
-- `Completed`, where Timer J runs and ends the transaction.
abbrev pub Alive : State → World ServerNonInvite → Type 0
Alive trying w = (w.tx.last_response ≡ none) × (w.armed TimerId.j ≡ false)
Alive proceeding w = Provisional w.tx.last_response × (w.armed TimerId.j ≡ false)
Alive completed w =
    Final w.tx.last_response
    × (w.armed TimerId.j ≡ true)
    × ((on_timer w.tx TimerId.j).1 ≡ terminated ∷ [])
    × ((on_timer w.tx TimerId.j).0.state ≡ ended)
Alive ended w = Unit

-- The last response that was sent, after these actions, `before` being the last one before them.
abbrev pub last_sent : Option Response → List TxAction → Option Response
last_sent before [] = before
last_sent before (send (response resp) ∷ rest) = last_sent (some resp) rest
last_sent before (x ∷ rest) = last_sent before rest

last_sent-append :
    (before : Option Response) (xs ys : List TxAction)
    → last_sent before (xs ++ ys) ≡ last_sent (last_sent before xs) ys
last_sent-append before [] ys = refl
last_sent-append before (send (request q) ∷ xs) ys = last_sent-append before xs ys
last_sent-append before (send (response resp) ∷ xs) ys = last_sent-append (some resp) xs ys
last_sent-append before (start_timer id n ∷ xs) ys = last_sent-append before xs ys
last_sent-append before (stop_timer id ∷ xs) ys = last_sent-append before xs ys
last_sent-append before (deliver_response m ∷ xs) ys = last_sent-append before xs ys
last_sent-append before (deliver_request m ∷ xs) ys = last_sent-append before xs ys
last_sent-append before (timed_out ∷ xs) ys = last_sent-append before xs ys
last_sent-append before (terminated ∷ xs) ys = last_sent-append before xs ys

-- What a retransmitted request is answered with, by the last response that was sent.
abbrev pub Replays : State → Option Response → List TxAction → Type 0
Replays trying sent actions = (sent ≡ none) × (actions ≡ [])
Replays proceeding sent actions =
    (last : Response) × (sent ≡ some last)
    × (last.status_code < 200)
    × (actions ≡ send (response last) ∷ [])
Replays completed sent actions =
    (last : Response) × (sent ≡ some last)
    × (200 ≤ last.status_code)
    × (actions ≡ send (response last) ∷ [])
Replays ended sent actions = actions ≡ []

record Inv (w : World ServerNonInvite) : Type 0 where
  one_end : terminations w.log ≡ finished w.tx.state
  alive : Alive w.tx.state w
  stored : w.tx.last_response ≡ last_sent none w.log

start-Inv : (req : Request) (ts : Timers) (rel : Reliability) → Inv (begin (start req ts rel))
unfolding start on_timer
start-Inv req ts rel = ground arith

handled-Inv :
    (w : World ServerNonInvite) (input : Input)
    → Inv w
    → Inv (perform w w.armed (handle w.tx input))
unfolding handle on_timer
handled-Inv w (respond resp) v = ground (
  arith,
  terminations-append w.log (handle w.tx (respond resp)).1,
  last_sent-append none w.log (handle w.tx (respond resp)).1,
)
handled-Inv w (receive req) v = ground (
  arith,
  terminations-append w.log (handle w.tx (receive req)).1,
  last_sent-append none w.log (handle w.tx (receive req)).1,
)

fired-Inv :
    (w : World ServerNonInvite) (id : TimerId)
    → w.armed id ≡ true
    → Inv w
    → Inv (perform w (set_armed id false w.armed) (on_timer w.tx id))
unfolding on_timer
fired-Inv w id on v = ground (
  arith,
  terminations-append w.log (on_timer w.tx id).1,
  last_sent-append none w.log (on_timer w.tx id).1,
)

Reach-Inv :
    (req : Request) (ts : Timers) (rel : Reliability) {w : World ServerNonInvite}
    → Reach handle on_timer (start req ts rel) w
    → Inv w
Reach-Inv req ts rel started = start-Inv req ts rel
Reach-Inv req ts rel (handled {w} input before) = handled-Inv w input (Reach-Inv req ts rel before)
Reach-Inv req ts rel (fired {w} id on before) = fired-Inv w id on (Reach-Inv req ts rel before)

-- On every run: `Trying` has no stored response, `Proceeding` a provisional one and `Completed` a
-- final one; in `Completed`, and in no earlier state, Timer J runs, and its firing ends the
-- transaction; `Terminated` is reported exactly once, on entering that state.
pub server_non_invite_life :
    (req : Request) (ts : Timers) (rel : Reliability) {w : World ServerNonInvite}
    → Reach handle on_timer (start req ts rel) w
    → Alive w.tx.state w × (terminations w.log ≡ finished w.tx.state)
server_non_invite_life req ts rel run = let v = Reach-Inv req ts rel run in (v.alive, v.one_end)

Replays-Alive :
    (w : World ServerNonInvite) (again : Request) (s : State) (o : Option Response)
    → w.tx.state ≡ s
    → w.tx.last_response ≡ o
    → Alive s w
    → ((on_request w.tx again).0 ≡ w.tx) × Replays s o (on_request w.tx again).1
unfolding on_request
Replays-Alive w again trying o is_s is_o alive = ground arith
Replays-Alive w again ended o is_s is_o alive = ground arith
Replays-Alive w again proceeding none is_s is_o alive = absurd (ground arith)
Replays-Alive w again proceeding (some last) is_s is_o alive =
    (ground arith, (last, refl, ground arith, ground arith))
Replays-Alive w again completed none is_s is_o alive = absurd (ground arith)
Replays-Alive w again completed (some last) is_s is_o alive =
    (ground arith, (last, refl, ground arith, ground arith))

-- On every run a retransmitted request changes nothing. Before a response has been sent, and after the
-- end, nothing answers it. In `Proceeding` and in `Completed` it is answered by the last response that
-- the run has sent, which is provisional in the one and final in the other.
pub server_non_invite-Replays :
    (req again : Request) (ts : Timers) (rel : Reliability) {w : World ServerNonInvite}
    → Reach handle on_timer (start req ts rel) w
    → ((on_request w.tx again).0 ≡ w.tx)
      × Replays w.tx.state (last_sent none w.log) (on_request w.tx again).1
server_non_invite-Replays req again ts rel {w} run =
    let v = Reach-Inv req ts rel run in
    Replays-Alive w again w.tx.state (last_sent none w.log) refl v.stored v.alive

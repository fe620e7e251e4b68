-- ===== src/Transaction/ClientNonInvite/Life.antt =====
-- The life of a client non-INVITE transaction, over every order of responses and timers.
use wavekat_sip.Base.{
  double_pow, ℕ, zero, suc, ◌*◌, ◌^◌, min, ◌≡◌, refl, true, false, [], ◌∷◌, arith,
}
use wavekat_sip.Sip.{Request, Response, request}
use wavekat_sip.Transaction.{
  Reliability, reliable, unreliable, Timers, TimerId, send, start_timer, timed_out, terminated,
}
use wavekat_sip.Transaction.Machine.{
  Armed, outcomes, terminations, outcomes-append, terminations-append, World, begin, perform,
  set_armed, Reach, started, handled, fired,
}
use wavekat_sip.Transaction.ClientNonInvite.{
  State, trying, proceeding, completed, ended, ClientNonInvite, start, on_response, on_timer,
}

abbrev pub settled : State → ℕ
settled trying = 0
settled proceeding = 0
settled completed = 1
settled ended = 1

abbrev pub finished : State → ℕ
finished ended = 1
finished _ = 0

-- Which timers run in a state, and what the one that ends the transaction does.
abbrev pub Waits : World ClientNonInvite → Type 0
Waits w =
    (w.armed TimerId.f ≡ true)
    × ((on_timer w.tx TimerId.f).1 ≡ timed_out ∷ terminated ∷ [])
    × ((on_timer w.tx TimerId.f).0.state ≡ ended)

abbrev pub Alive : State → World ClientNonInvite → Type 0
Alive trying w = Waits w
Alive proceeding w = Waits w
Alive completed w =
    (w.armed TimerId.e ≡ false)
    × (w.armed TimerId.f ≡ false)
    × (w.armed TimerId.k ≡ true)
    × ((on_timer w.tx TimerId.k).1 ≡ terminated ∷ [])
    × ((on_timer w.tx TimerId.k).0.state ≡ ended)
Alive ended w = Unit

abbrev pub Resends : Reliability → State → Armed → Type 0
Resends reliable s armed = armed TimerId.e ≡ false
Resends unreliable trying armed = armed TimerId.e ≡ true
Resends unreliable proceeding armed = armed TimerId.e ≡ true
Resends unreliable _ armed = Unit

record Inv (w : World ClientNonInvite) : Type 0 where
  one_outcome : outcomes w.log ≡ settled w.tx.state
  one_end : terminations w.log ≡ finished w.tx.state
  alive : Alive w.tx.state w
  resends : Resends w.tx.rel w.tx.state w.armed

start-Inv : (req : Request) (ts : Timers) (rel : Reliability) → Inv (begin (start req ts rel))
unfolding start on_timer
start-Inv req ts rel = ground arith

handled-Inv :
    (w : World ClientNonInvite) (resp : Response)
    → Inv w
    → Inv (perform w w.armed (on_response w.tx resp))
unfolding on_response on_timer
handled-Inv w resp v = ground (
  arith,
  outcomes-append w.log (on_response w.tx resp).1,
  terminations-append w.log (on_response w.tx resp).1,
)

fired-Inv :
    (w : World ClientNonInvite) (id : TimerId)
    → w.armed id ≡ true
    → Inv w
    → Inv (perform w (set_armed id false w.armed) (on_timer w.tx id))
unfolding on_timer
fired-Inv w id on v = ground (
  arith,
  outcomes-append w.log (on_timer w.tx id).1,
  terminations-append w.log (on_timer w.tx id).1,
)

Reach-Inv :
    (req : Request) (ts : Timers) (rel : Reliability) {w : World ClientNonInvite}
    → Reach on_response on_timer (start req ts rel) w
    → Inv w
Reach-Inv req ts rel started = start-Inv req ts rel
Reach-Inv req ts rel (handled {w} resp before) = handled-Inv w resp (Reach-Inv req ts rel before)
Reach-Inv req ts rel (fired {w} id on before) = fired-Inv w id on (Reach-Inv req ts rel before)

-- On every run the caller is told exactly one outcome, a final response or the timeout, once the
-- state is `Completed` or `Terminated`, and none before; `Terminated` is reported exactly once, on
-- entering that state. No run gets stuck: before a final response Timer F runs, and its firing ends
-- the transaction with a timeout; in `Completed` Timers E and F are off, Timer K runs, and its
-- firing ends it. Over a reliable transport Timer E never runs; over an unreliable one it runs until
-- a final response or the timeout.
pub client_non_invite_life :
    (req : Request) (ts : Timers) (rel : Reliability) {w : World ClientNonInvite}
    → Reach on_response on_timer (start req ts rel) w
    → (outcomes w.log ≡ settled w.tx.state)
      × (terminations w.log ≡ finished w.tx.state)
      × Alive w.tx.state w
      × Resends w.tx.rel w.tx.state w.armed
client_non_invite_life req ts rel run =
    let v = Reach-Inv req ts rel run in (v.one_outcome, v.one_end, v.alive, v.resends)

-- Timer E has fired `n` times.
abbrev pub after_e : ℕ → ClientNonInvite → ClientNonInvite
after_e zero tx = tx
after_e (suc n) tx = (on_timer (after_e n tx) TimerId.e).0

after_e_lem :
    (n : ℕ) (req : Request) (ts : Timers) (rel : Reliability)
    → let tx = after_e (suc n) (start req ts rel).0 in
      (tx.state ≡ trying)
      × (tx.req ≡ req)
      × (tx.timers ≡ ts)
      × (tx.timer_e ≡ min (ts.t1 * 2 ^ suc n) ts.t2)
unfolding on_timer start
after_e_lem zero req ts rel = (refl, refl, refl, refl)
after_e_lem (suc n) req ts rel =
    let h = after_e_lem n req ts rel in ground (arith, h.0, h.1, h.2, h.3, double_pow ts.t1 (suc n))

-- With no answer, each firing of Timer E sends the request again, and the interval doubles up to
-- T2: after `n` firings it is `min (T1 · 2 ^ n) T2`.
pub client_non_invite_backoff :
    (n : ℕ) (req : Request) (ts : Timers) (rel : Reliability)
    → (on_timer (after_e n (start req ts rel).0) TimerId.e).1
      ≡ send (request req) ∷ start_timer TimerId.e (min (ts.t1 * 2 ^ suc n) ts.t2) ∷ []
unfolding on_timer start
client_non_invite_backoff zero req ts rel = refl
client_non_invite_backoff (suc n) req ts rel =
    let h = after_e_lem n req ts rel in ground (arith, h.0, h.1, h.2, h.3, double_pow ts.t1 (suc n))

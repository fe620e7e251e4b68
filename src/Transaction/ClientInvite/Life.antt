-- ===== src/Transaction/ClientInvite/Life.antt =====
-- The life of a client INVITE transaction, over every order of responses and timers.
use wavekat_sip.Base.{double_pow, ℕ, zero, suc, ◌*◌, ◌^◌, ◌≡◌, refl, true, false, [], ◌∷◌, arith}
use wavekat_sip.Sip.{Request, Response, Rsip, request}
use wavekat_sip.Transaction.{
  Reliability, reliable, unreliable, Timers, TimerId, send, start_timer, timed_out, terminated,
}
use wavekat_sip.Transaction.Machine.{
  Armed, outcomes, terminations, outcomes-append, terminations-append, World, begin, perform,
  set_armed, Reach, started, handled, fired,
}
use wavekat_sip.Transaction.ClientInvite.{
  State, calling, proceeding, completed, ended, ClientInvite, start, on_response, on_timer,
}

-- How many outcomes the caller has been told of in each state, and how many terminations.
abbrev pub settled : State → ℕ
settled calling = 0
settled proceeding = 0
settled completed = 1
settled ended = 1

abbrev pub finished : State → ℕ
finished ended = 1
finished _ = 0

pub record Inv (w : World ClientInvite) : Type 0 where
  pub one_outcome : outcomes w.log ≡ settled w.tx.state
  pub one_end : terminations w.log ≡ finished w.tx.state
  pub times_out : w.tx.state ≡ calling → w.armed TimerId.b ≡ true
  pub resends : w.tx.state ≡ calling → w.tx.rel ≡ unreliable → w.armed TimerId.a ≡ true
  pub quiet : w.tx.rel ≡ reliable → w.armed TimerId.a ≡ false
  pub rings : w.tx.state ≡ proceeding → (w.armed TimerId.a ≡ false) × (w.armed TimerId.b ≡ false)
  pub soaks : w.tx.state ≡ completed → w.armed TimerId.d ≡ true

-- Which timer runs in a state, and what its firing does.
abbrev pub Alive : State → World ClientInvite → Type 0
Alive calling w =
    (w.armed TimerId.b ≡ true)
    × ((on_timer w.tx TimerId.b).1 ≡ timed_out ∷ terminated ∷ [])
    × ((on_timer w.tx TimerId.b).0.state ≡ ended)
Alive proceeding w = (w.armed TimerId.a ≡ false) × (w.armed TimerId.b ≡ false)
Alive completed w =
    (w.armed TimerId.d ≡ true)
    × ((on_timer w.tx TimerId.d).1 ≡ terminated ∷ [])
    × ((on_timer w.tx TimerId.d).0.state ≡ ended)
Alive ended w = Unit

abbrev pub Resends : Reliability → State → Armed → Type 0
Resends reliable s armed = armed TimerId.a ≡ false
Resends unreliable calling armed = armed TimerId.a ≡ true
Resends unreliable _ armed = Unit

module _ (r : Rsip) where
  start-Inv : (inv : Request) (ts : Timers) (rel : Reliability) → Inv (begin (start inv ts rel))
  unfolding start
  start-Inv inv ts rel = ground arith

  handled-Inv :
      (w : World ClientInvite) (resp : Response)
      → Inv w
      → Inv (perform w w.armed (on_response r w.tx resp))
  unfolding on_response
  handled-Inv w resp v = ground (
    arith,
    outcomes-append w.log (on_response r w.tx resp).1,
    terminations-append w.log (on_response r w.tx resp).1,
  )

  fired-Inv :
      (w : World ClientInvite) (id : TimerId)
      → w.armed id ≡ true
      → Inv w
      → Inv (perform w (set_armed id false w.armed) (on_timer w.tx id))
  unfolding on_timer
  fired-Inv w id on v = ground (
    arith,
    outcomes-append w.log (on_timer w.tx id).1,
    terminations-append w.log (on_timer w.tx id).1,
  )

  pub Reach-Inv :
      (inv : Request) (ts : Timers) (rel : Reliability) {w : World ClientInvite}
      → Reach (on_response r) on_timer (start inv ts rel) w
      → Inv w
  Reach-Inv inv ts rel started = start-Inv inv ts rel
  Reach-Inv inv ts rel (handled {w} resp before) = handled-Inv w resp (Reach-Inv inv ts rel before)
  Reach-Inv inv ts rel (fired {w} id on before) = fired-Inv w id on (Reach-Inv inv ts rel before)

  -- On every run the caller is told exactly one outcome, a final response or the timeout, once the
  -- state is `Completed` or `Terminated`, and none before; `Terminated` is reported exactly once,
  -- on entering that state. No run gets stuck: in `Calling` Timer B runs, and its firing ends the
  -- transaction with a timeout; in `Completed` Timer D runs, and its firing ends it; and a ringing
  -- call (`Proceeding`) is under neither Timer A nor Timer B. Over a reliable transport Timer A never
  -- runs; over an unreliable one it runs as long as the state is `Calling`.
  pub client_invite_life :
      (inv : Request) (ts : Timers) (rel : Reliability) {w : World ClientInvite}
      → Reach (on_response r) on_timer (start inv ts rel) w
      → (outcomes w.log ≡ settled w.tx.state)
        × (terminations w.log ≡ finished w.tx.state)
        × Alive w.tx.state w
        × Resends w.tx.rel w.tx.state w.armed
  unfolding on_timer
  client_invite_life inv ts rel {w} run =
      let v = Reach-Inv inv ts rel run in (v.one_outcome, v.one_end, ground arith, ground arith)

-- Timer A has fired `n` times.
abbrev pub after_a : ℕ → ClientInvite → ClientInvite
after_a zero tx = tx
after_a (suc n) tx = (on_timer (after_a n tx) TimerId.a).0

after_a_lem :
    (n : ℕ) (inv : Request) (ts : Timers) (rel : Reliability)
    → let tx = after_a n (start inv ts rel).0 in
      (tx.state ≡ calling) × (tx.inv ≡ inv) × (tx.timer_a ≡ ts.t1 * 2 ^ n)
unfolding on_timer start
after_a_lem zero inv ts rel = (refl, refl, omega arith)
after_a_lem (suc n) inv ts rel =
    let h = after_a_lem n inv ts rel in ground (arith, h.0, h.1, h.2, double_pow ts.t1 n)

-- With no answer, each firing of Timer A sends the INVITE again and doubles the interval: after
-- `n` earlier ones the next is `T1 · 2 ^ (n + 1)`.
pub client_invite_backoff :
    (n : ℕ) (inv : Request) (ts : Timers) (rel : Reliability)
    → (on_timer (after_a n (start inv ts rel).0) TimerId.a).1
      ≡ send (request inv) ∷ start_timer TimerId.a (ts.t1 * 2 ^ suc n) ∷ []
unfolding on_timer
client_invite_backoff n inv ts rel =
    let h = after_a_lem n inv ts rel in ground (arith, h.0, h.1, h.2, double_pow ts.t1 n)

-- A terminated transaction does nothing more.
pub client_invite_ended :
    (r : Rsip) (tx : ClientInvite) (resp : Response) (id : TimerId)
    → tx.state ≡ ended
    → (on_response r tx resp ≡ (tx, [])) × (on_timer tx id ≡ (tx, []))
unfolding on_response on_timer
client_invite_ended r tx resp id e = ground arith

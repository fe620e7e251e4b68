-- ===== src/Transaction/Machine.antt =====
-- A transaction beside the timers that its caller keeps for it: what a run of either can reach.
use wavekat_sip.Base.{
  ℕ, ◌+◌, Bool, true, false, ◌≡◌, List, [], ◌∷◌, ◌++◌, if◌then◌else◌, leb, arith,
}
use wavekat_sip.Transaction.{
  TimerId, timer_eq, TxAction, send, start_timer, stop_timer, deliver_response, deliver_request,
  timed_out, terminated,
}

-- Which timers run.
abbrev pub Armed : Type 0
Armed = TimerId → Bool

abbrev pub idle : Armed
idle id = false

abbrev pub set_armed : TimerId → Bool → Armed → Armed
set_armed id on armed x = if timer_eq x id then on else armed x

-- The timers after a list of actions.
abbrev pub armed_after : List TxAction → Armed → Armed
armed_after [] armed = armed
armed_after (start_timer id after ∷ rest) armed = armed_after rest (set_armed id true armed)
armed_after (stop_timer id ∷ rest) armed = armed_after rest (set_armed id false armed)
armed_after (x ∷ rest) armed = armed_after rest armed

-- How often the actions report an outcome: a final response, or that none came.
abbrev pub outcomes : List TxAction → ℕ
outcomes [] = 0
outcomes (deliver_response resp ∷ rest) =
    (if leb 200 resp.status_code then 1 else 0) + outcomes rest
outcomes (timed_out ∷ rest) = 1 + outcomes rest
outcomes (x ∷ rest) = outcomes rest

abbrev pub terminations : List TxAction → ℕ
terminations [] = 0
terminations (terminated ∷ rest) = 1 + terminations rest
terminations (x ∷ rest) = terminations rest

pub outcomes-append : (xs ys : List TxAction) → outcomes (xs ++ ys) ≡ outcomes xs + outcomes ys
outcomes-append [] ys = omega arith
outcomes-append (send m ∷ xs) ys = outcomes-append xs ys
outcomes-append (start_timer id n ∷ xs) ys = outcomes-append xs ys
outcomes-append (stop_timer id ∷ xs) ys = outcomes-append xs ys
outcomes-append (deliver_response m ∷ xs) ys = omega (arith, outcomes-append xs ys)
outcomes-append (deliver_request m ∷ xs) ys = outcomes-append xs ys
outcomes-append (timed_out ∷ xs) ys = omega (arith, outcomes-append xs ys)
outcomes-append (terminated ∷ xs) ys = outcomes-append xs ys

pub terminations-append :
    (xs ys : List TxAction) → terminations (xs ++ ys) ≡ terminations xs + terminations ys
terminations-append [] ys = omega arith
terminations-append (send m ∷ xs) ys = terminations-append xs ys
terminations-append (start_timer id n ∷ xs) ys = terminations-append xs ys
terminations-append (stop_timer id ∷ xs) ys = terminations-append xs ys
terminations-append (deliver_response m ∷ xs) ys = terminations-append xs ys
terminations-append (deliver_request m ∷ xs) ys = terminations-append xs ys
terminations-append (timed_out ∷ xs) ys = terminations-append xs ys
terminations-append (terminated ∷ xs) ys = omega (arith, terminations-append xs ys)

-- A transaction, the timers that run for it, and all the actions that it has returned.
pub record World (Tx : Type 0) : Type 0 where
  pub tx : Tx
  pub armed : Armed
  pub log : List TxAction

abbrev pub perform : {Tx : Type 0} → World Tx → Armed → Tx × List TxAction → World Tx
perform w armed (tx, actions) = record {
  tx = tx;
  armed = armed_after actions armed;
  log = w.log ++ actions;
}

abbrev pub begin : {Tx : Type 0} → Tx × List TxAction → World Tx
begin (tx, actions) = record { tx = tx; armed = armed_after actions idle; log = actions }

-- The inputs come in any order; a timer fires only while it runs, and then runs no more.
module _ {Tx Input : Type 0} (handle : Tx → Input → Tx × List TxAction)
    (on_timer : Tx → TimerId → Tx × List TxAction) where
  pub data Reach (start : Tx × List TxAction) : World Tx → Type 0 where
    started : Reach start (begin start)
    handled :
        {w : World Tx} (input : Input)
        → Reach start w
        → Reach start (perform w w.armed (handle w.tx input))
    fired :
        {w : World Tx} (id : TimerId)
        → w.armed id ≡ true
        → Reach start w
        → Reach start (perform w (set_armed id false w.armed) (on_timer w.tx id))

-- ===== src/Engine.antt =====
-- crates/wavekat-sip/src/stack/engine.rs, with the `Transaction` enum of stack/transaction/mod.rs.
-- The engine is one task: each handler takes the state and returns the new one. A sent message, a
-- published event and a spawned sleeper are appended to a list of the state. A `SocketAddr`, which
-- the engine only copies, is a number; a generation is a number with no bound (the code's is a
-- `u64`, which no run exhausts).
pub mod Isolation
pub mod Opening
pub mod Stale
pub mod State
pub mod Table
unfoldable pub use State.*
use wavekat_sip.Base.{
  ℕ, ◌+◌, Bool, false, List, [], ◌∷◌, ◌++◌, Option, none, some, ◌==◌, if◌then◌else◌,
}
use wavekat_sip.Sip.{
  Method, ack, invite, method_eq, Request, Response, SipMessage, request, response, Rsip,
}
use wavekat_sip.Transaction.{
  Reliability, Timers, TimerId, timer_eq, TxAction, send, start_timer, stop_timer, deliver_response,
  deliver_request, timed_out, terminated,
}
use wavekat_sip.Transaction.Key.{TransactionKey, key_eq, from_request, from_response}
use wavekat_sip.Transaction.ClientInvite
use wavekat_sip.Transaction.ClientInvite.{ClientInvite}
use wavekat_sip.Transaction.ClientNonInvite
use wavekat_sip.Transaction.ClientNonInvite.{ClientNonInvite}
use wavekat_sip.Transaction.ServerInvite
use wavekat_sip.Transaction.ServerInvite.{ServerInvite}
use wavekat_sip.Transaction.ServerNonInvite
use wavekat_sip.Transaction.ServerNonInvite.{ServerNonInvite}

abbrev pub bumped : Option ℕ → ℕ
bumped none = 1
bumped (some n) = n + 1

-- `arm_timer`, at the entry of the key.
pub arm_timer_at : Option Entry → TransactionKey → TimerId → ℕ → Engine → Engine
arm_timer_at none key id after eng = eng
arm_timer_at (some entry) key id after eng =
    let generation = bumped (entry.generations id) in
    let armed = record entry { generations = set_generation id generation entry.generations } in
    let fire : TimerFire = record { key = key; id = id; generation = generation } in
    let stored = put_entry key armed eng in
    record stored { sleepers = eng.sleepers ++ (fire, after) ∷ [] }

unfoldable pub arm_timer : TransactionKey → TimerId → ℕ → Engine → Engine
unfolding arm_timer_at
arm_timer key id after eng = arm_timer_at (get key eng.txns) key id after eng

stop_in : Option ℕ → Entry → TransactionKey → TimerId → Engine → Engine
stop_in none entry key id eng = eng
stop_in (some n) entry key id eng =
    put_entry key (record entry { generations = set_generation id (n + 1) entry.generations }) eng

pub stop_timer_at : Option Entry → TransactionKey → TimerId → Engine → Engine
unfolding stop_in
stop_timer_at none key id eng = eng
stop_timer_at (some entry) key id eng = stop_in (entry.generations id) entry key id eng

unfoldable pub cancel_timer : TransactionKey → TimerId → Engine → Engine
unfolding stop_timer_at
cancel_timer key id eng = stop_timer_at (get key eng.txns) key id eng

send_at : Option Entry → SipMessage → Engine → Engine
send_at none msg eng = eng
send_at (some entry) msg eng = record eng { wire = eng.wire ++ (msg, entry.peer) ∷ [] }

request_at : Option Entry → TransactionKey → Request → Engine → Engine
request_at none key req eng = eng
request_at (some entry) key req eng = publish (incoming_request key req entry.peer) eng

-- One action of `apply`.
unfoldable pub apply_one : TransactionKey → TxAction → Engine → Engine
unfolding send_at request_at
apply_one key (send msg) eng = send_at (get key eng.txns) msg eng
apply_one key (start_timer id after) eng = arm_timer key id after eng
apply_one key (stop_timer id) eng = cancel_timer key id eng
apply_one key (deliver_response resp) eng = publish (response_event key resp) eng
apply_one key (deliver_request req) eng = request_at (get key eng.txns) key req eng
apply_one key timed_out eng = publish (timed_out_event key) eng
apply_one key terminated eng =
    publish (terminated_event key) (record eng { txns = remove key eng.txns })

unfoldable pub apply : TransactionKey → List TxAction → Engine → Engine
apply key [] eng = eng
apply key (action ∷ rest) eng = apply key rest (apply_one key action eng)

-- Store the transaction that a handler changed through `get_mut`, then apply its actions.
unfoldable pub settle : TransactionKey → Entry → Transaction × List TxAction → Engine → Engine
settle key entry (tx, actions) eng =
    apply key actions (put_entry key (record entry { tx = tx }) eng)

-- Insert a new transaction, then apply its actions.
unfoldable pub open_tx : TransactionKey → Addr → Transaction × List TxAction → Engine → Engine
open_tx key peer (tx, actions) eng =
    apply key actions
      (put_entry key (record { tx = tx; peer = peer; generations = λ id. none }) eng)

-- `on_request` with no transaction of the key.
unfoldable pub open_server : Method → TransactionKey → Request → Addr → Engine → Engine
open_server ack key req src eng = publish (unmatched_request req src) eng
open_server invite key req src eng =
    open_tx key src (wrap server_invite (ServerInvite.start req eng.timers eng.reliability)) eng
open_server _ key req src eng =
    open_tx key src (wrap server_non_invite (ServerNonInvite.start req eng.timers eng.reliability))
      eng

request_for : Option Entry → TransactionKey → Request → Addr → Engine → Engine
request_for none key req src eng = open_server req.method key req src eng
request_for (some entry) key req src eng = settle key entry (tx_on_request entry.tx req) eng

request_keyed : Option TransactionKey → Request → Addr → Engine → Engine
unfolding request_for
request_keyed none req src eng = eng
request_keyed (some key) req src eng = request_for (get key eng.txns) key req src eng

fire_for : Option Entry → TimerFire → Engine → Engine
fire_for none fire eng = eng
fire_for (some entry) fire eng = settle fire.key entry (tx_on_timer entry.tx fire.id) eng

-- `current != Some(fire.generation)`.
is_current : Option Entry → TimerFire → Bool
is_current none fire = false
is_current (some entry) fire = elim (entry.generations fire.id) [
  | none ↦ false
  | some n ↦ n == fire.generation
]

unfoldable pub on_timer_fire : TimerFire → Engine → Engine
unfolding is_current fire_for
on_timer_fire fire eng =
    let found = get fire.key eng.txns in
    if is_current found fire then fire_for found fire eng else eng

send_response_for : Option Entry → TransactionKey → Response → Engine → Engine
send_response_for none key resp eng = eng
send_response_for (some entry) key resp eng = settle key entry (tx_send_response entry.tx resp) eng

module _ (r : Rsip) where
  response_for : Option Entry → TransactionKey → Response → Engine → Engine
  response_for none key resp eng = eng
  response_for (some entry) key resp eng = settle key entry (tx_on_response r entry.tx resp) eng

  response_keyed : Option TransactionKey → Response → Engine → Engine
  unfolding response_for
  response_keyed none resp eng = eng
  response_keyed (some key) resp eng = response_for (get key eng.txns) key resp eng

  unfoldable pub on_response : Response → Engine → Engine
  unfolding response_keyed
  on_response resp eng = response_keyed (from_response r resp) resp eng

  unfoldable pub on_request : Request → Addr → Engine → Engine
  unfolding request_keyed
  on_request req src eng = request_keyed (from_request r req) req src eng

  unfoldable pub on_inbound : SipMessage → Addr → Engine → Engine
  unfolding on_response on_request
  on_inbound (request req) src eng = on_request req src eng
  on_inbound (response resp) src eng = on_response resp eng

  start_for : Option TransactionKey → Request → Addr → Engine → Engine
  start_for none req peer eng = eng
  start_for (some key) req peer eng =
      if method_eq req.method invite
      then open_tx key peer (wrap client_invite (ClientInvite.start req eng.timers eng.reliability))
          eng
      else open_tx key peer
          (wrap client_non_invite (ClientNonInvite.start req eng.timers eng.reliability)) eng

  unfoldable pub on_command : Command → Engine → Engine
  unfolding start_for send_response_for
  on_command (start_client req peer) eng = start_for (from_request r req) req peer eng
  on_command (send_response key resp) eng = send_response_for (get key eng.txns) key resp eng
  on_command (send_out_of_dialog msg peer) eng = record eng { wire = eng.wire ++ (msg, peer) ∷ [] }

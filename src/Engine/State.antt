-- ===== src/Engine/State.antt =====
-- The state of the engine task of crates/wavekat-sip/src/stack/engine.rs: the transactions of all
-- kinds, the table of them, and what the task has sent, published and spawned.
use wavekat_sip.Base.{ℕ, List, [], ◌∷◌, ◌++◌, Option, none, some, if◌then◌else◌}
use wavekat_sip.Sip.{Request, Response, SipMessage, Rsip}
use wavekat_sip.Transaction.{Reliability, Timers, TimerId, timer_eq, TxAction}
use wavekat_sip.Transaction.Key.{TransactionKey, key_eq}
use wavekat_sip.Transaction.ClientInvite
use wavekat_sip.Transaction.ClientInvite.{ClientInvite}
use wavekat_sip.Transaction.ClientNonInvite
use wavekat_sip.Transaction.ClientNonInvite.{ClientNonInvite}
use wavekat_sip.Transaction.ServerInvite
use wavekat_sip.Transaction.ServerInvite.{ServerInvite}
use wavekat_sip.Transaction.ServerNonInvite
use wavekat_sip.Transaction.ServerNonInvite.{ServerNonInvite}

abbrev pub Addr : Type 0
Addr = ℕ

pub data Transaction : Type 0 where
  client_invite : ClientInvite → Transaction
  client_non_invite : ClientNonInvite → Transaction
  server_invite : ServerInvite → Transaction
  server_non_invite : ServerNonInvite → Transaction

-- A machine's result, as a result of the sum.
abbrev pub wrap : {T : Type 0} → (T → Transaction) → T × List TxAction → Transaction × List TxAction
wrap into (tx, actions) = (into tx, actions)

module _ (r : Rsip) where
  unfoldable pub tx_on_response : Transaction → Response → Transaction × List TxAction
  tx_on_response (client_invite t) resp = wrap client_invite (ClientInvite.on_response r t resp)
  tx_on_response (client_non_invite t) resp =
      wrap client_non_invite (ClientNonInvite.on_response t resp)
  tx_on_response tx resp = (tx, [])

unfoldable pub tx_on_request : Transaction → Request → Transaction × List TxAction
tx_on_request (server_invite t) req = wrap server_invite (ServerInvite.on_request t req)
tx_on_request (server_non_invite t) req = wrap server_non_invite (ServerNonInvite.on_request t req)
tx_on_request tx req = (tx, [])

unfoldable pub tx_on_timer : Transaction → TimerId → Transaction × List TxAction
tx_on_timer (client_invite t) id = wrap client_invite (ClientInvite.on_timer t id)
tx_on_timer (client_non_invite t) id = wrap client_non_invite (ClientNonInvite.on_timer t id)
tx_on_timer (server_invite t) id = wrap server_invite (ServerInvite.on_timer t id)
tx_on_timer (server_non_invite t) id = wrap server_non_invite (ServerNonInvite.on_timer t id)

-- What `Command::SendResponse` does with the transaction.
unfoldable pub tx_send_response : Transaction → Response → Transaction × List TxAction
tx_send_response (server_invite t) resp = wrap server_invite (ServerInvite.send_response t resp)
tx_send_response (server_non_invite t) resp =
    wrap server_non_invite (ServerNonInvite.send_response t resp)
tx_send_response tx resp = (tx, [])

pub data Command : Type 0 where
  start_client : Request → Addr → Command
  send_response : TransactionKey → Response → Command
  send_out_of_dialog : SipMessage → Addr → Command

pub data Event : Type 0 where
  incoming_request : TransactionKey → Request → Addr → Event
  response_event : TransactionKey → Response → Event
  unmatched_request : Request → Addr → Event
  timed_out_event terminated_event : TransactionKey → Event

pub record TimerFire : Type 0 where
  pub key : TransactionKey
  pub id : TimerId
  pub generation : ℕ

-- The current generation of each timer; `none` where the map has no entry.
abbrev pub Generations : Type 0
Generations = TimerId → Option ℕ

abbrev pub set_generation : TimerId → ℕ → Generations → Generations
set_generation id n gens x = if timer_eq x id then some n else gens x

pub record Entry : Type 0 where
  pub tx : Transaction
  pub peer : Addr
  pub generations : Generations

-- `HashMap<TransactionKey, Entry>`: `get`, `insert` and `remove`.
abbrev pub Table : Type 0
Table = List (TransactionKey × Entry)

unfoldable pub get : TransactionKey → Table → Option Entry
get key [] = none
get key ((other, entry) ∷ rest) = if key_eq key other then some entry else get key rest

unfoldable pub remove : TransactionKey → Table → Table
remove key [] = []
remove key ((other, entry) ∷ rest) =
    let kept = remove key rest in if key_eq key other then kept else (other, entry) ∷ kept

unfoldable pub insert : TransactionKey → Entry → Table → Table
unfolding remove
insert key entry table = (key, entry) ∷ remove key table

pub record Engine : Type 0 where
  pub reliability : Reliability
  pub timers : Timers
  pub txns : Table
  pub sleepers : List (TimerFire × ℕ)
  pub wire : List (SipMessage × Addr)
  pub events : List Event

abbrev pub publish : Event → Engine → Engine
publish ev eng = record eng { events = eng.events ++ ev ∷ [] }

abbrev pub put_entry : TransactionKey → Entry → Engine → Engine
put_entry key entry eng = record eng { txns = insert key entry eng.txns }

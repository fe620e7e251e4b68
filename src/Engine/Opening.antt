-- ===== src/Engine/Opening.antt =====
-- What the engine does with a message or a command that no transaction owns yet.
use wavekat_sip.Base.{◌≡◌, refl, List, [], ◌∷◌, ◌++◌, none, some}
use wavekat_sip.Sip.{Method, invite, ack, Request, Response, Rsip}
use wavekat_sip.Transaction.{TxAction, deliver_request, terminated}
use wavekat_sip.Transaction.Key.{TransactionKey, from_request, from_response}
use wavekat_sip.Transaction.ServerInvite
use wavekat_sip.Transaction.ServerNonInvite
use wavekat_sip.Engine.Table.{key_eq_self, get-insert, get-remove}
use wavekat_sip.Engine.{
  Addr, Transaction, server_invite, server_non_invite, incoming_request, unmatched_request,
  terminated_event, Entry, Engine, get, insert, publish, apply_one, apply, open_tx, open_server,
  on_request, on_response, request_at,
}

-- The engine after the transaction `tx` was opened for a received request.
abbrev pub Opened : Transaction → TransactionKey → Request → Addr → Engine → Engine → Type 0
Opened tx key req src before after =
    (get key after.txns ≡ some (record { tx = tx; peer = src; generations = λ id. none }))
    × (after.events ≡ before.events ++ incoming_request key req src ∷ [])
    × (after.wire ≡ before.wire)
    × (after.sleepers ≡ before.sleepers)

abbrev pub OpenedFor : Method → TransactionKey → Request → Addr → Engine → Engine → Type 0
OpenedFor ack key req src before after = after ≡ publish (unmatched_request req src) before
OpenedFor invite key req src before after =
    Opened (server_invite (ServerInvite.start req before.timers before.reliability).0) key req src
      before after
OpenedFor m key req src before after =
    Opened (server_non_invite (ServerNonInvite.start req before.timers before.reliability).0) key
      req src before after

open_tx-deliver :
    (tx : Transaction) (key : TransactionKey) (req : Request) (src : Addr) (eng : Engine)
    → Opened tx key req src eng (open_tx key src (tx, deliver_request req ∷ []) eng)
unfolding open_tx apply apply_one
open_tx-deliver tx key req src eng =
    let entry : Entry = record { tx = tx; peer = src; generations = λ id. none } in
    let stored : get key (insert key entry eng.txns) ≡ some entry = rw (get-insert, key_eq_self) in
    rw (stored, request_at) (stored, refl, refl, refl)

open_server-OpenedFor :
    (m : Method) (key : TransactionKey) (req : Request) (src : Addr) (eng : Engine)
    → OpenedFor m key req src eng (open_server m key req src eng)
unfolding open_server ServerInvite.start ServerNonInvite.start
open_server-OpenedFor ack key req src eng = refl
open_server-OpenedFor invite key req src eng = open_tx-deliver _ key req src eng
open_server-OpenedFor m key req src eng = open_tx-deliver _ key req src eng

-- A request whose key has no transaction: an ACK is handed up as unmatched and changes nothing
-- else; an INVITE opens a server INVITE transaction and any other request a server non-INVITE one,
-- stored under the key with the sender's address and no timer, and the request is handed up;
-- nothing is sent.
pub engine_opens :
    (r : Rsip) (req : Request) (src : Addr) (key : TransactionKey) (eng : Engine)
    → from_request r req ≡ some key
    → get key eng.txns ≡ none
    → OpenedFor req.method key req src eng (on_request r req src eng)
unfolding on_request
engine_opens r req src key eng key_is absent =
    rw (key_is, absent) (open_server-OpenedFor req.method key req src eng)

-- A response that no transaction owns is dropped.
pub engine_drops_late_response :
    (r : Rsip) (resp : Response) (key : TransactionKey) (eng : Engine)
    → from_response r resp ≡ some key
    → get key eng.txns ≡ none
    → on_response r resp eng ≡ eng
unfolding on_response
engine_drops_late_response r resp key eng key_is absent = rw (key_is, absent)

-- Once a transaction has terminated, its key owns none, and the termination was published last.
pub engine_terminates :
    (key : TransactionKey) (actions : List TxAction) (eng : Engine)
    → let after = apply key (actions ++ terminated ∷ []) eng in
      (get key after.txns ≡ none)
      × (after.events ≡ (apply key actions eng).events ++ terminated_event key ∷ [])
unfolding apply apply_one
engine_terminates key [] eng = (rw (get-remove, key_eq_self), refl)
engine_terminates key (action ∷ rest) eng = engine_terminates key rest (apply_one key action eng)

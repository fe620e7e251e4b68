-- ===== src/Engine/Isolation.antt =====
-- An input of the engine touches the transaction of its key, and no other.
use wavekat_sip.Base.{
  ℕ, ◌≡◌, refl, ◌∙◌, false, List, [], ◌∷◌, Option, none, some, arith, Option-cases, inl, inr,
  Bool-cases,
}
use wavekat_sip.Sip.{Method, ack, invite, method_eq, Request, Response, Rsip}
use wavekat_sip.Transaction.{
  TimerId, TxAction, send, start_timer, stop_timer, deliver_response, deliver_request, timed_out,
  terminated,
}
use wavekat_sip.Transaction.Key.{TransactionKey, key_eq, from_request, from_response}
use wavekat_sip.Engine.Table.{get-insert, get-remove}
use wavekat_sip.Engine.{
  Addr, Transaction, TimerFire, Entry, Engine, get, put_entry, arm_timer_at, arm_timer,
  stop_timer_at, cancel_timer, apply_one, apply, settle, open_tx, open_server, on_timer_fire,
  on_response, on_request, request_for, fire_for, is_current, send_response_for, response_for,
  start_for, Command, start_client, send_response, send_out_of_dialog, on_command,
}

module _ (j key : TransactionKey) (apart : key_eq j key ≡ false) where
  put_entry-other :
      (entry : Entry) (eng : Engine) → get j (put_entry key entry eng).txns ≡ get j eng.txns
  put_entry-other entry eng = rw (get-insert, apart)

  arm_timer_at-other :
      (o : Option Entry) (id : TimerId) (after : ℕ) (eng : Engine)
      → get j (arm_timer_at o key id after eng).txns ≡ get j eng.txns
  unfolding arm_timer_at
  arm_timer_at-other none id after eng = refl
  arm_timer_at-other (some entry) id after eng = rw (get-insert, apart)

  stop_timer_at-other :
      (o : Option Entry) (id : TimerId) (eng : Engine)
      → get j (stop_timer_at o key id eng).txns ≡ get j eng.txns
  unfolding stop_timer_at
  stop_timer_at-other none id eng = refl
  stop_timer_at-other (some entry) id eng = elim (Option-cases (entry.generations id)) [
    | inl e ↦ rw e
    | inr (n, e) ↦ rw e (rw (get-insert, apart))
  ]

  apply_one-other :
      (action : TxAction) (eng : Engine) → get j (apply_one key action eng).txns ≡ get j eng.txns
  unfolding apply_one arm_timer cancel_timer
  apply_one-other (send msg) eng = elim (Option-cases (get key eng.txns)) [
    | inl e ↦ rw e
    | inr (n, e) ↦ rw e
  ]
  apply_one-other (start_timer id after) eng = arm_timer_at-other (get key eng.txns) id after eng
  apply_one-other (stop_timer id) eng = stop_timer_at-other (get key eng.txns) id eng
  apply_one-other (deliver_response resp) eng = refl
  apply_one-other (deliver_request req) eng = elim (Option-cases (get key eng.txns)) [
    | inl e ↦ rw e
    | inr (n, e) ↦ rw e
  ]
  apply_one-other timed_out eng = refl
  apply_one-other terminated eng = rw (get-remove, apart)

  apply-other :
      (actions : List TxAction) (eng : Engine) → get j (apply key actions eng).txns ≡ get j eng.txns
  unfolding apply
  apply-other [] eng = refl
  apply-other (action ∷ rest) eng =
      apply-other rest (apply_one key action eng) ∙ apply_one-other action eng

  settle-other :
      (entry : Entry) (result : Transaction × List TxAction) (eng : Engine)
      → get j (settle key entry result eng).txns ≡ get j eng.txns
  unfolding settle
  settle-other entry (tx, actions) eng =
      apply-other actions (put_entry key (record entry { tx = tx }) eng) ∙ put_entry-other _ eng

  open_tx-other :
      (peer : Addr) (result : Transaction × List TxAction) (eng : Engine)
      → get j (open_tx key peer result eng).txns ≡ get j eng.txns
  unfolding open_tx
  open_tx-other peer (tx, actions) eng = apply-other actions _ ∙ put_entry-other _ eng

  open_server-other :
      (m : Method) (req : Request) (src : Addr) (eng : Engine)
      → get j (open_server m key req src eng).txns ≡ get j eng.txns
  unfolding open_server
  open_server-other ack req src eng = refl
  open_server-other invite req src eng = open_tx-other src _ eng
  open_server-other m req src eng = open_tx-other src _ eng

  request_for-other :
      (o : Option Entry) (req : Request) (src : Addr) (eng : Engine)
      → get j (request_for o key req src eng).txns ≡ get j eng.txns
  unfolding request_for
  request_for-other none req src eng = open_server-other req.method req src eng
  request_for-other (some entry) req src eng = settle-other entry _ eng

  fire_for-other :
      (o : Option Entry) (id : TimerId) (n : ℕ) (eng : Engine)
      → let fire : TimerFire = record { key = key; id = id; generation = n } in
        get j (fire_for o fire eng).txns ≡ get j eng.txns
  unfolding fire_for
  fire_for-other none id n eng = refl
  fire_for-other (some entry) id n eng = settle-other entry _ eng

  send_response_for-other :
      (o : Option Entry) (resp : Response) (eng : Engine)
      → get j (send_response_for o key resp eng).txns ≡ get j eng.txns
  unfolding send_response_for
  send_response_for-other none resp eng = refl
  send_response_for-other (some entry) resp eng = settle-other entry _ eng

  response_for-other :
      (r : Rsip) (o : Option Entry) (resp : Response) (eng : Engine)
      → get j (response_for r o key resp eng).txns ≡ get j eng.txns
  unfolding response_for
  response_for-other r none resp eng = refl
  response_for-other r (some entry) resp eng = settle-other entry _ eng

  start_for-other :
      (r : Rsip) (req : Request) (peer : Addr) (eng : Engine)
      → get j (start_for r (some key) req peer eng).txns ≡ get j eng.txns
  unfolding start_for
  start_for-other r req peer eng = elim (Bool-cases (method_eq req.method invite)) [
    | inl e ↦ rw e (open_tx-other peer _ eng)
    | inr e ↦ rw e (open_tx-other peer _ eng)
  ]

-- An input of the engine, and the key of the transaction that it belongs to.
pub data Input : Type 0 where
  got_request : Request → Addr → Input
  got_response : Response → Input
  timer_fired : TimerFire → Input
  commanded : Command → Input

module _ (r : Rsip) where
  unfoldable pub handle : Input → Engine → Engine
  unfolding on_request on_response on_timer_fire on_command
  handle (got_request req src) eng = on_request r req src eng
  handle (got_response resp) eng = on_response r resp eng
  handle (timer_fired fire) eng = on_timer_fire fire eng
  handle (commanded cmd) eng = on_command r cmd eng

  abbrev pub input_key : Input → Option TransactionKey
  input_key (got_request req src) = from_request r req
  input_key (got_response resp) = from_response r resp
  input_key (timer_fired fire) = some fire.key
  input_key (commanded (start_client req peer)) = from_request r req
  input_key (commanded (send_response key resp)) = some key
  input_key (commanded (send_out_of_dialog msg peer)) = none

  -- A message or a command with no key leaves the transactions as they are.
  pub handle-no_key :
      (input : Input) (eng : Engine) → input_key input ≡ none → (handle input eng).txns ≡ eng.txns
  unfolding handle
  handle-no_key (got_request req src) eng e = let f : from_request r req ≡ none = e in rw f
  handle-no_key (got_response resp) eng e = let f : from_response r resp ≡ none = e in rw f
  handle-no_key (timer_fired fire) eng e = cc
  handle-no_key (commanded (start_client req peer)) eng e =
      let f : from_request r req ≡ none = e in rw f
  handle-no_key (commanded (send_response key resp)) eng e = cc
  handle-no_key (commanded (send_out_of_dialog msg peer)) eng e = refl

  -- An input for one key (a received request or response, a fired timer, a command) leaves the
  -- transaction of every other key as it is.
  pub engine_isolates :
      (input : Input) (eng : Engine) (j key : TransactionKey)
      → input_key input ≡ some key
      → key_eq j key ≡ false
      → get j (handle input eng).txns ≡ get j eng.txns
  unfolding handle
  engine_isolates (got_request req src) eng j key e apart =
      let f : from_request r req ≡ some key = e in
      rw f (request_for-other j key apart (get key eng.txns) req src eng)
  engine_isolates (got_response resp) eng j key e apart =
      let f : from_response r resp ≡ some key = e in
      rw f (response_for-other j key apart r (get key eng.txns) resp eng)
  engine_isolates (timer_fired fire) eng j key e apart =
      let k_is : key_eq j fire.key ≡ false = ground arith in
      elim (Bool-cases (is_current (get fire.key eng.txns) fire)) [
        | inl now ↦
            rw now
              (fire_for-other j fire.key k_is (get fire.key eng.txns) fire.id fire.generation eng)
        | inr stale ↦ rw stale
      ]
  engine_isolates (commanded (start_client req peer)) eng j key e apart =
      let f : from_request r req ≡ some key = e in rw f (start_for-other j key apart r req peer eng)
  engine_isolates (commanded (send_response k resp)) eng j key e apart =
      let k_is : key_eq j k ≡ false = ground arith in
      send_response_for-other j k k_is (get k eng.txns) resp eng
  engine_isolates (commanded (send_out_of_dialog msg peer)) eng j key e apart = refl

-- ===== src/Ua.antt =====
-- crates/wavekat-sip/src/stack/ua.rs: the flows of the user agent over the engine. What the engine
-- delivers, the clock and the random draws are the record `Outside`, indexed by a count of what was
-- asked of it; `Air` has the requests that were sent and that count. The peer's address is left out.
pub mod Counting
pub mod Acknowledging
pub mod Calling
pub mod Cancelling
pub mod Numbers
pub mod Registering
pub mod Rounds
pub mod Router
use wavekat_sip.Base.{
  ℕ, zero, suc, ◌+◌, Bool, true, false, not, ◌&&◌, ◌||◌, List, [], ◌∷◌, ◌++◌, Option, none, some,
  leb, ltb, ◌==◌, if◌then◌else◌,
}
use wavekat_sip.Sip.{Str, Method, bye, invite, Header, user_agent, Uri, Request, Response}
use wavekat_sip.Transaction.Key.{from_request}
use wavekat_sip.Engine.State.{Event, response_event, timed_out_event}
use wavekat_sip.Auth.{AgentRsip}
use wavekat_sip.Call.{build_cancel}

-- What the `select!` of a call meets: an event of the transaction, or the cancel token.
pub data Select : Type 0 where
  received : Event → Select
  cancelled : Select

-- `deliver` is what the receiver of a new transaction yields until its channel closes, for a call
-- together with the cancel token; none if the engine stopped.
pub record Outside : Type 0 where
  pub gen_branch : ℕ → Str
  pub gen_cnonce : ℕ → Str
  pub now : ℕ → ℕ
  pub deliver : ℕ → List Request → Request → Option (List Event)
  pub deliver_call : ℕ → List Request → Request → Option (List Select)

pub record Ua : Type 0 where
  pub local_addr : Str
  pub agent_name : Option Str

pub record Air : Type 0 where
  pub wire : List Request
  pub tick : ℕ

abbrev pub ticked : Air → Air
ticked air = record air { tick = air.tick + 1 }

abbrev pub sent : Request → Air → Air
sent req air = record { wire = air.wire ++ req ∷ []; tick = air.tick + 1 }

unfoldable pub has_user_agent : List Header → Bool
has_user_agent [] = false
has_user_agent (user_agent v ∷ hs) = true
has_user_agent (h ∷ hs) = has_user_agent hs

unfoldable pub apply_user_agent : Option Str → Request → Request
unfolding has_user_agent
apply_user_agent none req = req
apply_user_agent (some product) req =
    if has_user_agent req.headers
    then req
    else record req { headers = req.headers ++ user_agent product ∷ [] }

-- `await_final` over the events of a transaction.
unfoldable pub await_final : List Event → Option Response
await_final [] = none
await_final (response_event key resp ∷ evs) =
    let later = await_final evs in if leb 200 resp.status_code then some resp else later
await_final (timed_out_event key ∷ evs) = none
await_final (ev ∷ evs) = await_final evs

abbrev pub is_success : ℕ → Bool
is_success code = leb 200 code && ltb code 300

abbrev pub is_challenge : ℕ → Bool
is_challenge code = (code == 401) || (code == 407)

-- What the waiting of a call has done: the response, the CANCELs sent and the statuses forwarded.
pub record Waiting : Type 0 where
  pub final : Option Response
  pub cancels : List Request
  pub progress : List ℕ

abbrev ended : Option Response → Waiting
ended resp = record { final = resp; cancels = []; progress = [] }

abbrev with_cancels : List Request → Waiting → Waiting
with_cancels reqs w = record w { cancels = reqs ++ w.cancels }

abbrev with_progress : ℕ → Waiting → Waiting
with_progress code w = record w { progress = code ∷ w.progress }

module _ (r : AgentRsip) where
  -- `send_cancel`: nothing is sent if the CANCEL cannot be built.
  unfoldable pub send_cancel : Request → List Request
  send_cancel inv = elim (build_cancel r inv) [ none ↦ [] | some req ↦ req ∷ [] ]

  -- `await_final_cancellable`, on its three flags: cancel requested, cancel sent, provisional seen.
  unfoldable pub await_final_cancellable : Request → Bool → Bool → Bool → List Select → Waiting
  unfolding send_cancel
  await_final_cancellable inv requested done seen [] = ended none
  await_final_cancellable inv requested done seen (received (response_event key resp) ∷ rest) =
      let due = requested && not done in
      let later = await_final_cancellable inv requested (done || due) true rest in
      if leb 200 resp.status_code
      then ended (some resp)
      else with_progress resp.status_code (with_cancels (if due then send_cancel inv else []) later)
  await_final_cancellable inv requested done seen (received (timed_out_event key) ∷ rest) =
      ended none
  await_final_cancellable inv requested done seen (received ev ∷ rest) =
      await_final_cancellable inv requested done seen rest
  await_final_cancellable inv true done seen (cancelled ∷ rest) =
      await_final_cancellable inv true done seen rest
  await_final_cancellable inv false done seen (cancelled ∷ rest) =
      let due = seen && not done in
      let later = await_final_cancellable inv true (done || due) seen rest in
      with_cancels (if due then send_cancel inv else []) later

-- `start_client` with what its receiver yields; nothing is sent if the request has no key.
module _ (r : AgentRsip) (out : Outside) (ua : Ua) where
  abbrev pub started : {A : Type 0} → Request → Air → Option A → Air × Option A
  started req air none = (ticked air, none)
  started req air (some events) = (sent (apply_user_agent ua.agent_name req) air, some events)

  unfoldable pub start_client : Request → Air → Air × Option (List Event)
  unfolding apply_user_agent
  start_client req air = elim (from_request r.dialogs.base req) [
    | none ↦ (air, none)
    | some key ↦
        started req air (out.deliver air.tick air.wire (apply_user_agent ua.agent_name req))
  ]

  unfoldable pub start_call : Request → Air → Air × Option (List Select)
  unfolding apply_user_agent
  start_call req air = elim (from_request r.dialogs.base req) [
    | none ↦ (air, none)
    | some key ↦
        started req air (out.deliver_call air.tick air.wire (apply_user_agent ua.agent_name req))
  ]

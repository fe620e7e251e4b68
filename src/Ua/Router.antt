-- ===== src/Ua/Router.antt =====
-- crates/wavekat-sip/src/stack/ua.rs, `router`: the task between the engine's events and the flows. A
-- channel is a number; what is sent on the channels and up to the callee is appended to lists.
use wavekat_sip.Base.{
  ℕ, ◌≡◌, refl, ap, ◌∙◌, inl, inr, Bool-cases, arith, List, [], ◌∷◌, ◌++◌, Option, none, some,
  if◌then◌else◌,
}
use wavekat_sip.Sip.{Request, Rsip}
use wavekat_sip.Transaction.Key.{TransactionKey, key_eq, from_request}
use wavekat_sip.Engine.State.{
  Addr, Event, incoming_request, response_event, unmatched_request, timed_out_event,
  terminated_event,
}
use wavekat_sip.Engine.Table.{key_eq_sound, key_eq_iff}

pub record Incoming : Type 0 where
  pub incoming_key : TransactionKey
  pub incoming_req : Request
  pub incoming_peer : Addr

abbrev Subscriptions : Type 0
Subscriptions = List (TransactionKey × ℕ)

unfoldable pub channel_of : TransactionKey → Subscriptions → Option ℕ
channel_of key [] = none
channel_of key ((other, channel) ∷ subs) =
    let rest = channel_of key subs in if key_eq key other then some channel else rest

unfoldable pub unsubscribe : TransactionKey → Subscriptions → Subscriptions
unsubscribe key [] = []
unsubscribe key ((other, channel) ∷ subs) =
    let rest = unsubscribe key subs in if key_eq key other then rest else (other, channel) ∷ rest

pub record Router : Type 0 where
  pub subs : Subscriptions
  pub delivered : List (ℕ × Event)
  pub incoming : List Incoming

-- What the `select!` of the task meets.
pub data RouterInput : Type 0 where
  subscribed : TransactionKey → ℕ → RouterInput
  published : Event → RouterInput

abbrev pub to_channel : Option ℕ → Event → List (ℕ × Event)
to_channel none ev = []
to_channel (some channel) ev = (channel, ev) ∷ []

abbrev pub arrival : Option TransactionKey → Request → Addr → List Incoming
arrival none req peer = []
arrival (some key) req peer =
    record { incoming_key = key; incoming_req = req; incoming_peer = peer } ∷ []

module _ (r : Rsip) where
  abbrev forward : TransactionKey → Event → Router → Router
  forward key ev router = record router {
    delivered = router.delivered ++ to_channel (channel_of key router.subs) ev;
  }

  -- One turn of the loop.
  unfoldable pub route : Router → RouterInput → Router
  unfolding channel_of unsubscribe
  route router (subscribed key channel) = record router {
    subs = (key, channel) ∷ unsubscribe key router.subs;
  }
  route router (published (incoming_request key req peer)) = record router {
    incoming = router.incoming ++ arrival (some key) req peer;
  }
  route router (published (unmatched_request req peer)) = record router {
    incoming = router.incoming ++ arrival (from_request r req) req peer;
  }
  route router (published (response_event key resp)) = forward key (response_event key resp) router
  route router (published (timed_out_event key)) = forward key (timed_out_event key) router
  route router (published (terminated_event key)) =
      let sent = forward key (terminated_event key) router in
      record sent { subs = unsubscribe key sent.subs }

  -- The task after a history, the latest input first.
  unfoldable pub run_router : List RouterInput → Router
  unfolding route
  run_router [] = record { subs = []; delivered = []; incoming = [] }
  run_router (input ∷ past) = route (run_router past) input

  -- Who owns a key, by the history alone: the last to subscribe it since it last terminated.
  abbrev pub owner : TransactionKey → List RouterInput → Option ℕ
  owner key [] = none
  owner key (subscribed other channel ∷ past) =
      let rest = owner key past in if key_eq key other then some channel else rest
  owner key (published (terminated_event other) ∷ past) =
      let rest = owner key past in if key_eq key other then none else rest
  owner key (published ev ∷ past) = owner key past

  abbrev pub deliveries : List RouterInput → List (ℕ × Event)
  deliveries [] = []
  deliveries (published (response_event key resp) ∷ past) =
      deliveries past ++ to_channel (owner key past) (response_event key resp)
  deliveries (published (timed_out_event key) ∷ past) =
      deliveries past ++ to_channel (owner key past) (timed_out_event key)
  deliveries (published (terminated_event key) ∷ past) =
      deliveries past ++ to_channel (owner key past) (terminated_event key)
  deliveries (input ∷ past) = deliveries past

  abbrev pub arrivals : List RouterInput → List Incoming
  arrivals [] = []
  arrivals (published (incoming_request key req peer) ∷ past) =
      arrivals past ++ arrival (some key) req peer
  arrivals (published (unmatched_request req peer) ∷ past) =
      arrivals past ++ arrival (from_request r req) req peer
  arrivals (input ∷ past) = arrivals past

  channel_of-unsubscribe :
      (key other : TransactionKey) (subs : Subscriptions)
      → channel_of key (unsubscribe other subs)
        ≡ (if key_eq key other then none else channel_of key subs)
  unfolding channel_of unsubscribe
  channel_of-unsubscribe key other [] = ground arith
  channel_of-unsubscribe key other ((k, channel) ∷ subs) = elim (Bool-cases (key_eq other k)) [
    | inl same ↦
        rw (same, channel_of-unsubscribe key other subs, key_eq_sound other k same) (ground arith)
    | inr differs ↦ elim (Bool-cases (key_eq key k)) [
      | inl hit ↦ ground (
        arith,
        channel_of-unsubscribe key other subs,
        key_eq_iff key k,
        key_eq_iff other k,
        key_eq_iff key other,
      )
      | inr miss ↦ rw (differs, miss) (channel_of-unsubscribe key other subs)
    ]
  ]

  -- The table of the task is the owner by the history.
  channel_of-owner :
      (key : TransactionKey) (past : List RouterInput)
      → channel_of key (run_router past).subs ≡ owner key past
  unfolding run_router route channel_of
  channel_of-owner key [] = refl
  channel_of-owner key (subscribed other channel ∷ past) = elim (Bool-cases (key_eq key other)) [
    | inl same ↦ rw same refl
    | inr differs ↦ rw differs (
        channel_of-unsubscribe key other (run_router past).subs
        ∙ rw differs (channel_of-owner key past))
  ]
  channel_of-owner key (published (terminated_event other) ∷ past) =
      channel_of-unsubscribe key other (run_router past).subs
      ∙ ap (λ o. if key_eq key other then none else o) (channel_of-owner key past)
  channel_of-owner key (published (incoming_request k req peer) ∷ past) = channel_of-owner key past
  channel_of-owner key (published (unmatched_request req peer) ∷ past) = channel_of-owner key past
  channel_of-owner key (published (response_event k resp) ∷ past) = channel_of-owner key past
  channel_of-owner key (published (timed_out_event k) ∷ past) = channel_of-owner key past

  -- After any history of subscriptions and events the task has sent each event of a client transaction
  -- to the flow that subscribed its key last, unless the transaction has terminated since, and to
  -- nobody else; the end of a transaction is still sent. Each received request that has a key went to
  -- the callee, in order, and nothing else did.
  pub run_router_routes :
      (past : List RouterInput)
      → ((run_router past).delivered ≡ deliveries past)
        × ((run_router past).incoming ≡ arrivals past)
  unfolding run_router route
  run_router_routes [] = (refl, refl)
  run_router_routes (subscribed key channel ∷ past) = run_router_routes past
  run_router_routes (published (incoming_request key req peer) ∷ past) =
      ground (arith, run_router_routes past)
  run_router_routes (published (unmatched_request req peer) ∷ past) =
      ground (arith, run_router_routes past)
  run_router_routes (published (response_event key resp) ∷ past) =
      ground (arith, run_router_routes past, channel_of-owner key past)
  run_router_routes (published (timed_out_event key) ∷ past) =
      ground (arith, run_router_routes past, channel_of-owner key past)
  run_router_routes (published (terminated_event key) ∷ past) =
      ground (arith, run_router_routes past, channel_of-owner key past)

-- ===== src/Tests/Engines.antt =====
-- The engine on single inputs.
use wavekat_sip.Base.{◌≡◌, refl, false, [], ◌∷◌, none, some, arith}
use wavekat_sip.Sip.{bye, invite}
use wavekat_sip.Transaction.{unreliable, default_timers, TimerId}
use wavekat_sip.Transaction.Key.{TransactionKey, key_eq, from_request}
use wavekat_sip.Transaction.ClientInvite
use wavekat_sip.Engine.{
  client_invite, TimerFire, Entry, Engine, set_generation, get, on_request, on_timer_fire,
  cancel_timer, arm_timer,
}
use wavekat_sip.Engine.Isolation.{got_request, handle, engine_isolates}
use wavekat_sip.Engine.Stale.{engine_ignores_superseded}
use wavekat_sip.Engine.Opening.{OpenedFor, engine_opens}
use wavekat_sip.Tests.Fixtures.{rsip, branch, request_of}

abbrev invite_key : TransactionKey
invite_key = record { key_branch = branch; key_sent_by = []; key_method = invite }

abbrev bye_key : TransactionKey
bye_key = record { key_branch = branch; key_sent_by = []; key_method = bye }

-- An INVITE that was sent, with Timer B at its third generation.
abbrev calling : Entry
calling = record {
  tx = client_invite (ClientInvite.start (request_of invite) default_timers unreliable).0;
  peer = 9;
  generations = set_generation TimerId.b 3 (λ id. none);
}

abbrev engine : Engine
engine = record {
  reliability = unreliable;
  timers = default_timers;
  txns = (invite_key, calling) ∷ [];
  sleepers = [];
  wire = [];
  events = [];
}

bye_keyed : from_request rsip (request_of bye) ≡ some bye_key
unfolding from_request
bye_keyed = refl

found : get invite_key (engine.txns) ≡ some calling
unfolding get
found = refl

absent : get bye_key (engine.txns) ≡ none
unfolding get
absent = refl

apart : key_eq invite_key bye_key ≡ false
apart = refl

engine_isolates_example :
    get invite_key (handle rsip (got_request (request_of bye) 5) engine).txns
    ≡ get invite_key engine.txns
engine_isolates_example =
    engine_isolates rsip (got_request (request_of bye) 5) engine invite_key bye_key bye_keyed apart

abbrev fire : TimerFire
fire = record { key = invite_key; id = TimerId.b; generation = 3 }

engine_ignores_superseded_example :
    (on_timer_fire fire (cancel_timer invite_key TimerId.b engine)
      ≡ cancel_timer invite_key TimerId.b engine)
    × (on_timer_fire fire (arm_timer invite_key TimerId.b 100 engine)
        ≡ arm_timer invite_key TimerId.b 100 engine)
engine_ignores_superseded_example =
    engine_ignores_superseded fire 100 calling 3 engine found refl (omega arith)

engine_opens_example :
    OpenedFor bye bye_key (request_of bye) 5 engine (on_request rsip (request_of bye) 5 engine)
engine_opens_example = engine_opens rsip (request_of bye) 5 bye_key engine bye_keyed absent

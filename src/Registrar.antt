-- ===== src/Registrar.antt =====
-- crates/wavekat-sip/src/registrar.rs: an account's registration and its state. An error is its
-- case, not its text. The loop of `register_with` runs on fuel; two rounds are enough.
pub mod Operations
pub mod Sequence
use wavekat_sip.Base.{
  ℕ, zero, suc, ◌+◌, ◌%◌, ◌^◌, max, Bool, true, false, ◌||◌, List, [], ◌∷◌, ◌++◌, Option, none,
  some, ◌>>=◌, leb, ◌==◌, if◌then◌else◌,
}
use wavekat_sip.Sip.{Str}
use wavekat_sip.Account.{SipAccount, auth_username}
use wavekat_sip.Auth.{AgentRsip}
use wavekat_sip.Registration.{
  RegisterConfig, RegisterOutcome, registered, unauthorized, interval_too_brief, failed, timed_out,
  engine_stopped, RegisterProbe,
}
use wavekat_sip.Ua.{Outside, Ua, Air, ticked}
use wavekat_sip.Ua.Registering.{register, register_query}
use wavekat_sip.Ua.Registering as Flow

pub data Failure : Type 0 where
  too_brief : ℕ → Failure
  authentication_failed : Failure
  server_returned : ℕ → Failure
  no_answer stopped bad_config : Failure

pub record State : Type 0 where
  pub cseq : ℕ
  pub negotiated_expires : Option ℕ
  pub least_expires : Option ℕ
  pub last_status : Option ℕ
  pub last_attempt_at : Option ℕ
  pub last_success_at : Option ℕ
  pub last_error : Option Failure
  pub register_count : ℕ
  pub failure_count : ℕ

-- `Registrar::new` makes this state.
abbrev pub new_state : State
new_state = record {
  cseq = 0;
  negotiated_expires = none;
  least_expires = none;
  last_status = none;
  last_attempt_at = none;
  last_success_at = none;
  last_error = none;
  register_count = 0;
  failure_count = 0;
}

pub record Registrar : Type 0 where
  pub account : SipAccount
  pub expires : ℕ
  pub registrar_call : Str
  pub registrar_tag : Str
  pub contact_text : Str

abbrev pub requested_expires : ℕ → Option ℕ → ℕ
requested_expires configured none = configured
requested_expires configured (some floor) = max configured floor

abbrev pub retry_expires : ℕ → ℕ → Bool → Option ℕ
retry_expires requested least retried =
    if retried || (requested == 0) || leb least requested then none else some least

abbrev sip_uri : Str → Str
sip_uri rest = b's' ∷ b'i' ∷ b'p' ∷ b':' ∷ rest

pub record World : Type 0 where
  pub state : State
  pub air : Air

-- `Ok(())` or an error.
pub data Result : Type 0 where
  ok : Result
  err : Failure → Result

pub data Verdict : Type 0 where
  finished : Result → Verdict
  retry_at : ℕ → Verdict

abbrev failing : Failure → State → State
failing f s = record s { last_error = some f; failure_count = (s.failure_count + 1) % 2 ^ 64 }

-- The `match` of `register_with` on an outcome, at this time.
unfoldable pub conclude : ℕ → ℕ → Bool → RegisterOutcome → State → Verdict × State
conclude now requested retried (registered granted) s = (
  finished ok,
  record s {
    negotiated_expires = some granted;
    last_status = some 200;
    last_success_at = some now;
    last_error = none;
    register_count = (s.register_count + 1) % 2 ^ 64;
  },
)
conclude now requested retried (interval_too_brief least) s =
    let learned : State = record s { least_expires = some least; last_status = some 423 } in
    elim (retry_expires requested least retried) [
      | some next ↦ (retry_at next, learned)
      | none ↦ (finished (err (too_brief least)), failing (too_brief least) learned)
    ]
conclude now requested retried unauthorized s = (
  finished (err authentication_failed),
  failing authentication_failed (record s { last_status = some 401 }),
)
conclude now requested retried (failed status) s = (
  finished (err (server_returned status)),
  failing (server_returned status) (record s { last_status = some status }),
)
conclude now requested retried timed_out s = (finished (err no_answer), failing no_answer s)
conclude now requested retried engine_stopped s = (finished (err stopped), s)

module _ (r : AgentRsip) (out : Outside) (ua : Ua) (reg : Registrar) where
  unfoldable pub config : ℕ → Option RegisterConfig
  config lifetime = do
    registrar ← r.parse_uri (sip_uri reg.account.domain)
    address ← r.parse_uri (sip_uri (reg.account.username ++ b'@' ∷ reg.account.domain))
    contact ← r.parse_uri reg.contact_text
    some (record {
      registrar_uri = registrar;
      aor = address;
      contact_uri = contact;
      from_tag = reg.registrar_tag;
      register_call = reg.registrar_call;
      lifetime = lifetime;
      login = auth_username reg.account;
      secret = reg.account.password;
    })

  -- The state that `attempt` sends with.
  abbrev pub numbered : World → State
  numbered w = record w.state {
    cseq = (w.state.cseq + 1) % 2 ^ 32;
    last_attempt_at = some (out.now w.air.tick);
  }

  -- One REGISTER; no outcome if the account makes no URI.
  unfoldable pub attempt : ℕ → World → Option (Option RegisterOutcome × World)
  unfolding config
  attempt lifetime w =
      let s = numbered w in
      elim (config lifetime) [
        | none ↦ some (none, record { state = s; air = ticked w.air })
        | some cfg ↦ do
          (made, air) ← register r out ua cfg s.cseq (ticked w.air)
          some (
            some made.outcome,
            record { state = record s { cseq = max s.cseq made.last_cseq }; air = air },
          )
      ]

  -- One round of `register_with`.
  unfoldable pub try_once : ℕ → Bool → World → Option (Verdict × World)
  unfolding attempt conclude
  try_once requested retried w = do
    (outcome, w') ← attempt requested w
    some (elim outcome [
      | none ↦ (finished (err bad_config), w')
      | some o ↦
          let (verdict, s) = conclude (out.now w'.air.tick) requested retried o w'.state in
          (verdict, record { state = s; air = ticked w'.air })
    ])

  unfoldable pub register_rounds : ℕ → ℕ → Bool → World → Option (Result × World)
  unfolding try_once
  register_rounds zero requested retried w = none
  register_rounds (suc fuel) requested retried w = elim (try_once requested retried w) [
    | none ↦ none
    | some (finished result, w') ↦ some (result, w')
    | some (retry_at next, w') ↦ register_rounds fuel next true w'
  ]

  unfoldable pub register_with : ℕ → World → Option (Result × World)
  unfolding register_rounds
  register_with requested w = register_rounds 2 requested false w

  unfoldable pub register_account : World → Option (Result × World)
  unfolding register_with
  register_account w = register_with (requested_expires reg.expires w.state.least_expires) w

  unfoldable pub unregister : World → Option (Result × World)
  unfolding register_with
  unregister w = register_with 0 w

  -- `probe`; no answer if the account makes no URI.
  unfoldable pub probe : World → Option RegisterProbe × World
  unfolding config
  probe w =
      let s : State = record w.state { cseq = (w.state.cseq + 1) % 2 ^ 32 } in
      elim (config reg.expires) [
        | none ↦ (none, record { state = s; air = w.air })
        | some cfg ↦
            let (answer, air) = register_query r out ua cfg s.cseq w.air in
            (some answer, record { state = s; air = air })
      ]

  -- `keepalive_loop`, cancelled after this many more rounds.
  unfoldable pub keepalive_loop : ℕ → World → Option World
  unfolding register_account
  keepalive_loop zero w = do (result, w') ← register_account w; some w'
  keepalive_loop (suc n) w = do (result, w') ← register_account w; keepalive_loop n w'

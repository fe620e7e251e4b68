-- ===== src/Registrar/Sequence.antt =====
-- crates/wavekat-sip/src/registrar.rs with stack/ua.rs and stack/auth.rs: the sequence numbers of the
-- REGISTERs that a registrar sends.
use mathlib.Core.Path.{subst}
use wavekat_sip.Base.{
  ℕ, ◌+◌, ◌%◌, ◌^◌, max, ◌≤◌, ◌<◌, ◌≡◌, refl, sym, ◌⊎◌, inl, inr, Option-cases, Bool, true, false,
  arith, Option, none, some, length,
}
use wavekat_sip.Auth.{AgentRsip}
use wavekat_sip.Auth.Retry.{AgentLaws}
use wavekat_sip.Registration.{
  RegisterOutcome, registered, unauthorized, interval_too_brief, failed, timed_out, engine_stopped,
}
use wavekat_sip.Ua.{Outside, Ua, ticked}
use wavekat_sip.Ua.Registering.{register, register_query}
use wavekat_sip.Ua.Numbers.{Rising-weaken, IsNumbered}
use wavekat_sip.Ua.Rounds.{Registers, register-Registers, register_query-IsNumbered}
use wavekat_sip.Registrar.{
  Failure, State, Registrar, World, Result, err, Verdict, finished, retry_at, conclude,
  retry_expires, config, numbered, attempt, try_once, register_rounds, register_with, probe,
}

conclude-cseq :
    (now requested : ℕ) (retried : Bool) (o : RegisterOutcome) (s : State)
    → (conclude now requested retried o s).1.cseq ≡ s.cseq
unfolding conclude
conclude-cseq now requested retried (registered granted) s = refl
conclude-cseq now requested retried (interval_too_brief least) s =
    elim (Option-cases (retry_expires requested least retried)) [
      | inl e ↦ ground (arith, e)
      | inr (n, e) ↦ ground (arith, e)
    ]
conclude-cseq now requested retried unauthorized s = refl
conclude-cseq now requested retried (failed status) s = refl
conclude-cseq now requested retried timed_out s = refl
conclude-cseq now requested retried engine_stopped s = refl

-- Nothing is tried a third time.
conclude-retry :
    (now requested : ℕ) (retried : Bool) (o : RegisterOutcome) (s : State) {next : ℕ}
    → (conclude now requested retried o s).0 ≡ retry_at next
    → retried ≡ false
unfolding conclude
conclude-retry now requested retried o s e = ground arith

Verdict-cases : (v : Verdict) → ((x : Result) × (v ≡ finished x)) ⊎ ((n : ℕ) × (v ≡ retry_at n))
Verdict-cases (finished x) = inl (x, refl)
Verdict-cases (retry_at n) = inr (n, refl)

module _ (r : AgentRsip) (laws : AgentLaws r) (out : Outside) (ua : Ua) (reg : Registrar) where
  -- The numbers on the wire rise, the last of them is at most the state's, and since `w` at most `k`
  -- numbers were taken and as many requests sent.
  abbrev pub Follows : ℕ → World → World → Type 0
  Follows k w w' =
      IsNumbered r w'.air w'.state.cseq
      × (w'.state.cseq ≤ w.state.cseq + k)
      × (length w'.air.wire ≤ length w.air.wire + k)

  attempt-Follows :
      (lifetime : ℕ) (w : World)
      → IsNumbered r w.air w.state.cseq
      → w.state.cseq + 2 < 2 ^ 32
      → (o : Option RegisterOutcome) × (w' : World) × (attempt r out ua reg lifetime w
          ≡ some (o, w'))
        × Follows 2 w w'
  unfolding attempt
  attempt-Follows lifetime w numbered_before small =
      elim (Option-cases (config r out ua reg lifetime)) [
        | inl e ↦ (
          none,
          record { state = numbered r out ua reg w; air = ticked w.air },
          ground (arith, e),
          (
            Rising-weaken r 0 w.air.wire w.state.cseq ((w.state.cseq + 1) % 2 ^ 32) numbered_before
                (omega arith),
            omega arith,
            omega arith,
          ),
        )
        | inr (cfg, e) ↦
            let s = numbered r out ua reg w in
            let made =
              register-Registers r laws out ua cfg s.cseq w.state.cseq (ticked w.air) (omega arith)
                numbered_before (omega arith) in
            elim (Option-cases (register r out ua cfg s.cseq (ticked w.air))) [
              | inl e' ↦ absurd (subst (Registers r laws out ua s.cseq (ticked w.air)) e' made)
              | inr ((a, air), e') ↦
                  let (kept, low, high, longer) =
                    subst (Registers r laws out ua s.cseq (ticked w.air)) e' made in
                  (
                    some a.outcome,
                    record { state = record s { cseq = max s.cseq a.last_cseq }; air = air },
                    ground (arith, e, e'),
                    (
                      Rising-weaken r 0 air.wire a.last_cseq (max s.cseq a.last_cseq) kept
                          (omega arith),
                      omega arith,
                      omega (arith, longer),
                    ),
                  )
            ]
      ]

  try_once-Follows :
      (requested : ℕ) (retried : Bool) (w : World)
      → IsNumbered r w.air w.state.cseq
      → w.state.cseq + 2 < 2 ^ 32
      → (v : Verdict) × (w' : World) × (try_once r out ua reg requested retried w ≡ some (v, w'))
        × Follows 2 w w'
        × ((next : ℕ) → v ≡ retry_at next → retried ≡ false)
  unfolding try_once
  try_once-Follows requested retried w before small =
      let (o, w', is, follows) = attempt-Follows requested w before small in
      elim (Option-cases o) [
        | inl e ↦ (
          finished (err Failure.bad_config),
          w',
          ground (arith, is, e),
          follows,
          λ next absent. absurd (ground arith),
        )
        | inr (outcome, e) ↦
            let now = out.now w'.air.tick in
            let (v, s) = conclude now requested retried outcome w'.state in
            (
              v,
              record { state = s; air = ticked w'.air },
              ground (arith, is, e),
              rw (conclude-cseq now requested retried outcome w'.state) follows,
              λ next is_retry. conclude-retry now requested retried outcome w'.state is_retry,
            )
      ]

  last_round :
      (requested : ℕ) (w : World)
      → IsNumbered r w.air w.state.cseq
      → w.state.cseq + 2 < 2 ^ 32
      → (result : Result) × (w' : World) × (register_rounds r out ua reg 1 requested true w
          ≡ some (result, w'))
        × Follows 2 w w'
  unfolding register_rounds
  last_round requested w before small =
      let (v, w', is, follows, no_third) = try_once-Follows requested true w before small in
      elim (Verdict-cases v) [
        | inl (result, e) ↦ (result, w', ground (arith, is, e), follows)
        | inr (next, e) ↦ absurd (ground (arith, no_third next e))
      ]

  pub register_with-Follows :
      (requested : ℕ) (w : World)
      → IsNumbered r w.air w.state.cseq
      → w.state.cseq + 4 < 2 ^ 32
      → (result : Result) × (w' : World) × (register_with r out ua reg requested w
          ≡ some (result, w'))
        × Follows 4 w w'
  unfolding register_with register_rounds
  register_with-Follows requested w before small =
      let (v, w1, is, (kept, low, longer), _) =
        try_once-Follows requested false w before (omega arith) in
      elim (Verdict-cases v) [
        | inl (result, e) ↦ (result, w1, ground (arith, is, e), (kept, omega arith, omega arith))
        | inr (next, e) ↦
            let (result, w', is', (kept', low', longer')) = last_round next w1 kept (omega arith) in
            (result, w', ground (arith, is, e, is'), (kept', omega arith, omega arith))
      ]

  pub probe-Follows :
      (w : World)
      → IsNumbered r w.air w.state.cseq
      → w.state.cseq + 1 < 2 ^ 32
      → Follows 1 w (probe r out ua reg w).1
  unfolding probe
  probe-Follows w before small =
      let n = (w.state.cseq + 1) % 2 ^ 32 in
      let s : State = record w.state { cseq = n } in
      elim (Option-cases (config r out ua reg reg.expires)) [
        | inl e ↦
            let is : (probe r out ua reg w).1 ≡ record { state = s; air = w.air } =
              ground (arith, e) in
            subst (Follows 1 w) (sym is) (
              Rising-weaken r 0 w.air.wire w.state.cseq n before (omega arith),
              omega arith,
              omega arith,
            )
        | inr (cfg, e) ↦
            let (kept, longer) =
              register_query-IsNumbered r laws out ua cfg n w.state.cseq w.air (omega arith) before
                (omega arith) in
            let is : (probe r out ua reg w).1
                ≡ record { state = s; air = (register_query r out ua cfg n w.air).1 } =
              ground (arith, e) in
            subst (Follows 1 w) (sym is) (kept, omega arith, omega arith)
      ]

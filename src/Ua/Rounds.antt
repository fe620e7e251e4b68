-- ===== src/Ua/Rounds.antt =====
-- crates/wavekat-sip/src/stack/ua.rs, `register`: it ends, and rises.
use mathlib.Core.Path.{subst}
use wavekat_sip.Base.{
  ℕ, suc, ◌+◌, ◌%◌, ◌^◌, ◌≤◌, ◌<◌, ◌≡◌, refl, sym, ◌∙◌, ◌⊎◌, inl, inr, Option-cases, Bool, true,
  false, arith, Option, none, some, length,
}
use wavekat_sip.Sip.{Str, Request, Response}
use wavekat_sip.Auth.{AgentRsip, build_retry}
use wavekat_sip.Auth.Retry.{AgentLaws}
use wavekat_sip.Registration.{
  RegisterConfig, RegisterOutcome, RegisterAttempt, build_register, build_register_query,
  register_creds,
}
use wavekat_sip.Call.{cseq_of}
use wavekat_sip.Ua.{Outside, Ua, Air, ticked, start_client, await_final}
use wavekat_sip.Ua.Registering.{
  Step, settled, again, judge, round, register_loop, register, register_query,
}
use wavekat_sip.Ua.Numbers.{
  Rising, IsNumbered, cseq_of-build_register, cseq_of-build_register_query, cseq_of-build_retry,
  start_client-IsNumbered,
}

module _ (r : AgentRsip) (laws : AgentLaws r) (out : Outside) (ua : Ua) where
  judge-again :
      (cfg : RegisterConfig) (challenged : Bool) (req : Request) (resp : Response)
      (fresh cnonce : Str) {retry : Request}
      → judge r cfg challenged req resp fresh cnonce ≡ again retry
      → (challenged ≡ false)
        × (build_retry r req resp (register_creds cfg) fresh cnonce ≡ some retry)
  unfolding judge
  judge-again cfg challenged req resp fresh cnonce e =
      elim (Option-cases (build_retry r req resp (register_creds cfg) fresh cnonce)) [
        | inl b ↦ absurd (ground (arith, b, e))
        | inr (other, b) ↦ ground (arith, b, e)
      ]

  round-wire :
      (cfg : RegisterConfig) (challenged : Bool) (req : Request) (air : Air)
      → (round r out ua cfg challenged req air).1.wire ≡ (start_client r out ua req air).0.wire
  unfolding round
  round-wire cfg challenged req air = elim (Option-cases (start_client r out ua req air).1) [
    | inl e ↦ ground (arith, e)
    | inr (evs, e) ↦ elim (Option-cases (await_final evs)) [
      | inl e' ↦ ground (arith, e, e')
      | inr (resp, e') ↦ ground (arith, e, e')
    ]
  ]

  -- Another round follows only the first one, a number up.
  again-IsNext :
      (cfg : RegisterConfig) (challenged : Bool) (req : Request) (air : Air) {retry : Request}
      → (round r out ua cfg challenged req air).0 ≡ again retry
      → (challenged ≡ false) × (cseq_of r retry ≡ (cseq_of r req + 1) % 2 ^ 32)
  unfolding round
  again-IsNext cfg challenged req air {retry} is_again =
      elim (Option-cases (start_client r out ua req air).1) [
        | inl e ↦ absurd (ground (arith, e, is_again))
        | inr (evs, e) ↦ elim (Option-cases (await_final evs)) [
          | inl e' ↦ absurd (ground (arith, e, e', is_again))
          | inr (resp, e') ↦
              let tick = (start_client r out ua req air).0.tick in
              let (first, built) =
                judge-again cfg challenged req resp (out.gen_branch tick) (out.gen_cnonce tick)
                  {retry = retry} (ground (arith, e, e', is_again)) in
              (
                first,
                cseq_of-build_retry r laws req resp (register_creds cfg) (out.gen_branch tick)
                    (out.gen_cnonce tick) built,
              )
        ]
      ]

  round-IsNumbered :
      (cfg : RegisterConfig) (challenged : Bool) (req : Request) (air : Air) (m : ℕ)
      → IsNumbered r air m
      → m < cseq_of r req
      → IsNumbered r (round r out ua cfg challenged req air).1 (cseq_of r req)
        × (length (round r out ua cfg challenged req air).1.wire ≤ length air.wire + 1)
  round-IsNumbered cfg challenged req air m numbered above =
      let (kept, longer) = start_client-IsNumbered r laws out ua req air m numbered above in
      let same = round-wire cfg challenged req air in
      (
        subst (λ w. Rising r 0 w (cseq_of r req)) (sym same) kept,
        subst (λ w. length w ≤ length air.wire + 1) (sym same) longer,
      )

  Step-cases :
      (s : Step) → ((o : RegisterOutcome) × (s ≡ settled o)) ⊎ ((q : Request) × (s ≡ again q))
  Step-cases (settled o) = inl (o, refl)
  Step-cases (again q) = inr (q, refl)

  -- A registration ends in one or two rounds: with the number `n` of the first and at most `n + 1` as the
  -- last, it leaves the wire numbered.
  abbrev pub Registers : ℕ → Air → Option (RegisterAttempt × Air) → Type 0
  Registers n air none = ⊥
  Registers n air (some (attempt, air')) =
      IsNumbered r air' attempt.last_cseq
      × (n ≤ attempt.last_cseq)
      × (attempt.last_cseq ≤ n + 1)
      × (length air'.wire ≤ length air.wire + 2)

  second_lem :
      (cfg : RegisterConfig) (fuel : ℕ) (req : Request) (air : Air) (m : ℕ)
      → IsNumbered r air m
      → m < cseq_of r req
      → (attempt : RegisterAttempt) × (air' : Air) × (register_loop r out ua
            (suc fuel)
            cfg
            true
            req
            air
          ≡ some (attempt, air'))
        × (attempt.last_cseq ≡ cseq_of r req)
        × IsNumbered r air' (cseq_of r req)
        × (length air'.wire ≤ length air.wire + 1)
  unfolding register_loop
  second_lem cfg fuel req air m numbered above =
      let (kept, longer) = round-IsNumbered cfg true req air m numbered above in
      elim (Step-cases (round r out ua cfg true req air).0) [
        | inl (o, e) ↦ (
          record { outcome = o; last_cseq = cseq_of r req },
          (round r out ua cfg true req air).1,
          ground (arith, e),
          refl,
          kept,
          longer,
        )
        | inr (q, e) ↦ absurd (ground (arith, (again-IsNext cfg true req air e).0))
      ]

  register_loop-settled :
      (cfg : RegisterConfig) (fuel : ℕ) (req : Request) (air : Air) {o : RegisterOutcome}
      → (round r out ua cfg false req air).0 ≡ settled o
      → register_loop r out ua (suc fuel) cfg false req air
        ≡ some (
          record { outcome = o; last_cseq = cseq_of r req },
          (round r out ua cfg false req air).1,
        )
  unfolding register_loop
  register_loop-settled cfg fuel req air e = ground (arith, e)

  register_loop-second :
      (cfg : RegisterConfig) (fuel : ℕ) (req : Request) (air : Air) {retry : Request}
      → (round r out ua cfg false req air).0 ≡ again retry
      → register_loop r out ua (suc fuel) cfg false req air
        ≡ register_loop r out ua fuel cfg true retry (round r out ua cfg false req air).1
  unfolding register_loop
  register_loop-second cfg fuel req air e = ground (arith, e)

  loop-Registers :
      (cfg : RegisterConfig) (req : Request) (n m : ℕ) (air : Air)
      → cseq_of r req ≡ n
      → n + 1 < 2 ^ 32
      → IsNumbered r air m
      → m < n
      → Registers n air (register_loop r out ua 2 cfg false req air)
  loop-Registers cfg req n m air seq small numbered above =
      let (kept, longer) =
        round-IsNumbered cfg false req air m numbered (omega (arith, seq, above)) in
      elim (Step-cases (round r out ua cfg false req air).0) [
        | inl (o, e) ↦ subst (Registers n air) (sym (register_loop-settled cfg 1 req air e)) (
          subst (λ k. IsNumbered r (round r out ua cfg false req air).1 k) refl kept,
          omega (arith, seq),
          omega (arith, seq),
          omega (arith, longer),
        )
        | inr (q, e) ↦
            let (_, next) = again-IsNext cfg false req air e in
            let up : cseq_of r q ≡ n + 1 = omega (arith, next, seq, small) in
            let (attempt, air', is, last, kept', longer') =
              second_lem cfg 0 q (round r out ua cfg false req air).1 (cseq_of r req) kept
                (omega (arith, up, seq)) in
            subst (Registers n air) (sym (register_loop-second cfg 1 req air e ∙ is)) (
              subst (λ k. IsNumbered r air' k) (sym last) kept',
              omega (arith, last, up),
              omega (arith, last, up),
              omega (arith, longer, longer'),
            )
      ]

  pub register-Registers :
      (cfg : RegisterConfig) (n m : ℕ) (air : Air)
      → n + 1 < 2 ^ 32
      → IsNumbered r air m
      → m < n
      → Registers n air (register r out ua cfg n air)
  unfolding register
  register-Registers cfg n m air small numbered above =
      let branch = out.gen_branch air.tick in
      let seq = cseq_of-build_register r laws cfg n ua.local_addr branch (omega arith) in
      loop-Registers cfg (build_register r cfg n ua.local_addr branch) n m (ticked air) seq small
        numbered above

  register_query-wire :
      (cfg : RegisterConfig) (n : ℕ) (air : Air)
      → (register_query r out ua cfg n air).1.wire
        ≡ (start_client r out ua
            (build_register_query r cfg n ua.local_addr (out.gen_branch air.tick))
            (ticked air)).0.wire
  unfolding register_query
  register_query-wire cfg n air =
      let req = build_register_query r cfg n ua.local_addr (out.gen_branch air.tick) in
      elim (Option-cases (start_client r out ua req (ticked air)).1) [
        | inl e ↦ ground (arith, e)
        | inr (evs, e) ↦ elim (Option-cases (await_final evs)) [
          | inl e' ↦ ground (arith, e, e')
          | inr (resp, e') ↦ ground (arith, e, e')
        ]
      ]

  pub register_query-IsNumbered :
      (cfg : RegisterConfig) (n m : ℕ) (air : Air)
      → n < 2 ^ 32
      → IsNumbered r air m
      → m < n
      → IsNumbered r (register_query r out ua cfg n air).1 n
        × (length (register_query r out ua cfg n air).1.wire ≤ length air.wire + 1)
  register_query-IsNumbered cfg n m air small numbered above =
      let branch = out.gen_branch air.tick in
      let req = build_register_query r cfg n ua.local_addr branch in
      let seq = cseq_of-build_register_query r laws cfg n ua.local_addr branch small in
      let (kept, longer) =
        start_client-IsNumbered r laws out ua req (ticked air) m numbered
          (omega (arith, seq, above)) in
      let same = register_query-wire cfg n air in
      (
        subst (λ w. Rising r 0 w n) (sym same)
            (subst (λ k. Rising r 0 (start_client r out ua req (ticked air)).0.wire k) seq kept),
        subst (λ w. length w ≤ length air.wire + 1) (sym same) longer,
      )

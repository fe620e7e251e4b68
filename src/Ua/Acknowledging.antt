-- ===== src/Ua/Acknowledging.antt =====
-- crates/wavekat-sip/src/stack/ua.rs, `call_cancellable`: a call ends, and which ACK it sends.
use mathlib.Core.Path.{subst}
use wavekat_sip.Base.{
  ℕ, suc, ◌+◌, ◌≤◌, ◌≡◌, refl, ◌∙◌, ◌⊎◌, inl, inr, Option-cases, Bool-cases, Bool, true, false,
  arith, append_assoc, sym, ap, List, [], ◌∷◌, ◌++◌, Option, some,
}
use wavekat_sip.Sip.{Str, Method, Request, Response}
use wavekat_sip.Dialog.{uac, ack_2xx}
use wavekat_sip.Auth.{AgentRsip, build_retry}
use wavekat_sip.Auth.Retry.{AgentLaws, build_retry-IsRetry}
use wavekat_sip.Call.{CallConfig, call_creds, CallOutcome, answered, build_invite, cseq_of}
use wavekat_sip.Ua.{
  Outside, Ua, Air, ticked, apply_user_agent, is_success, Select, await_final,
  await_final_cancellable, start_call,
}
use wavekat_sip.Ua.Cancelling.{events, await_final_cancellable_lem}
use wavekat_sip.Ua.Calling.{
  CallStep, ends, calls_again, judge_call, put_on, call_round, call_loop, call_cancellable,
}
use wavekat_sip.Ua.Counting.{
  count_of, count_of-append, OnlyInvite, cancels-count, start_call-OnlyInvite, start_call-sent,
}

-- The last INVITE among the requests sent is this one, as the user agent sends it, and the engine
-- delivers this final response to it.
abbrev pub IsAnswered : Outside → Ua → Request → List Request → Response → Type 0
IsAnswered out ua request earlier resp =
    (front : List Request) × (behind : List Request) × (tick : ℕ) × (ss : List Select) × (earlier
      ≡ front ++ apply_user_agent ua.agent_name request ∷ behind)
    × (count_of Method.invite behind ≡ 0)
    × (out.deliver_call tick front (apply_user_agent ua.agent_name request) ≡ some ss)
    × (await_final (events ss) ≡ some resp)

-- What is sent for an outcome, after the earlier requests: the ACK of its dialog for an answer,
-- nothing for any other.
abbrev pub Acknowledges :
    AgentRsip
    → Outside
    → Ua
    → CallConfig
    → Request
    → List Request
    → CallOutcome
    → List Request
    → Type 0
Acknowledges r out ua cfg request earlier (answered dialog resp) acks =
    (branch : Str) × (acks ≡ ack_2xx r.dialogs dialog branch (cseq_of r request) ∷ [])
    × (is_success resp.status_code ≡ true)
    × (uac r.dialogs request resp cfg.call_contact ≡ some dialog)
    × IsAnswered out ua request earlier resp
Acknowledges r out ua cfg request earlier outcome acks = acks ≡ []

module _ (r : AgentRsip) where
  -- The two ways a round can end.
  abbrev Judged : Outside → Ua → CallConfig → Bool → Request → List Request → CallStep → Type 0
  Judged out ua cfg challenged request earlier (ends outcome acks) =
      Acknowledges r out ua cfg request earlier outcome acks
  Judged out ua cfg challenged request earlier (calls_again retry) =
      (challenged ≡ false) × (retry.method ≡ request.method)

  module _ (laws : AgentLaws r) where
    judge_call-Judged :
        (out : Outside) (ua : Ua) (cfg : CallConfig) (challenged : Bool) (request : Request)
        (resp : Response) (fresh cnonce : Str) (earlier : List Request)
        → IsAnswered out ua request earlier resp
        → Judged out ua cfg challenged request earlier
            (judge_call r cfg challenged request resp fresh cnonce)
    unfolding judge_call
    judge_call-Judged out ua cfg challenged request resp fresh cnonce earlier is =
        elim (Bool-cases (is_success resp.status_code)) [
          | inl e ↦ elim (Option-cases (uac r.dialogs request resp cfg.call_contact)) [
            | inl e' ↦ rw (judge_call, e, e') refl
            | inr (d, e') ↦ rw (judge_call, e, e') (fresh, refl, e, e', is)
          ]
          | inr e ↦ elim (Option-cases (build_retry r request resp (call_creds cfg) fresh cnonce)) [
            | inl e' ↦ ground (arith, e, e')
            | inr (retry, e') ↦
                let (_, _, _, _, _, _, _, _, _, _, m, _, _) =
                  build_retry-IsRetry r laws request resp (call_creds cfg) fresh cnonce e' in
                ground (arith, e, e', m)
          ]
        ]

    module _ (out : Outside) (ua : Ua) where
      call_round-Judged :
          (cfg : CallConfig) (challenged : Bool) (request : Request) (air : Air)
          → request.method ≡ Method.invite
          → let x = call_round r out ua cfg challenged request air in
            Judged out ua cfg challenged request x.1.wire x.0 × OnlyInvite air.wire x.1.wire
      unfolding call_round
      call_round-Judged cfg challenged request air is_invite =
          let start = start_call-OnlyInvite r out ua request air is_invite in
          elim (Option-cases (start_call r out ua request air).1) [
            | inl e ↦ rw (call_round, e) (refl, start)
            | inr (ss, e) ↦
                let waiting = await_final_cancellable r request false false false ss in
                let air1 = (start_call r out ua request air).0 in
                let air2 = put_on r waiting.cancels air1 in
                let a = count_of-append Method.ack air1.wire waiting.cancels in
                let i = count_of-append Method.invite air1.wire waiting.cancels in
                let a' = cancels-count r request ss Method.ack refl in
                let i' = cancels-count r request ss Method.invite refl in
                let only : OnlyInvite air.wire air2.wire =
                  (omega (arith, a, a', start.0), omega (arith, i, i', start.1)) in
                elim (Option-cases waiting.final) [
                  | inl e' ↦ rw (call_round, e, e') (refl, only)
                  | inr (resp, e') ↦
                      let (sent, delivered) = start_call-sent r out ua request air ss e in
                      let (_, same, _) = await_final_cancellable_lem r request ss in
                      let named = apply_user_agent ua.agent_name request in
                      let is_answered : IsAnswered out ua request air2.wire resp = (
                        air.wire,
                        waiting.cancels,
                        air.tick,
                        ss,
                        ap (λ w. w ++ waiting.cancels) sent
                            ∙ append_assoc air.wire (named ∷ []) waiting.cancels,
                        i',
                        delivered,
                        sym same ∙ e',
                      ) in
                      rw (call_round, e, e')
                        (
                          judge_call-Judged out ua cfg challenged request resp
                              (out.gen_branch air2.tick) (out.gen_cnonce air2.tick) air2.wire
                              is_answered,
                          only,
                        )
                ]
          ]

      CallStep-cases :
          (s : CallStep)
          → ((o : CallOutcome) × (acks : List Request) × (s ≡ ends o acks))
            ⊎ ((q : Request) × (s ≡ calls_again q))
      CallStep-cases (ends o acks) = inl (o, acks, refl)
      CallStep-cases (calls_again q) = inr (q, refl)

      -- How a call ends: what it has sent before, and at the end.
      abbrev Ended : CallConfig → ℕ → List Request → Option (CallOutcome × Air) → Type 0
      Ended cfg k before made =
          (outcome : CallOutcome) × (air' : Air) × (request : Request) × (earlier : List Request)
          × (acks : List Request) × (made ≡ some (outcome, air'))
          × (air'.wire ≡ earlier ++ acks)
          × Acknowledges r out ua cfg request earlier outcome acks
          × (request.method ≡ Method.invite)
          × (count_of Method.ack earlier ≡ count_of Method.ack before)
          × (count_of Method.invite earlier ≤ count_of Method.invite before + k)

      call_loop-second :
          (cfg : CallConfig) (fuel : ℕ) (request : Request) (air : Air)
          → request.method ≡ Method.invite
          → Ended cfg 1 air.wire (call_loop r out ua (suc fuel) cfg true request air)
      unfolding call_loop
      call_loop-second cfg fuel request air is_invite =
          let (judged, (a, i)) = call_round-Judged cfg true request air is_invite in
          let air1 = (call_round r out ua cfg true request air).1 in
          elim (CallStep-cases (call_round r out ua cfg true request air).0) [
            | inl (o, acks, e) ↦ (
              o,
              put_on r acks air1,
              request,
              air1.wire,
              acks,
              rw (call_loop, e) refl,
              refl,
              subst (Judged out ua cfg true request air1.wire) e judged,
              is_invite,
              a,
              i,
            )
            | inr (q, e) ↦
                absurd
                  (ground (arith, (subst (Judged out ua cfg true request air1.wire) e judged).0))
          ]

      call_loop-Ended :
          (cfg : CallConfig) (request : Request) (air : Air)
          → request.method ≡ Method.invite
          → Ended cfg 2 air.wire (call_loop r out ua 2 cfg false request air)
      unfolding call_loop
      call_loop-Ended cfg request air is_invite =
          let (judged, (a, i)) = call_round-Judged cfg false request air is_invite in
          let air1 = (call_round r out ua cfg false request air).1 in
          elim (CallStep-cases (call_round r out ua cfg false request air).0) [
            | inl (o, acks, e) ↦ (
              o,
              put_on r acks air1,
              request,
              air1.wire,
              acks,
              rw (call_loop, e) refl,
              refl,
              subst (Judged out ua cfg false request air1.wire) e judged,
              is_invite,
              a,
              omega arith,
            )
            | inr (q, e) ↦
                let (_, m) = subst (Judged out ua cfg false request air1.wire) e judged in
                let (o, air', last, earlier, acks, is, wire_is, ok, m', a', i') =
                  call_loop-second cfg 0 q (ticked air1) (m ∙ is_invite) in
                (
                  o,
                  air',
                  last,
                  earlier,
                  acks,
                  rw (call_loop, e) is,
                  wire_is,
                  ok,
                  m',
                  a' ∙ a,
                  omega arith,
                )
          ]

      -- Whatever the peer answers and whenever the token fires, a call ends after at most two INVITEs.
      -- When it ends with a dialog, the engine has delivered a 2xx to the last INVITE on the wire, which
      -- made that dialog with it, and the last thing that is sent is the dialog's ACK with the number of
      -- that INVITE; for any other outcome nothing is sent at the end. Before the end no ACK is sent.
      pub call_ends :
          (cfg : CallConfig) (n : ℕ) (air : Air)
          → (outcome : CallOutcome) × (air' : Air) × (request : Request) × (earlier : List Request)
            × (acks : List Request) × (call_cancellable r out ua cfg n air ≡ some (outcome, air'))
            × (air'.wire ≡ earlier ++ acks)
            × Acknowledges r out ua cfg request earlier outcome acks
            × (request.method ≡ Method.invite)
            × (count_of Method.ack earlier ≡ count_of Method.ack air.wire)
            × (count_of Method.invite earlier ≤ count_of Method.invite air.wire + 2)
      unfolding call_cancellable build_invite
      call_ends cfg n air =
          call_loop-Ended cfg (build_invite r cfg n ua.local_addr (out.gen_branch air.tick))
            (ticked air) refl

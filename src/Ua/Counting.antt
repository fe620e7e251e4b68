-- ===== src/Ua/Counting.antt =====
-- crates/wavekat-sip/src/stack/ua.rs, `start_client` and `await_final_cancellable` of a call: how many
-- requests of a method they send.
use wavekat_sip.Base.{
  ℕ, ◌+◌, ◌≤◌, ◌≡◌, refl, inl, inr, Option-cases, Bool-cases, false, ◌&&◌, arith, List, [], ◌∷◌,
  ◌++◌, Option, none, some, if◌then◌else◌,
}
use wavekat_sip.Sip.{Str, Method, method_eq, Request}
use wavekat_sip.Transaction.Key.{from_request}
use wavekat_sip.Auth.{AgentRsip}
use wavekat_sip.Call.{build_cancel}
use wavekat_sip.Ua.{
  Outside, Ua, Air, apply_user_agent, Select, send_cancel, await_final_cancellable, start_call,
}
use wavekat_sip.Ua.Cancelling.{before_end, rings, gives_up, await_final_cancellable_lem}

-- How many of these requests have a method.
abbrev pub count_of : Method → List Request → ℕ
count_of m [] = 0
count_of m (req ∷ reqs) = (if method_eq req.method m then 1 else 0) + count_of m reqs

pub count_of-append :
    (m : Method) (xs ys : List Request) → count_of m (xs ++ ys) ≡ count_of m xs + count_of m ys
count_of-append m [] ys = omega arith
count_of-append m (x ∷ xs) ys = omega (arith, count_of-append m xs ys)

apply_user_agent-method :
    (name : Option Str) (req : Request) → (apply_user_agent name req).method ≡ req.method
unfolding apply_user_agent
apply_user_agent-method none req = refl
apply_user_agent-method (some v) req = ground arith

-- An INVITE, after which neither another INVITE nor an ACK has been sent.
abbrev pub OnlyInvite : List Request → List Request → Type 0
OnlyInvite before after =
    (count_of Method.ack after ≡ count_of Method.ack before)
    × (count_of Method.invite after ≤ count_of Method.invite before + 1)

module _ (r : AgentRsip) where
  pub build_cancel-method :
      (inv : Request) {req : Request} → build_cancel r inv ≡ some req → req.method ≡ Method.cancel
  unfolding build_cancel
  build_cancel-method inv e = ground (arith, e)

  send_cancel-count :
      (inv : Request) (m : Method)
      → method_eq Method.cancel m ≡ false
      → count_of m (send_cancel r inv) ≡ 0
  unfolding send_cancel
  send_cancel-count inv m other = elim (Option-cases (build_cancel r inv)) [
    | inl e ↦ ground (arith, e)
    | inr (req, e) ↦ ground (arith, e, build_cancel-method inv e, other)
  ]

  pub cancels-count :
      (inv : Request) (ss : List Select) (m : Method)
      → method_eq Method.cancel m ≡ false
      → count_of m (await_final_cancellable r inv false false false ss).cancels ≡ 0
  cancels-count inv ss m other =
      let (is, _, _) = await_final_cancellable_lem r inv ss in
      let none_sent = send_cancel-count inv m other in
      elim (Bool-cases (gives_up (before_end ss) && rings (before_end ss))) [
        | inl e ↦ rw (is, e) none_sent
        | inr e ↦ rw (is, e) refl
      ]

  module _ (out : Outside) (ua : Ua) where
    pub start_call-OnlyInvite :
        (req : Request) (air : Air)
        → req.method ≡ Method.invite
        → OnlyInvite air.wire (start_call r out ua req air).0.wire
    unfolding start_call
    start_call-OnlyInvite req air is_invite =
        let named = apply_user_agent ua.agent_name req in
        let m = apply_user_agent-method ua.agent_name req in
        let a = count_of-append Method.ack air.wire (named ∷ []) in
        let i = count_of-append Method.invite air.wire (named ∷ []) in
        elim (Option-cases (from_request r.dialogs.base req)) [
          | inl e ↦ rw (start_call, e) (refl, omega arith)
          | inr (key, e) ↦ elim (Option-cases (out.deliver_call air.tick air.wire named)) [
            | inl e' ↦ rw (start_call, e, e') (refl, omega arith)
            | inr (ss, e') ↦
                rw (start_call, e, e')
                  (ground (arith, a, m, is_invite), ground (arith, i, m, is_invite))
          ]
        ]

    pub start_call-sent :
        (req : Request) (air : Air) (ss : List Select)
        → (start_call r out ua req air).1 ≡ some ss
        → let named = apply_user_agent ua.agent_name req in
          ((start_call r out ua req air).0.wire ≡ air.wire ++ named ∷ [])
          × (out.deliver_call air.tick air.wire named ≡ some ss)
    unfolding start_call
    start_call-sent req air ss is = elim (Option-cases (from_request r.dialogs.base req)) [
      | inl e ↦ absurd (ground (arith, e, is))
      | inr (key, e) ↦
          let named = apply_user_agent ua.agent_name req in
          elim (Option-cases (out.deliver_call air.tick air.wire named)) [
            | inl e' ↦ absurd (ground (arith, e, e', is))
            | inr (ss', e') ↦ (ground (arith, e, e'), ground (arith, e, e', is))
          ]
    ]

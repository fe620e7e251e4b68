-- ===== src/Ua/Numbers.antt =====
-- crates/wavekat-sip/src/stack/ua.rs, `register`: the sequence numbers that it puts on the wire.
use mathlib.Core.Path.{subst}
use wavekat_sip.Base.{
  ℕ, ◌+◌, ◌%◌, ◌^◌, ◌≤◌, ◌<◌, ◌≡◌, refl, sym, ap, ◌∙◌, ◌⊎◌, inl, inr, Option-cases, Bool-cases,
  arith, List, [], ◌∷◌, ◌++◌, Option, none, some, length, length-append,
}
use wavekat_sip.Sip.{Str, Method, Header, user_agent, Request, Response, TypedCseq, first_cseq}
use wavekat_sip.Transaction.Key.{from_request}
use wavekat_sip.Auth.{AgentRsip, build_retry, Credentials}
use wavekat_sip.Auth.Retry.{AgentLaws, build_retry-IsRetry}
use wavekat_sip.Registration.{RegisterConfig, build_register, build_register_query, without_binding}
use wavekat_sip.Call.{cseq_of}
use wavekat_sip.Ua.{Outside, Ua, Air, apply_user_agent, has_user_agent, start_client}

module _ (r : AgentRsip) where
  -- The numbers of these requests rise from above the first bound to at most the second.
  abbrev pub Rising : ℕ → List Request → ℕ → Type 0
  Rising lo [] hi = lo ≤ hi
  Rising lo (req ∷ reqs) hi = (lo < cseq_of r req) × Rising (cseq_of r req) reqs hi

  -- The numbers on the wire rise, and `n` is at least the last one.
  abbrev pub IsNumbered : Air → ℕ → Type 0
  IsNumbered air n = Rising 0 air.wire n

  pub Rising-weaken :
      (lo : ℕ) (reqs : List Request) (m n : ℕ) → Rising lo reqs m → m ≤ n → Rising lo reqs n
  Rising-weaken lo [] m n h le = omega arith
  Rising-weaken lo (req ∷ reqs) m n (h, rest) le =
      (h, Rising-weaken (cseq_of r req) reqs m n rest le)

  Rising-sent :
      (lo : ℕ) (reqs : List Request) (m : ℕ) (req : Request)
      → Rising lo reqs m
      → m < cseq_of r req
      → Rising lo (reqs ++ req ∷ []) (cseq_of r req)
  Rising-sent lo [] m req h above = (omega arith, omega arith)
  Rising-sent lo (x ∷ reqs) m req (h, rest) above =
      (h, Rising-sent (cseq_of r x) reqs m req rest above)

  cseq_of-reads :
      (req : Request) {v : Str} {c : TypedCseq}
      → r.dialogs.base.cseq_header req.headers ≡ some v
      → r.dialogs.base.typed_cseq v ≡ some c
      → cseq_of r req ≡ c.seq
  unfolding cseq_of
  cseq_of-reads req e e' = ground arith

  cseq_of-same :
      (p q : Request)
      → r.dialogs.base.cseq_header p.headers ≡ r.dialogs.base.cseq_header q.headers
      → cseq_of r p ≡ cseq_of r q
  unfolding cseq_of
  cseq_of-same p q e = ground arith

  module _ (laws : AgentLaws r) where
    pub cseq_of-first :
        (req : Request) (c : TypedCseq)
        → c.seq < 2 ^ 32
        → first_cseq req.headers ≡ some (r.dialogs.base.cseq_value c)
        → cseq_of r req ≡ c.seq
    cseq_of-first req c small e =
        cseq_of-reads req (laws.base_laws.cseq_first req.headers ∙ e)
          (laws.base_laws.cseq_round_trip c small)

    pub cseq_of-build_register :
        (cfg : RegisterConfig) (n : ℕ) (a b : Str)
        → n < 2 ^ 32
        → cseq_of r (build_register r cfg n a b) ≡ n
    unfolding build_register
    cseq_of-build_register cfg n a b small =
        cseq_of-first (build_register r cfg n a b)
          (record { seq = n; cseq_method = Method.register }) small refl

    pub cseq_of-build_register_query :
        (cfg : RegisterConfig) (n : ℕ) (a b : Str)
        → n < 2 ^ 32
        → cseq_of r (build_register_query r cfg n a b) ≡ n
    unfolding build_register build_register_query without_binding
    cseq_of-build_register_query cfg n a b small =
        cseq_of-first (build_register_query r cfg n a b)
          (record { seq = n; cseq_method = Method.register }) small refl

    first_cseq-push :
        (hs : List Header) (v : Str) → first_cseq (hs ++ user_agent v ∷ []) ≡ first_cseq hs
    first_cseq-push [] v = refl
    first_cseq-push (h ∷ hs) v = ground (arith, first_cseq-push hs v)

    pub cseq_of-apply_user_agent :
        (name : Option Str) (req : Request) → cseq_of r (apply_user_agent name req) ≡ cseq_of r req
    unfolding apply_user_agent
    cseq_of-apply_user_agent none req = refl
    cseq_of-apply_user_agent (some v) req =
        let pushed : Request = record req { headers = req.headers ++ user_agent v ∷ [] } in
        let same = cseq_of-same pushed req (
          laws.base_laws.cseq_first pushed.headers
          ∙ first_cseq-push req.headers v
          ∙ sym (laws.base_laws.cseq_first req.headers)) in
        elim (Bool-cases (has_user_agent req.headers)) [ inl e ↦ rw e refl | inr e ↦ rw e same ]

    pub cseq_of-build_retry :
        (req : Request) (resp : Response) (creds : Credentials) (fresh cnonce : Str)
        {retry : Request}
        → build_retry r req resp creds fresh cnonce ≡ some retry
        → cseq_of r retry ≡ (cseq_of r req + 1) % 2 ^ 32
    cseq_of-build_retry req resp creds fresh cnonce {retry} built =
        let (_, _, raw, c, _, _, raw_is, c_is, _, next, _, _, _) =
          build_retry-IsRetry r laws req resp creds fresh cnonce built in
        let bumped : TypedCseq = record c { seq = (c.seq + 1) % 2 ^ 32 } in
        cseq_of-first retry bumped (omega arith) next
        ∙ ap (λ n. (n + 1) % 2 ^ 32) (sym (cseq_of-reads req raw_is c_is))

    pub start_client-wire :
        (out : Outside) (ua : Ua) (req : Request) (air : Air)
        → ((start_client r out ua req air).0.wire ≡ air.wire)
          ⊎ ((start_client r out ua req air).0.wire
              ≡ air.wire ++ apply_user_agent ua.agent_name req ∷ [])
    unfolding start_client
    start_client-wire out ua req air = elim (Option-cases (from_request r.dialogs.base req)) [
      | inl e ↦ inl (ground (arith, e))
      | inr (key, e) ↦
          elim (Option-cases (out.deliver air.tick air.wire (apply_user_agent ua.agent_name req))) [
            | inl e' ↦ inl (ground (arith, e, e'))
            | inr (evs, e') ↦ inr (ground (arith, e, e'))
          ]
    ]

    pub start_client-IsNumbered :
        (out : Outside) (ua : Ua) (req : Request) (air : Air) (m : ℕ)
        → IsNumbered air m
        → m < cseq_of r req
        → IsNumbered (start_client r out ua req air).0 (cseq_of r req)
          × (length (start_client r out ua req air).0.wire ≤ length air.wire + 1)
    start_client-IsNumbered out ua req air m numbered above =
        let named = apply_user_agent ua.agent_name req in
        let same = cseq_of-apply_user_agent ua.agent_name req in
        let kept = Rising-weaken 0 air.wire m (cseq_of r req) numbered (omega arith) in
        let more = Rising-sent 0 air.wire m named numbered (omega (arith, same)) in
        let longer = length-append air.wire (named ∷ []) in
        elim (start_client-wire out ua req air) [
          | inl e ↦ rw e (kept, omega arith)
          | inr e ↦
              rw e
                (subst (λ n. Rising 0 (air.wire ++ named ∷ []) n) same more, omega (arith, longer))
        ]

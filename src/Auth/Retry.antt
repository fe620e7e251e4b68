-- ===== src/Auth/Retry.antt =====
-- crates/wavekat-sip/src/stack/auth.rs, `build_retry`: the answer to a challenge is a request of a
-- new transaction.
use wavekat_sip.Base.{
  ◌+◌, ◌%◌, ◌^◌, ◌<◌, ◌≡◌, refl, sym, ap, ◌∙◌, ◌⊎◌, inl, inr, Option-cases, arith, List, [], ◌∷◌,
  ◌++◌, Option, none, some, ◌>>=◌,
}
use wavekat_sip.Sip.{
  Str, Method, Header, via, cseq, Param, branch, Request, Response, TypedCseq, RsipLaws, first_via,
  first_cseq,
}
use wavekat_sip.Transaction.Key.{from_request, build, normalize}
use wavekat_sip.Auth.{
  Credentials, Challenge, ChallengeKind, www, proxy, WholeVia, AgentRsip, without_branch,
  extract_challenge, build_authorization, bump_via_branch, bump_cseq, answer_header, build_retry,
}

abbrev pub branch_of : List Param → Option Str
branch_of [] = none
branch_of (branch b ∷ ps) = some b
branch_of (p ∷ ps) = branch_of ps

-- Documented behaviour of rsip: after `unique_push` the header is the one of its kind that is found,
-- and the other kinds are as they were; the branch of a `Via` is its first branch parameter.
pub record AgentLaws (r : AgentRsip) : Type 0 where
  pub base_laws : RsipLaws r.dialogs.base
  pub push_via : (v : Str) (hs : List Header) → first_via (r.unique_push (via v) hs) ≡ some v
  pub push_cseq : (v : Str) (hs : List Header) → first_cseq (r.unique_push (cseq v) hs) ≡ some v
  pub keep_via :
      (h : Header) (hs : List Header)
      → first_via (h ∷ []) ≡ none
      → first_via (r.unique_push h hs) ≡ first_via hs
  pub keep_cseq :
      (h : Header) (hs : List Header)
      → first_cseq (h ∷ []) ≡ none
      → first_cseq (r.unique_push h hs) ≡ first_cseq hs
  pub via_branch_first :
      (raw : Str) (w : WholeVia)
      → r.whole_via raw ≡ some w
      → r.dialogs.base.typed_via raw
        ≡ some (record { via_branch = branch_of w.via_params; sent_by = w.via_sent_by })

get : {A : Type 0} (f : Request → A) {p q : Request} → p ≡ q → f p ≡ f q
get f e = ap f e

branch_of-without :
    (ps : List Param) (b : Str) → branch_of (without_branch ps ++ branch b ∷ []) ≡ some b
unfolding without_branch
branch_of-without [] b = refl
branch_of-without (p ∷ ps) b = ground (arith, branch_of-without ps b)

-- The `Via` with a fresh branch.
abbrev pub rebranched : Str → WholeVia → WholeVia
rebranched fresh w = record w { via_params = without_branch w.via_params ++ branch fresh ∷ [] }

module _ (r : AgentRsip) where
  abbrev next_seq : TypedCseq → TypedCseq
  next_seq c = record c { seq = (c.seq + 1) % 2 ^ 32 }

  bump_via_branch_lem :
      (fresh : Str) (req : Request) {q : Request}
      → bump_via_branch r fresh req ≡ some q
      → (raw : Str) × (w : WholeVia) × (r.dialogs.base.via_header req.headers ≡ some raw)
        × (r.whole_via raw ≡ some w)
        × (q ≡ record req {
          headers = r.unique_push (via (r.whole_via_value (rebranched fresh w))) req.headers;
        })
  unfolding bump_via_branch
  bump_via_branch_lem fresh req built =
      elim (Option-cases (r.dialogs.base.via_header req.headers)) [
        | inl e ↦ absurd (ground (arith, e))
        | inr (raw, e) ↦ elim (Option-cases (r.whole_via raw)) [
          | inl e' ↦ absurd (ground (arith, e, e'))
          | inr (w, e') ↦ (raw, w, e, e', ground (arith, e, e'))
        ]
      ]

  bump_cseq_lem :
      (req : Request) {q : Request}
      → bump_cseq r req ≡ some q
      → (raw : Str) × (c : TypedCseq) × (r.dialogs.base.cseq_header req.headers ≡ some raw)
        × (r.dialogs.base.typed_cseq raw ≡ some c)
        × (q ≡ record req {
          headers = r.unique_push (cseq (r.dialogs.base.cseq_value (next_seq c))) req.headers;
        })
  unfolding bump_cseq
  bump_cseq_lem req built = elim (Option-cases (r.dialogs.base.cseq_header req.headers)) [
    | inl e ↦ absurd (ground (arith, e))
    | inr (raw, e) ↦ elim (Option-cases (r.dialogs.base.typed_cseq raw)) [
      | inl e' ↦ absurd (ground (arith, e, e'))
      | inr (c, e') ↦ (raw, c, e, e', ground (arith, e, e'))
    ]
  ]

  -- The steps of a retry: its header, pushed on the request with both headers bumped.
  steps_lem :
      (original : Request) (resp : Response) (creds : Credentials) (fresh cnonce : Str)
      {retry : Request}
      → build_retry r original resp creds fresh cnonce ≡ some retry
      → (k : ChallengeKind) × (challenge : Challenge) × (sent_via : Request) × (bumped : Request)
        × (extract_challenge r resp ≡ some (k, challenge))
        × (bump_via_branch r fresh original ≡ some sent_via)
        × (bump_cseq r sent_via ≡ some bumped)
        × (retry ≡ record bumped {
          headers =
              r.unique_push
                (answer_header r k
                  (build_authorization r challenge creds original.method original.uri cnonce))
                bumped.headers;
        })
  unfolding build_retry
  steps_lem original resp creds fresh cnonce built =
      elim (Option-cases (extract_challenge r resp)) [
        | inl e ↦ absurd (ground (arith, e))
        | inr ((k, challenge), e) ↦ elim (Option-cases (bump_via_branch r fresh original)) [
          | inl e' ↦ absurd (ground (arith, e, e'))
          | inr (sent_via, e') ↦ elim (Option-cases (bump_cseq r sent_via)) [
            | inl e2 ↦ absurd (ground (arith, e, e', e2))
            | inr (bumped, e2) ↦
                (k, challenge, sent_via, bumped, e, e', e2, ground (arith, e, e', e2))
          ]
        ]
      ]

  -- What the retry is made of.
  abbrev pub IsRetry : Request → Str → Request → Type 0
  IsRetry original fresh retry =
      (raw : Str) × (w : WholeVia) × (raw_cseq : Str) × (c : TypedCseq) × (r.dialogs.base.via_header
          original.headers
        ≡ some raw)
      × (r.whole_via raw ≡ some w)
      × (r.dialogs.base.cseq_header original.headers ≡ some raw_cseq)
      × (r.dialogs.base.typed_cseq raw_cseq ≡ some c)
      × (first_via retry.headers ≡ some (r.whole_via_value (rebranched fresh w)))
      × (first_cseq retry.headers ≡ some (r.dialogs.base.cseq_value (next_seq c)))
      × (retry.method ≡ original.method)
      × (retry.uri ≡ original.uri)
      × (retry.body ≡ original.body)

  module _ (laws : AgentLaws r) where
    answer_kept :
        (k : ChallengeKind) (challenge : Challenge) (creds : Credentials) (m : Method)
        (original : Request) (cnonce : Str) (hs : List Header)
        → let h = answer_header r k (build_authorization r challenge creds m original.uri cnonce) in
          (first_via (r.unique_push h hs) ≡ first_via hs)
          × (first_cseq (r.unique_push h hs) ≡ first_cseq hs)
    answer_kept www challenge creds m original cnonce hs =
        (laws.keep_via _ hs refl, laws.keep_cseq _ hs refl)
    answer_kept proxy challenge creds m original cnonce hs =
        (laws.keep_via _ hs refl, laws.keep_cseq _ hs refl)

    pub build_retry-IsRetry :
        (original : Request) (resp : Response) (creds : Credentials) (fresh cnonce : Str)
        {retry : Request}
        → build_retry r original resp creds fresh cnonce ≡ some retry
        → IsRetry original fresh retry
    build_retry-IsRetry original resp creds fresh cnonce {retry} built =
        let (k, challenge, sent_via, bumped, _, via_is, cseq_is, retry_is) =
          steps_lem original resp creds fresh cnonce built in
        let (raw, w, raw_is, w_is, sent_is) = bump_via_branch_lem fresh original via_is in
        let (raw_cseq, c, raw_cseq_is, c_is, bumped_is) = bump_cseq_lem sent_via cseq_is in
        let (via_kept, cseq_kept) =
          answer_kept k challenge creds original.method original cnonce bumped.headers in
        let via_text = via (r.whole_via_value (rebranched fresh w)) in
        let cseq_text = cseq (r.dialogs.base.cseq_value (next_seq c)) in
        let v = laws.push_via (r.whole_via_value (rebranched fresh w)) original.headers in
        let v' = laws.keep_via cseq_text sent_via.headers refl in
        let n = laws.push_cseq (r.dialogs.base.cseq_value (next_seq c)) sent_via.headers in
        let n' = laws.keep_cseq via_text original.headers refl in
        let sent_headers = get (λ q. q.headers) sent_is in
        let bumped_headers = get (λ q. q.headers) bumped_is in
        let retry_headers = get (λ q. q.headers) retry_is in
        (
          raw,
          w,
          raw_cseq,
          c,
          raw_is,
          w_is,
          laws.base_laws.cseq_first original.headers
              ∙ sym n'
              ∙ ap first_cseq (sym sent_headers)
              ∙ sym (laws.base_laws.cseq_first sent_via.headers)
              ∙ raw_cseq_is,
          c_is,
          ap first_via retry_headers
              ∙ via_kept
              ∙ ap first_via bumped_headers
              ∙ v'
              ∙ ap first_via sent_headers
              ∙ v,
          ap first_cseq retry_headers ∙ cseq_kept ∙ ap first_cseq bumped_headers ∙ n,
          get (λ q. q.method) retry_is
              ∙ get (λ q. q.method) bumped_is
              ∙ get (λ q. q.method) sent_is,
          get (λ q. q.uri) retry_is ∙ get (λ q. q.uri) bumped_is ∙ get (λ q. q.uri) sent_is,
          get (λ q. q.body) retry_is ∙ get (λ q. q.body) bumped_is ∙ get (λ q. q.body) sent_is,
        )

    extract_challenge-status :
        (resp : Response) {found : ChallengeKind × Challenge}
        → extract_challenge r resp ≡ some found
        → (resp.status_code ≡ 401) ⊎ (resp.status_code ≡ 407)
    unfolding extract_challenge
    extract_challenge-status resp e = ground arith

    -- A request whose `Via` and `CSeq` read as `w` and `c`, and whose `Via` with the fresh branch reads
    -- back, is answered after a 401 or a 407 only. The answer is a request of the transaction with the
    -- fresh branch, from the same place and of the same method; its sequence number is one higher, up to
    -- 32 bits; method, URI and body are those of the request.
    pub build_retry_lem :
        (original : Request) (resp : Response) (creds : Credentials) (fresh cnonce : Str)
        {retry : Request} {raw raw_cseq : Str} {w : WholeVia} {c : TypedCseq}
        → r.dialogs.base.via_header original.headers ≡ some raw
        → r.whole_via raw ≡ some w
        → r.whole_via (r.whole_via_value (rebranched fresh w)) ≡ some (rebranched fresh w)
        → r.dialogs.base.cseq_header original.headers ≡ some raw_cseq
        → r.dialogs.base.typed_cseq raw_cseq ≡ some c
        → build_retry r original resp creds fresh cnonce ≡ some retry
        → ((resp.status_code ≡ 401) ⊎ (resp.status_code ≡ 407))
          × (from_request r.dialogs.base retry
              ≡ some (record {
                key_branch = fresh;
                key_sent_by = w.via_sent_by;
                key_method = normalize original.method;
              }))
          × ((r.dialogs.base.cseq_header retry.headers >>= λ t. r.dialogs.base.typed_cseq t)
              ≡ some (record c { seq = (c.seq + 1) % 2 ^ 32 }))
          × (retry.method ≡ original.method)
          × (retry.uri ≡ original.uri)
          × (retry.body ≡ original.body)
    unfolding from_request build
    build_retry_lem original resp creds fresh cnonce {retry} {raw} {raw_cseq} {w} {c} raw_is w_is
          reads raw_cseq_is c_is built =
        let (
          raw', w', raw_cseq', c', raw_is', w_is', raw_cseq_is', c_is', via_is, cseq_is, m, u, b,
        ) =
          build_retry-IsRetry original resp creds fresh cnonce built in
        let (k, challenge, _, _, found, _, _, _) =
          steps_lem original resp creds fresh cnonce built in
        let same_raw : raw' ≡ raw = grind arith in
        let same_w : w' ≡ w = grind arith in
        let same_cseq : raw_cseq' ≡ raw_cseq = grind arith in
        let same_c : c' ≡ c = grind arith in
        let small : (c.seq + 1) % 2 ^ 32 < 2 ^ 32 = omega arith in
        let new_via =
          laws.base_laws.via_first retry.headers
          ∙ via_is
          ∙ ap (λ x. some (r.whole_via_value (rebranched fresh x))) same_w in
        let new_cseq =
          laws.base_laws.cseq_first retry.headers
          ∙ cseq_is
          ∙ ap (λ x. some (r.dialogs.base.cseq_value (next_seq x))) same_c in
        let parts =
          laws.via_branch_first (r.whole_via_value (rebranched fresh w)) (rebranched fresh w)
            reads in
        (
          extract_challenge-status resp found,
          rw (new_via, parts, branch_of-without w.via_params fresh, m),
          rw (new_cseq, laws.base_laws.cseq_round_trip (next_seq c) small),
          m,
          u,
          b,
        )

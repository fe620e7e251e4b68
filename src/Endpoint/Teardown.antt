-- ===== src/Endpoint/Teardown.antt =====
-- crates/wavekat-sip/src/endpoint.rs with stack/dialog.rs and stack/call.rs: the peer ends a call.
use wavekat_sip.Base.{
  ℕ, ◌+◌, ◌^◌, ◌<◌, ◌≡◌, refl, sym, ap, ◌∙◌, inl, inr, Option-cases, Bool-cases, arith, List, [],
  ◌∷◌, ◌++◌, none, some,
}
use wavekat_sip.Sip.{Str, bye, invite, Header, Request, Response, RsipLaws}
use wavekat_sip.Transaction.Key.{TransactionKey, key_eq, invite_target, from_request}
use wavekat_sip.Answer.{build_response}
use wavekat_sip.Dialog.{
  TypedParty, tagged, DialogRsip, Dialog, DialogId, id, id_from_request, compose,
}
use wavekat_sip.Dialog.Identity.{DialogLaws, IsReadable, mirror, id_from_request-compose}
use wavekat_sip.Auth.{AgentRsip}
use wavekat_sip.Call.{cseq_of, build_cancel}
use wavekat_sip.Call.Cancel.{build_cancel-targets}
use wavekat_sip.Ua.Counting.{build_cancel-method}
use wavekat_sip.Ua.Router.{Incoming}
use wavekat_sip.Endpoint.{
  Endpoint, PendingInvite, dialog_id_eq, registered_at, unregister_at, tagged_answer, end_call,
  end_invite, on_bye, on_cancel, route_method, route_inbound, auto_answer_200,
}

pub unregister_at-gone :
    (key : TransactionKey) (table : List (TransactionKey × PendingInvite))
    → registered_at key_eq key (unregister_at key_eq key table) ≡ none
unfolding registered_at unregister_at
unregister_at-gone key [] = refl
unregister_at-gone key ((other, p) ∷ rest) = elim (Bool-cases (key_eq key other)) [
  | inl e ↦ rw e (unregister_at-gone key rest)
  | inr e ↦ rw (e, e) (unregister_at-gone key rest)
]

module _ (r : DialogRsip) where
  -- The answer that the endpoint gives by itself: of this status, with this tag.
  abbrev pub Answers : Request → ℕ → Str → Response → Type 0
  Answers req status tag resp =
      (build_response r req status (some tag) none none ≡ some resp) × (resp.status_code ≡ status)

  -- A request whose `To` reads is answered.
  abbrev pub HasTo : Request → Type 0
  HasTo req =
      (raw : Str) × (party : TypedParty) × (r.base.to_header req.headers ≡ some raw)
      × (r.typed_party raw ≡ some party)

  build_response-Answers :
      (req : Request) (status : ℕ) (tag : Str)
      → HasTo req
      → (resp : Response) × Answers req status tag resp
  unfolding build_response
  build_response-Answers req status tag (raw, party, e, e') =
      elim (Option-cases (build_response r req status (some tag) none none)) [
        | inl e'' ↦ absurd (ground (arith, e, e', e''))
        | inr (resp, built) ↦ (resp, (built, ground (arith, e, e', built)))
      ]

module _ (r : DialogRsip) (gen_tag : ℕ → Str) where
  tagged_answer-Answers :
      (key : TransactionKey) (req : Request) (status draw : ℕ) (resp : Response)
      → Answers r req status (gen_tag draw) resp
      → tagged_answer r gen_tag key req status draw ≡ (key, resp) ∷ []
  tagged_answer-Answers key req status draw resp (built, e) = rw built refl

  on_bye-fires :
      (inc : Incoming) (i : DialogId) (token : ℕ) (e : Endpoint)
      → id_from_request r inc.incoming_req ≡ some i
      → registered_at dialog_id_eq i e.terminations ≡ some token
      → on_bye r gen_tag inc e
        ≡ end_call r gen_tag
            (some token)
            (auto_answer_200 r gen_tag inc.incoming_key inc.incoming_req e)
  unfolding on_bye
  on_bye-fires inc i token e named at = rw (on_bye, named, at) refl

  -- A BYE that the peer composes in its dialog, which is the endpoint's with the tags the other way
  -- round and reads back, fires the token that is registered for that dialog and no other; the BYE
  -- is answered with one response, a 200, and nothing is handed to a call or announced as one.
  pub bye_terminates :
      DialogLaws r
      → (d d' : Dialog) (key : TransactionKey) (peer seq token : ℕ) (branch : Str)
        (extra : List Header) (body : List ℕ) (e : Endpoint)
      → id d ≡ mirror (id d')
      → IsReadable r d'
      → registered_at dialog_id_eq (id d) e.terminations ≡ some token
      → let req = compose r d' branch bye seq extra body in
        let inc : Incoming = record {
          incoming_key = key;
          incoming_req = req;
          incoming_peer = peer;
        } in
        let after = route_inbound r gen_tag inc e in
        (ok : Response) × Answers r req 200 (gen_tag e.drawn) ok
        × (after.fired ≡ e.fired ++ token ∷ [])
        × (after.answers ≡ e.answers ++ (key, ok) ∷ [])
        × (after.handed ≡ e.handed)
        × (after.calls ≡ e.calls)
  unfolding route_inbound route_method on_bye compose auto_answer_200
  bye_terminates laws d d' key peer seq token branch extra body e same reads at =
      let named = id_from_request-compose r laws d' branch bye seq extra body reads in
      let is =
        on_bye-fires
          (record {
            incoming_key = key;
            incoming_req = compose r d' branch bye seq extra body;
            incoming_peer = peer;
          })
          (id d) token e (named ∙ ap some (sym same)) at in
      let req = compose r d' branch bye seq extra body in
      let (ok, answered) = build_response-Answers r req 200 (gen_tag e.drawn) (
        r.party_value (tagged d'.remote),
        tagged d'.remote,
        laws.base_laws.to_first req.headers,
        reads.1,
      ) in
      (
        ok,
        answered,
        ap (λ (x : Endpoint). x.fired) is,
        ap (λ (x : Endpoint). x.answers) is
            ∙ ap (λ l. e.answers ++ l) (tagged_answer-Answers key req 200 e.drawn ok answered),
        ap (λ (x : Endpoint). x.handed) is,
        ap (λ (x : Endpoint). x.calls) is,
      )

  on_cancel-ends :
      (inc : Incoming) (key : TransactionKey) (p : PendingInvite) (e : Endpoint)
      → invite_target inc.incoming_key ≡ key
      → registered_at key_eq key e.incoming_invites ≡ some p
      → on_cancel r gen_tag inc e
        ≡ end_invite r gen_tag key
            (some p)
            (auto_answer_200 r gen_tag inc.incoming_key inc.incoming_req e)
  unfolding on_cancel
  on_cancel-ends inc key p e target at = rw (on_cancel, target, at) refl

  on_cancel-nothing :
      (inc : Incoming) (key : TransactionKey) (e : Endpoint)
      → invite_target inc.incoming_key ≡ key
      → registered_at key_eq key e.incoming_invites ≡ none
      → on_cancel r gen_tag inc e ≡ auto_answer_200 r gen_tag inc.incoming_key inc.incoming_req e
  unfolding on_cancel
  on_cancel-nothing inc key e target at = rw (on_cancel, target, at) refl

-- The CANCEL of an INVITE repeats its `To`.
HasTo-build_cancel :
    (r : AgentRsip)
    → RsipLaws r.dialogs.base
    → (inv : Request) {req : Request} → build_cancel r inv ≡ some req
    → HasTo r.dialogs inv
    → HasTo r.dialogs req
unfolding build_cancel
HasTo-build_cancel r laws inv {req} built (raw, party, e, e') =
    (raw, party, grind (arith, laws.to_first), e')

-- An INVITE is pending at the endpoint under its key, its `CSeq` number fits 32 bits, and its `To`
-- reads. The CANCEL that the peer builds for it, with its transaction key, is answered with a 200 and
-- the INVITE with a 487, each once, the token of the call fires once, and the INVITE is no longer
-- pending; the same CANCEL again is only answered, with a 200.
pub cancel_terminates :
    (r : AgentRsip) (gen_tag : ℕ → Str)
    → RsipLaws r.dialogs.base
    → (p : PendingInvite) (key k : TransactionKey) (peer : ℕ) (e : Endpoint) {req : Request}
    → p.pending_invite.method ≡ invite
    → from_request r.dialogs.base p.pending_invite ≡ some key
    → cseq_of r p.pending_invite < 2 ^ 32
    → HasTo r.dialogs p.pending_invite
    → registered_at key_eq key e.incoming_invites ≡ some p
    → build_cancel r p.pending_invite ≡ some req
    → from_request r.dialogs.base req ≡ some k
    → let inc : Incoming = record { incoming_key = k; incoming_req = req; incoming_peer = peer } in
      let after = route_inbound r.dialogs gen_tag inc e in
      let again = route_inbound r.dialogs gen_tag inc after in
      (ok : Response) × (refused : Response) × (ok' : Response) × Answers r.dialogs req 200
        (gen_tag e.drawn)
        ok
      × Answers r.dialogs p.pending_invite 487 (gen_tag (e.drawn + 1)) refused
      × Answers r.dialogs req 200 (gen_tag after.drawn) ok'
      × (after.answers ≡ (e.answers ++ (k, ok) ∷ []) ++ (key, refused) ∷ [])
      × (after.fired ≡ e.fired ++ p.pending_token ∷ [])
      × (registered_at key_eq key after.incoming_invites ≡ none)
      × (again.fired ≡ after.fired)
      × (again.answers ≡ after.answers ++ (k, ok') ∷ [])
unfolding route_inbound route_method auto_answer_200
cancel_terminates r gen_tag laws p key k peer e {req} is_invite keyed small to_reads at built k_is =
    let (k', k'_is, _, target, _, _, _) =
      build_cancel-targets r laws p.pending_invite is_invite keyed small built in
    let target_is : invite_target k ≡ key = grind arith in
    let m = build_cancel-method r p.pending_invite built in
    let inc : Incoming = record { incoming_key = k; incoming_req = req; incoming_peer = peer } in
    let first = on_cancel-ends r.dialogs gen_tag inc key p e target_is at in
    let routed = λ (x : Endpoint). ap (λ method. route_method r.dialogs gen_tag method inc x) m in
    let after = route_inbound r.dialogs gen_tag inc e in
    let after_is = routed e ∙ first in
    let gone =
      ap (λ (x : Endpoint). registered_at key_eq key x.incoming_invites) after_is
      ∙ unregister_at-gone key e.incoming_invites in
    let again_is =
      routed after ∙ on_cancel-nothing r.dialogs gen_tag inc key after target_is gone in
    let reads = HasTo-build_cancel r laws p.pending_invite built to_reads in
    let (ok, is_ok) = build_response-Answers r.dialogs req 200 (gen_tag e.drawn) reads in
    let (refused, is_refused) =
      build_response-Answers r.dialogs p.pending_invite 487 (gen_tag (e.drawn + 1)) to_reads in
    let (ok', is_ok') = build_response-Answers r.dialogs req 200 (gen_tag after.drawn) reads in
    let one = tagged_answer-Answers r.dialogs gen_tag k req 200 e.drawn ok is_ok in
    let two =
      tagged_answer-Answers r.dialogs gen_tag key p.pending_invite 487 (e.drawn + 1) refused
        is_refused in
    let three = tagged_answer-Answers r.dialogs gen_tag k req 200 after.drawn ok' is_ok' in
    (
      ok,
      refused,
      ok',
      is_ok,
      is_refused,
      is_ok',
      ap (λ (x : Endpoint). x.answers) after_is
          ∙ ap
              (λ l.
                (e.answers ++ l)
                ++ tagged_answer r.dialogs gen_tag key p.pending_invite 487 (e.drawn + 1))
              one
          ∙ ap (λ l. (e.answers ++ (k, ok) ∷ []) ++ l) two,
      ap (λ (x : Endpoint). x.fired) after_is,
      gone,
      ap (λ (x : Endpoint). x.fired) again_is,
      ap (λ (x : Endpoint). x.answers) again_is ∙ ap (λ l. after.answers ++ l) three,
    )

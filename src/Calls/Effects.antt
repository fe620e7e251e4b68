-- ===== src/Calls/Effects.antt =====
-- crates/wavekat-sip/src/caller.rs with stack/ua.rs: what one request of a call puts on the wire.
use wavekat_sip.Base.{
  ℕ, ◌+◌, ◌%◌, ◌^◌, ◌<◌, ◌≡◌, refl, sym, ap, ◌∙◌, ◌⊎◌, inl, inr, Bool-cases, Option-cases, arith,
  Bool, true, false, ◌&&◌, List, [], ◌∷◌, ◌++◌, append_assoc, append-nil, Option, none, some,
  if◌then◌else◌,
}
use wavekat_sip.Sip.{Str, Method, ack, invite, Header, Uri, TypedVia, Request, Response}
use wavekat_sip.Dialog.{Dialog, compose, new_request, new_request_with, ack_2xx}
use wavekat_sip.Auth.{AgentRsip}
use wavekat_sip.Auth.Retry.{AgentLaws}
use wavekat_sip.Call.{cseq_of}
use wavekat_sip.Transaction.Key.{TransactionKey, from_request, build, normalize}
use wavekat_sip.Transaction.Via.{transport_of, via_value}
use wavekat_sip.Engine.State.{Event}
use wavekat_sip.Ua.{Outside, Ua, Air, ticked, apply_user_agent, await_final, is_success}
use wavekat_sip.Ua.Calling.{put_on, send_in_dialog, hangup, reinvite, info, refer}
use wavekat_sip.Ua.Numbers.{cseq_of-first, cseq_of-apply_user_agent}

-- A request with this number, method, body and target.
abbrev pub Asks : AgentRsip → ℕ → Method → List ℕ → Uri → Request → Type 0
Asks r n m body target q = (cseq_of r q ≡ n) × (q.method ≡ m) × (q.body ≡ body) × (q.uri ≡ target)

abbrev pub is_invite : Method → Bool
is_invite invite = true
is_invite _ = false

-- The answer is a 2xx.
abbrev pub is_accepting : Option Response → Bool
is_accepting resp = elim resp [ none ↦ false | some final ↦ is_success final.status_code ]

-- A request that goes out behind these, and whether its final response accepts it.
abbrev pub Delivers : Outside → List Request → Request → Bool → Type 0
Delivers out wire q accepted =
    (tick : ℕ) × (evs : List Event) × (out.deliver tick wire q ≡ some evs)
    × (accepted ≡ is_accepting (await_final evs))

-- What an operation puts on the wire behind these: nothing if the engine does not take its request,
-- else the request, whose final response is what it reports, and behind it the ACK exactly if it is an
-- accepted INVITE.
abbrev pub Sends :
    AgentRsip → Outside → List Request → Bool → ℕ → Method → List ℕ → Uri → List Request → Type 0
Sends r out wire accepted n m body target [] =
    (accepted ≡ false)
    × ((q : Request) × (tick : ℕ) × Asks r n m body target q × (out.deliver tick wire q ≡ none))
Sends r out wire accepted n m body target (q ∷ []) =
    Asks r n m body target q × Delivers out wire q accepted × ((accepted && is_invite m) ≡ false)
Sends r out wire accepted n m body target (q ∷ k ∷ []) =
    Asks r n m body target q
    × Delivers out wire q accepted
    × ((accepted && is_invite m) ≡ true)
    × Asks r n ack [] target k
Sends r out wire accepted n m body target (q ∷ k ∷ l ∷ reqs) = ⊥

-- Documented behaviour of rsip: the `Via` that a dialog prints reads back, with a branch.
abbrev pub ReadsVia : AgentRsip → Dialog → Type 0
ReadsVia r d =
    (branch : Str)
    → (v : TypedVia) × (b : Str) × (r.dialogs.base.typed_via
          (via_value (transport_of d.local_contact) d.local_contact.host_with_port branch)
        ≡ some v)
      × (v.via_branch ≡ some b)

module _ (r : AgentRsip) (laws : AgentLaws r) where
  cseq_of-composed :
      (d : Dialog) (branch : Str) (m : Method) (n : ℕ) (extra : List Header) (body : List ℕ)
      → n < 2 ^ 32
      → cseq_of r (compose r.dialogs d branch m n extra body) ≡ n
  unfolding compose
  cseq_of-composed d branch m n extra body small =
      cseq_of-first r laws (compose r.dialogs d branch m n extra body)
        (record { seq = n; cseq_method = m }) small refl

  compose-Asks :
      (d : Dialog) (branch : Str) (m : Method) (n : ℕ) (extra : List Header) (body : List ℕ)
      → n < 2 ^ 32
      → Asks r n m body d.remote_target (compose r.dialogs d branch m n extra body)
  unfolding compose
  compose-Asks d branch m n extra body small =
      (cseq_of-composed d branch m n extra body small, refl, refl, refl)

  apply_user_agent-Asks :
      (name : Option Str) (n : ℕ) (m : Method) (body : List ℕ) (target : Uri) (q : Request)
      → Asks r n m body target q
      → Asks r n m body target (apply_user_agent name q)
  unfolding apply_user_agent
  apply_user_agent-Asks name n m body target q (e, e', e'', e''') =
      let same = cseq_of-apply_user_agent r laws name q in
      (same ∙ e, ground arith, ground arith, ground arith)

  compose-keyed :
      (d : Dialog) (branch : Str) (m : Method) (n : ℕ) (extra : List Header) (body : List ℕ)
      → ReadsVia r d
      → (key : TransactionKey) × (from_request r.dialogs.base
            (compose r.dialogs d branch m n extra body)
          ≡ some key)
  unfolding from_request build compose
  compose-keyed d branch m n extra body reads =
      let (v, b, e, e') = reads branch in
      let q = compose r.dialogs d branch m n extra body in
      let first = laws.base_laws.via_first q.headers in
      (
        record { key_branch = b; key_sent_by = v.sent_by; key_method = normalize m },
        rw (first, e, e') refl,
      )

  -- What is sent and answered: the engine takes nothing, or it delivers what answers the request.
  abbrev Sent : Outside → Request → List Request → Option Response → List Request → Type 0
  Sent out q wire resp wire' =
      ((resp ≡ none) × (wire' ≡ wire) × ((tick : ℕ) × (out.deliver tick wire q ≡ none)))
      ⊎ (Delivers out wire q (is_accepting resp) × (wire' ≡ wire ++ q ∷ []))

  send_in_dialog-Sent :
      (out : Outside) (ua : Ua) (q : Request) (air : Air) {key : TransactionKey}
      → from_request r.dialogs.base q ≡ some key
      → let x = send_in_dialog r out ua q air in
        Sent out (apply_user_agent ua.agent_name q) air.wire x.0 x.1.wire
  unfolding send_in_dialog
  send_in_dialog-Sent out ua q air e =
      elim (Option-cases (out.deliver air.tick air.wire (apply_user_agent ua.agent_name q))) [
        | inl e' ↦ inl (ground (arith, e, e'), ground (arith, e, e'), (air.tick, e'))
        | inr (evs, e') ↦ inr ((air.tick, evs, e', ground (arith, e, e')), ground (arith, e, e'))
      ]

-- The number of the next request.
abbrev pub next_seq : Dialog → ℕ
next_seq d = (d.local_seq + 1) % 2 ^ 32

-- What a request in a dialog does: what it sends, and its number is used up.
abbrev pub Effect :
    AgentRsip → Outside → Method → List ℕ → Dialog → Air → Bool → Dialog → Air → Type 0
Effect r out m body d air accepted d' air' =
    (now : List Request) × (air'.wire ≡ air.wire ++ now)
    × Sends r out air.wire accepted (next_seq d) m body d.remote_target now
    × (d' ≡ record d { local_seq = next_seq d })

module _ (r : AgentRsip) (laws : AgentLaws r) (out : Outside) (ua : Ua) where
  sends_one :
      (q : Request) (n : ℕ) (m : Method) (body : List ℕ) (target : Uri) (air : Air)
      {key : TransactionKey}
      → is_invite m ≡ false
      → from_request r.dialogs.base q ≡ some key
      → Asks r n m body target q
      → let x = send_in_dialog r out ua q air in
        (now : List Request) × (x.1.wire ≡ air.wire ++ now)
        × Sends r out air.wire (is_accepting x.0) n m body target now
  sends_one q n m body target air other keyed asks =
      let named = apply_user_agent ua.agent_name q in
      let asks' = apply_user_agent-Asks r laws ua.agent_name n m body target q asks in
      elim (send_in_dialog-Sent r laws out ua q air keyed) [
        | inl (e, wire, (tick, stopped)) ↦ (
          [],
          wire ∙ sym (append-nil air.wire),
          (ap is_accepting e, (named, tick, asks', stopped)),
        )
        | inr (delivers, wire) ↦ (named ∷ [], wire, (asks', delivers, ground arith))
      ]

  next_seq-lt : (d : Dialog) → next_seq d < 2 ^ 32
  next_seq-lt d = omega arith

  pub refer-Effect :
      (d : Dialog) (extra : List Header) (air : Air)
      → ReadsVia r d
      → let x = refer r out ua d extra air in
        Effect r out Method.refer [] d air (is_accepting x.0) x.1 x.2
  unfolding refer new_request_with
  refer-Effect d extra air via_reads =
      let branch = out.gen_branch air.tick in
      let q = compose r.dialogs d branch Method.refer (next_seq d) extra [] in
      let (now, wire, sends) =
        sends_one q (next_seq d) Method.refer [] d.remote_target (ticked air) refl
          (compose-keyed r laws d branch Method.refer (next_seq d) extra [] via_reads).1
          (compose-Asks r laws d branch Method.refer (next_seq d) extra [] (next_seq-lt d)) in
      (now, wire, sends, refl)

  pub info-Effect :
      (d : Dialog) (extra : List Header) (body : List ℕ) (air : Air)
      → ReadsVia r d
      → let x = info r out ua d extra body air in
        Effect r out Method.info body d air (is_accepting x.0) x.1 x.2
  unfolding info new_request_with
  info-Effect d extra body air via_reads =
      let branch = out.gen_branch air.tick in
      let q = compose r.dialogs d branch Method.info (next_seq d) extra body in
      let (now, wire, sends) =
        sends_one q (next_seq d) Method.info body d.remote_target (ticked air) refl
          (compose-keyed r laws d branch Method.info (next_seq d) extra body via_reads).1
          (compose-Asks r laws d branch Method.info (next_seq d) extra body (next_seq-lt d)) in
      (now, wire, sends, refl)

  pub hangup-Effect :
      (d : Dialog) (air : Air)
      → ReadsVia r d
      → let x = hangup r out ua d air in Effect r out Method.bye [] d air x.0 x.1 x.2
  unfolding hangup new_request new_request_with
  hangup-Effect d air via_reads =
      let branch = out.gen_branch air.tick in
      let q = compose r.dialogs d branch Method.bye (next_seq d) [] [] in
      let (now, wire, sends) =
        sends_one q (next_seq d) Method.bye [] d.remote_target (ticked air) refl
          (compose-keyed r laws d branch Method.bye (next_seq d) [] [] via_reads).1
          (compose-Asks r laws d branch Method.bye (next_seq d) [] [] (next_seq-lt d)) in
      (now, wire, sends, refl)

  -- What `reinvite` does after it has sent its request.
  abbrev after_final :
      Dialog → Request → Dialog → Option Response × Air → Option Response × Dialog × Air
  after_final d q d' (none, air') = (none, d', air')
  after_final d q d' (some final, air') = (
    some final,
    d',
    if is_success final.status_code
        then put_on r (ack_2xx r.dialogs d' (out.gen_branch air'.tick) (cseq_of r q) ∷ []) air'
        else air',
  )

  reinvite_steps :
      (d : Dialog) (extra : List Header) (body : List ℕ) (air : Air)
      → let (d', q) =
          new_request_with r.dialogs d (out.gen_branch air.tick) Method.invite extra body in
        reinvite r out ua d extra body air
        ≡ after_final d q d' (send_in_dialog r out ua q (ticked air))
  unfolding reinvite
  reinvite_steps d extra body air =
      let (d', q) =
        new_request_with r.dialogs d (out.gen_branch air.tick) Method.invite extra body in
      ground (arith, Option-cases (send_in_dialog r out ua q (ticked air)).0)

  ack_2xx-Asks :
      (d : Dialog) (branch : Str) (q : Request) (n : ℕ)
      → n < 2 ^ 32
      → cseq_of r q ≡ n
      → Asks r n ack [] d.remote_target (ack_2xx r.dialogs d branch (cseq_of r q))
  unfolding ack_2xx
  ack_2xx-Asks d branch q n small e = rw e (compose-Asks r laws d branch ack n [] [] small)

  -- What `after_final` has put on the wire, whatever answered the request that was sent as `q'`.
  acked :
      (d d' : Dialog) (q q' : Request) (n : ℕ) (body : List ℕ) (w : List Request)
      (x : Option Response × Air)
      → Sent r laws out q' w x.0 x.1.wire
      → Asks r n invite body d'.remote_target q'
      → ((branch : Str)
          → Asks r n ack [] d'.remote_target (ack_2xx r.dialogs d' branch (cseq_of r q)))
      → let y = after_final d q d' x in
        (now : List Request) × (y.2.wire ≡ w ++ now)
        × Sends r out w (is_accepting y.0) n invite body d'.remote_target now
  acked d d' q q' n body w (none, air') (inl (e, is, (tick, stopped))) asks acks =
      ([], is ∙ sym (append-nil w), (refl, (q', tick, asks, stopped)))
  acked d d' q q' n body w (none, air') (inr (delivers, is)) asks acks =
      (q' ∷ [], is, (asks, delivers, refl))
  acked d d' q q' n body w (some final, air') (inl (e, is, stopped)) asks acks = cc
  acked d d' q q' n body w (some final, air') (inr (delivers, is)) asks acks =
      let k = ack_2xx r.dialogs d' (out.gen_branch air'.tick) (cseq_of r q) in
      elim (Bool-cases (is_success final.status_code)) [
        | inl e ↦
            let delivers' : Delivers out w q' true = rw e at delivers in
            rw e (
              q' ∷ k ∷ [],
              ap (λ l. l ++ k ∷ []) is ∙ append_assoc w (q' ∷ []) (k ∷ []),
              (asks, delivers', refl, acks (out.gen_branch air'.tick)),
            )
        | inr e ↦
            let delivers' : Delivers out w q' false = rw e at delivers in
            rw e (q' ∷ [], is, (asks, delivers', refl))
      ]

  after_final-dialog :
      (d : Dialog) (q : Request) (d' : Dialog) (x : Option Response × Air)
      → (after_final d q d' x).1 ≡ d'
  after_final-dialog d q d' (none, air') = refl
  after_final-dialog d q d' (some final, air') = refl

  pub reinvite-Effect :
      (d : Dialog) (extra : List Header) (body : List ℕ) (air : Air)
      → ReadsVia r d
      → let x = reinvite r out ua d extra body air in
        Effect r out Method.invite body d air (is_accepting x.0) x.1 x.2
  unfolding new_request_with
  reinvite-Effect d extra body air via_reads =
      let branch = out.gen_branch air.tick in
      let n = next_seq d in
      let d' : Dialog = record d { local_seq = n } in
      let q = compose r.dialogs d branch Method.invite n extra body in
      let asks = compose-Asks r laws d branch Method.invite n extra body (next_seq-lt d) in
      let x = send_in_dialog r out ua q (ticked air) in
      let done =
        acked d d' q (apply_user_agent ua.agent_name q) n body air.wire x
          (send_in_dialog-Sent r laws out ua q (ticked air)
            (compose-keyed r laws d branch Method.invite n extra body via_reads).1)
          (apply_user_agent-Asks r laws ua.agent_name n Method.invite body d.remote_target q asks)
          (λ b. ack_2xx-Asks d' b q n (next_seq-lt d) asks.0) in
      rw (reinvite_steps d extra body air) (done.0, done.1, done.2, after_final-dialog d q d' x)

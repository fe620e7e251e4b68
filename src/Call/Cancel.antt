-- ===== src/Call/Cancel.antt =====
-- crates/wavekat-sip/src/stack/call.rs, `build_cancel`: the CANCEL is for the transaction of its
-- INVITE.
use wavekat_sip.Base.{◌^◌, ◌<◌, ◌≡◌, refl, arith, [], some, ◌>>=◌}
use wavekat_sip.Sip.{cancel, invite, Request, RsipLaws}
use wavekat_sip.Transaction.Key.{TransactionKey, invite_target, from_request, build}
use wavekat_sip.Auth.{AgentRsip}
use wavekat_sip.Call.{cseq_of, build_cancel}

module _ (r : AgentRsip) where
  -- An INVITE with a transaction key is cancelled by a request of another transaction, whose target
  -- is the INVITE's: the same branch and the same place. It goes to the URI of the INVITE, has no
  -- body, and its `CSeq` has the number of the INVITE, if that fits 32 bits, with the method CANCEL.
  pub build_cancel-targets :
      RsipLaws r.dialogs.base
      → (inv : Request) {req : Request} {key : TransactionKey} → inv.method ≡ invite
      → from_request r.dialogs.base inv ≡ some key
      → cseq_of r inv < 2 ^ 32
      → build_cancel r inv ≡ some req
      → (k : TransactionKey) × (from_request r.dialogs.base req ≡ some k)
        × (k.key_method ≡ cancel)
        × (invite_target k ≡ key)
        × ((r.dialogs.base.cseq_header req.headers >>= λ t. r.dialogs.base.typed_cseq t)
            ≡ some (record { seq = cseq_of r inv; cseq_method = cancel }))
        × (req.uri ≡ inv.uri)
        × (req.body ≡ [])
  unfolding build_cancel from_request build invite_target
  build_cancel-targets laws inv {req} {key} is_invite key_is small built =
      let key' : TransactionKey = record key { key_method = cancel } in
      let round =
        laws.cseq_round_trip (record { seq = cseq_of r inv; cseq_method = cancel }) small in
      (
        key',
        grind (arith, laws.via_first),
        refl,
        grind (arith, laws.via_first),
        grind (arith, laws.cseq_first, round),
        grind arith,
        grind arith,
      )

-- ===== src/Call.antt =====
-- crates/wavekat-sip/src/stack/call.rs: the INVITE of a call and its CANCEL. The local address is its
-- text, the branch an argument.
pub mod Cancel
use wavekat_sip.Base.{ℕ, ◌%◌, ◌^◌, List, [], ◌∷◌, ◌++◌, Option, none, some, ◌>>=◌, length}
use wavekat_sip.Sip.{
  Str, Header, cancel, invite, via, from, to, call_id, cseq, max_forwards, contact, content_type,
  content_length, tag, Uri, Request, Response,
}
use wavekat_sip.Transaction.Via.{transport_of, via_value}
use wavekat_sip.Dialog.{Dialog}
use wavekat_sip.Auth.{AgentRsip, Credentials}
use wavekat_sip.Registration.{end_of}

pub record CallConfig : Type 0 where
  pub callee : Uri
  pub caller : Uri
  pub call_contact : Uri
  pub call_from_tag : Str
  pub invite_call : Str
  pub sdp : List ℕ
  pub extra_headers : List Header
  pub call_login : Str
  pub call_secret : Str

-- `creds_for_retry`.
abbrev pub call_creds : CallConfig → Credentials
call_creds cfg = record { username = cfg.call_login; password = cfg.call_secret }

pub data CallOutcome : Type 0 where
  answered : Dialog → Response → CallOutcome
  rejected : ℕ → CallOutcome
  unauthorized timed_out engine_stopped : CallOutcome

abbrev pub application_sdp : Str
application_sdp =
    b'a' ∷ b'p' ∷ b'p' ∷ b'l' ∷ b'i' ∷ b'c' ∷ b'a' ∷ b't' ∷ b'i' ∷ b'o' ∷ b'n' ∷ b'/' ∷ b's' ∷ b'd'
    ∷ b'p' ∷ []

abbrev pub sdp_headers : List ℕ → List Header
sdp_headers [] = []
sdp_headers (b ∷ bytes) = content_type application_sdp ∷ []

module _ (r : AgentRsip) where
  unfoldable pub build_invite : CallConfig → ℕ → Str → Str → Request
  build_invite cfg seq local_addr branch = record {
    method = invite;
    uri = cfg.callee;
    version = 2;
    headers =
        via (via_value (transport_of cfg.call_contact) local_addr branch)
        ∷ max_forwards r.dialogs.base.max_forwards_default
        ∷ from (r.dialogs.party_value (end_of cfg.caller (tag cfg.call_from_tag ∷ [])))
        ∷ to (r.dialogs.party_value (end_of cfg.callee []))
        ∷ contact (r.dialogs.contact_value cfg.call_contact)
        ∷ call_id cfg.invite_call
        ∷ cseq (r.dialogs.base.cseq_value (record { seq = seq; cseq_method = invite }))
        ∷ (cfg.extra_headers
            ++ (sdp_headers cfg.sdp
                ++ content_length (r.dialogs.length_value (length cfg.sdp % 2 ^ 32)) ∷ []));
    body = cfg.sdp;
  }

  -- The sequence number of a request, 1 if it does not read.
  unfoldable pub cseq_of : Request → ℕ
  cseq_of req = elim (r.dialogs.base.cseq_header req.headers >>= λ v. r.dialogs.base.typed_cseq v) [
    | none ↦ 1
    | some c ↦ c.seq
  ]

  unfoldable pub build_cancel : Request → Option Request
  unfolding cseq_of
  build_cancel inv = do
    sent_via ← r.dialogs.base.via_header inv.headers
    caller ← r.dialogs.base.from_header inv.headers
    callee ← r.dialogs.base.to_header inv.headers
    call_value ← r.dialogs.base.call_id_header inv.headers
    some (record {
      method = cancel;
      uri = inv.uri;
      version = 2;
      headers =
          via sent_via
          ∷ max_forwards r.dialogs.base.max_forwards_default
          ∷ from caller
          ∷ to callee
          ∷ call_id call_value
          ∷ cseq (r.dialogs.base.cseq_value (record { seq = cseq_of inv; cseq_method = cancel }))
          ∷ content_length r.dialogs.base.content_length_default
          ∷ [];
      body = [];
    })

-- ===== src/Registration.antt =====
-- crates/wavekat-sip/src/stack/registration.rs: the REGISTER request, the query without a contact,
-- and what a response grants. The local address is its text, the branch an argument.
use wavekat_sip.Base.{ℕ, List, [], ◌∷◌, Option, none, ◌>>=◌}
use wavekat_sip.Sip.{
  Str, Header, register, via, from, to, call_id, cseq, max_forwards, contact, expires,
  content_length, Param, tag, Uri, Request, Response,
}
use wavekat_sip.Transaction.Via.{transport_of, via_value}
use wavekat_sip.Dialog.{TypedParty}
use wavekat_sip.Auth.{AgentRsip, Credentials}

pub record RegisterConfig : Type 0 where
  pub registrar_uri : Uri
  pub aor : Uri
  pub contact_uri : Uri
  pub from_tag : Str
  pub register_call : Str
  pub lifetime : ℕ
  pub login : Str
  pub secret : Str

-- `creds_for_retry`.
abbrev pub register_creds : RegisterConfig → Credentials
register_creds cfg = record { username = cfg.login; password = cfg.secret }

pub data RegisterOutcome : Type 0 where
  registered : ℕ → RegisterOutcome
  unauthorized : RegisterOutcome
  interval_too_brief : ℕ → RegisterOutcome
  failed : ℕ → RegisterOutcome
  timed_out engine_stopped : RegisterOutcome

pub record RegisterAttempt : Type 0 where
  pub outcome : RegisterOutcome
  pub last_cseq : ℕ

pub data RegisterProbe : Type 0 where
  answered : ℕ → RegisterProbe
  probe_timed_out probe_stopped : RegisterProbe

-- An end of a request, with these parameters.
abbrev pub end_of : Uri → List Param → TypedParty
end_of uri params = record { party_name = none; party_uri = uri; party_params = params }

-- `retain(|h| !matches!(h, Header::Contact(_) | Header::Expires(_)))`.
unfoldable pub without_binding : List Header → List Header
without_binding [] = []
without_binding (contact v ∷ hs) = without_binding hs
without_binding (expires v ∷ hs) = without_binding hs
without_binding (h ∷ hs) = h ∷ without_binding hs

module _ (r : AgentRsip) where
  unfoldable pub build_register : RegisterConfig → ℕ → Str → Str → Request
  build_register cfg seq local_addr branch = record {
    method = register;
    uri = cfg.registrar_uri;
    version = 2;
    headers =
        via (via_value (transport_of cfg.contact_uri) local_addr branch)
        ∷ max_forwards r.dialogs.base.max_forwards_default
        ∷ from (r.dialogs.party_value (end_of cfg.aor (tag cfg.from_tag ∷ [])))
        ∷ to (r.dialogs.party_value (end_of cfg.aor []))
        ∷ contact (r.dialogs.contact_value cfg.contact_uri)
        ∷ call_id cfg.register_call
        ∷ cseq (r.dialogs.base.cseq_value (record { seq = seq; cseq_method = register }))
        ∷ expires (r.expires_value cfg.lifetime)
        ∷ content_length r.dialogs.base.content_length_default
        ∷ [];
    body = [];
  }

  unfoldable pub build_register_query : RegisterConfig → ℕ → Str → Str → Request
  unfolding build_register without_binding
  build_register_query cfg seq local_addr branch =
      let request = build_register cfg seq local_addr branch in
      record request { headers = without_binding request.headers }

  abbrev pub granted_expires : Response → Option ℕ
  granted_expires resp = r.expires_header resp.headers >>= λ v. r.seconds v

  abbrev pub min_expires : Response → Option ℕ
  min_expires resp = r.min_expires_header resp.headers >>= λ v. r.seconds v

-- ===== src/Tests/Agents.antt =====
-- A stand-in for what the user agent calls of rsip, a retry and a CANCEL.
use wavekat_sip.Base.{◌≡◌, refl, ◌⊎◌, arith, List, [], ◌∷◌, ◌++◌, Option, none, some, ◌>>=◌}
use wavekat_sip.Sip.{
  Str, Method, Header, Request, Response, Param, first_via, first_cseq, cancel, invite,
}
use wavekat_sip.Transaction.Key.{TransactionKey, from_request, invite_target, normalize}
use wavekat_sip.Auth.{AgentRsip, Credentials, WholeVia, without_branch, build_retry}
use wavekat_sip.Auth.Retry.{AgentLaws, branch_of, build_retry_lem}
use wavekat_sip.Call.{cseq_of, build_cancel}
use wavekat_sip.Call.Cancel.{build_cancel-targets}
use wavekat_sip.Tests.Fixtures.{rsip, rsip-RsipLaws, branch, uri, request_of, response_of}
use wavekat_sip.Tests.Answers.{tagging}

abbrev branch_text : Option Str → Str
branch_text none = []
branch_text (some b) = b

abbrev whole : Str → WholeVia
whole v = record { via_params = Param.branch v ∷ []; via_sent_by = []; via_rest = [] }

abbrev pub agent_rsip : AgentRsip
agent_rsip = record {
  dialogs = tagging;
  expires_header = λ hs. none;
  min_expires_header = λ hs. none;
  seconds = λ v. none;
  expires_value = λ n. n ∷ [];
  www_authenticate_header = λ hs. some [];
  typed_challenge =
      λ v. some (record { realm = v; nonce = 1 ∷ []; algorithm = none; opaque = none; qop = none });
  typed_proxy_challenge = λ v. none;
  authorization_value = λ a. a.response;
  proxy_authorization_value = λ a. a.response;
  compute = λ d. d.nonce ++ d.password;
  whole_via = λ v. some (whole v);
  whole_via_value = λ w. branch_text (branch_of w.via_params);
  unique_push = λ h hs. h ∷ hs;
  parse_uri = λ v. some uri;
}

kept_via :
    (h : Header) (hs : List Header) → first_via (h ∷ []) ≡ none → first_via (h ∷ hs) ≡ first_via hs
kept_via h hs e = ground arith

kept_cseq :
    (h : Header) (hs : List Header)
    → first_cseq (h ∷ []) ≡ none
    → first_cseq (h ∷ hs) ≡ first_cseq hs
kept_cseq h hs e = ground arith

pub agent_rsip-AgentLaws : AgentLaws agent_rsip
agent_rsip-AgentLaws = record {
  base_laws = rsip-RsipLaws;
  push_via = λ v hs. refl;
  push_cseq = λ v hs. refl;
  keep_via = kept_via;
  keep_cseq = kept_cseq;
  via_branch_first = λ raw w e. ground arith;
}

abbrev creds : Credentials
creds = record { username = 97 ∷ []; password = 5 ∷ [] }

abbrev challenged : Response
challenged = response_of Method.register 401

abbrev retried : Option Request
retried = build_retry agent_rsip (request_of Method.register) challenged creds (8 ∷ []) []

abbrev the_retry : Request
the_retry = elim retried [ some req ↦ req | none ↦ request_of Method.ack ]

retry_built : retried ≡ some the_retry
unfolding build_retry
retry_built = refl

build_retry_lem_example :
    ((challenged.status_code ≡ 401) ⊎ (challenged.status_code ≡ 407))
    × (from_request rsip the_retry
        ≡ some (record { key_branch = 8 ∷ []; key_sent_by = []; key_method = Method.register }))
    × ((rsip.cseq_header the_retry.headers >>= λ t. rsip.typed_cseq t)
        ≡ some (record { seq = 8; cseq_method = Method.register }))
    × (the_retry.method ≡ Method.register)
    × (the_retry.uri ≡ uri)
    × (the_retry.body ≡ [])
unfolding without_branch normalize
build_retry_lem_example =
    build_retry_lem agent_rsip agent_rsip-AgentLaws (request_of Method.register) challenged creds
      (8 ∷ []) [] {raw = branch} {raw_cseq = 7 ∷ 7 ∷ 0 ∷ []} {w = whole branch}
      {c = record { seq = 7; cseq_method = Method.register }} refl refl refl refl refl retry_built

abbrev cancelling : Option Request
cancelling = build_cancel agent_rsip (request_of invite)

abbrev pub the_cancel : Request
the_cancel = elim cancelling [ some req ↦ req | none ↦ request_of Method.ack ]

pub cancel_built : cancelling ≡ some the_cancel
unfolding build_cancel
cancel_built = refl

abbrev pub key : TransactionKey
key = record { key_branch = branch; key_sent_by = []; key_method = invite }

pub keyed : from_request rsip (request_of invite) ≡ some key
unfolding from_request
keyed = refl

pub numbered : cseq_of agent_rsip (request_of invite) ≡ 7
unfolding cseq_of
numbered = refl

build_cancel-targets_example :
    (k : TransactionKey) × (from_request rsip the_cancel ≡ some k)
    × (k.key_method ≡ cancel)
    × (invite_target k ≡ key)
    × ((rsip.cseq_header the_cancel.headers >>= λ t. rsip.typed_cseq t)
        ≡ some (record { seq = cseq_of agent_rsip (request_of invite); cseq_method = cancel }))
    × (the_cancel.uri ≡ uri)
    × (the_cancel.body ≡ [])
build_cancel-targets_example =
    build_cancel-targets agent_rsip rsip-RsipLaws (request_of invite) refl keyed
      (omega (arith, numbered)) cancel_built

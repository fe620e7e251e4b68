-- ===== src/Auth.antt =====
-- crates/wavekat-sip/src/stack/auth.rs: the request that answers a digest challenge. What the user
-- agent calls of rsip beyond dialogs is the record `AgentRsip`, the digest computation included. The
-- branch and the client nonce that `gen_branch` and `gen_cnonce` draw are arguments.
pub mod Retry
use wavekat_sip.Base.{
  ℕ, ◌+◌, ◌%◌, ◌^◌, List, [], ◌∷◌, ◌++◌, Option, none, some, ◌>>=◌, ◌==◌, if◌then◌else◌,
}
use wavekat_sip.Sip.{
  Str, Method, Header, via, cseq, proxy_authenticate, authorization, proxy_authorization, Param,
  branch, Uri, Request, Response, TypedCseq,
}
use wavekat_sip.Dialog.{DialogRsip}

pub record Credentials : Type 0 where
  pub username : Str
  pub password : Str

pub data Algorithm : Type 0 where
  md5 : Algorithm
  other_algorithm : ℕ → Algorithm

-- `AuthQop::Auth`.
pub record AuthQop : Type 0 where
  pub cnonce : Str
  pub nc : ℕ

-- `rsip::headers::typed::WwwAuthenticate`; `qop` is the text of what the server offers.
pub record Challenge : Type 0 where
  pub realm : Str
  pub nonce : Str
  pub algorithm : Option Algorithm
  pub opaque : Option Str
  pub qop : Option Str

-- `rsip::services::DigestGenerator`.
pub record Digest : Type 0 where
  pub username : Str
  pub password : Str
  pub nonce : Str
  pub uri : Uri
  pub realm : Str
  pub method : Method
  pub qop : Option AuthQop
  pub algorithm : Algorithm

-- `rsip::headers::typed::Authorization`, whose scheme is always `Digest`.
pub record Authorization : Type 0 where
  pub username : Str
  pub realm : Str
  pub nonce : Str
  pub uri : Uri
  pub response : Str
  pub algorithm : Option Algorithm
  pub opaque : Option Str
  pub qop : Option AuthQop

-- `rsip::typed::Via`: its parameters, its `sent_by` and the rest.
pub record WholeVia : Type 0 where
  pub via_params : List Param
  pub via_sent_by : Str
  pub via_rest : Str

pub record AgentRsip : Type 0 where
  pub dialogs : DialogRsip
  pub expires_header : List Header → Option Str
  pub min_expires_header : List Header → Option Str
  pub seconds : Str → Option ℕ
  pub expires_value : ℕ → Str
  pub www_authenticate_header : List Header → Option Str
  pub typed_challenge : Str → Option Challenge
  pub typed_proxy_challenge : Str → Option Challenge
  pub authorization_value : Authorization → Str
  pub proxy_authorization_value : Authorization → Str
  pub compute : Digest → Str
  pub whole_via : Str → Option WholeVia
  pub whole_via_value : WholeVia → Str
  pub unique_push : Header → List Header → List Header
  pub parse_uri : Str → Option Uri

pub data ChallengeKind : Type 0 where
  www : ChallengeKind
  proxy : ChallengeKind

-- The `find_map` of the 407.
unfoldable pub proxy_authenticate_header : List Header → Option Str
proxy_authenticate_header [] = none
proxy_authenticate_header (proxy_authenticate v ∷ hs) = some v
proxy_authenticate_header (h ∷ hs) = proxy_authenticate_header hs

-- `retain(|p| !matches!(p, Param::Branch(_)))`.
unfoldable pub without_branch : List Param → List Param
without_branch [] = []
without_branch (branch b ∷ ps) = without_branch ps
without_branch (p ∷ ps) = p ∷ without_branch ps

module _ (r : AgentRsip) where
  unfoldable pub extract_challenge : Response → Option (ChallengeKind × Challenge)
  unfolding proxy_authenticate_header
  extract_challenge resp =
      let from_www : Option (ChallengeKind × Challenge) = (do
        value ← r.www_authenticate_header resp.headers
        challenge ← r.typed_challenge value
        some (www, challenge)) in
      let from_proxy : Option (ChallengeKind × Challenge) = (do
        value ← proxy_authenticate_header resp.headers
        challenge ← r.typed_proxy_challenge value
        some (proxy, challenge)) in
      if resp.status_code == 401
      then from_www
      else if resp.status_code == 407
      then from_proxy
      else none

  abbrev pub algorithm_of : Option Algorithm → Algorithm
  algorithm_of none = md5
  algorithm_of (some a) = a

  abbrev pub answer_qop : Option Str → Str → Option AuthQop
  answer_qop none cnonce = none
  answer_qop (some offered) cnonce = some (record { cnonce = cnonce; nc = 1 })

  unfoldable pub build_authorization : Challenge → Credentials → Method → Uri → Str → Authorization
  build_authorization challenge creds method uri cnonce =
      let algorithm = algorithm_of challenge.algorithm in
      let qop = answer_qop challenge.qop cnonce in
      let response = r.compute (record {
        username = creds.username;
        password = creds.password;
        nonce = challenge.nonce;
        uri = uri;
        realm = challenge.realm;
        method = method;
        qop = qop;
        algorithm = algorithm;
      }) in
      record {
        username = creds.username;
        realm = challenge.realm;
        nonce = challenge.nonce;
        uri = uri;
        response = response;
        algorithm = some algorithm;
        opaque = challenge.opaque;
        qop = qop;
      }

  unfoldable pub bump_via_branch : Str → Request → Option Request
  unfolding without_branch
  bump_via_branch fresh req = do
    raw ← r.dialogs.base.via_header req.headers
    typed ← r.whole_via raw
    let bumped : WholeVia = record typed {
      via_params = without_branch typed.via_params ++ branch fresh ∷ [];
    }
    some (record req { headers = r.unique_push (via (r.whole_via_value bumped)) req.headers })

  unfoldable pub bump_cseq : Request → Option Request
  bump_cseq req = do
    raw ← r.dialogs.base.cseq_header req.headers
    typed ← r.dialogs.base.typed_cseq raw
    let next : TypedCseq = record typed { seq = (typed.seq + 1) % 2 ^ 32 }
    some
        (record req { headers = r.unique_push (cseq (r.dialogs.base.cseq_value next)) req.headers })

  abbrev pub answer_header : ChallengeKind → Authorization → Header
  answer_header www a = authorization (r.authorization_value a)
  answer_header proxy a = proxy_authorization (r.proxy_authorization_value a)

  unfoldable pub build_retry : Request → Response → Credentials → Str → Str → Option Request
  unfolding extract_challenge build_authorization bump_via_branch bump_cseq
  build_retry original resp creds fresh cnonce = do
    (kind, challenge) ← extract_challenge resp
    let answer = build_authorization challenge creds original.method original.uri cnonce
    sent_via ← bump_via_branch fresh original
    retry ← bump_cseq sent_via
    some (record retry { headers = r.unique_push (answer_header kind answer) retry.headers })

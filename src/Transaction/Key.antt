-- ===== src/Transaction/Key.antt =====
-- `TransactionKey` of crates/wavekat-sip/src/stack/transaction/mod.rs.
use wavekat_sip.Base.{Bool, ◌&&◌, List, Option, some, ◌>>=◌, text_eq}
use wavekat_sip.Sip.{Str, Method, ack, invite, method_eq, Header, Request, Response, Rsip}

pub record TransactionKey : Type 0 where
  pub key_branch : Str
  pub key_sent_by : Str
  pub key_method : Method

-- `==` on keys.
abbrev pub key_eq : TransactionKey → TransactionKey → Bool
key_eq x y =
    text_eq x.key_branch y.key_branch
    && (text_eq x.key_sent_by y.key_sent_by && method_eq x.key_method y.key_method)

-- `normalize`: an ACK is matched as an INVITE.
unfoldable pub normalize : Method → Method
normalize ack = invite
normalize other = other

-- `TransactionKey::invite_target`.
unfoldable pub invite_target : TransactionKey → TransactionKey
invite_target key = record key { key_method = invite }

module _ (r : Rsip) where
  -- `TransactionKey::build`, from the headers of a message.
  unfoldable pub build : List Header → Method → Option TransactionKey
  build headers method = do
    raw ← r.via_header headers
    via ← r.typed_via raw
    branch ← via.via_branch
    some (record { key_branch = branch; key_sent_by = via.sent_by; key_method = method })

  unfoldable pub from_request : Request → Option TransactionKey
  unfolding build normalize
  from_request req = build req.headers (normalize req.method)

  unfoldable pub from_response : Response → Option TransactionKey
  unfolding build normalize
  from_response resp = do
    raw ← r.cseq_header resp.headers
    cseq ← r.typed_cseq raw
    build resp.headers (normalize cseq.cseq_method)

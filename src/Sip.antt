-- ===== src/Sip.antt =====
-- SIP messages as the crate sees them through rsip, which is not part of the repository. The shapes
-- are those that the sources build and match on: `Request`, `Response`, `Header`, `Uri` and `Param`
-- with the fields and variants that they name, and one variant for all the others. A text is the
-- list of its code points, a body the list of its bytes. What rsip computes (finding a header,
-- parsing and printing a header's value) is the record `Rsip`, a parameter of everything that uses
-- it.
use wavekat_sip.Base.{ℕ, ◌<◌, ◌^◌, ◌≡◌, Bool, List, [], ◌∷◌, Option, none, some, ◌==◌}

abbrev pub Str : Type 0
Str = List ℕ

-- `rsip::Method`, a field-less enum: the variants that the crate names, and the others.
pub data Method : Type 0 where
  ack bye cancel info invite notify refer register : Method
  other_method : ℕ → Method

pub data UriTransport : Type 0 where
  udp tcp tls sctp tls_sctp other_transport : UriTransport

pub data Param : Type 0 where
  transport : UriTransport → Param
  tag : Str → Param
  branch : Str → Param
  other_param : Str → Str → Param

pub data Scheme : Type 0 where
  sip sips other_scheme : Scheme

-- `rest` stands for the parts of a URI that the crate only copies.
pub record Uri : Type 0 where
  pub scheme : Option Scheme
  pub host_with_port : Str
  pub params : List Param
  pub rest : Str

-- A header and its untyped value.
pub data Header : Type 0 where
  via from to call_id cseq route record_route max_forwards : Str → Header
  contact content_type content_length expires supported require user_agent : Str → Header
  proxy_authenticate authorization proxy_authorization : Str → Header
  other_header : Str → Str → Header

pub record Request : Type 0 where
  pub method : Method
  pub uri : Uri
  pub version : ℕ
  pub headers : List Header
  pub body : Str

-- `status_code` is the number that `status_code().code()` returns.
pub record Response : Type 0 where
  pub status_code : ℕ
  pub version : ℕ
  pub headers : List Header
  pub body : Str

pub data SipMessage : Type 0 where
  request : Request → SipMessage
  response : Response → SipMessage

-- What `Via::typed` gives: its `branch` and the text of `sent_by().host_with_port`.
pub record TypedVia : Type 0 where
  pub via_branch : Option Str
  pub sent_by : Str

pub record TypedCseq : Type 0 where
  pub seq : ℕ
  pub cseq_method : Method

-- The functions of rsip that the crate calls; `none` is its error.
pub record Rsip : Type 0 where
  pub via_header : List Header → Option Str
  pub from_header : List Header → Option Str
  pub to_header : List Header → Option Str
  pub call_id_header : List Header → Option Str
  pub cseq_header : List Header → Option Str
  pub typed_via : Str → Option TypedVia
  pub typed_cseq : Str → Option TypedCseq
  pub cseq_value : TypedCseq → Str
  pub max_forwards_default : Str
  pub content_length_default : Str

-- The first header of a kind.
abbrev pub first_via : List Header → Option Str
first_via [] = none
first_via (via v ∷ hs) = some v
first_via (h ∷ hs) = first_via hs

abbrev pub first_to : List Header → Option Str
first_to [] = none
first_to (to v ∷ hs) = some v
first_to (h ∷ hs) = first_to hs

abbrev pub first_cseq : List Header → Option Str
first_cseq [] = none
first_cseq (cseq v ∷ hs) = some v
first_cseq (h ∷ hs) = first_cseq hs

-- Documented behaviour of rsip: an accessor returns the first header of its kind, and a typed
-- `CSeq` with a 32-bit number reads back from its text.
pub record RsipLaws (r : Rsip) : Type 0 where
  pub via_first : (hs : List Header) → r.via_header hs ≡ first_via hs
  pub to_first : (hs : List Header) → r.to_header hs ≡ first_to hs
  pub cseq_first : (hs : List Header) → r.cseq_header hs ≡ first_cseq hs
  pub cseq_round_trip : (c : TypedCseq) → c.seq < 2 ^ 32 → r.typed_cseq (r.cseq_value c) ≡ some c

abbrev pub method_code : Method → ℕ
method_code ack = 0
method_code bye = 1
method_code cancel = 2
method_code info = 3
method_code invite = 4
method_code notify = 5
method_code refer = 6
method_code register = 7
method_code (other_method n) = 8

-- `==` on methods.
abbrev pub method_eq : Method → Method → Bool
method_eq (other_method m) (other_method n) = m == n
method_eq m n = method_code m == method_code n

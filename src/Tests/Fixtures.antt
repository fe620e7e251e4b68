-- ===== src/Tests/Fixtures.antt =====
-- A small stand-in for rsip, and messages.
use wavekat_sip.Base.{ℕ, ◌≡◌, refl, ◌==◌, if◌then◌else◌, List, [], ◌∷◌, Option, none, some}
use wavekat_sip.Sip.{
  Str, Method, ack, bye, cancel, info, invite, notify, refer, register, other_method, method_code,
  Uri, sip, Header, via, from, to, call_id, cseq, Request, Response, TypedCseq, Rsip, RsipLaws,
  first_via, first_to, first_cseq,
}

abbrev first_from : List Header → Option Str
first_from [] = none
first_from (from v ∷ hs) = some v
first_from (h ∷ hs) = first_from hs

abbrev first_call_id : List Header → Option Str
first_call_id [] = none
first_call_id (call_id v ∷ hs) = some v
first_call_id (h ∷ hs) = first_call_id hs

abbrev other_code : Method → ℕ
other_code (other_method n) = n
other_code m = 0

abbrev method_from : ℕ → ℕ → Method
method_from m n =
    if m == 0
    then ack
    else if m == 1
    then bye
    else if m == 2
    then cancel
    else if m == 3
    then info
    else if m == 4
    then invite
    else if m == 5
    then notify
    else if m == 6
    then refer
    else if m == 7
    then register
    else other_method n

abbrev read_cseq : Str → Option TypedCseq
read_cseq (seq ∷ code ∷ other ∷ []) =
    some (record { seq = seq; cseq_method = method_from code other })
read_cseq _ = none

-- A `Via` is its branch, a `CSeq` its number and its method.
abbrev pub rsip : Rsip
rsip = record {
  via_header = first_via;
  from_header = first_from;
  to_header = first_to;
  call_id_header = first_call_id;
  cseq_header = first_cseq;
  typed_via = λ v. some (record { via_branch = some v; sent_by = [] });
  typed_cseq = read_cseq;
  cseq_value = λ c. c.seq ∷ method_code (c.cseq_method) ∷ other_code (c.cseq_method) ∷ [];
  max_forwards_default = 70 ∷ [];
  content_length_default = 0 ∷ [];
}

cseq_reads :
    (n : ℕ) (m : Method)
    → read_cseq (n ∷ method_code m ∷ other_code m ∷ []) ≡ some (record { seq = n; cseq_method = m })
cseq_reads n ack = refl
cseq_reads n bye = refl
cseq_reads n cancel = refl
cseq_reads n info = refl
cseq_reads n invite = refl
cseq_reads n notify = refl
cseq_reads n refer = refl
cseq_reads n register = refl
cseq_reads n (other_method x) = refl

pub rsip-RsipLaws : RsipLaws rsip
rsip-RsipLaws = record {
  via_first = λ hs. refl;
  to_first = λ hs. refl;
  cseq_first = λ hs. refl;
  cseq_round_trip = λ c small. cseq_reads (c.seq) (c.cseq_method);
}

abbrev pub branch : Str
branch = b'z' ∷ b'1' ∷ []

abbrev pub headers : Method → List Header
headers m =
    via branch
    ∷ from (97 ∷ [])
    ∷ to (98 ∷ [])
    ∷ call_id (99 ∷ [])
    ∷ cseq (7 ∷ method_code m ∷ 0 ∷ [])
    ∷ []

abbrev pub uri : Uri
uri = record { scheme = some sip; host_with_port = []; params = []; rest = [] }

abbrev pub request_of : Method → Request
request_of m = record { method = m; uri = uri; version = 2; headers = headers m; body = [] }

abbrev pub response_of : Method → ℕ → Response
response_of m code = record { status_code = code; version = 2; headers = headers m; body = [] }

abbrev pub busy : Response
busy = response_of invite 486

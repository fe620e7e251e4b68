-- ===== src/Dialog/Identity.antt =====
-- crates/wavekat-sip/src/stack/dialog.rs: the two sides of a call hold one dialog, and each finds it
-- by the other's requests.
use mathlib.Core.List.{reverse}
use wavekat_sip.Base.{ℕ, ◌≡◌, sym, ap, ◌∙◌, List, [], ◌∷◌, Option, none, some, ◌>>=◌, arith}
use wavekat_sip.Sip.{Str, Method, Header, from, call_id, Request, Response, Uri, RsipLaws}
use wavekat_sip.Dialog.{
  DialogRsip, TypedParty, DialogId, Dialog, tag_of, id, tagged, collect_routes, id_from_request,
  uac, uas, compose,
}

abbrev pub first_from : List Header → Option Str
first_from [] = none
first_from (from v ∷ hs) = some v
first_from (h ∷ hs) = first_from hs

abbrev pub first_call_id : List Header → Option Str
first_call_id [] = none
first_call_id (call_id v ∷ hs) = some v
first_call_id (h ∷ hs) = first_call_id hs

-- Documented behaviour of rsip: accessors return the first header of their kind, and `tag` the first
-- tag parameter.
pub record DialogLaws (r : DialogRsip) : Type 0 where
  pub base_laws : RsipLaws r.base
  pub from_first : (hs : List Header) → r.base.from_header hs ≡ first_from hs
  pub call_id_first : (hs : List Header) → r.base.call_id_header hs ≡ first_call_id hs
  pub tag_first : (p : TypedParty) → r.party_tag p ≡ tag_of p.party_params

-- The two ends of a dialog, with their tags, read back from the texts that rsip prints.
abbrev pub IsReadable : DialogRsip → Dialog → Type 0
IsReadable r d =
    (r.typed_party (r.party_value (tagged d.local)) ≡ some (tagged d.local))
    × (r.typed_party (r.party_value (tagged d.remote)) ≡ some (tagged d.remote))

-- The dialog as the peer names it.
abbrev pub mirror : DialogId → DialogId
mirror i = record { id_call = i.id_call; local_tag = i.remote_tag; remote_tag = i.local_tag }

-- The tag of a response's `To`.
abbrev pub answer_tag : DialogRsip → Response → Option Str
answer_tag r resp = do
  raw_to ← r.base.to_header resp.headers
  typed_to ← r.typed_party raw_to
  tag_of typed_to.party_params

module _ (r : DialogRsip) (laws : DialogLaws r) where
  pub id_from_request-compose :
      (d : Dialog) (branch : Str) (method : Method) (seq : ℕ) (extra : List Header) (body : List ℕ)
      → IsReadable r d
      → id_from_request r (compose r d branch method seq extra body) ≡ some (mirror (id d))
  unfolding id_from_request compose tag_of
  id_from_request-compose d branch method seq extra body (local_reads, remote_reads) = rw (
    laws.base_laws.to_first,
    laws.from_first,
    laws.call_id_first,
    remote_reads,
    local_reads,
    laws.tag_first (tagged d.remote),
    laws.tag_first (tagged d.local),
  )

  sides_mirror :
      (inv : Request) (resp : Response) (our_tag : Str) (c c' : Uri) (d d' : Dialog)
      → uac r inv resp c ≡ some d
      → uas r inv our_tag c' ≡ some d'
      → answer_tag r resp ≡ some our_tag
      → id d ≡ mirror (id d')
  unfolding uac uas
  sides_mirror inv resp our_tag c c' d d' built built' tagged_by = grind arith

  -- The caller builds its dialog from its INVITE and the answer, the callee from that INVITE and the
  -- tag that it puts on the answer, and the ends of both dialogs read back from their texts. Then both hold one dialog, with the tags the other way round;
  -- every in-dialog request of the callee names the caller's dialog and every one of the caller the
  -- callee's.
  pub sides_find_each_other :
      (inv : Request) (resp : Response) (our_tag : Str) (c c' : Uri) (d d' : Dialog) (branch : Str)
      (method : Method) (seq : ℕ) (extra : List Header) (body : List ℕ)
      → uac r inv resp c ≡ some d
      → uas r inv our_tag c' ≡ some d'
      → answer_tag r resp ≡ some our_tag
      → IsReadable r d
      → IsReadable r d'
      → (id d ≡ mirror (id d'))
        × (id_from_request r (compose r d' branch method seq extra body) ≡ some (id d))
        × (id_from_request r (compose r d branch method seq extra body) ≡ some (id d'))
  sides_find_each_other inv resp our_tag c c' d d' branch method seq extra body built built'
        tagged_by reads reads' =
      let m = sides_mirror inv resp our_tag c c' d d' built built' tagged_by in
      (
        m,
        id_from_request-compose d' branch method seq extra body reads' ∙ ap some (sym m),
        id_from_request-compose d branch method seq extra body reads ∙ ap (λ i. some (mirror i)) m,
      )

-- When the answer repeats the record route of the INVITE, the caller's route set is the callee's
-- backwards.
pub route_sets_mirror :
    (r : DialogRsip) (inv : Request) (resp : Response) (our_tag : Str) (c c' : Uri) (d d' : Dialog)
    → uac r inv resp c ≡ some d
    → uas r inv our_tag c' ≡ some d'
    → collect_routes r resp.headers ≡ collect_routes r inv.headers
    → d.route_set ≡ reverse d'.route_set
unfolding uac uas
route_sets_mirror r inv resp our_tag c c' d d' built built' same = grind arith

-- ===== src/Dialog/Requests.antt =====
-- crates/wavekat-sip/src/stack/dialog.rs: the requests that one side sends in a dialog.
use wavekat_sip.Base.{
  ℕ, ◌+◌, ◌%◌, ◌^◌, ◌<◌, ◌≡◌, refl, List, [], ◌∷◌, Option, some, ◌>>=◌, arith, length,
}
use wavekat_sip.Sip.{Str, Method, Header, Request, Uri, TypedCseq, RsipLaws}
use wavekat_sip.Dialog.{DialogRsip, Dialog, id, compose, new_request_with}

-- One call of `new_request_with`.
pub record Draft : Type 0 where
  pub branch : Str
  pub draft_method : Method
  pub extra : List Header
  pub content : List ℕ

module _ (r : DialogRsip) where
  -- Several requests in a row.
  abbrev pub send_all : Dialog → List Draft → Dialog × List Request
  send_all d [] = (d, [])
  send_all d (x ∷ xs) =
      let (d', req) = new_request_with r d x.branch x.draft_method x.extra x.content in
      let (last, reqs) = send_all d' xs in (last, req ∷ reqs)

  -- The `CSeq` of a request.
  abbrev pub cseq_of : Request → Option TypedCseq
  cseq_of req = do raw ← r.base.cseq_header req.headers; r.base.typed_cseq raw

  -- The requests are numbered from `n + 1` on, carry the drafts' methods and bodies, and go to
  -- `target`.
  abbrev pub IsNumbered : Uri → ℕ → List Draft → List Request → Type 0
  IsNumbered target n [] reqs = reqs ≡ []
  IsNumbered target n (x ∷ xs) [] = ⊥
  IsNumbered target n (x ∷ xs) (req ∷ reqs) =
      (cseq_of req ≡ some (record { seq = n + 1; cseq_method = x.draft_method }))
      × (req.method ≡ x.draft_method)
      × (req.body ≡ x.content)
      × (req.uri ≡ target)
      × IsNumbered target (n + 1) xs reqs

  cseq_of-compose :
      RsipLaws r.base
      → (d : Dialog) (x : Draft) (n : ℕ) → n < 2 ^ 32
      → cseq_of (compose r d x.branch x.draft_method n x.extra x.content)
        ≡ some (record { seq = n; cseq_method = x.draft_method })
  unfolding compose
  cseq_of-compose laws d x n small = rw (
    laws.cseq_first,
    laws.cseq_round_trip (record { seq = n; cseq_method = x.draft_method }) small,
  )

  -- The requests of one side are numbered without a gap after the last one sent, as long as the
  -- numbers fit 32 bits, each with the method and the body asked for and addressed to the remote
  -- target; the dialog's name, target and route set stay.
  pub send_all-IsNumbered :
      RsipLaws r.base
      → (d : Dialog) (xs : List Draft) → d.local_seq + length xs < 2 ^ 32
      → IsNumbered d.remote_target d.local_seq xs (send_all d xs).1
        × (id (send_all d xs).0 ≡ id d)
        × ((send_all d xs).0.route_set ≡ d.route_set)
        × ((send_all d xs).0.local_seq ≡ d.local_seq + length xs)
  unfolding new_request_with compose
  send_all-IsNumbered laws d [] small = (refl, refl, refl, omega arith)
  send_all-IsNumbered laws d (x ∷ xs) small =
      let next : (d.local_seq + 1) % 2 ^ 32 ≡ d.local_seq + 1 = omega arith in
      let d' : Dialog = record d { local_seq = d.local_seq + 1 } in
      let ih = send_all-IsNumbered laws d' xs (omega arith) in
      rw next (
        (cseq_of-compose laws d x (d.local_seq + 1) (omega arith), refl, refl, refl, ih.0),
        ih.1,
        ih.2,
        omega (arith, ih.3),
      )

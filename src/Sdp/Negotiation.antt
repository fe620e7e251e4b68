-- ===== src/Sdp/Negotiation.antt =====
-- crates/wavekat-sip/src/sdp.rs: `select_codec` and `select_dtmf` on what `parse_sdp` gives.
use wavekat_sip.Base.{
  ℕ, ◌≡◌, refl, ◌⊎◌, inl, inr, Option-cases, Bool-cases, true, false, arith, List, [], ◌∷◌, Option,
  none, some, All,
}
use wavekat_sip.Sdp.{AudioCodec, pcmu, pcma, opus, RemoteMedia, RtpMap, select_codec}
use wavekat_sip.Sdp.Parse.{resolve, first_codec, is_opus, first_opus}

abbrev pub IsIn : ℕ → List ℕ → Type 0
IsIn n [] = ⊥
IsIn n (m ∷ ms) = (n ≡ m) ⊎ IsIn n ms

-- The first payload type that resolves is this codec.
abbrev pub IsFirst : List RtpMap → AudioCodec → List ℕ → Type 0
IsFirst maps codec [] = ⊥
IsFirst maps codec (pt ∷ pts) =
    (resolve maps pt ≡ some codec) ⊎ ((resolve maps pt ≡ none) × IsFirst maps codec pts)

-- What the policy allows to select of these payload types.
abbrev pub IsSelected : List RtpMap → List ℕ → Option AudioCodec → Type 0
IsSelected maps pts none = All (λ pt. resolve maps pt ≡ none) pts
IsSelected maps pts (some (opus pt)) = IsIn pt pts × (resolve maps pt ≡ some (opus pt))
IsSelected maps pts (some codec) =
    All (λ pt. is_opus (resolve maps pt) ≡ false) pts × IsFirst maps codec pts

resolve-opus :
    (maps : List RtpMap) (pt : ℕ)
    → is_opus (resolve maps pt) ≡ true
    → resolve maps pt ≡ some (opus pt)
unfolding resolve
resolve-opus maps pt e = ground arith

first_opus-cases :
    (maps : List RtpMap) (pts : List ℕ)
    → ((pt : ℕ) × (first_opus maps pts ≡ some pt)
        × IsIn pt pts
        × (resolve maps pt ≡ some (opus pt)))
      ⊎ ((first_opus maps pts ≡ none) × All (λ pt. is_opus (resolve maps pt) ≡ false) pts)
unfolding first_opus
first_opus-cases maps [] = inr (refl, ground arith)
first_opus-cases maps (pt ∷ pts) = elim (Bool-cases (is_opus (resolve maps pt))) [
  | inl e ↦ inl (pt, ground (arith, e), inl refl, resolve-opus maps pt e)
  | inr e ↦ elim (first_opus-cases maps pts) [
    | inl (q, is, listed, r) ↦ inl (q, ground (arith, e, is), inr listed, r)
    | inr (is, rest) ↦ inr (ground (arith, e, is), (e, rest))
  ]
]

first_codec-cases :
    (maps : List RtpMap) (pts : List ℕ)
    → ((codec : AudioCodec) × (first_codec maps pts ≡ some codec) × IsFirst maps codec pts)
      ⊎ ((first_codec maps pts ≡ none) × All (λ pt. resolve maps pt ≡ none) pts)
unfolding first_codec
first_codec-cases maps [] = inr (refl, ground arith)
first_codec-cases maps (pt ∷ pts) = elim (Option-cases (resolve maps pt)) [
  | inr (codec, e) ↦ inl (codec, ground (arith, e), inl e)
  | inl e ↦ elim (first_codec-cases maps pts) [
    | inl (codec, is, first) ↦ inl (codec, ground (arith, e, is), inr (e, first))
    | inr (is, rest) ↦ inr (ground (arith, e, is), (e, rest))
  ]
]

IsFirst-opus :
    (maps : List RtpMap) (q : ℕ) (pts : List ℕ)
    → All (λ pt. is_opus (resolve maps pt) ≡ false) pts
    → IsFirst maps (opus q) pts
    → ⊥
IsFirst-opus maps q [] all first = elim first [ ]
IsFirst-opus maps q (pt ∷ pts) (e, all) (inl is) = ground arith
IsFirst-opus maps q (pt ∷ pts) (e, all) (inr (_, first)) = IsFirst-opus maps q pts all first

IsSelected-first :
    (maps : List RtpMap) (pts : List ℕ) (codec : AudioCodec)
    → All (λ pt. is_opus (resolve maps pt) ≡ false) pts
    → IsFirst maps codec pts
    → IsSelected maps pts (some codec)
IsSelected-first maps pts pcmu none_opus first = (none_opus, first)
IsSelected-first maps pts pcma none_opus first = (none_opus, first)
IsSelected-first maps pts (opus q) none_opus first =
    absurd (IsFirst-opus maps q pts none_opus first)

-- The selection over the payload types and mappings that a body was scanned into.
pub select_codec-IsSelected :
    (m : RemoteMedia) (maps : List RtpMap) (pts : List ℕ)
    → m.opus_payload_type ≡ first_opus maps pts
    → m.codec ≡ first_codec maps pts
    → IsSelected maps pts (select_codec m)
unfolding select_codec
select_codec-IsSelected m maps pts opus_is codec_is = elim (first_opus-cases maps pts) [
  | inl (pt, is, listed, r) ↦ rw (opus_is, is) (listed, r)
  | inr (is, none_opus) ↦ elim (first_codec-cases maps pts) [
    | inl (codec, is', first) ↦
        rw (opus_is, is, codec_is, is') (IsSelected-first maps pts codec none_opus first)
    | inr (is', all) ↦ rw (opus_is, is, codec_is, is') all
  ]
]

-- ===== src/Refer/Replaces.antt =====
-- crates/wavekat-sip/src/refer.rs with stack/dialog.rs: which dialog an attended transfer names.
use wavekat_sip.Base.{
  ℕ, ◌+◌, ◌*◌, ◌/◌, ◌%◌, ◌<◌, ◌≡◌, refl, ap, inl, inr, Bool-cases, true, false, ◌||◌, arith, [],
  ◌∷◌, ◌++◌, Option, none, some, ◌>>=◌, ◌==◌, if◌then◌else◌, All,
}
use wavekat_sip.Sip.{Str, other_header}
use wavekat_sip.Account.{hex_value}
use wavekat_sip.Dialog.{DialogId}
use wavekat_sip.Dialog.Identity.{mirror}
use wavekat_sip.Refer.{
  dialog_triplet, refer_to, to_tag, from_tag, query, is_unreserved, upper_hex,
  escape_uri_header_value, refer_to_with_replaces,
}

-- The bytes that a percent-escaped text stands for.
abbrev pub unescape : Str → Option Str
unescape [] = some []
unescape (c ∷ []) = if c == b'%' then none else some (c ∷ [])
unescape (c ∷ d ∷ []) = if c == b'%' then none else (do rest ← unescape (d ∷ []); some (c ∷ rest))
unescape (c ∷ d ∷ e ∷ s) =
    let plain : Option Str = (do rest ← unescape (d ∷ e ∷ s); some (c ∷ rest)) in
    let escaped : Option Str = (do
      hi ← hex_value d
      lo ← hex_value e
      rest ← unescape s
      some ((hi * 16 + lo) ∷ rest)) in
    if c == b'%' then escaped else plain

unescape-plain :
    (c : ℕ) (s : Str)
    → (c == b'%') ≡ false
    → unescape (c ∷ s) ≡ (unescape s >>= λ rest. some (c ∷ rest))
unescape-plain c [] e = ground (arith, e)
unescape-plain c (d ∷ []) e = ground (arith, e)
unescape-plain c (d ∷ x ∷ s) e = ground (arith, e)

hex_value-upper_hex : (n : ℕ) → n < 16 → hex_value (upper_hex n) ≡ some n
unfolding hex_value
hex_value-upper_hex n h = ground arith

abbrev pub IsByte : ℕ → Type 0
IsByte b = b < 256

unescape-escape : (s : Str) → All IsByte s → unescape (escape_uri_header_value s) ≡ some s
unfolding escape_uri_header_value
unescape-escape [] h = refl
unescape-escape (b ∷ s) (small, all) = elim (Bool-cases (is_unreserved b)) [
  | inl e ↦
      let no_percent : (b == b'%') ≡ false = ground (arith, e) in
      rw (e, unescape-plain b (escape_uri_header_value s) no_percent, unescape-escape s all) refl
  | inr e ↦
      let whole : b / 16 * 16 + b % 16 ≡ b = omega arith in
      rw (
        e,
        hex_value-upper_hex (b / 16) (omega arith),
        hex_value-upper_hex (b % 16) (omega arith),
        unescape-escape s all,
        whole,
      )
]

-- A character that needs no escape in a URI, or the escape itself.
abbrev pub IsSafe : ℕ → Type 0
IsSafe b = (is_unreserved b || b == b'%') ≡ true

upper_hex-IsSafe : (n : ℕ) → n < 16 → IsSafe (upper_hex n)
upper_hex-IsSafe n h = ground arith

escape-IsSafe : (s : Str) → All IsByte s → All IsSafe (escape_uri_header_value s)
unfolding escape_uri_header_value
escape-IsSafe [] h = ground arith
escape-IsSafe (b ∷ s) (small, all) = elim (Bool-cases (is_unreserved b)) [
  | inl e ↦ rw e (ground (arith, e), escape-IsSafe s all)
  | inr e ↦ rw e (
    refl,
    (
      upper_hex-IsSafe (b / 16) (omega arith),
      (upper_hex-IsSafe (b % 16) (omega arith), escape-IsSafe s all),
    ),
  )
]

-- A dialog as RFC 3891 names it to the peer that holds it.
abbrev pub replaces_of : DialogId → Str
replaces_of i = i.id_call ++ (to_tag ++ (i.local_tag ++ (from_tag ++ i.remote_tag)))

-- The target of an attended transfer holds the consultation dialog with the tags the other way round,
-- and its name is of bytes. Then the Refer-To header has, after the target's URI, an escaped text of
-- characters that a URI header may have; unescaped it is that dialog as the target names it.
pub refer_to_with_replaces-names :
    (target : Str) (ours theirs : DialogId)
    → ours ≡ mirror theirs
    → All IsByte (replaces_of theirs)
    → (escaped : Str) × (refer_to_with_replaces target (dialog_triplet ours)
        ≡ other_header refer_to (b'<' ∷ (target ++ (query ++ (escaped ++ b'>' ∷ [])))))
      × (unescape escaped ≡ some (replaces_of theirs))
      × All IsSafe escaped
unfolding refer_to_with_replaces
refer_to_with_replaces-names target ours theirs same bytes =
    let value =
      λ (i : DialogId). i.id_call ++ (to_tag ++ (i.remote_tag ++ (from_tag ++ i.local_tag))) in
    (
      escape_uri_header_value (replaces_of theirs),
      ap
          (λ (i : DialogId).
            other_header refer_to
              (b'<' ∷ (target ++ (query ++ (escape_uri_header_value (value i) ++ b'>' ∷ [])))))
          same,
      unescape-escape (replaces_of theirs) bytes,
      escape-IsSafe (replaces_of theirs) bytes,
    )

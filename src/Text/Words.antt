-- ===== src/Text/Words.antt =====
-- The functions on text where they meet characters of a kind: lines, words, and text without white
-- space at its ends.
use mathlib.Core.List.{reverse, reverse-append, reverse-reverse}
use wavekat_sip.Base.{
  ℕ, ◌<◌, ◌≡◌, refl, ap, ◌∙◌, true, false, arith, List, [], ◌∷◌, ◌++◌, some, ◌==◌, All,
}
use wavekat_sip.Text.{
  from_utf8, decode_from, next_byte, lead_byte, is_whitespace, trim_start, trim, split, lines,
  split_at_whitespace, first_word,
}

-- A visible ASCII character.
pub record IsVisible (c : ℕ) : Type 0 where
  pub above : 32 < c
  pub below : c < 127

-- A character of a line: visible or a space.
pub record IsInline (c : ℕ) : Type 0 where
  pub above : 31 < c
  pub below : c < 127

pub visible-is_dark : (c : ℕ) → IsVisible c → is_whitespace c ≡ false
unfolding is_whitespace
visible-is_dark c v = ground (arith, v.above, v.below)

module _ (P : ℕ → Type 0) where
  pub All-append : (s t : List ℕ) → All P s → All P t → All P (s ++ t)
  All-append [] t a b = b
  All-append (x ∷ s) t (h, a) b = (h, All-append s t a b)

  pub All-map : (Q : ℕ → Type 0) (f : (c : ℕ) → P c → Q c) (s : List ℕ) → All P s → All Q s
  All-map Q f [] a = a
  All-map Q f (x ∷ s) (h, a) = (f x h, All-map Q f s a)

pub visible-IsInline : (c : ℕ) → IsVisible c → IsInline c
visible-IsInline c v = record { above = omega (arith, v.above); below = v.below }

-- ASCII text is its own bytes.
pub from_utf8-inline : (s : List ℕ) → All (λ c. c < 128) s → from_utf8 s ≡ some s
unfolding from_utf8 decode_from next_byte lead_byte
from_utf8-inline [] a = refl
from_utf8-inline (c ∷ s) (h, a) = ground (arith, from_utf8-inline s a)

pub lines-line :
    (s rest : List ℕ) → All IsInline s → lines (s ++ b'\r' ∷ b'\n' ∷ rest) ≡ s ∷ lines rest
unfolding lines
lines-line [] rest a = refl
lines-line (c ∷ s) rest (h, a) = ground (arith, h.above, lines-line s rest a)

pub split_at_whitespace-word :
    (w rest : List ℕ)
    → All IsVisible w
    → split_at_whitespace (w ++ b' ' ∷ rest) ≡ w ∷ split_at_whitespace rest
unfolding split_at_whitespace
split_at_whitespace-word [] rest a = refl
split_at_whitespace-word (c ∷ w) rest (h, a) =
    rw (visible-is_dark c h, split_at_whitespace-word w rest a) refl

pub split_at_whitespace-last : (w : List ℕ) → All IsVisible w → split_at_whitespace w ≡ w ∷ []
unfolding split_at_whitespace
split_at_whitespace-last [] a = refl
split_at_whitespace-last (c ∷ w) (h, a) =
    rw (visible-is_dark c h, split_at_whitespace-last w a) refl

pub first_word-word :
    (w rest : List ℕ) → All IsVisible w → first_word (w ++ b' ' ∷ rest) ≡ (w, rest)
unfolding first_word
first_word-word [] rest a = refl
first_word-word (c ∷ w) rest (h, a) = rw (visible-is_dark c h, first_word-word w rest a) refl

-- A piece without the separator.
pub split-last : (sep : ℕ) (s : List ℕ) → All (λ c. (c == sep) ≡ false) s → split sep s ≡ s ∷ []
unfolding split
split-last sep [] a = refl
split-last sep (c ∷ s) (h, a) = rw (h, split-last sep s a) refl

pub split-piece :
    (sep : ℕ) (s rest : List ℕ)
    → All (λ c. (c == sep) ≡ false) s
    → (sep == sep) ≡ true
    → split sep (s ++ sep ∷ rest) ≡ s ∷ split sep rest
unfolding split
split-piece sep [] rest a same = rw same refl
split-piece sep (c ∷ s) rest (h, a) same = rw (h, split-piece sep s rest a same) refl

abbrev pub StartsVisible : List ℕ → Type 0
StartsVisible [] = ⊥
StartsVisible (c ∷ s) = IsVisible c

abbrev pub EndsVisible : List ℕ → Type 0
EndsVisible [] = ⊥
EndsVisible (c ∷ []) = IsVisible c
EndsVisible (c ∷ d ∷ s) = EndsVisible (d ∷ s)

pub EndsVisible-append : (s t : List ℕ) → EndsVisible t → EndsVisible (s ++ t)
EndsVisible-append [] t e = e
EndsVisible-append (c ∷ []) [] e = elim e [ ]
EndsVisible-append (c ∷ []) (d ∷ t) e = e
EndsVisible-append (c ∷ d ∷ s) t e = EndsVisible-append (d ∷ s) t e

pub All-EndsVisible : (c : ℕ) (s : List ℕ) → All IsVisible (c ∷ s) → EndsVisible (c ∷ s)
All-EndsVisible c [] (h, a) = h
All-EndsVisible c (d ∷ s) (h, a) = All-EndsVisible d s a

StartsVisible-append : (s t : List ℕ) → StartsVisible s → StartsVisible (s ++ t)
StartsVisible-append [] t e = elim e [ ]
StartsVisible-append (c ∷ s) t e = e

StartsVisible-reverse : (s : List ℕ) → EndsVisible s → StartsVisible (reverse s)
StartsVisible-reverse [] e = elim e [ ]
StartsVisible-reverse (c ∷ []) e = e
StartsVisible-reverse (c ∷ d ∷ s) e =
    rw (reverse-append (c ∷ []) (d ∷ s))
      (StartsVisible-append (reverse (d ∷ s)) (c ∷ []) (StartsVisible-reverse (d ∷ s) e))

trim_start-visible : (s : List ℕ) → StartsVisible s → trim_start s ≡ s
unfolding trim_start
trim_start-visible [] e = elim e [ ]
trim_start-visible (c ∷ s) e = rw (visible-is_dark c e) refl

-- A text that starts and ends with visible characters is left as it is.
pub trim-visible : (s : List ℕ) → StartsVisible s → EndsVisible s → trim s ≡ s
unfolding trim
trim-visible s starts ends =
    ap (λ t. reverse (trim_start (reverse t))) (trim_start-visible s starts)
    ∙ ap reverse (trim_start-visible (reverse s) (StartsVisible-reverse s ends))
    ∙ reverse-reverse s

-- ===== src/Framing/Append.antt =====
-- crates/wavekat-sip/src/stack/framing.rs: more bytes at the end of the buffer.
use wavekat_sip.Base.{
  ℕ, zero, suc, ◌+◌, ◌≤◌, ◌≡◌, refl, ap, [], ◌∷◌, ◌++◌, Option, none, some, ◌>>=◌, arith, length,
  take, drop,
}
use wavekat_sip.Framing.{Bytes, push, skip_crlf, find_header_end}

pub take-append : (n : ℕ) (b more : Bytes) → n ≤ length b → take n (b ++ more) ≡ take n b
take-append zero b more h = refl
take-append (suc n) [] more h = ground arith
take-append (suc n) (x ∷ b) more h = ap (◌∷◌ x) (take-append n b more (omega (arith, h)))

pub drop-append : (n : ℕ) (b more : Bytes) → n ≤ length b → drop n (b ++ more) ≡ drop n b ++ more
drop-append zero b more h = refl
drop-append (suc n) [] more h = ground arith
drop-append (suc n) (x ∷ b) more h = drop-append n b more (omega (arith, h))

-- Skipping the CRLFs of some bytes first does not change what is skipped of the whole.
pub skip_crlf-append :
    (b more : Bytes) (n : ℕ)
    → let s = skip_crlf b n in skip_crlf (b ++ more) n ≡ skip_crlf (s.buf ++ more) s.keepalives
unfolding skip_crlf
skip_crlf-append [] more n = refl
skip_crlf-append (a ∷ []) more n = refl
skip_crlf-append (a ∷ b ∷ rest) more n = ground (arith, skip_crlf-append rest more (n + 1))

later_some :
    (o o' : Option ℕ) (e : ℕ)
    → ((n : ℕ) → o ≡ some n → o' ≡ some n)
    → (do n ← o; some (suc n)) ≡ some e
    → (do n ← o'; some (suc n)) ≡ some e
later_some none o' e f h = ground arith
later_some (some n) o' e f h = ground (arith, f n refl)

pub find_header_end-append :
    (b more : Bytes) (e : ℕ) → find_header_end b ≡ some e → find_header_end (b ++ more) ≡ some e
unfolding find_header_end
find_header_end-append [] more e h = ground arith
find_header_end-append (a ∷ []) more e h = ground arith
find_header_end-append (a ∷ b ∷ []) more e h = ground arith
find_header_end-append (a ∷ b ∷ c ∷ []) more e h = ground arith
find_header_end-append (a ∷ b ∷ c ∷ d ∷ rest) more e h = ground (
  arith,
  later_some (find_header_end (b ∷ c ∷ d ∷ rest)) (find_header_end (b ∷ c ∷ d ∷ rest ++ more)) e
      (λ n. find_header_end-append (b ∷ c ∷ d ∷ rest) more n),
)

later_≤ :
    (o : Option ℕ) (e l : ℕ)
    → ((n : ℕ) → o ≡ some n → n ≤ l)
    → (do n ← o; some (suc n)) ≡ some e
    → e ≤ suc l
later_≤ none e l f h = ground arith
later_≤ (some n) e l f h = ground (arith, f n refl)

-- The end of the header block lies in the buffer.
pub find_header_end-≤ : (b : Bytes) (e : ℕ) → find_header_end b ≡ some e → e ≤ length b
unfolding find_header_end
find_header_end-≤ [] e h = ground arith
find_header_end-≤ (a ∷ []) e h = ground arith
find_header_end-≤ (a ∷ b ∷ []) e h = ground arith
find_header_end-≤ (a ∷ b ∷ c ∷ []) e h = ground arith
find_header_end-≤ (a ∷ b ∷ c ∷ d ∷ rest) e h = ground (
  arith,
  later_≤ (find_header_end (b ∷ c ∷ d ∷ rest)) e (length (b ∷ c ∷ d ∷ rest))
      (find_header_end-≤ (b ∷ c ∷ d ∷ rest)),
)

-- A buffer with a header block has no CRLF left in front once they are skipped.
pub skip_crlf-decided :
    (b more : Bytes) (n e : ℕ)
    → let s = skip_crlf b n in
      find_header_end (s.buf) ≡ some e → skip_crlf (s.buf ++ more) s.keepalives ≡ push s more
unfolding skip_crlf find_header_end
skip_crlf-decided [] more n e h = ground arith
skip_crlf-decided (a ∷ []) more n e h = ground arith
skip_crlf-decided (a ∷ b ∷ rest) more n e h = ground (arith, skip_crlf-decided rest more (n + 1) e)

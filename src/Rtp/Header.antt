-- ===== src/Rtp/Header.antt =====
-- `RtpHeader::parse` on packets with the fixed 12-byte header.
use wavekat_sip.Base.{
  ℕ, zero, suc, inl, inr, Bool-cases, ltb→lt, ◌==◌, refl, sym, ap, ◌∙◌, ◌*◌, ◌+◌, ◌/◌, ◌%◌, ◌≤◌,
  ◌<◌, ◌≡◌, ◌≢◌, ◌⊎◌, Bool, true, false, [], ◌∷◌, ◌++◌, none, some, arith, length, if◌then◌else◌,
  ltb,
}
use wavekat_sip.Base.Words.{
  be_bytes16, be_bytes32, from_be16, from_be32, from_be16-be_bytes16, from_be32-be_bytes32,
}
use wavekat_sip.Rtp.{Bytes, IsBytes, RtpHeader, byte_at, bit_set, header_of, header_len, parse}

abbrev pub marker_bit : Bool → ℕ
marker_bit m = if m then 128 else 0

-- The header that this crate writes: version 2, no padding, no extension, no contributing sources.
abbrev pub plain_header : Bool → ℕ → ℕ → ℕ → ℕ → RtpHeader
plain_header marker pt seq ts ssrc = record {
  version = 2;
  padding = false;
  extension = false;
  csrc_count = 0;
  marker = marker;
  payload_type = pt;
  sequence = seq;
  timestamp = ts;
  ssrc = ssrc;
}

-- Reading back a header that was written field by field, with any payload behind it.
pub parse-plain :
    (marker : Bool) (pt seq ts ssrc : ℕ) (payload : Bytes)
    → pt < 128
    → seq < 65536
    → ts < 4294967296
    → ssrc < 4294967296
    → parse (
        0x80
        ∷ (marker_bit marker + pt)
        ∷ (be_bytes16 seq ++ (be_bytes32 ts ++ (be_bytes32 ssrc ++ payload))))
      ≡ some (plain_header marker pt seq ts ssrc)
unfolding parse
parse-plain true pt seq ts ssrc payload hp hs ht hx =
    ground
      (arith, from_be16-be_bytes16 seq hs, from_be32-be_bytes32 ts ht, from_be32-be_bytes32 ssrc hx)
parse-plain false pt seq ts ssrc payload hp hs ht hx =
    ground
      (arith, from_be16-be_bytes16 seq hs, from_be32-be_bytes32 ts ht, from_be32-be_bytes32 ssrc hx)

-- What a parsed header may hold: the fields fit their widths, and the header is 12 to 72 bytes.
pub record IsHeader (h : RtpHeader) : Type 0 where
  pub version_2 : h.version ≡ 2
  pub csrc_small : h.csrc_count < 16
  pub pt_small : h.payload_type < 128
  pub seq_small : h.sequence < 65536
  pub ts_small : h.timestamp < 4294967296
  pub ssrc_small : h.ssrc < 4294967296
  pub len_low : 12 ≤ header_len h
  pub len_high : header_len h ≤ 72

byte_at-lt : (buf : Bytes) (i : ℕ) → IsBytes buf → byte_at buf i < 256
byte_at-lt [] i h = omega arith
byte_at-lt (b ∷ bs) zero h = h.0
byte_at-lt (b ∷ bs) (suc i) h = byte_at-lt bs i h.1

header_of-IsHeader : (buf : Bytes) → IsBytes buf → byte_at buf 0 / 64 ≡ 2 → IsHeader (header_of buf)
header_of-IsHeader buf bytes two =
    let below = λ (i : ℕ). byte_at-lt buf i bytes in
    omega (
      arith,
      below 0,
      below 1,
      below 2,
      below 3,
      below 4,
      below 5,
      below 6,
      below 7,
      below 8,
      below 9,
      below 10,
      below 11,
    )

abbrev flag : Bool → ℕ → ℕ
flag on n = if on then n else 0

-- The 12 bytes of a header, laid out as in RFC 3550, section 5.1.
abbrev pub header_bytes : RtpHeader → Bytes
header_bytes h =
    (h.version * 64 + flag h.padding 32 + flag h.extension 16 + h.csrc_count)
    ∷ (flag h.marker 128 + h.payload_type)
    ∷ (be_bytes16 h.sequence ++ (be_bytes32 h.timestamp ++ be_bytes32 h.ssrc))

abbrev tabulate : (ℕ → ℕ) → ℕ → Bytes
tabulate f zero = []
tabulate f (suc n) = f 0 ∷ tabulate (λ i. f (suc i)) n

tabulate-byte_at :
    (n : ℕ) (buf : Bytes)
    → n ≤ length buf
    → (rest : Bytes) × (buf ≡ tabulate (byte_at buf) n ++ rest)
tabulate-byte_at zero buf h = (buf, refl)
tabulate-byte_at (suc n) [] h = absurd (omega (arith, h))
tabulate-byte_at (suc n) (b ∷ buf) h =
    let (rest, e) = tabulate-byte_at n buf (omega (arith, h)) in (rest, ap (λ bs. b ∷ bs) e)

first_byte :
    (b : ℕ)
    → b < 256
    → b / 64 % 4 * 64 + flag (bit_set (b / 32)) 32 + flag (bit_set (b / 16)) 16 + b % 16 ≡ b
first_byte b h = ground arith

second_byte : (b : ℕ) → b < 256 → flag (bit_set (b / 128)) 128 + b % 128 ≡ b
second_byte b h = ground arith

be_bytes16-from_be16 : (a b : ℕ) → a < 256 → b < 256 → be_bytes16 (from_be16 a b) ≡ a ∷ b ∷ []
be_bytes16-from_be16 a b ha hb =
    let x : (a * 256 + b) / 256 % 256 ≡ a = omega arith in
    let y : (a * 256 + b) % 256 ≡ b = omega arith in rw (x, y) refl

be_bytes32-from_be32 :
    (a b c d : ℕ)
    → a < 256
    → b < 256
    → c < 256
    → d < 256
    → be_bytes32 (from_be32 a b c d) ≡ a ∷ b ∷ c ∷ d ∷ []
be_bytes32-from_be32 a b c d ha hb hc hd =
    let n = from_be32 a b c d in
    let w : n / 16777216 % 256 ≡ a = omega arith in
    let x : n / 65536 % 256 ≡ b = omega arith in
    let y : n / 256 % 256 ≡ c = omega arith in
    let z : n % 256 ≡ d = omega arith in rw (w, x, y, z) refl

laid :
    {x x' y y' : ℕ} {seq seq' ts ts' ssrc ssrc' : Bytes}
    → x ≡ x'
    → y ≡ y'
    → seq ≡ seq'
    → ts ≡ ts'
    → ssrc ≡ ssrc'
    → x ∷ y ∷ (seq ++ (ts ++ ssrc)) ≡ x' ∷ y' ∷ (seq' ++ (ts' ++ ssrc'))
laid e e' a b c = rw (e, e', a, b, c) refl

header_bytes-header_of :
    (buf : Bytes) → IsBytes buf → header_bytes (header_of buf) ≡ tabulate (byte_at buf) 12
header_bytes-header_of buf bytes =
    let at = byte_at buf in
    let below = λ (i : ℕ). byte_at-lt buf i bytes in
    laid (first_byte (at 0) (below 0)) (second_byte (at 1) (below 1))
      (be_bytes16-from_be16 (at 2) (at 3) (below 2) (below 3))
      (be_bytes32-from_be32 (at 4) (at 5) (at 6) (at 7) (below 4) (below 5) (below 6) (below 7))
      (be_bytes32-from_be32 (at 8) (at 9) (at 10) (at 11) (below 8) (below 9) (below 10) (below 11))

-- A buffer of bytes is refused exactly when it is shorter than 12 bytes or its version is not 2.
-- Else the header is read whose 12 bytes, laid out field by field, the buffer begins with; its
-- fields fit their widths, and its length is 12 to 72 bytes.
pub parse_total :
    (buf : Bytes)
    → IsBytes buf
    → ((parse buf ≡ none) × ((length buf < 12) ⊎ (byte_at buf 0 / 64 ≢ 2)))
      ⊎ ((h : RtpHeader) × (rest : Bytes) × (parse buf ≡ some h)
          × (buf ≡ header_bytes h ++ rest)
          × (12 ≤ length buf)
          × (byte_at buf 0 / 64 ≡ 2)
          × IsHeader h)
unfolding parse
parse_total buf bytes =
    let b0 = byte_at-lt buf 0 bytes in
    elim (Bool-cases (ltb (length buf) 12)) [
      | inl short ↦ inl (rw short, inl (ltb→lt _ _ short))
      | inr long ↦ elim (Bool-cases (byte_at buf 0 / 64 % 4 == 2)) [
        | inl two ↦
            let v : byte_at buf 0 / 64 ≡ 2 = ground arith in
            let (rest, is) = tabulate-byte_at 12 buf (ground arith) in
            let whole = is ∙ ap (λ bs. bs ++ rest) (sym (header_bytes-header_of buf bytes)) in
            inr (
              header_of buf,
              rest,
              (rw (long, two)),
              whole,
              ground arith,
              v,
              header_of-IsHeader buf bytes v,
            )
        | inr other ↦ inl (rw (long, other), inr (ground arith))
      ]
    ]

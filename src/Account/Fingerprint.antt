-- ===== src/Account/Fingerprint.antt =====
-- crates/wavekat-sip/src/account.rs: a fingerprint reads back from the configuration.
use wavekat_sip.Base.{
  ℕ, ◌+◌, ◌*◌, ◌/◌, ◌%◌, ◌<◌, ◌≡◌, refl, List, [], ◌∷◌, some, arith, length, All,
}
use wavekat_sip.Account.{
  pinned, hex_value, hex_pairs, parse_hex_sha256, pinned_from_hex, hex_digit, hex_of, stored_text,
  stored_bytes, deserialize,
}

hex_value-hex_digit : (n : ℕ) → n < 16 → hex_value (hex_digit n) ≡ some n
unfolding hex_value
hex_value-hex_digit n h = ground arith

abbrev pub IsByte : ℕ → Type 0
IsByte b = b < 256

length-hex_of : (bytes : List ℕ) → length (hex_of bytes) ≡ 2 * length bytes
unfolding hex_of
length-hex_of [] = refl
length-hex_of (b ∷ bytes) = omega (arith, length-hex_of bytes)

hex_pairs-hex_of : (bytes : List ℕ) → All IsByte bytes → hex_pairs (hex_of bytes) ≡ some bytes
unfolding hex_pairs hex_of
hex_pairs-hex_of [] h = refl
hex_pairs-hex_of (b ∷ bytes) (small, all) =
    let whole : b / 16 % 16 * 16 + b % 16 ≡ b = omega arith in
    rw (
      hex_value-hex_digit (b / 16 % 16) (omega arith),
      hex_value-hex_digit (b % 16) (omega arith),
      hex_pairs-hex_of bytes all,
      whole,
    )

-- A digest of 32 bytes reads back from the hexadecimal text that it is stored as, which also makes
-- the policy that pins it, and from the older form, a sequence of bytes.
pub deserialize-hex_of :
    (sha256 : List ℕ)
    → length sha256 ≡ 32
    → All IsByte sha256
    → (deserialize (stored_text (hex_of sha256)) ≡ some sha256)
      × (deserialize (stored_bytes sha256) ≡ some sha256)
      × (pinned_from_hex (hex_of sha256) ≡ some (pinned sha256))
unfolding deserialize parse_hex_sha256 pinned_from_hex
deserialize-hex_of sha256 len all =
    let long : length (hex_of sha256) ≡ 64 = omega (arith, length-hex_of sha256) in
    rw (long, hex_pairs-hex_of sha256 all, len) (refl, refl, refl)

-- ===== src/Rtp.antt =====
-- crates/wavekat-sip/src/rtp/mod.rs: the RTP header and the packets of `send_loop`. A byte is a
-- number below 256; `x & (2^k - 1)` is `x % 2^k` and `x >> k` is `x / 2^k`.
pub mod Dtmf
pub mod DtmfRecv
pub mod Header
pub mod Send
use wavekat_sip.Base.{
  ℕ, suc, ◌+◌, ◌*◌, ◌/◌, ◌%◌, Bool, List, [], ◌∷◌, ◌++◌, Option, none, some, not, length, ltb, ◌==◌,
  if◌then◌else◌, All, ◌<◌,
}
use wavekat_sip.Base.Words.{be_bytes16, be_bytes32, from_be16, from_be32}

abbrev pub Bytes : Type 0
Bytes = List ℕ

abbrev pub IsBytes : Bytes → Type 0
IsBytes = All (λ b. b < 256)

pub record RtpHeader : Type 0 where
  pub version : ℕ
  pub padding : Bool
  pub extension : Bool
  pub csrc_count : ℕ
  pub marker : Bool
  pub payload_type : ℕ
  pub sequence : ℕ
  pub timestamp : ℕ
  pub ssrc : ℕ

-- `buf[i]`, where the length was checked before.
abbrev pub byte_at : Bytes → ℕ → ℕ
byte_at [] i = 0
byte_at (b ∷ bs) ℕ.zero = b
byte_at (b ∷ bs) (suc i) = byte_at bs i

abbrev pub bit_set : ℕ → Bool
bit_set b = not (b % 2 == 0)

-- The literal at the end of `RtpHeader::parse`.
abbrev pub header_of : Bytes → RtpHeader
header_of buf = record {
  version = byte_at buf 0 / 64 % 4;
  padding = bit_set (byte_at buf 0 / 32);
  extension = bit_set (byte_at buf 0 / 16);
  csrc_count = byte_at buf 0 % 16;
  marker = bit_set (byte_at buf 1 / 128);
  payload_type = byte_at buf 1 % 128;
  sequence = from_be16 (byte_at buf 2) (byte_at buf 3);
  timestamp = from_be32 (byte_at buf 4) (byte_at buf 5) (byte_at buf 6) (byte_at buf 7);
  ssrc = from_be32 (byte_at buf 8) (byte_at buf 9) (byte_at buf 10) (byte_at buf 11);
}

unfoldable pub parse : Bytes → Option RtpHeader
parse buf =
    if ltb (length buf) 12
    then none
    else if not (byte_at buf 0 / 64 % 4 == 2)
    then none
    else some (header_of buf)

abbrev pub header_len : RtpHeader → ℕ
header_len h = 12 + 4 * h.csrc_count

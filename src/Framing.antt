-- ===== src/Framing.antt =====
-- crates/wavekat-sip/src/stack/framing.rs, and the loop of stack/stream.rs that takes the messages
-- after each read. `transport::parse`, which calls rsip, is the parameter `parse`. A `usize` has 64
-- bits, and its addition wraps.
pub mod Reader
pub mod Task
mod Append
pub mod Prefix
pub mod Chunks
pub mod Delivery
pub mod Progress
use wavekat_sip.Base.{
  ℕ, zero, suc, ◌+◌, ◌*◌, ◌%◌, ◌^◌, ◌<◌, Bool, true, false, ◌&&◌, ◌||◌, List, [], ◌∷◌, ◌++◌, Option,
  none, some, ◌>>=◌, ltb, ◌==◌, if◌then◌else◌, length, take, drop, text_eq,
}
use wavekat_sip.Text.{from_utf8, split_lines, split_once, trim, to_ascii_lowercase, parse_uint}

abbrev pub Bytes : Type 0
Bytes = List ℕ

abbrev pub max_header_bytes : ℕ
max_header_bytes = 64 * 1024

pub data FramingError : Type 0 where
  missing_content_length headers_too_large malformed : FramingError

pub record Framer : Type 0 where
  pub buf : Bytes
  pub keepalives : ℕ

abbrev pub new : Framer
new = record { buf = []; keepalives = 0 }

abbrev pub push : Framer → Bytes → Framer
push f bytes = record f { buf = f.buf ++ bytes }

-- `take_keepalives`: the count, and the framer with the count reset.
abbrev pub take_keepalives : Framer → Framer × ℕ
take_keepalives f = (record f { keepalives = 0 }, f.keepalives)

abbrev pub is_crlf : ℕ → ℕ → Bool
is_crlf a b = a == b'\r' && b == b'\n'

-- The loop that skips leading CRLFs and counts them.
unfoldable pub skip_crlf : Bytes → ℕ → Framer
skip_crlf [] n = record { buf = []; keepalives = n }
skip_crlf (a ∷ []) n = record { buf = a ∷ []; keepalives = n }
skip_crlf (a ∷ b ∷ rest) n =
    let skipped = skip_crlf rest (n + 1) in
    if is_crlf a b then skipped else record { buf = a ∷ b ∷ rest; keepalives = n }

unfoldable pub find_header_end : Bytes → Option ℕ
find_header_end (a ∷ b ∷ c ∷ d ∷ rest) =
    let later = (do n ← find_header_end (b ∷ c ∷ d ∷ rest); some (suc n)) in
    if is_crlf a b && is_crlf c d then some 4 else later
find_header_end _ = none

abbrev pub content_length_name : List ℕ
content_length_name =
    b'c' ∷ b'o' ∷ b'n' ∷ b't' ∷ b'e' ∷ b'n' ∷ b't' ∷ b'-' ∷ b'l' ∷ b'e' ∷ b'n' ∷ b'g' ∷ b't' ∷ b'h'
    ∷ []

abbrev pub usize_max : ℕ
usize_max = 18446744073709551615

-- The loop of `content_length` over the lines.
length_in : List Bytes → Option ℕ
unfolding trim to_ascii_lowercase parse_uint split_once
length_in [] = none
length_in (line ∷ lines) =
    let later = length_in lines in
    elim (split_once b':' line) [
      | none ↦ later
      | some (raw_name, value) ↦
          let name = to_ascii_lowercase (trim raw_name) in
          if text_eq name content_length_name || text_eq name (b'l' ∷ [])
          then parse_uint usize_max (trim value)
          else later
    ]

unfoldable pub content_length : Bytes → Option ℕ
unfolding from_utf8 split_lines length_in
content_length headers = do text ← from_utf8 headers; length_in (split_lines text)

-- `Result<Option<SipMessage>, FramingError>`.
pub data Framed (M : Type 0) : Type 0 where
  message : M → Framed M
  need_more : Framed M
  failed : FramingError → Framed M

-- The end of `next_message`, on what `parse` returns.
pub parsed : {M : Type 0} → Option M → Framed M
parsed none = failed malformed
parsed (some m) = message m

module _ {M : Type 0} (parse : Bytes → Option M) where
  -- `next_message` once the body's length is known.
  pub take_message : Framer → ℕ → Framer × Framed M
  unfolding parsed
  take_message f total =
      if ltb (length f.buf) total
      then (f, need_more)
      else (record f { buf = drop total f.buf }, parsed (parse (take total f.buf)))

  pub with_length : Framer → ℕ → Option ℕ → Framer × Framed M
  unfolding take_message
  with_length f end none = (f, failed missing_content_length)
  with_length f end (some body_len) = take_message f ((end + body_len) % 2 ^ 64)

  -- `next_message` after the keepalives, on the end of the header block.
  pub with_end : Framer → Option ℕ → Framer × Framed M
  unfolding with_length
  with_end f none =
      (f, if ltb max_header_bytes (length f.buf) then failed headers_too_large else need_more)
  with_end f (some end) = with_length f end (content_length (take end f.buf))

  unfoldable pub next_message : Framer → Framer × Framed M
  unfolding with_end
  next_message f =
      let skipped = skip_crlf f.buf f.keepalives in with_end skipped (find_header_end skipped.buf)

-- ===== src/Framing/Delivery.antt =====
-- crates/wavekat-sip/src/stack/framing.rs and stream.rs: the messages that a peer writes with a
-- right Content-Length, with keepalives between them.
use wavekat_sip.Base.{
  ℕ, zero, suc, ◌+◌, ◌%◌, ◌^◌, ◌<◌, ◌≡◌, refl, sym, Bool, false, List, [], ◌∷◌, ◌++◌, Option, some,
  arith, ltb, length, take, drop, append_assoc, length-append, All, map,
}
use wavekat_sip.Framing.{
  Bytes, FramingError, Framer, is_crlf, skip_crlf, find_header_end, content_length, message, parsed,
  take_message, with_length, with_end, next_message,
}
use wavekat_sip.Framing.Reader.{reading, drain}
use wavekat_sip.Framing.Append.{find_header_end-append}

-- One message on the wire: the CRLFs before it, its header block and its body.
pub record Wire (M : Type 0) : Type 0 where
  pub pings : ℕ
  pub head : Bytes
  pub body : Bytes
  pub content : M

abbrev pub crlfs : ℕ → Bytes
crlfs zero = []
crlfs (suc k) = b'\r' ∷ b'\n' ∷ crlfs k

abbrev pub starts_crlf : Bytes → Bool
starts_crlf (a ∷ b ∷ rest) = is_crlf a b
starts_crlf _ = false

abbrev pub framer : Bytes → ℕ → Framer
framer b n = record { buf = b; keepalives = n }

skip_crlf-crlfs : (k n : ℕ) (b : Bytes) → skip_crlf (crlfs k ++ b) n ≡ skip_crlf b (n + k)
unfolding skip_crlf
skip_crlf-crlfs zero n b = ground arith
skip_crlf-crlfs (suc k) n b = ground (arith, skip_crlf-crlfs k (n + 1) b)

skip_crlf-none : (b : Bytes) (n : ℕ) → starts_crlf b ≡ false → skip_crlf b n ≡ framer b n
unfolding skip_crlf
skip_crlf-none [] n h = refl
skip_crlf-none (a ∷ []) n h = refl
skip_crlf-none (a ∷ b ∷ rest) n h = ground arith

take-all : (b more : Bytes) → take (length b) (b ++ more) ≡ b
take-all [] more = refl
take-all (x ∷ b) more = ground (arith, take-all b more)

drop-all : (b more : Bytes) → drop (length b) (b ++ more) ≡ more
drop-all [] more = refl
drop-all (x ∷ b) more = drop-all b more

module _ {M : Type 0} (parse : Bytes → Option M) where
  -- The header block ends where the message's does and gives the body's length, nothing in it is a
  -- leading CRLF, and it parses to the content.
  abbrev pub IsWire : Wire M → Type 0
  IsWire w =
      (find_header_end (w.head) ≡ some (length (w.head)))
      × (content_length (w.head) ≡ some (length (w.body)))
      × (starts_crlf (w.head) ≡ false)
      × (length (w.head) + length (w.body) < 2 ^ 64)
      × (parse (w.head ++ w.body) ≡ some (w.content))

  abbrev pub wire_bytes : Wire M → Bytes
  wire_bytes w = crlfs (w.pings) ++ (w.head ++ w.body)

  starts_crlf-append :
      (h more : Bytes) (e : ℕ)
      → find_header_end h ≡ some e
      → starts_crlf h ≡ false
      → starts_crlf (h ++ more) ≡ false
  unfolding find_header_end
  starts_crlf-append [] more e f h = ground arith
  starts_crlf-append (a ∷ []) more e f h = ground arith
  starts_crlf-append (a ∷ b ∷ rest) more e f h = h

  take_message-wire :
      (w : Wire M) (n : ℕ) (more : Bytes)
      → IsWire w
      → take_message parse
          (framer (w.head ++ w.body ++ more) n)
          ((length (w.head) + length (w.body)) % 2 ^ 64)
        ≡ (framer more n, message (w.content))
  unfolding take_message parsed
  take_message-wire w n more (ends, len, plain, fits, parses) =
      let raw = w.head ++ w.body in
      let total : (length (w.head) + length (w.body)) % 2 ^ 64 ≡ length raw =
        omega (arith, length-append (w.head) (w.body)) in
      let enough : ltb (length (raw ++ more)) (length raw) ≡ false =
        ground (arith, length-append raw more) in
      rw (total, enough, take-all raw more, drop-all raw more, parses)

  next_message-wire :
      (w : Wire M) (n : ℕ) (more : Bytes)
      → IsWire w
      → next_message parse (framer (wire_bytes w ++ more) n)
        ≡ (framer more (n + w.pings), message (w.content))
  unfolding next_message with_end with_length
  next_message-wire w n more (ends, len, plain, fits, parses) =
      let b = w.body ++ more in
      let end = length (w.head) in
      rw
        (
          append_assoc (crlfs (w.pings)) (w.head ++ w.body) more,
          skip_crlf-crlfs (w.pings) n (w.head ++ w.body ++ more),
          append_assoc (w.head) (w.body) more,
          skip_crlf-none (w.head ++ b) (n + w.pings) (starts_crlf-append (w.head) b end ends plain),
          find_header_end-append (w.head) b end ends,
          take-all (w.head) b,
          len,
          sym (append_assoc (w.head) (w.body) more),
        )
        (take_message-wire w (n + w.pings) more (ends, len, plain, fits, parses))

  abbrev pub stream_bytes : List (Wire M) → Bytes
  stream_bytes [] = []
  stream_bytes (w ∷ ws) = wire_bytes w ++ stream_bytes ws

  abbrev pub all_pings : List (Wire M) → ℕ
  all_pings [] = 0
  all_pings (w ∷ ws) = w.pings + all_pings ws

  drain-message :
      (n : ℕ) (f f' : Framer) (m : M) (ms : List M) (last : Framer) (err : Option FramingError)
      → next_message parse f ≡ (f', message m)
      → drain parse n f' ≡ some (reading last ms err)
      → drain parse (suc n) f ≡ some (reading last (m ∷ ms) err)
  unfolding drain
  drain-message n f f' m ms last err h later = rw (h, later)

  -- A buffer that holds whole messages, each with the Content-Length of its body, any number of
  -- CRLFs before it and a form that parses, and then more bytes: the loop sends on the contents in
  -- order, counts the CRLFs, and then does what it does with the rest.
  pub drain_delivers :
      (ws : List (Wire M)) (k n : ℕ) (more : Bytes) (ms : List M) (last : Framer)
      (err : Option FramingError)
      → All IsWire ws
      → drain parse k (framer more (n + all_pings ws)) ≡ some (reading last ms err)
      → drain parse (length ws + k) (framer (stream_bytes ws ++ more) n)
        ≡ some (reading last (map (λ w. w.content) ws ++ ms) err)
  drain_delivers [] k n more ms last err all h =
      let fuel : 0 + k ≡ k = omega arith in
      let same : n + 0 ≡ n = omega arith in rw fuel (rw same at h)
  drain_delivers (w ∷ ws) k n more ms last err (is_wire, all) h =
      let fuel : suc (length ws) + k ≡ suc (length ws + k) = omega arith in
      let total : n + (w.pings + all_pings ws) ≡ n + w.pings + all_pings ws = omega arith in
      let rest = stream_bytes ws ++ more in
      rw (fuel, append_assoc (wire_bytes w) (stream_bytes ws) more)
        (drain-message (length ws + k) (framer (wire_bytes w ++ rest) n) (framer rest (n + w.pings))
          (w.content) (map (λ x. x.content) ws ++ ms) last err (next_message-wire w n rest is_wire)
          (drain_delivers ws k (n + w.pings) more ms last err all (rw total at h)))

-- ===== src/Framing/Prefix.antt =====
-- crates/wavekat-sip/src/stack/framing.rs, `next_message`: what it decides on some bytes stands
-- when more bytes follow.
use wavekat_sip.Base.{
  ℕ, ◌+◌, ◌%◌, ◌^◌, ◌≤◌, ◌≡◌, refl, Bool-cases, Option-cases, inl, inr, false, ◌++◌, Option, none,
  some, arith, ltb, length, take, drop, length-append,
}
use mathlib.Core.Path.{subst}
use wavekat_sip.Framing.{
  Bytes, Framer, push, skip_crlf, find_header_end, content_length, missing_content_length,
  malformed, headers_too_large, Framed, message, need_more, failed, parsed, take_message,
  with_length, with_end, next_message,
}
use wavekat_sip.Framing.Append.{
  take-append, drop-append, skip_crlf-append, skip_crlf-decided, find_header_end-append,
  find_header_end-≤,
}

module _ {M : Type 0} where
  -- A result that does not wait for bytes, or give up on waiting for them.
  abbrev pub IsDecided : Framed M → Type 0
  IsDecided (message m) = Unit
  IsDecided need_more = ⊥
  IsDecided (failed missing_content_length) = Unit
  IsDecided (failed malformed) = Unit
  IsDecided (failed headers_too_large) = ⊥

  -- A decided outcome stands when bytes are added, and they stay in the buffer.
  abbrev Stable : Bytes → Framer × Framed M → Framer × Framed M → Type 0
  Stable more (s', message m) after = after ≡ (push s' more, message m)
  Stable more (s', need_more) after = Unit
  Stable more (s', failed missing_content_length) after =
      after ≡ (push s' more, failed missing_content_length)
  Stable more (s', failed malformed) after = after ≡ (push s' more, failed malformed)
  Stable more (s', failed headers_too_large) after = Unit

  Stable-use :
      (more : Bytes) (s' : Framer) (r : Framed M) (after : Framer × Framed M)
      → Stable more (s', r) after
      → IsDecided r
      → after ≡ (push s' more, r)
  Stable-use more s' (message m) after h d = h
  Stable-use more s' need_more after h d = ground arith
  Stable-use more s' (failed missing_content_length) after h d = h
  Stable-use more s' (failed malformed) after h d = h
  Stable-use more s' (failed headers_too_large) after h d = ground arith

  Stable-parsed :
      (more : Bytes) (s' : Framer) (o : Option M)
      → Stable more (s', parsed o) (push s' more, parsed o)
  unfolding parsed
  Stable-parsed more s' none = refl
  Stable-parsed more s' (some m) = refl

module _ {M : Type 0} (parse : Bytes → Option M) where
  take_message-append :
      (s : Framer) (total : ℕ) (more : Bytes)
      → Stable more (take_message parse s total) (take_message parse (push s more) total)
  unfolding take_message
  take_message-append s total more = elim (Bool-cases (ltb (length (s.buf)) total)) [
    | inl short ↦ rw short (ground arith)
    | inr enough ↦
        let total_≤ : total ≤ length (s.buf) = ground arith in
        let enough' : ltb (length (s.buf ++ more)) total ≡ false =
          ground (arith, length-append (s.buf) more) in
        rw
          (
            enough,
            enough',
            take-append total (s.buf) more total_≤,
            drop-append total (s.buf) more total_≤,
          )
          (Stable-parsed more (record s { buf = drop total (s.buf) }) (parse (take total (s.buf))))
  ]

  with_length-append :
      (s : Framer) (end : ℕ) (o : Option ℕ) (more : Bytes)
      → Stable more (with_length parse s end o) (with_length parse (push s more) end o)
  unfolding with_length
  with_length-append s end none more = refl
  with_length-append s end (some l) more = take_message-append s ((end + l) % 2 ^ 64) more

  with_end-append :
      (s : Framer) (o : Option ℕ) (more : Bytes)
      → find_header_end (s.buf) ≡ o
      → Stable more
          (with_end parse s o)
          (with_end parse (push s more) (find_header_end (s.buf ++ more)))
  unfolding with_end
  with_end-append s none more h = ground arith
  with_end-append s (some e) more h =
      rw
        (
          find_header_end-append (s.buf) more e h,
          take-append e (s.buf) more (find_header_end-≤ (s.buf) e h),
        )
        (with_length-append s e (content_length (take e (s.buf))) more)

  next_message-Stable :
      (f : Framer) (more : Bytes)
      → Stable more (next_message parse f) (next_message parse (push f more))
  unfolding next_message
  next_message-Stable f more =
      let s = skip_crlf (f.buf) (f.keepalives) in
      elim (Option-cases (find_header_end (s.buf))) [
        | inl waiting ↦ rw waiting (ground arith)
        | inr (e, found) ↦
            rw
              (
                skip_crlf-append (f.buf) more (f.keepalives),
                skip_crlf-decided (f.buf) more (f.keepalives) e found,
              )
              (with_end-append s (find_header_end (s.buf)) more refl)
      ]

  -- A message that is taken from the buffer, or a verdict that the stream is broken (no
  -- Content-Length, or a message that does not parse), is the same whatever bytes follow in the
  -- buffer, and those bytes stay there.
  pub next_message-append :
      (f f' : Framer) (r : Framed M) (more : Bytes)
      → next_message parse f ≡ (f', r)
      → IsDecided r
      → next_message parse (push f more) ≡ (push f' more, r)
  next_message-append f f' r more e d =
      Stable-use more f' r _
        (subst (λ x. Stable more x (next_message parse (push f more))) e
          (next_message-Stable f more))
        d

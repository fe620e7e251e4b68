-- ===== src/Framing/Progress.antt =====
-- crates/wavekat-sip/src/stack/framing.rs and stream.rs: a loop that takes the messages of a buffer
-- ends.
use wavekat_sip.Base.{
  ℕ, zero, suc, ◌+◌, ◌%◌, ◌^◌, ◌≤◌, ◌<◌, ◌≡◌, refl, Bool-cases, Option-cases, inl, inr, [], ◌∷◌,
  Option, none, some, arith, ltb, length, take, drop, length-drop,
}
use wavekat_sip.Framing.{
  Bytes, Framer, skip_crlf, find_header_end, content_length, Framed, message, need_more, failed,
  parsed, take_message, with_length, with_end, next_message,
}
use wavekat_sip.Framing.Reader.{Reading, reading, with_message, turn, drain}

skip_crlf-length : (b : Bytes) (n : ℕ) → (let s = skip_crlf b n in length (s.buf)) ≤ length b
unfolding skip_crlf
skip_crlf-length [] n = omega arith
skip_crlf-length (a ∷ []) n = omega arith
skip_crlf-length (a ∷ b ∷ rest) n = ground (arith, skip_crlf-length rest (n + 1))

-- A message that is taken leaves fewer than `n` bytes.
abbrev Shrinks : {M : Type 0} → ℕ → Framer × Framed M → Type 0
Shrinks n (s', message m) = length (s'.buf) < n
Shrinks n (s', need_more) = Unit
Shrinks n (s', failed e) = Unit

module _ {M : Type 0} (parse : Bytes → Option M) where
  parsed-Shrinks :
      (n : ℕ) (s' : Framer) (o : Option M) → length (s'.buf) < n → Shrinks n (s', parsed o)
  unfolding parsed
  parsed-Shrinks n s' none h = ground arith
  parsed-Shrinks n s' (some m) h = h

  take_message-Shrinks :
      (s : Framer) (total : ℕ)
      → parse [] ≡ none
      → Shrinks (length (s.buf)) (take_message parse s total)
  unfolding take_message parsed
  take_message-Shrinks s zero empty = rw empty (ground arith)
  take_message-Shrinks s (suc total) empty = elim (Bool-cases (ltb (length (s.buf)) (suc total))) [
    | inl short ↦ rw short (ground arith)
    | inr enough ↦
        let less : length (drop (suc total) (s.buf)) < length (s.buf) =
          ground (arith, length-drop (suc total) (s.buf)) in
        rw enough (
          parsed-Shrinks (length (s.buf)) (record s { buf = drop (suc total) (s.buf) })
            (parse (take (suc total) (s.buf))) less)
  ]

  with_end-Shrinks :
      (s : Framer) (o : Option ℕ) → parse [] ≡ none → Shrinks (length (s.buf)) (with_end parse s o)
  unfolding with_end with_length
  with_end-Shrinks s none empty = ground arith
  with_end-Shrinks s (some e) empty = elim (Option-cases (content_length (take e (s.buf)))) [
    | inl missing ↦ rw missing (ground arith)
    | inr (l, is_l) ↦ rw is_l (take_message-Shrinks s ((e + l) % 2 ^ 64) empty)
  ]

  Shrinks-weaken :
      (n n' : ℕ) (f' : Framer) (r : Framed M) → n ≤ n' → Shrinks n (f', r) → Shrinks n' (f', r)
  Shrinks-weaken n n' f' (message m) le h = omega (arith, le, h)
  Shrinks-weaken n n' f' need_more le h = h
  Shrinks-weaken n n' f' (failed e) le h = h

  next_message-Shrinks :
      (f : Framer) → parse [] ≡ none → Shrinks (length (f.buf)) (next_message parse f)
  unfolding next_message
  next_message-Shrinks f empty =
      let s = skip_crlf (f.buf) (f.keepalives) in
      let o = find_header_end (s.buf) in
      let x = with_end parse s o in
      Shrinks-weaken (length (s.buf)) (length (f.buf)) x.0 x.1
        (skip_crlf-length (f.buf) (f.keepalives)) (with_end-Shrinks s o empty)

  turn_returns :
      (n l : ℕ) (f' : Framer) (framed : Framed M)
      → ((f : Framer) → length (f.buf) < n → (r : Reading M) × (drain parse n f ≡ some r))
      → l ≤ n
      → Shrinks l (f', framed)
      → (r : Reading M) × (turn f' framed (drain parse n f') ≡ some r)
  turn_returns n l f' (message m) ih le h =
      let (r, is_r) = ih f' (omega (arith, le, h)) in (with_message m r, rw is_r)
  turn_returns n l f' need_more ih le h = (reading f' [] none, refl)
  turn_returns n l f' (failed e) ih le h = (reading f' [] (some e), refl)

  -- The loop over a buffer ends: fuel above the number of bytes in the buffer gives a result, when
  -- no bytes at all are not a message.
  pub drain_returns :
      (n : ℕ) (f : Framer)
      → parse [] ≡ none
      → length (f.buf) < n
      → (r : Reading M) × (drain parse n f ≡ some r)
  unfolding drain
  drain_returns zero f empty h = absurd (omega (arith, h))
  drain_returns (suc n) f empty h =
      let x = next_message parse f in
      turn_returns n (length (f.buf)) x.0 x.1 (λ g lt. drain_returns n g empty lt)
        (omega (arith, h)) (next_message-Shrinks f empty)

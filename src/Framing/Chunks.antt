-- ===== src/Framing/Chunks.antt =====
-- crates/wavekat-sip/src/stack/stream.rs and framing.rs: what a connection delivers does not depend
-- on how its bytes are split into reads.
use wavekat_sip.Base.{ℕ, zero, suc, ◌+◌, ◌≡◌, refl, List, [], ◌∷◌, ◌++◌, Option, none, some, arith}
use wavekat_sip.Framing.{
  Bytes, FramingError, Framer, push, skip_crlf, find_header_end, Framed, message, need_more, failed,
  parsed, take_message, with_length, with_end, next_message,
}
use wavekat_sip.Framing.Reader.{Reading, reading, turn, drain}
use wavekat_sip.Framing.Append.{skip_crlf-append}
use wavekat_sip.Framing.Prefix.{next_message-append}

module _ {M : Type 0} (parse : Bytes → Option M) where
  with_end-waiting : (s s' : Framer) (o : Option ℕ) → with_end parse s o ≡ (s', need_more) → s' ≡ s
  unfolding with_end with_length take_message parsed
  with_end-waiting s s' none h = ground arith
  with_end-waiting s s' (some e) h = ground arith

  next_message-waiting :
      (f f' : Framer) (more : Bytes)
      → next_message parse f ≡ (f', need_more)
      → next_message parse (push f more) ≡ next_message parse (push f' more)
  unfolding next_message
  next_message-waiting f f' more h =
      let s = skip_crlf (f.buf) (f.keepalives) in
      rw (
        with_end-waiting s f' (find_header_end (s.buf)) h,
        skip_crlf-append (f.buf) more (f.keepalives),
      )

  suc_plus : (n k : ℕ) → suc n + k ≡ suc (n + k)
  suc_plus n k = omega arith

  drain_unfold :
      (n : ℕ) (f f' : Framer) (framed : Framed M)
      → next_message parse f ≡ (f', framed)
      → drain parse (suc n) f ≡ turn f' framed (drain parse n f')
  unfolding drain
  drain_unfold n f f' framed h = rw h

  turn-more :
      (f' : Framer) (framed : Framed M) (o o' : Option (Reading M)) (r : Reading M)
      → ((r' : Reading M) → o ≡ some r' → o' ≡ some r')
      → turn f' framed o ≡ some r
      → turn f' framed o' ≡ some r
  turn-more f' (message m) none o' r more h = ground arith
  turn-more f' (message m) (some x) o' r more h = rw (more x refl) h
  turn-more f' need_more o o' r more h = h
  turn-more f' (failed e) o o' r more h = h

  -- More fuel gives the same.
  pub drain-more :
      (n k : ℕ) (f : Framer) (r : Reading M)
      → drain parse n f ≡ some r
      → drain parse (n + k) f ≡ some r
  unfolding drain
  drain-more zero k f r h = ground arith
  drain-more (suc n) k f r h =
      let x = next_message parse f in
      rw (suc_plus n k)
        (turn-more x.0 x.1 (drain parse n x.0) (drain parse (n + k) x.0) r (drain-more n k x.0) h)

  -- The first message and the rest of the messages of a loop that takes one.
  turn_message :
      (f' : Framer) (m : M) (o : Option (Reading M)) (f1 : Framer) (ms : List M)
      → turn f' (message m) o ≡ some (reading f1 ms none)
      → (ms' : List M) × (o ≡ some (reading f1 ms' none)) × (ms ≡ m ∷ ms')
  turn_message f' m none f1 ms h = ground arith
  turn_message f' m (some r) f1 ms h = (r.messages, ground arith, ground arith)

  drain-next :
      (n : ℕ) (f g : Framer)
      → next_message parse f ≡ next_message parse g
      → drain parse n f ≡ drain parse n g
  unfolding drain
  drain-next zero f g h = refl
  drain-next (suc n) f g h = rw h

  -- What one loop over all the bytes gives, after the one over the first of them.
  Joined :
      (n n' : ℕ) (f f1 f2 : Framer) (more : Bytes) (ms1 ms2 : List M) (err : Option FramingError)
      → Type 0
  Joined n n' f f1 f2 more ms1 ms2 err =
      drain parse n f ≡ some (reading f1 ms1 none)
      → drain parse (n + n') (push f more) ≡ some (reading f2 (ms1 ++ ms2) err)

  join_turn :
      (n n' : ℕ) (f f1 f2 f' : Framer) (framed : Framed M) (more : Bytes) (ms1 ms2 : List M)
      (err : Option FramingError)
      → drain parse n' (push f1 more) ≡ some (reading f2 ms2 err)
      → next_message parse f ≡ (f', framed)
      → ((ms : List M) → Joined n n' f' f1 f2 more ms ms2 err)
      → turn f' framed (drain parse n f') ≡ some (reading f1 ms1 none)
      → drain parse (suc (n + n')) (push f more) ≡ some (reading f2 (ms1 ++ ms2) err)
  unfolding Joined
  join_turn n n' f f1 f2 f' (message m) more ms1 ms2 err h' e ih t =
      let (ms, o_is, ms_is) = turn_message f' m (drain parse n f') f1 ms1 t in
      let e' = next_message-append parse f f' (message m) more e (ground arith) in
      rw (drain_unfold (n + n') (push f more) (push f' more) (message m) e', ih ms o_is, ms_is)
  join_turn n n' f f1 f2 f' need_more more ms1 ms2 err h' e ih t =
      let f'_is : f' ≡ f1 = ground arith in
      let none_yet : ms1 ≡ [] = ground arith in
      let again : next_message parse (push f more) ≡ next_message parse (push f1 more) =
        rw f'_is at (next_message-waiting f f' more e) in
      let fuel : suc (n + n') ≡ n' + suc n = omega arith in
      rw (drain-next (suc (n + n')) (push f more) (push f1 more) again, fuel, none_yet)
        (drain-more n' (suc n) (push f1 more) _ h')
  join_turn n n' f f1 f2 f' (failed x) more ms1 ms2 err h' e ih t = ground arith

  -- Bytes that come in two reads give the messages that they give in one, when the first read ends
  -- without an error: a loop over the first bytes and then one over the rest with what was left of
  -- the first leave the framer, the messages in order and the error of one loop over all of them.
  pub drain_chunks :
      (n n' : ℕ) (f f1 f2 : Framer) (more : Bytes) (ms1 ms2 : List M) (err : Option FramingError)
      → drain parse n f ≡ some (reading f1 ms1 none)
      → drain parse n' (push f1 more) ≡ some (reading f2 ms2 err)
      → drain parse (n + n') (push f more) ≡ some (reading f2 (ms1 ++ ms2) err)
  unfolding drain Joined
  drain_chunks zero n' f f1 f2 more ms1 ms2 err h h' = ground arith
  drain_chunks (suc n) n' f f1 f2 more ms1 ms2 err h h' =
      let x = next_message parse f in
      let ih : (ms : List M) → Joined n n' x.0 f1 f2 more ms ms2 err =
        λ ms h1. drain_chunks n n' x.0 f1 f2 more ms ms2 err h1 h' in
      rw (suc_plus n n') (join_turn n n' f f1 f2 x.0 x.1 more ms1 ms2 err h' refl ih h)

-- ===== src/Framing/Reader.antt =====
-- crates/wavekat-sip/src/stack/stream.rs: the inner loop of the read loop, which takes every
-- complete message after a read, and what it does with one read. The channel's receiver is open.
use wavekat_sip.Base.{ℕ, zero, suc, ◌+◌, List, [], ◌∷◌, Option, none, some, ◌>>=◌}
use wavekat_sip.Framing.{
  Bytes, FramingError, Framer, push, Framed, message, need_more, failed, next_message,
}

-- Where the inner loop stops: the framer, the messages sent on, and the error that ends the
-- connection.
pub record Reading (M : Type 0) : Type 0 where
  pub framer : Framer
  pub messages : List M
  pub error : Option FramingError

module _ {M : Type 0} where
  abbrev pub reading : Framer → List M → Option FramingError → Reading M
  reading f ms e = record { framer = f; messages = ms; error = e }

  abbrev pub with_message : M → Reading M → Reading M
  with_message m r = record r { messages = m ∷ r.messages }

  -- One turn of the loop, on what the later turns give.
  abbrev pub turn : Framer → Framed M → Option (Reading M) → Option (Reading M)
  turn f (message m) later = do r ← later; some (with_message m r)
  turn f need_more later = some (reading f [] none)
  turn f (failed e) later = some (reading f [] (some e))

module _ {M : Type 0} (parse : Bytes → Option M) where
  -- The inner loop, on fuel.
  unfoldable pub drain : ℕ → Framer → Option (Reading M)
  drain zero f = none
  drain (suc n) f =
      let (f', framed) = next_message parse f in let later = drain n f' in turn f' framed later

  -- The end of one read: the keepalives are counted for the whole connection, unless an error ends
  -- it.
  pub counted : ℕ → Reading M → Reading M × ℕ
  counted total r = elim (r.error) [
    | none ↦
        (record r { framer = record (r.framer) { keepalives = 0 } }, total + r.framer.keepalives)
    | some e ↦ (r, total)
  ]

  -- One read of the connection: its bytes, and every complete message.
  unfoldable pub on_read : ℕ → Framer → ℕ → Bytes → Option (Reading M × ℕ)
  unfolding counted
  on_read n f total bytes = do r ← drain n (push f bytes); some (counted total r)

-- ===== src/Stream.antt =====
-- crates/wavekat-sip/src/stack/stream.rs, `StreamTransport`: what the senders, the read task, the
-- keepalive task and the engine do to one connection, in any order. A mutex orders the writes.
pub mod History
pub mod Simulation
pub mod Delivery
use wavekat_sip.Base.{
  ℕ, Bool, true, false, ◌&&◌, ◌||◌, not, List, [], ◌∷◌, ◌++◌, Option, none, some, ◌>>=◌, ◌==◌,
  if◌then◌else◌,
}
use wavekat_sip.Framing.{Bytes, Framer, new}
use wavekat_sip.Framing.Task.{Meets, closed, Ending, Pass, goes_on, finishes, read_once}
use wavekat_sip.Keepalive.{ping}

-- `wire` is what was written and flushed; `reader` is why the read task has ended, if it has.
pub record StreamTransport (M : Type 0) : Type 0 where
  pub peer : ℕ
  pub closed_token : Bool
  pub wire : Bytes
  pub framer : Framer
  pub keepalives : ℕ
  pub inbound : List M
  pub reader : Option Ending

pub data IoError : Type 0 where
  invalid_input write_failed connection_reset : IoError

-- What a call of `recv` does: it gives a message and its source, fails, or waits.
pub data Received (M : Type 0) : Type 0 where
  got : M → ℕ → Received M
  recv_failed : IoError → Received M
  pending : Received M

-- A message that is sent, and whether its write succeeds; a ping, likewise; a ping that nothing
-- answers; what the select of the read task meets; and a call of `recv`.
pub data Event (M : Type 0) : Type 0 where
  sends : M → ℕ → Bool → Event M
  pings : Bool → Event M
  no_pong : Event M
  meets : Meets → Event M
  takes : Event M

-- The select meets the token only once it is cancelled.
abbrev pub is_met : Meets → Bool → Bool
is_met closed token = token
is_met ev token = true

module _ {M : Type 0} where
  -- The connection, as `connect` makes it.
  abbrev pub connect : ℕ → StreamTransport M
  connect p = record {
    peer = p;
    closed_token = false;
    wire = [];
    framer = new;
    keepalives = 0;
    inbound = [];
    reader = none;
  }

  -- A write that succeeds, or one that finds the connection dead.
  abbrev pub write_message : Bytes → Bool → StreamTransport M → StreamTransport M
  write_message bytes true t = record t { wire = t.wire ++ bytes }
  write_message bytes false t = record t { closed_token = true }

  unfoldable pub recv : StreamTransport M → Received M × StreamTransport M
  recv t = elim t.inbound [
    | m ∷ ms ↦ (got m t.peer, record t { inbound = ms })
    | [] ↦ elim t.reader [ none ↦ (pending, t) | some e ↦ (recv_failed connection_reset, t) ]
  ]

  abbrev pub after_pass : Pass M → StreamTransport M → StreamTransport M
  after_pass (goes_on ms f total) t = record t {
    framer = f;
    keepalives = total;
    inbound = t.inbound ++ ms;
  }
  after_pass (finishes ms total e) t = record t {
    keepalives = total;
    inbound = t.inbound ++ ms;
    reader = some e;
  }

  module _ (parse : Bytes → Option M) (serialize : M → Bytes) where
    unfoldable pub send_to : M → ℕ → Bool → StreamTransport M → Option IoError × StreamTransport M
    send_to msg dst written t =
        if dst == t.peer
        then (if written then none else some write_failed, write_message (serialize msg) written t)
        else (some invalid_input, t)

    -- One turn of the read task, while it runs.
    unfoldable pub on_meets : Meets → StreamTransport M → Option (StreamTransport M)
    on_meets ev t = elim t.reader [
      | some e ↦ some t
      | none ↦
          let passed = do pass ← read_once parse ev t.framer t.keepalives; some (after_pass pass t)
          in if is_met ev t.closed_token then passed else some t
    ]

    unfoldable pub step :
        Event M → StreamTransport M → Option (List (Received M) × StreamTransport M)
    unfolding recv send_to on_meets
    step (sends msg dst written) t = let (e, t') = send_to msg dst written t in some ([], t')
    step (pings written) t = some ([], write_message ping written t)
    step no_pong t = some ([], record t { closed_token = true })
    step (meets ev) t = do t' ← on_meets ev t; some ([], t')
    step takes t = let (r, t') = recv t in some (r ∷ [], t')

    unfoldable pub run_stream :
        List (Event M) → StreamTransport M → Option (List (Received M) × StreamTransport M)
    unfolding step
    run_stream [] t = some ([], t)
    run_stream (ev ∷ evs) t = elim (step ev t) [
      | none ↦ none
      | some (rs, t') ↦ do (rs', t'') ← run_stream evs t'; some (rs ++ rs', t'')
    ]

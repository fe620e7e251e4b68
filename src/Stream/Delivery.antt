-- ===== src/Stream/Delivery.antt =====
-- crates/wavekat-sip/src/stack/stream.rs: what the engine receives over a connection, and what the
-- peer does, whatever the order of the writes, the pings, the reads and the calls of recv.
use wavekat_sip.Base.{
  ℕ, append_assoc, append-nil, Bool, true, false, ◌≡◌, refl, sym, ap, ◌∙◌, List, [], ◌∷◌, ◌++◌,
  Option, none, some, if◌then◌else◌, arith, Option-cases, Bool-cases, inl, inr,
}
use wavekat_sip.Framing.{Bytes, new}
use wavekat_sip.Framing.Task.{
  Meets, Pass, goes_on, finishes, read_once, read_task, TaskRun, waits, stops, publishing,
  read_once_returns, read_task-after,
}
use wavekat_sip.Keepalive.{ping}
use wavekat_sip.Stream.{
  StreamTransport, Received, Event, sends, pings, no_pong, meets, takes, connect, write_message,
  after_pass, is_met, step, run_stream,
}
use wavekat_sip.Stream.History.{messages, Settled, met, written}
use wavekat_sip.Stream.Simulation.{
  Simulates, quiet, run_stream-step, Settles-nothing, simulates-write, simulates-sends,
  simulates-takes,
}

module _ {M : Type 0} (parse : Bytes → Option M) (serialize : M → Bytes) where
  -- A turn of the task that goes on, and one that is its last.
  simulates-pass :
      (ev : Meets) (evs : List (Event M)) (t : StreamTransport M) (pass : Pass M)
      → t.reader ≡ none
      → is_met ev t.closed_token ≡ true
      → read_once parse ev t.framer t.keepalives ≡ some pass
      → Simulates parse serialize (after_pass pass t) evs
      → Simulates parse serialize t (meets ev ∷ evs)
  unfolding step
  simulates-pass ev evs t (goes_on ms f total) runs is_met' passed
        (x, run, ran, reads, (given, ended, pongs, sent, settled)) =
      let rest = met t.peer t.closed_token evs in
      let later : read_task parse rest f total ≡ some run = rw runs at reads in
      let all =
        read_task-after parse ev rest t.framer t.keepalives (goes_on ms f total) run passed later in
      (
        x,
        publishing ms run,
        run_stream-step parse serialize (meets ev) evs t (after_pass (goes_on ms f total) t) [] x
            (ground (arith, runs, is_met', passed)) ran,
        rw (runs, is_met') all,
        (given ∙ append_assoc t.inbound ms run.published, ended, pongs, sent, settled),
      )
  simulates-pass ev evs t (finishes ms total e) runs is_met' passed
        (x, run, ran, reads, (given, ended, pongs, sent, settled)) =
      let rest = met t.peer t.closed_token evs in
      let over : stops total e ≡ run = ground arith in
      let all =
        read_task-after parse ev rest t.framer t.keepalives (finishes ms total e) run passed tt in
      (
        x,
        publishing ms (stops total e),
        run_stream-step parse serialize (meets ev) evs t (after_pass (finishes ms total e) t) [] x
            (ground (arith, runs, is_met', passed)) ran,
        rw (runs, is_met') all,
        (
          given
              ∙ ap (λ (r : TaskRun M). (t.inbound ++ ms) ++ r.published) (sym over)
              ∙ append_assoc t.inbound ms [],
          ended ∙ ap (λ (r : TaskRun M). r.ending) (sym over),
          pongs ∙ ap (λ (r : TaskRun M). r.pongs) (sym over),
          sent,
          settled,
        ),
      )

  simulates-meets :
      (ev : Meets) (evs : List (Event M)) (t : StreamTransport M)
      → parse [] ≡ none
      → ((t' : StreamTransport M) → Simulates parse serialize t' evs)
      → Simulates parse serialize t (meets ev ∷ evs)
  unfolding step
  simulates-meets ev evs t empty later = elim (Option-cases t.reader) [
    | inr (x, e) ↦
        quiet parse serialize (meets ev) evs t t [] (ground (arith, e)) (rw e refl) refl refl
          (Settles-nothing parse serialize t evs) (later t)
    | inl e ↦ elim (Bool-cases (is_met ev t.closed_token)) [
      | inr e' ↦
          quiet parse serialize (meets ev) evs t t [] (ground (arith, e, e')) (rw (e, e') refl) refl
            refl (Settles-nothing parse serialize t evs) (later t)
      | inl e' ↦
          let (pass, is) = read_once_returns parse ev t.framer t.keepalives empty in
          simulates-pass ev evs t pass e e' is (later (after_pass pass t))
    ]
  ]

  pings_written :
      (evs : List (Event M)) (p : ℕ) (ok : Bool)
      → written serialize p (pings ok ∷ evs) ≡ (if ok then ping else []) ++ written serialize p evs
  pings_written evs p true = refl
  pings_written evs p false = refl

  simulates :
      (evs : List (Event M)) (t : StreamTransport M)
      → parse [] ≡ none
      → Simulates parse serialize t evs
  unfolding run_stream step read_task
  simulates [] t empty = elim (Option-cases t.reader) [
    | inr (x, e) ↦ (
      ([], t),
      stops t.keepalives x,
      refl,
      rw e refl,
      (sym (append-nil t.inbound), e, refl, sym (append-nil t.wire), tt),
    )
    | inl e ↦ (
      ([], t),
      waits t.keepalives,
      refl,
      rw e refl,
      (sym (append-nil t.inbound), e, refl, sym (append-nil t.wire), tt),
    )
  ]
  simulates (sends msg dst ok ∷ evs) t empty =
      simulates-sends parse serialize msg dst ok evs t (λ t'. simulates evs t' empty)
  simulates (pings ok ∷ evs) t empty =
      simulates-write parse serialize (pings ok) evs t ping ok refl refl
        (pings_written evs t.peer ok) (simulates evs (write_message ping ok t) empty)
  simulates (no_pong ∷ evs) t empty =
      simulates-write parse serialize no_pong evs t [] false refl refl refl
        (simulates evs (write_message [] false t) empty)
  simulates (meets ev ∷ evs) t empty = simulates-meets ev evs t empty (λ t'. simulates evs t' empty)
  simulates (takes ∷ evs) t empty =
      simulates-takes parse serialize evs t (λ t'. simulates evs t' empty)

  -- Whatever the order of sends, pings, reads and calls of recv on a new connection, when no bytes
  -- at all are not a message: the run never gets stuck. What the engine has received, with what
  -- still waits for it, are the messages that the read task publishes over what its select meets,
  -- each once and in their order; the task has ended as it ends there, with as many keepalives
  -- counted. The peer is sent what the writes that succeed give, whole and in their order, and
  -- nothing for a message that is sent elsewhere. After recv reports the connection closed, it
  -- never gives a message again.
  pub run_stream_delivers :
      (p : ℕ) (evs : List (Event M))
      → parse [] ≡ none
      → (x : List (Received M) × StreamTransport M) × (run : TaskRun M) × (run_stream parse
            serialize evs
            (connect p)
          ≡ some x)
        × (read_task parse (met p false evs) new 0 ≡ some run)
        × (messages x.0 ++ x.1.inbound ≡ run.published)
        × (x.1.reader ≡ run.ending)
        × (x.1.keepalives ≡ run.pongs)
        × (x.1.wire ≡ written serialize p evs)
        × Settled x.0
  run_stream_delivers p evs empty =
      let (x, run, ran, reads, (given, ended, pongs, sent, settled)) =
        simulates evs (connect p) empty in
      (x, run, ran, reads, given, ended, pongs, sent, settled)

-- ===== src/Stream/Simulation.antt =====
-- crates/wavekat-sip/src/stack/stream.rs: one step of a connection, against the read task on its own.
use wavekat_sip.Base.{
  ℕ, append_assoc, Bool, true, false, ◌≡◌, refl, sym, ap, ◌∙◌, ◌&&◌, ◌||◌, not, List, [], ◌∷◌, ◌++◌,
  Option, none, some, ◌==◌, if◌then◌else◌, arith, Option-cases, List-cases, Bool-cases, inl, inr,
}
use wavekat_sip.Framing.{Bytes}
use wavekat_sip.Framing.Task.{Meets, Ending, read_task, TaskRun, stops}
use wavekat_sip.Stream.{
  StreamTransport, connection_reset, Received, got, recv_failed, pending, Event, sends, takes,
  write_message, step, run_stream,
}
use wavekat_sip.Stream.History.{messages, Settled, met, written, messages-append, front_empty}

module _ {M : Type 0} (parse : Bytes → Option M) (serialize : M → Bytes) where
  -- The run of a task that has ended, or that goes on.
  abbrev pub remaining : StreamTransport M → List Meets → Option (TaskRun M)
  remaining t ms = elim t.reader [
    | some e ↦ some (stops t.keepalives e)
    | none ↦ read_task parse ms t.framer t.keepalives
  ]

  abbrev pub Agrees :
      StreamTransport M
      → List (Event M)
      → List (Received M) × StreamTransport M
      → TaskRun M
      → Type 0
  Agrees t evs x run =
      (messages x.0 ++ x.1.inbound ≡ t.inbound ++ run.published)
      × (x.1.reader ≡ run.ending)
      × (x.1.keepalives ≡ run.pongs)
      × (x.1.wire ≡ t.wire ++ written serialize t.peer evs)
      × Settled x.0

  abbrev pub Simulates : StreamTransport M → List (Event M) → Type 0
  Simulates t evs =
      (x : List (Received M) × StreamTransport M) × (run : TaskRun M) × (run_stream parse serialize
          evs t
        ≡ some x)
      × (remaining t (met t.peer t.closed_token evs) ≡ some run)
      × Agrees t evs x run

  pub run_stream-step :
      (ev : Event M) (evs : List (Event M)) (t t' : StreamTransport M) (rs : List (Received M))
      (x : List (Received M) × StreamTransport M)
      → step parse serialize ev t ≡ some (rs, t')
      → run_stream parse serialize evs t' ≡ some x
      → run_stream parse serialize (ev ∷ evs) t ≡ some (rs ++ x.0, x.1)
  unfolding run_stream
  run_stream-step ev evs t t' rs x e e' = ground (arith, e, e')

  abbrev pub Settles : StreamTransport M → List (Event M) → List (Received M) → Type 0
  Settles t evs rs =
      (x : List (Received M) × StreamTransport M) (run : TaskRun M)
      → remaining t (met t.peer t.closed_token evs) ≡ some run
      → messages x.0 ++ x.1.inbound ≡ t.inbound ++ run.published
      → Settled x.0
      → Settled (rs ++ x.0)

  pub Settles-nothing : (t : StreamTransport M) (evs : List (Event M)) → Settles t evs []
  Settles-nothing t evs x run reads given settled = settled

  pub Settles-recv_failed :
      (t : StreamTransport M) (evs : List (Event M)) (e : Ending)
      → t.inbound ≡ []
      → t.reader ≡ some e
      → Settles t evs (recv_failed connection_reset ∷ [])
  Settles-recv_failed t evs e none_left ended x run reads given settled =
      let over : stops t.keepalives e ≡ run = let is = rw ended at reads in ground arith in
      let empty : messages x.0 ++ x.1.inbound ≡ [] =
        given
        ∙ ap (λ ms. ms ++ run.published) none_left
        ∙ ap (λ (r : TaskRun M). r.published) (sym over) in
      (front_empty (messages x.0) x.1.inbound empty, settled)

  -- An event that leaves the run of the read task as it is.
  pub quiet :
      (ev : Event M) (evs : List (Event M)) (t t' : StreamTransport M) (rs : List (Received M))
      → step parse serialize ev t ≡ some (rs, t')
      → remaining t (met t.peer t.closed_token (ev ∷ evs))
        ≡ remaining t' (met t'.peer t'.closed_token evs)
      → messages rs ++ t'.inbound ≡ t.inbound
      → t.wire ++ written serialize t.peer (ev ∷ evs) ≡ t'.wire ++ written serialize t'.peer evs
      → Settles t' evs rs
      → Simulates t' evs
      → Simulates t (ev ∷ evs)
  quiet ev evs t t' rs stepped same queued wired settles
        (x, run, ran, reads, (given, ended, pongs, sent, settled)) =
      (
        (rs ++ x.0, x.1),
        run,
        run_stream-step ev evs t t' rs x stepped ran,
        same ∙ reads,
        (
          ap (λ ms. ms ++ x.1.inbound) (messages-append rs (x.0))
              ∙ append_assoc (messages rs) (messages (x.0)) (x.1.inbound)
              ∙ ap (λ ms. messages rs ++ ms) given
              ∙ sym (append_assoc (messages rs) t'.inbound run.published)
              ∙ ap (λ ms. ms ++ run.published) queued,
          ended,
          pongs,
          sent ∙ sym wired,
          settles x run reads given settled,
        ),
      )

  pub simulates-write :
      (ev : Event M) (evs : List (Event M)) (t : StreamTransport M) (bytes : Bytes) (ok : Bool)
      → step parse serialize ev t ≡ some ([], write_message bytes ok t)
      → met t.peer t.closed_token (ev ∷ evs) ≡ met t.peer (not ok || t.closed_token) evs
      → written serialize t.peer (ev ∷ evs)
        ≡ (if ok then bytes else []) ++ written serialize t.peer evs
      → Simulates (write_message bytes ok t) evs
      → Simulates t (ev ∷ evs)
  simulates-write ev evs t bytes true stepped same wires =
      quiet ev evs t (write_message bytes true t) [] stepped (ap (remaining t) same) refl
        (ap (λ w. t.wire ++ w) wires
          ∙ sym (append_assoc t.wire bytes (written serialize t.peer evs)))
        (Settles-nothing (write_message bytes true t) evs)
  simulates-write ev evs t bytes false stepped same wires =
      quiet ev evs t (write_message bytes false t) [] stepped (ap (remaining t) same) refl
        (ap (λ w. t.wire ++ w) wires) (Settles-nothing (write_message bytes false t) evs)

  pub simulates-sends :
      (msg : M) (dst : ℕ) (ok : Bool) (evs : List (Event M)) (t : StreamTransport M)
      → ((t' : StreamTransport M) → Simulates t' evs)
      → Simulates t (sends msg dst ok ∷ evs)
  unfolding step
  simulates-sends msg dst ok evs t later = elim (Bool-cases (dst == t.peer)) [
    | inl e ↦
        simulates-write (sends msg dst ok) evs t (serialize msg) ok (ground (arith, e))
          (ap (λ b. met t.peer (b && not ok || t.closed_token) evs) e) (sends_written e ok)
          (later (write_message (serialize msg) ok t))
    | inr e ↦
        quiet (sends msg dst ok) evs t t [] (ground (arith, e))
          (ap (λ b. remaining t (met t.peer (b && not ok || t.closed_token) evs)) e) refl
          (sends_nothing e ok) (Settles-nothing t evs) (later t)
  ]
    where
      sends_written :
          dst == t.peer ≡ true
          → (ok : Bool)
          → written serialize t.peer (sends msg dst ok ∷ evs)
            ≡ (if ok then serialize msg else []) ++ written serialize t.peer evs
      sends_written e true = rw e refl
      sends_written e false = refl

      sends_nothing :
          dst == t.peer ≡ false
          → (ok : Bool)
          → t.wire ++ written serialize t.peer (sends msg dst ok ∷ evs)
            ≡ t.wire ++ written serialize t.peer evs
      sends_nothing e true = rw e refl
      sends_nothing e false = refl

  pub simulates-takes :
      (evs : List (Event M)) (t : StreamTransport M)
      → ((t' : StreamTransport M) → Simulates t' evs)
      → Simulates t (takes ∷ evs)
  unfolding step
  simulates-takes evs t later = elim (List-cases t.inbound) [
    | inr (m, ms, e) ↦
        let t' : StreamTransport M = record t { inbound = ms } in
        quiet takes evs t t' (got m t.peer ∷ []) (ground (arith, e)) refl (sym e) refl
          (λ x run r g s. s) (later t')
    | inl e ↦ elim (Option-cases t.reader) [
      | inl e' ↦
          quiet takes evs t t (pending ∷ []) (ground (arith, e, e')) refl refl refl
            (λ x run r g s. s) (later t)
      | inr (x, e') ↦
          quiet takes evs t t (recv_failed connection_reset ∷ []) (ground (arith, e, e')) refl refl
            refl (Settles-recv_failed t evs x e e') (later t)
    ]
  ]

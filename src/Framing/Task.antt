-- ===== src/Framing/Task.antt =====
-- crates/wavekat-sip/src/stack/stream.rs: the read task of a connection. A run of the task is the
-- list of what its `select!` meets; the receiver of its channel is there as long as the transport is.
use wavekat_sip.Base.{
  ℕ, suc, ◌≡◌, refl, Option-cases, inl, inr, arith, List, [], ◌∷◌, ◌++◌, Option, none, some, ◌>>=◌,
  length,
}
use wavekat_sip.Framing.{Bytes, FramingError, Framer, push}
use wavekat_sip.Framing.Reader.{Reading, on_read, counted}
use wavekat_sip.Framing.Progress.{drain_returns}

-- The token `closed`, or a read with its bytes, none at the end of the stream.
pub data Meets : Type 0 where
  closed : Meets
  arrived : Bytes → Meets
  read_failed : Meets

pub data Ending : Type 0 where
  found_dead closed_by_peer read_error : Ending
  framing_failed : FramingError → Ending

-- What the task has published and counted, and why it has ended, if it has.
pub record TaskRun (M : Type 0) : Type 0 where
  pub published : List M
  pub pongs : ℕ
  pub ending : Option Ending

-- One turn of the task: what it publishes, and how it goes on.
pub data Pass (M : Type 0) : Type 0 where
  goes_on : List M → Framer → ℕ → Pass M
  finishes : List M → ℕ → Ending → Pass M

module _ {M : Type 0} where
  abbrev pub stops : ℕ → Ending → TaskRun M
  stops total e = record { published = []; pongs = total; ending = some e }

  abbrev pub publishing : List M → TaskRun M → TaskRun M
  publishing ms run = record run { published = ms ++ run.published }

  abbrev pub waits : ℕ → TaskRun M
  waits total = record { published = []; pongs = total; ending = none }

module _ {M : Type 0} (parse : Bytes → Option M) where
  -- One turn of the task's loop. The fuel of the inner loop is one more than the buffered bytes.
  unfoldable pub read_once : Meets → Framer → ℕ → Option (Pass M)
  unfolding on_read
  read_once closed f total = some (finishes [] total found_dead)
  read_once read_failed f total = some (finishes [] total read_error)
  read_once (arrived []) f total = some (finishes [] total closed_by_peer)
  read_once (arrived (b ∷ bytes)) f total =
      let fuel = suc (length (push f (b ∷ bytes)).buf) in
      elim (on_read parse fuel f total (b ∷ bytes)) [
        | none ↦ none
        | some (r, total') ↦ elim r.error [
          | some e ↦ some (finishes r.messages total' (framing_failed e))
          | none ↦ some (goes_on r.messages r.framer total')
        ]
      ]

  -- `read_task`.
  unfoldable pub read_task : List Meets → Framer → ℕ → Option (TaskRun M)
  unfolding read_once
  read_task [] f total = some (waits total)
  read_task (ev ∷ rest) f total = elim (read_once ev f total) [
    | none ↦ none
    | some (finishes ms total' e) ↦ some (publishing ms (stops total' e))
    | some (goes_on ms f' total') ↦ do later ← read_task rest f' total'; some (publishing ms later)
  ]

  on_read_returns :
      (f : Framer) (total : ℕ) (bytes : Bytes)
      → parse [] ≡ none
      → (x : Reading M × ℕ) × (on_read parse (suc (length (push f bytes).buf)) f total bytes
          ≡ some x)
  unfolding on_read
  on_read_returns f total bytes empty =
      let (r, e) =
        drain_returns parse (suc (length (push f bytes).buf)) (push f bytes) empty (omega arith) in
      (counted parse total r, rw e)

  pub read_once_returns :
      (ev : Meets) (f : Framer) (total : ℕ)
      → parse [] ≡ none
      → (pass : Pass M) × (read_once ev f total ≡ some pass)
  unfolding read_once
  read_once_returns closed f total empty = (finishes [] total found_dead, refl)
  read_once_returns read_failed f total empty = (finishes [] total read_error, refl)
  read_once_returns (arrived []) f total empty = (finishes [] total closed_by_peer, refl)
  read_once_returns (arrived (b ∷ bytes)) f total empty =
      let ((r, total'), e) = on_read_returns f total (b ∷ bytes) empty in
      elim (Option-cases r.error) [
        | inr (x, e') ↦ (finishes r.messages total' (framing_failed x), ground (arith, e, e'))
        | inl e' ↦ (goes_on r.messages r.framer total', ground (arith, e, e'))
      ]

  -- What the task makes of a run of the rest.
  abbrev pub after : Pass M → TaskRun M → TaskRun M
  after (goes_on ms f total) later = publishing ms later
  after (finishes ms total e) later = publishing ms (stops total e)

  -- The rest of the list is read only if the turn goes on.
  abbrev pub Follows : Pass M → List Meets → TaskRun M → Type 0
  Follows (goes_on ms f total) rest later = read_task rest f total ≡ some later
  Follows (finishes ms total e) rest later = Unit

  pub read_task-after :
      (ev : Meets) (rest : List Meets) (f : Framer) (total : ℕ) (pass : Pass M) (later : TaskRun M)
      → read_once ev f total ≡ some pass
      → Follows pass rest later
      → read_task (ev ∷ rest) f total ≡ some (after pass later)
  unfolding read_task
  read_task-after ev rest f total (goes_on ms f' total') later is is' = ground (arith, is, is')
  read_task-after ev rest f total (finishes ms total' e) later is is' = rw (read_task, is)

  -- The task handles whatever it meets, in any order and split into reads in any way: it never
  -- spins on its buffer, when no bytes at all are not a message.
  pub read_task_returns :
      (evs : List Meets) (f : Framer) (total : ℕ)
      → parse [] ≡ none
      → (run : TaskRun M) × (read_task evs f total ≡ some run)
  unfolding read_task
  read_task_returns [] f total empty = (waits total, refl)
  read_task_returns (ev ∷ rest) f total empty =
      let (pass, is) = read_once_returns ev f total empty in
      let (later, is') = follows pass (λ f' total'. read_task_returns rest f' total' empty) in
      (after pass later, read_task-after ev rest f total pass later is is')
    where
      follows :
          (pass : Pass M)
          → ((f : Framer) (total : ℕ) → (run : TaskRun M) × (read_task rest f total ≡ some run))
          → (later : TaskRun M) × Follows pass rest later
      follows (goes_on ms f' total') reads = reads f' total'
      follows (finishes ms total' e) reads = (stops total' e, tt)

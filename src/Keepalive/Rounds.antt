-- ===== src/Keepalive/Rounds.antt =====
-- crates/wavekat-sip/src/stack/keepalive.rs, `run`: which connections are closed.
use wavekat_sip.Base.{
  ℕ, ◌+◌, ◌<◌, ◌≡◌, ◌⊎◌, inl, inr, true, false, List, [], ◌∷◌, ◌++◌, some, arith, length, All,
}
use wavekat_sip.Keepalive.{Round, no_answer, Pinged, pinged, with_ping, pong_missed, run}

-- The ping of the round is written, and the peer has never answered one or answers this one.
abbrev pub IsAlive : Round → Type 0
IsAlive r =
    (r.cancelled_first ≡ false)
    × (r.written ≡ true)
    × ((r.before ≡ 0) ⊎ ((r.cancelled_then ≡ false) × (r.before < r.after)))

-- The ping is written, and a peer that has answered before does not answer it.
abbrev pub IsDead : Round → Type 0
IsDead r =
    (r.cancelled_first ≡ false)
    × (r.written ≡ true)
    × (r.cancelled_then ≡ false)
    × (0 < r.before)
    × (r.after ≡ r.before)

abbrev pub with_pings : ℕ → Pinged → Pinged
with_pings n p = record p { pings = n + p.pings }

run-IsAlive : (r : Round) (rs : List Round) → IsAlive r → run (r ∷ rs) ≡ with_ping (run rs)
unfolding run pong_missed
run-IsAlive r rs (first, ok, inl never) = rw (first, ok, never)
run-IsAlive r rs (first, ok, inr (waits, more)) = ground arith

-- A peer that has never answered a ping, or that answers each, keeps its connection: rounds like
-- that write one ping each and go on to what comes after them.
pub run_keeps :
    (rs later : List Round)
    → All IsAlive rs
    → run (rs ++ later) ≡ with_pings (length rs) (run later)
run_keeps [] later all = ground arith
run_keeps (r ∷ rs) later (alive, all) =
    rw (run-IsAlive r (rs ++ later) alive, run_keeps rs later all) (ground arith)

-- After rounds whose pings are all written, and answered unless the peer has never answered one,
-- the first ping that a peer known to answer leaves without an answer closes the connection.
pub run_detects :
    (rs : List Round) (dead : Round) (later : List Round)
    → All IsAlive rs
    → IsDead dead
    → run (rs ++ dead ∷ later) ≡ pinged (length rs + 1) (some no_answer)
unfolding run pong_missed
run_detects rs dead later all is_dead = rw (run_keeps rs (dead ∷ later) all) (ground arith)

-- ===== src/Engine/Stale.antt =====
-- The generation counters of the timers: which fired timers the engine still listens to.
use wavekat_sip.Base.{ℕ, ◌+◌, ◌≤◌, ◌<◌, ◌≡◌, true, some, arith}
use wavekat_sip.Transaction.{TimerId, timer_eq}
use wavekat_sip.Transaction.Key.{TransactionKey}
use wavekat_sip.Engine.Table.{key_eq_self, get-insert}
use wavekat_sip.Engine.{
  TimerFire, Entry, Engine, get, put_entry, arm_timer_at, arm_timer, stop_timer_at, cancel_timer,
  on_timer_fire, set_generation,
}

get-put_entry :
    (key : TransactionKey) (entry : Entry) (eng : Engine)
    → get key (put_entry key entry eng).txns ≡ some entry
get-put_entry key entry eng = rw (get-insert, key_eq_self)

timer_eq_self : (id : TimerId) → timer_eq id id ≡ true
timer_eq_self id = ground arith

-- A fire of another generation than the stored one changes nothing.
stale_ignored :
    (fire : TimerFire) (entry : Entry) (n : ℕ) (eng : Engine)
    → get fire.key eng.txns ≡ some entry
    → entry.generations fire.id ≡ some n
    → fire.generation < n
    → on_timer_fire fire eng ≡ eng
unfolding on_timer_fire
stale_ignored fire entry n eng found current older = ground arith

-- Stopping or re-arming a timer makes the engine ignore every sleeper that was spawned for it
-- before, in the transaction that is stored under the key: a fire whose generation is at most the
-- stored one then changes nothing.
pub engine_ignores_superseded :
    (fire : TimerFire) (after : ℕ) (entry : Entry) (n : ℕ) (eng : Engine)
    → get fire.key eng.txns ≡ some entry
    → entry.generations fire.id ≡ some n
    → fire.generation ≤ n
    → (on_timer_fire fire (cancel_timer fire.key fire.id eng) ≡ cancel_timer fire.key fire.id eng)
      × (on_timer_fire fire (arm_timer fire.key fire.id after eng)
          ≡ arm_timer fire.key fire.id after eng)
unfolding cancel_timer arm_timer
engine_ignores_superseded fire after entry n eng found current older =
    let newer = record entry { generations = set_generation fire.id (n + 1) entry.generations } in
    let set : newer.generations fire.id ≡ some (n + 1) = rw (timer_eq_self fire.id) in
    rw (found, stop_timer_at, arm_timer_at, current)
      (
        stale_ignored fire newer (n + 1) _ (get-put_entry fire.key newer eng) set (omega arith),
        stale_ignored fire newer (n + 1) _ (get-put_entry fire.key newer eng) set (omega arith),
      )

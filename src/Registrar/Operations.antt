-- ===== src/Registrar/Operations.antt =====
-- crates/wavekat-sip/src/registrar.rs: everything that is done with one registrar, over the user agent
-- of stack/ua.rs and the retries of stack/auth.rs.
use wavekat_sip.Base.{
  ℕ, zero, suc, ◌+◌, ◌*◌, ◌^◌, ◌≤◌, ◌<◌, ◌≡◌, refl, inl, inr, Option-cases, arith, List, [], ◌∷◌,
  Option, some, ◌>>=◌, length,
}
use wavekat_sip.Auth.{AgentRsip}
use wavekat_sip.Auth.Retry.{AgentLaws}
use wavekat_sip.Ua.{Outside, Ua}
use wavekat_sip.Ua.Numbers.{Rising, IsNumbered}
use wavekat_sip.Registrar.{
  new_state, Registrar, World, register_account, requested_expires, unregister, probe,
  keepalive_loop,
}
use wavekat_sip.Registrar.Sequence.{Follows, register_with-Follows, probe-Follows}

-- What an application does with a registrar; a `keepalive_loop` is a sequence of `refresh`.
pub data Operation : Type 0 where
  refresh : Operation
  ask : Operation
  leave : Operation

module _ (r : AgentRsip) (out : Outside) (ua : Ua) (reg : Registrar) where
  unfoldable pub operate : Operation → World → Option World
  operate refresh w = do (result, w') ← register_account r out ua reg w; some w'
  operate ask w = some (probe r out ua reg w).1
  operate leave w = do (result, w') ← unregister r out ua reg w; some w'

  unfoldable pub operate_all : List Operation → World → Option World
  unfolding operate
  operate_all [] w = some w
  operate_all (op ∷ ops) w = do w' ← operate op w; operate_all ops w'

  abbrev refreshes : ℕ → List Operation
  refreshes zero = []
  refreshes (suc n) = refresh ∷ refreshes n

  keepalive_loop-refresh :
      (n : ℕ) (w : World) → keepalive_loop r out ua reg n w ≡ operate_all (refreshes (suc n)) w
  unfolding keepalive_loop operate_all operate
  keepalive_loop-refresh zero w = ground arith
  keepalive_loop-refresh (suc n) w = elim (Option-cases (register_account r out ua reg w)) [
    | inl e ↦ ground (arith, e)
    | inr ((result, w'), e) ↦ rw e (keepalive_loop-refresh n w')
  ]

  module _ (laws : AgentLaws r) where
    operate-Follows :
        (op : Operation) (w : World)
        → IsNumbered r w.air w.state.cseq
        → w.state.cseq + 4 < 2 ^ 32
        → (w' : World) × (operate op w ≡ some w') × Follows r laws out ua reg 4 w w'
    unfolding operate register_account unregister
    operate-Follows refresh w before small =
        let (result, w', is, follows) =
          register_with-Follows r laws out ua reg
            (requested_expires reg.expires w.state.least_expires) w before small in
        (w', ground (arith, is), follows)
    operate-Follows ask w before small =
        let (kept, low, longer) = probe-Follows r laws out ua reg w before (omega arith) in
        ((probe r out ua reg w).1, refl, (kept, omega arith, omega arith))
    operate-Follows leave w before small =
        let (result, w', is, follows) = register_with-Follows r laws out ua reg 0 w before small in
        (w', ground (arith, is), follows)

    operate_all-Follows :
        (ops : List Operation) (w : World)
        → IsNumbered r w.air w.state.cseq
        → w.state.cseq + 4 * length ops < 2 ^ 32
        → (w' : World) × (operate_all ops w ≡ some w')
          × Follows r laws out ua reg (4 * length ops) w w'
    unfolding operate_all
    operate_all-Follows [] w before small = (w, refl, (before, omega arith, omega arith))
    operate_all-Follows (op ∷ ops) w before small =
        let (w1, is, (kept, low, longer)) = operate-Follows op w before (omega arith) in
        let (w', is', (kept', low', longer')) = operate_all-Follows ops w1 kept (omega arith) in
        (w', rw (is, is'), (kept', omega arith, omega arith))

    -- A new registrar refreshes, probes and leaves in any order, whatever the peer answers and even
    -- when the engine stops, fewer than `2 ^ 30` times. Every operation ends and sends at most four
    -- REGISTERs, and the sequence numbers of all that are sent, answers to challenges and retries
    -- after a 423 included, rise: no number is used twice.
    pub registrar_never_reuses_cseq :
        (ops : List Operation)
        → length ops < 2 ^ 30
        → (w : World) × (operate_all ops
              (record { state = new_state; air = record { wire = []; tick = 0 } })
            ≡ some w)
          × Rising r 0 w.air.wire w.state.cseq
          × (length w.air.wire ≤ 4 * length ops)
    registrar_never_reuses_cseq ops few =
        let (w, is, (rises, _, longer)) =
          operate_all-Follows ops
            (record { state = new_state; air = record { wire = []; tick = 0 } }) (omega arith)
            (omega arith) in
        (w, is, rises, omega arith)

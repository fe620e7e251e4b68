-- ===== src/Stream/History.antt =====
-- crates/wavekat-sip/src/stack/stream.rs: what a history of a connection asks of it: the messages
-- that recv gives, the writes that succeed, and what the select of the read task meets.
use wavekat_sip.Base.{
  ℕ, Bool, true, false, ◌≡◌, refl, ap, ◌&&◌, ◌||◌, not, List, [], ◌∷◌, ◌++◌, ◌==◌, if◌then◌else◌,
  arith,
}
use wavekat_sip.Framing.{Bytes}
use wavekat_sip.Framing.Task.{Meets}
use wavekat_sip.Keepalive.{ping}
use wavekat_sip.Stream.{
  Received, got, recv_failed, pending, Event, sends, pings, no_pong, meets, is_met,
}

module _ {M : Type 0} where
  abbrev pub messages : List (Received M) → List M
  messages [] = []
  messages (got m src ∷ rs) = m ∷ messages rs
  messages (r ∷ rs) = messages rs

  -- After a call of recv that fails, no message comes.
  abbrev pub Settled : List (Received M) → Type 0
  Settled [] = Unit
  Settled (recv_failed e ∷ rs) = (messages rs ≡ []) × Settled rs
  Settled (r ∷ rs) = Settled rs

  -- Whether an event finds the connection to the peer dead.
  abbrev pub breaks : ℕ → Event M → Bool
  breaks p (sends msg dst written) = dst == p && not written
  breaks p (pings written) = not written
  breaks p no_pong = true
  breaks p ev = false

  -- What the select of the read task meets, as long as the task runs: the token only after an event
  -- that breaks the connection.
  abbrev pub met : ℕ → Bool → List (Event M) → List Meets
  met p token [] = []
  met p token (meets ev ∷ evs) =
      let rest = met p token evs in if is_met ev token then ev ∷ rest else rest
  met p token (ev ∷ evs) = met p (breaks p ev || token) evs

  pub front_empty : (xs ys : List M) → xs ++ ys ≡ [] → xs ≡ []
  front_empty [] ys e = refl
  front_empty (x ∷ xs) ys e = absurd (ground (arith, e))

  pub messages-append :
      (rs rs' : List (Received M)) → messages (rs ++ rs') ≡ messages rs ++ messages rs'
  messages-append [] rs' = refl
  messages-append (got m src ∷ rs) rs' = ap (λ ms. m ∷ ms) (messages-append rs rs')
  messages-append (recv_failed e ∷ rs) rs' = messages-append rs rs'
  messages-append (pending ∷ rs) rs' = messages-append rs rs'

  module _ (serialize : M → Bytes) where
    -- The writes that succeed.
    abbrev pub written : ℕ → List (Event M) → Bytes
    written p [] = []
    written p (sends msg dst true ∷ evs) = (if dst == p then serialize msg else []) ++ written p evs
    written p (pings true ∷ evs) = ping ++ written p evs
    written p (ev ∷ evs) = written p evs

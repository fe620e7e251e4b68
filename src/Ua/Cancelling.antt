-- ===== src/Ua/Cancelling.antt =====
-- crates/wavekat-sip/src/stack/ua.rs, `await_final_cancellable`: when a CANCEL is sent.
use wavekat_sip.Base.{
  ℕ, ◌≡◌, refl, Bool, true, false, not, ◌&&◌, ◌||◌, arith, List, [], ◌∷◌, some, append-nil, leb,
  if◌then◌else◌,
}
use wavekat_sip.Sip.{Request}
use wavekat_sip.Engine.State.{
  Event, incoming_request, response_event, unmatched_request, timed_out_event, terminated_event,
}
use wavekat_sip.Auth.{AgentRsip}
use wavekat_sip.Call.{build_cancel}
use wavekat_sip.Ua.{
  Select, received, cancelled, Waiting, await_final, send_cancel, await_final_cancellable,
}

-- What is met before the waiting ends.
abbrev pub before_end : List Select → List Select
before_end [] = []
before_end (received (response_event key resp) ∷ rest) =
    let later = before_end rest in
    if leb 200 resp.status_code then [] else received (response_event key resp) ∷ later
before_end (received (timed_out_event key) ∷ rest) = []
before_end (x ∷ rest) = x ∷ before_end rest

-- A response is among them, which is provisional there.
abbrev pub rings : List Select → Bool
rings [] = false
rings (received (response_event key resp) ∷ rest) = true
rings (x ∷ rest) = rings rest

-- The token fires.
abbrev pub gives_up : List Select → Bool
gives_up [] = false
gives_up (cancelled ∷ rest) = true
gives_up (x ∷ rest) = gives_up rest

abbrev pub statuses : List Select → List ℕ
statuses [] = []
statuses (received (response_event key resp) ∷ rest) = resp.status_code ∷ statuses rest
statuses (x ∷ rest) = statuses rest

abbrev pub events : List Select → List Event
events [] = []
events (received ev ∷ rest) = ev ∷ events rest
events (cancelled ∷ rest) = events rest

module _ (r : AgentRsip) (inv : Request) where
  abbrev wait : Bool → Bool → List Select → Waiting
  wait requested seen ss = await_final_cancellable r inv requested (requested && seen) seen ss

  abbrev owed : Bool → Bool → List Select → Bool
  owed requested seen ss =
      not (requested && seen)
      && ((requested || gives_up (before_end ss)) && (seen || rings (before_end ss)))

  cancels_lem :
      (requested seen : Bool) (ss : List Select)
      → (wait requested seen ss).cancels
        ≡ (if owed requested seen ss then send_cancel r inv else [])
  unfolding await_final_cancellable
  cancels_lem requested seen [] = ground arith
  cancels_lem requested seen (received (timed_out_event key) ∷ rest) = ground arith
  cancels_lem requested seen (received (incoming_request key req peer) ∷ rest) =
      cancels_lem requested seen rest
  cancels_lem requested seen (received (unmatched_request req peer) ∷ rest) =
      cancels_lem requested seen rest
  cancels_lem requested seen (received (terminated_event key) ∷ rest) =
      cancels_lem requested seen rest
  cancels_lem true seen (cancelled ∷ rest) = cancels_lem true seen rest
  cancels_lem false false (cancelled ∷ rest) = cancels_lem true false rest
  cancels_lem false true (cancelled ∷ rest) =
      ground (arith, cancels_lem true true rest, append-nil (send_cancel r inv))
  cancels_lem false seen (received (response_event key resp) ∷ rest) =
      ground (arith, cancels_lem false true rest)
  cancels_lem true false (received (response_event key resp) ∷ rest) =
      ground (arith, cancels_lem true true rest, append-nil (send_cancel r inv))
  cancels_lem true true (received (response_event key resp) ∷ rest) =
      ground (arith, cancels_lem true true rest)

  final_lem :
      (requested done seen : Bool) (ss : List Select)
      → ((await_final_cancellable r inv requested done seen ss).final ≡ await_final (events ss))
        × ((await_final_cancellable r inv requested done seen ss).progress
            ≡ statuses (before_end ss))
  unfolding await_final_cancellable await_final
  final_lem requested done seen [] = (refl, refl)
  final_lem requested done seen (received (timed_out_event key) ∷ rest) = (refl, refl)
  final_lem requested done seen (received (incoming_request key req peer) ∷ rest) =
      final_lem requested done seen rest
  final_lem requested done seen (received (unmatched_request req peer) ∷ rest) =
      final_lem requested done seen rest
  final_lem requested done seen (received (terminated_event key) ∷ rest) =
      final_lem requested done seen rest
  final_lem true done seen (cancelled ∷ rest) = final_lem true done seen rest
  final_lem false done seen (cancelled ∷ rest) =
      final_lem true (done || (seen && not done)) seen rest
  final_lem requested done seen (received (response_event key resp) ∷ rest) =
      ground (arith, final_lem requested (done || (requested && not done)) true rest)

  pub await_final_cancellable_lem :
      (ss : List Select)
      → let w = await_final_cancellable r inv false false false ss in
        (w.cancels
          ≡ (if gives_up (before_end ss) && rings (before_end ss) then send_cancel r inv else []))
        × (w.final ≡ await_final (events ss))
        × (w.progress ≡ statuses (before_end ss))
  await_final_cancellable_lem ss =
      let (same_final, same_progress) = final_lem false false false ss in
      (cancels_lem false false ss, same_final, same_progress)

  -- Whatever comes in any order, a call whose CANCEL can be built sends it, once, exactly when, before
  -- the final response or the timeout, both a provisional response arrives and the token fires, and
  -- sends nothing otherwise. The token does not change which response ends the waiting, and each
  -- provisional status is forwarded once, in order.
  pub await_final_cancels :
      (ss : List Select) {cancel : Request}
      → build_cancel r inv ≡ some cancel
      → let w = await_final_cancellable r inv false false false ss in
        (w.cancels
          ≡ (if gives_up (before_end ss) && rings (before_end ss) then cancel ∷ [] else []))
        × (w.final ≡ await_final (events ss))
        × (w.progress ≡ statuses (before_end ss))
  unfolding send_cancel
  await_final_cancels ss {cancel} built =
      let is_sent : send_cancel r inv ≡ cancel ∷ [] = rw (send_cancel, built) refl in
      rw is_sent at (await_final_cancellable_lem ss)

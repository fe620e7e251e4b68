-- ===== src/Calls/Sessions.antt =====
-- crates/wavekat-sip/src/callee.rs with session_timer.rs: the session timer that an accepted call and
-- its caller run.
use mathlib.Core.Path.{subst}
use wavekat_sip.Base.{
  ℕ, ◌+◌, ◌%◌, ◌^◌, length, ◌≤◌, ◌≡◌, refl, sym, ap, ◌∙◌, inl, inr, Option-cases, arith, not, List,
  [], ◌∷◌, ◌++◌, Option, none, some, ◌>>=◌,
}
use wavekat_sip.Sip.{Str, Header, to, content_length, Request, Response, Uri}
use wavekat_sip.Text.{eq_ignore_ascii_case, to_ascii_lowercase}
use wavekat_sip.Dialog.{DialogRsip}
use wavekat_sip.Answer.{
  ResponseBody, with_tag, body_bytes, echoed, contact_headers, body_headers, build_response,
}
use wavekat_sip.SessionTimer.{
  SessionTimer, UasSessionTimer, uac_timer, other_header_value, any_name, session_expires_in,
  min_se_in, unwrap_or, negotiate_uac, negotiate_uas, refresh_after, expiry_after,
  session_expires_name, parse,
}
use wavekat_sip.SessionTimer.Headers.{parse-header_value}
use wavekat_sip.SessionTimer.Answered.{
  echo-le, other_header_value-append, other_header_value-echoed,
}
use wavekat_sip.SessionTimer.Agreement.{negotiation_agrees, refresh_before_expiry}
use wavekat_sip.Calls.Incoming.{append_headers, timer_headers}

abbrev pub names : List Str
names = session_expires_name ∷ (b'x' ∷ []) ∷ []

module _ (r : DialogRsip) where
  own_headers :
      (v l : Str) (uri : Option Uri) (body : Option ResponseBody)
      → other_header_value
          (to v ∷ (contact_headers r uri ++ (body_headers body ++ content_length l ∷ [])))
          names
        ≡ none
  unfolding other_header_value
  own_headers v l none none = refl
  own_headers v l none (some b) = refl
  own_headers v l (some u) none = refl
  own_headers v l (some u) (some b) = refl

  -- A response that is built has its status and body, and no `Session-Expires`.
  pub build_response-parts :
      (req : Request) (status : ℕ) (tag : Option Str) (uri : Option Uri)
      (body : Option ResponseBody) (resp : Response)
      → build_response r req status tag uri body ≡ some resp
      → (resp.status_code ≡ status)
        × (resp.body ≡ body_bytes body)
        × (other_header_value resp.headers names ≡ none)
  unfolding build_response
  build_response-parts req status tag uri body resp built =
      elim (Option-cases (r.base.to_header req.headers)) [
        | inl e ↦ let impossible : none ≡ some resp = rw e at built in ground arith
        | inr (raw, e) ↦ elim (Option-cases (r.typed_party raw)) [
          | inl e' ↦ let impossible : none ≡ some resp = rw (e, e') at built in ground arith
          | inr (party, e') ↦
              let v = r.party_value (with_tag r tag party) in
              let l = r.length_value (length (body_bytes body) % 2 ^ 32) in
              let own =
                to v ∷ (contact_headers r uri ++ (body_headers body ++ content_length l ∷ [])) in
              let made : some (record {
                status_code = status;
                version = req.version;
                headers = echoed req.headers ++ own;
                body = body_bytes body;
              })
                  ≡ some resp =
                rw (e, e') at built in
              let headers_is : echoed req.headers ++ own ≡ resp.headers = ground arith in
              let plain =
                other_header_value-append (echoed req.headers) own names
                  (other_header_value-echoed req.headers names)
                ∙ own_headers v l uri body in
              (
                ground arith,
                ground arith,
                subst (λ hs. other_header_value hs names ≡ none) headers_is plain,
              )
        ]
      ]

reads_echo :
    (hs : List Header) (u : UasSessionTimer)
    → negotiate_uas hs ≡ some u
    → session_expires_in (timer_headers (some u)) ≡ some u.echo
unfolding session_expires_in other_header_value any_name eq_ignore_ascii_case to_ascii_lowercase
reads_echo hs u e = parse-header_value u.echo (echo-le hs u e)

session_expires_in-append :
    (hs more : List Header)
    → other_header_value hs names ≡ none
    → session_expires_in (hs ++ more) ≡ session_expires_in more
unfolding session_expires_in
session_expires_in-append hs more e =
    ap (λ o. o >>= parse) (other_header_value-append hs more names e)

-- What the two sides of a call run: no timer, or one at the same interval, which one of them
-- refreshes, well before the other gives the session up.
abbrev pub Agree : List Header → Option UasSessionTimer → Option SessionTimer → Type 0
Agree invite none ours = ours ≡ none
Agree invite (some u) ours =
    (t : SessionTimer) × (ours ≡ some t)
    × (t.interval_secs ≡ u.timer.interval_secs)
    × (t.we_are_refresher ≡ not (u.timer.we_are_refresher))
    × (90 ≤ t.interval_secs)
    × (unwrap_or 0 (min_se_in invite) ≤ t.interval_secs)
    × (refresh_after t + 15 ≤ expiry_after u.timer)
    × (refresh_after u.timer + 15 ≤ expiry_after t)

Agree-negotiate_uac :
    (invite hs : List Header) (timer : Option UasSessionTimer)
    → negotiate_uas invite ≡ timer
    → other_header_value hs names ≡ none
    → Agree invite timer (negotiate_uac (hs ++ timer_headers timer))
unfolding negotiate_uac
Agree-negotiate_uac invite hs none e plain =
    let missing : session_expires_in (hs ++ []) ≡ none = session_expires_in-append hs [] plain in
    ap (λ o. o >>= λ se. some (uac_timer se)) missing
Agree-negotiate_uac invite hs (some u) e plain =
    let answer = hs ++ timer_headers (some u) in
    let echoed_is =
      session_expires_in-append hs (timer_headers (some u)) plain ∙ reads_echo invite u e in
    let (t, is, interval, side, floor, min_se) = negotiation_agrees invite answer u e echoed_is in
    let theirs = refresh_before_expiry t u.timer interval floor in
    let ours = refresh_before_expiry u.timer t (sym interval) (omega (arith, floor, interval)) in
    (t, is, interval, side, floor, min_se, theirs.0, ours.0)

-- The callee negotiates over the INVITE and puts what it agrees to on the response that it builds
-- for it. Then the caller, negotiating over that answer, runs a timer exactly if the callee does:
-- both at one interval, which is at least 90 seconds and the caller's own Min-SE, exactly one of
-- them refreshing, at least 15 seconds before the other gives the session up.
pub session_answered :
    (r : DialogRsip) (req : Request) (status : ℕ) (tag : Option Str) (uri : Option Uri)
    (body : Option ResponseBody) (resp : Response)
    → build_response r req status tag uri body ≡ some resp
    → let timer = negotiate_uas req.headers in
      Agree req.headers timer (negotiate_uac (append_headers (timer_headers timer) resp).headers)
session_answered r req status tag uri body resp built =
    Agree-negotiate_uac req.headers resp.headers (negotiate_uas req.headers) refl
      (build_response-parts r req status tag uri body resp built).2

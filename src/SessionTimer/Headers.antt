-- ===== src/SessionTimer/Headers.antt =====
-- crates/wavekat-sip/src/session_timer.rs: the Session-Expires header that is sent is read back.
use wavekat_sip.Base.{ℕ, ◌≤◌, ◌≡◌, refl, inr, arith, ◌∷◌, ◌++◌, Option, none, some}
use wavekat_sip.Sip.{Str}
use wavekat_sip.Text.{trim, eq_ignore_ascii_case, split, split_once, decimal, to_ascii_lowercase}
use wavekat_sip.Text.Words.{split-last, split-piece}
use wavekat_sip.Text.Decimal.{Reads, decimal-Reads, Reads-without, trim-Reads, parse_uint-Reads}
use wavekat_sip.SessionTimer.{
  u32_max, Refresher, uac, uas, refresher_name, as_str, SessionExpires, header_value, parse,
  params_from, parse_refresher,
}

parse-plain :
    (n : ℕ) (s : Str)
    → Reads n s
    → n ≤ u32_max
    → parse s ≡ some (record { interval_secs = n; refresher = none })
unfolding parse params_from
parse-plain n s r fits =
    rw
      (
        split-last b';' s (Reads-without n s b';' r (inr (omega arith))),
        trim-Reads n s r,
        parse_uint-Reads u32_max n s r fits,
      )
      refl

parse-pinned :
    (n : ℕ) (s : Str) (side : Refresher)
    → Reads n s
    → n ≤ u32_max
    → parse (s ++ b';' ∷ (refresher_name ++ (b'=' ∷ as_str side)))
      ≡ some (record { interval_secs = n; refresher = some side })
unfolding parse params_from split split_once trim eq_ignore_ascii_case to_ascii_lowercase
    parse_refresher
parse-pinned n s uac r fits =
    rw
      (
        split-piece b';' s (refresher_name ++ (b'=' ∷ as_str uac))
            (Reads-without n s b';' r (inr (omega arith))) refl,
        trim-Reads n s r,
        parse_uint-Reads u32_max n s r fits,
      )
      refl
parse-pinned n s uas r fits =
    rw
      (
        split-piece b';' s (refresher_name ++ (b'=' ∷ as_str uas))
            (Reads-without n s b';' r (inr (omega arith))) refl,
        trim-Reads n s r,
        parse_uint-Reads u32_max n s r fits,
      )
      refl

parse-value :
    (n : ℕ) (found : Option Refresher)
    → n ≤ u32_max
    → let se : SessionExpires = record { interval_secs = n; refresher = found } in
      parse (header_value se) ≡ some se
unfolding header_value
parse-value n none fits = parse-plain n (decimal n) (decimal-Reads n (omega (arith, fits))) fits
parse-value n (some side) fits =
    parse-pinned n (decimal n) side (decimal-Reads n (omega (arith, fits))) fits

-- A `Session-Expires` with a 32-bit interval is read back from the value that is sent for it.
pub parse-header_value :
    (se : SessionExpires) → se.interval_secs ≤ u32_max → parse (header_value se) ≡ some se
parse-header_value se fits = parse-value se.interval_secs se.refresher fits

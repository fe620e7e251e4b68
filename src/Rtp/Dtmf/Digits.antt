-- ===== src/Rtp/Dtmf/Digits.antt =====
-- The digits, their characters and their event codes.
use wavekat_sip.Base.{ℕ, ◌<◌, ◌≤◌, ◌≡◌, ◌↔◌, none, some, arith}
use wavekat_sip.Rtp.Dtmf.{DtmfDigit, from_char, as_char, from_event_code, event_code}

-- Every digit reads back from its character and from its event code, which is below 16.
pub digit_round_trips :
    (x : DtmfDigit)
    → (from_char (as_char x) ≡ some x)
      × (from_event_code (event_code x) ≡ some x)
      × (event_code x < 16)
unfolding from_char as_char from_event_code event_code
digit_round_trips x = ground arith

-- An event code reads as a digit exactly when it is the code of that digit.
pub from_event_code_iff :
    (n : ℕ) (x : DtmfDigit) → (from_event_code n ≡ some x) ↔ (n ≡ event_code x)
unfolding from_event_code event_code
from_event_code_iff n x = (λ h. ground arith, λ h. ground arith)

-- A code of 16 or more is no digit.
pub from_event_code-none : (n : ℕ) → 16 ≤ n → from_event_code n ≡ none
unfolding from_event_code
from_event_code-none n h = ground arith

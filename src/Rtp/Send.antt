-- ===== src/Rtp/Send.antt =====
-- `send_loop` of crates/wavekat-sip/src/rtp/mod.rs. The loop waits for a payload, for the channel
-- to close or for the cancellation; each wait's outcome is an event, and a payload's event says
-- whether `send_to` succeeds.
use mathlib.Core.Path.{subst₂}
use wavekat_sip.Base.{
  ℕ, ◌+◌, ◌%◌, ◌<◌, ◌≡◌, refl, Bool, true, false, List, [], ◌∷◌, ◌++◌, some, arith, drop,
  if◌then◌else◌,
}
use wavekat_sip.Base.Words.{be_bytes16, be_bytes32}
use wavekat_sip.Rtp.{Bytes, parse}
use wavekat_sip.Rtp.Header.{plain_header, parse-plain}

pub record RtpSendConfig : Type 0 where
  pub pt : ℕ
  pub config_ssrc : ℕ
  pub initial_seq : ℕ
  pub initial_timestamp : ℕ
  pub samples_per_frame : ℕ

pub data SendEvent : Type 0 where
  cancelled closed : SendEvent
  payload : Bytes → Bool → SendEvent

-- The packet that one iteration fills.
unfoldable pub packet : RtpSendConfig → ℕ → ℕ → Bytes → Bytes
packet config seq ts body =
    0x80
    ∷ (config.pt % 128)
    ∷ (be_bytes16 seq ++ (be_bytes32 ts ++ (be_bytes32 config.config_ssrc ++ body)))

-- The packets that are sent. The last one is not counted if its `send_to` fails.
unfoldable pub send_from : RtpSendConfig → ℕ → ℕ → List SendEvent → List Bytes
send_from config seq ts [] = []
send_from config seq ts (cancelled ∷ rest) = []
send_from config seq ts (closed ∷ rest) = []
send_from config seq ts (payload body sent ∷ rest) =
    let next =
      send_from config ((seq + 1) % 65536) ((ts + config.samples_per_frame) % 4294967296) rest in
    if sent then packet config seq ts body ∷ next else []

unfoldable pub send_loop : RtpSendConfig → List SendEvent → List Bytes
unfolding send_from
send_loop config events = send_from config config.initial_seq config.initial_timestamp events

-- The payloads that come before the loop ends, with their `send_to` successful.
abbrev pub delivered : List SendEvent → List Bytes
delivered [] = []
delivered (cancelled ∷ rest) = []
delivered (closed ∷ rest) = []
delivered (payload body sent ∷ rest) = let next = delivered rest in if sent then body ∷ next else []

-- A configuration within the widths of its fields.
pub record IsConfig (config : RtpSendConfig) : Type 0 where
  pub pt_fits : config.pt < 128
  pub seq_fits : config.initial_seq < 65536
  pub ts_fits : config.initial_timestamp < 4294967296
  pub ssrc_fits : config.config_ssrc < 4294967296

-- `packets` are the payloads `bodies` from the sequence number and the timestamp on.
abbrev pub Stream : RtpSendConfig → ℕ → ℕ → List Bytes → List Bytes → Type 0
Stream config seq ts [] packets = packets ≡ []
Stream config seq ts (body ∷ bodies) [] = ⊥
Stream config seq ts (body ∷ bodies) (p ∷ packets) =
    (parse p
      ≡ some (plain_header false config.pt (seq % 65536) (ts % 4294967296) config.config_ssrc))
    × (drop 12 p ≡ body)
    × Stream config (seq + 1) (ts + config.samples_per_frame) bodies packets

packet-parse :
    (config : RtpSendConfig) (seq ts : ℕ) (body : Bytes)
    → IsConfig config
    → seq < 65536
    → ts < 4294967296
    → parse (packet config seq ts body)
      ≡ some (plain_header false config.pt seq ts config.config_ssrc)
unfolding packet
packet-parse config seq ts body v hs ht =
    let small : config.pt % 128 ≡ 0 + config.pt = omega arith in
    rw small
      (parse-plain false config.pt seq ts config.config_ssrc body v.pt_fits hs ht v.ssrc_fits)

seq_step : (n : ℕ) → (n % 65536 + 1) % 65536 ≡ (n + 1) % 65536
seq_step n = omega arith

ts_step : (n k : ℕ) → (n % 4294967296 + k) % 4294967296 ≡ (n + k) % 4294967296
ts_step n k = omega arith

send_from-Stream :
    (config : RtpSendConfig) (n m : ℕ) (events : List SendEvent)
    → IsConfig config
    → Stream config n m (delivered events) (send_from config (n % 65536) (m % 4294967296) events)
unfolding send_from
send_from-Stream config n m [] v = refl
send_from-Stream config n m (cancelled ∷ rest) v = refl
send_from-Stream config n m (closed ∷ rest) v = refl
send_from-Stream config n m (payload body false ∷ rest) v = refl
send_from-Stream config n m (payload body true ∷ rest) v = (
  packet-parse config (n % 65536) (m % 4294967296) body v (omega arith) (omega arith),
  (unfold packet in refl),
  rw (seq_step n, ts_step m config.samples_per_frame)
      (send_from-Stream config (n + 1) (m + config.samples_per_frame) rest v),
)

-- With a configuration whose fields fit their widths, the packets that the loop sends are the
-- payloads given before it ends (by cancellation, a closed channel or a failed send), in order.
-- Each parses as a plain RTP header with the configured payload type and source, whose sequence
-- number grows by 1 modulo 2^16 and whose timestamp grows by `samples_per_frame` modulo 2^32; the
-- payload stands behind the 12 header bytes.
pub send_loop-Stream :
    (config : RtpSendConfig) (events : List SendEvent)
    → IsConfig config
    → Stream config config.initial_seq config.initial_timestamp
        (delivered events)
        (send_loop config events)
unfolding send_loop
send_loop-Stream config events v =
    let s : config.initial_seq % 65536 ≡ config.initial_seq = omega arith in
    let t : config.initial_timestamp % 4294967296 ≡ config.initial_timestamp = omega arith in
    subst₂
      (λ a b.
        Stream config config.initial_seq config.initial_timestamp (delivered events)
          (send_from config a b events))
      s t (send_from-Stream config config.initial_seq config.initial_timestamp events v)

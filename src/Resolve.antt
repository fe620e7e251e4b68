-- ===== src/Resolve.antt =====
-- crates/wavekat-sip/src/resolve.rs: the order of SRV records, and the search for a server. What DNS
-- answers and the text of an IP address are the record `Dns`. A `SocketAddr` is its IP address and
-- its port, an IP address a number.
pub mod Order
pub mod Search
use Prim.Native.Nat.{bit_xor}
use wavekat_sip.Base.{
  ℕ, zero, suc, ◌+◌, ◌*◌, ◌/◌, ◌%◌, ◌^◌, Bool, true, false, not, ◌||◌, List, [], ◌∷◌, ◌++◌, Option,
  none, some, ◌>>=◌, leb, ltb, ◌==◌, if◌then◌else◌, length, text_eq,
}
use wavekat_sip.Sip.{Str}
use wavekat_sip.Transaction.{Transport}
use wavekat_sip.Account.{SipAccount, server, port}

pub record SrvRecord : Type 0 where
  pub priority : ℕ
  pub weight : ℕ
  pub srv_port : ℕ
  pub target : Str

-- `SplitMix64::next_u64`: the new state and the output.
unfoldable pub next_u64 : ℕ → ℕ × ℕ
next_u64 s =
    let s' = (s + 0x9E3779B97F4A7C15) % 2 ^ 64 in
    let z1 = bit_xor s' (s' / 2 ^ 30) * 0xBF58476D1CE4E5B9 % 2 ^ 64 in
    let z2 = bit_xor z1 (z1 / 2 ^ 27) * 0x94D049BB133111EB % 2 ^ 64 in
    (s', bit_xor z2 (z2 / 2 ^ 31))

-- `sort_by_key`, which is stable.
unfoldable pub insert_by : (SrvRecord → ℕ) → SrvRecord → List SrvRecord → List SrvRecord
insert_by key r [] = r ∷ []
insert_by key r (x ∷ xs) =
    let later = insert_by key r xs in if leb (key r) (key x) then r ∷ x ∷ xs else x ∷ later

unfoldable pub sort_by_key : (SrvRecord → ℕ) → List SrvRecord → List SrvRecord
unfolding insert_by
sort_by_key key [] = []
sort_by_key key (r ∷ rs) = insert_by key r (sort_by_key key rs)

-- `class.remove(i)`, which panics out of range.
unfoldable pub take_at : ℕ → List SrvRecord → Option (SrvRecord × List SrvRecord)
take_at i [] = none
take_at zero (x ∷ xs) = some (x, xs)
take_at (suc i) (x ∷ xs) = do (r, rest) ← take_at i xs; some (r, x ∷ rest)

unfoldable pub total_weight : List SrvRecord → ℕ
total_weight [] = 0
total_weight (r ∷ rs) = r.weight + total_weight rs

-- The walk over the running sum: the first index that reaches `roll`, or 0.
unfoldable pub walk : ℕ → ℕ → ℕ → List SrvRecord → ℕ
walk roll running idx [] = 0
walk roll running idx (r ∷ rs) =
    let sum = running + r.weight in
    let later = walk roll sum (suc idx) rs in if leb roll sum then idx else later

unfoldable pub pick : ℕ → List SrvRecord → ℕ
unfolding total_weight walk
pick out class =
    let total = total_weight class in
    let walked = walk (out % (total + 1)) 0 0 class in
    if total == 0 then out % length class else walked

-- The loop over one priority class, on fuel; `none` is a panic, or no fuel.
unfoldable pub shuffle : ℕ → ℕ → List SrvRecord → Option (List SrvRecord × ℕ)
shuffle fuel rng [] = some ([], rng)
shuffle zero rng (x ∷ xs) = none
shuffle (suc fuel) rng (x ∷ xs) = do
  let (rng', out) = next_u64 rng
  (chosen, rest) ← take_at (pick out (x ∷ xs)) (x ∷ xs)
  (others, last) ← shuffle fuel rng' rest
  some (chosen ∷ others, last)

-- The records in front with this priority, and those behind.
unfoldable pub class_of : ℕ → List SrvRecord → List SrvRecord × List SrvRecord
class_of p [] = ([], [])
class_of p (r ∷ rs) =
    let (class, rest) = class_of p rs in if r.priority == p then (r ∷ class, rest) else ([], r ∷ rs)

abbrev pub is_weighted : SrvRecord → ℕ
is_weighted r = if r.weight == 0 then 0 else 1

-- The loop over the classes, on fuel.
unfoldable pub order_classes : ℕ → ℕ → List SrvRecord → Option (List SrvRecord)
order_classes fuel rng [] = some []
order_classes zero rng (r ∷ rs) = none
order_classes (suc fuel) rng (r ∷ rs) =
    let (class, rest) = class_of (r.priority) (r ∷ rs) in
    do
      (shuffled, rng') ← shuffle (length class) rng (sort_by_key is_weighted class)
      others ← order_classes fuel rng' rest
      some (shuffled ++ others)

-- The loops run on as much fuel as there are records.
unfoldable pub order_candidates : List SrvRecord → ℕ → Option (List SrvRecord)
order_candidates records seed =
    order_classes (length records) seed (sort_by_key (λ r. r.priority) records)

pub data LocationPlan : Type 0 where
  direct : Str → ℕ → LocationPlan
  by_srv : Str → Str → ℕ → LocationPlan

abbrev pub service : Transport → Str
service Transport.udp = b'_' ∷ b's' ∷ b'i' ∷ b'p' ∷ b'.' ∷ b'_' ∷ b'u' ∷ b'd' ∷ b'p' ∷ []
service Transport.tcp = b'_' ∷ b's' ∷ b'i' ∷ b'p' ∷ b'.' ∷ b'_' ∷ b't' ∷ b'c' ∷ b'p' ∷ []
service Transport.tls = b'_' ∷ b's' ∷ b'i' ∷ b'p' ∷ b's' ∷ b'.' ∷ b'_' ∷ b't' ∷ b'c' ∷ b'p' ∷ []

pub record SocketAddr : Type 0 where
  pub ip : ℕ
  pub addr_port : ℕ

-- `Result<Option<SocketAddr>, _>`.
pub data Lookup : Type 0 where
  found : SocketAddr → Lookup
  no_address : Lookup
  lookup_failed : Lookup

-- The trait `Dns`, and `str::parse::<IpAddr>`; `none` of `srv` is a failed query.
pub record Dns : Type 0 where
  pub srv : Str → Option (List SrvRecord)
  pub lookup : Str → ℕ → Lookup
  pub parse_ip : Str → Option ℕ

abbrev is_some : {A : Type 0} → Option A → Bool
is_some none = false
is_some (some a) = true

module _ (dns : Dns) where
  unfoldable pub location_plan : SipAccount → LocationPlan
  location_plan a =
      let host = server a in
      if is_some (a.fixed_port) || is_some (dns.parse_ip host)
      then direct host (port a)
      else by_srv (service (a.over) ++ b'.' ∷ host) host (port a)

  abbrev pub is_absent : Str → Bool
  is_absent name = text_eq name (b'.' ∷ []) || text_eq name []

  -- The loop over the candidates: the first address, or none.
  unfoldable pub try_candidates : List SrvRecord → Option SocketAddr
  try_candidates [] = none
  try_candidates (c ∷ cs) =
      let later = try_candidates cs in
      if is_absent (c.target) then later else (elim (dns.lookup (c.target) (c.srv_port)) [
        | found addr ↦ some addr
        | no_address ↦ later
        | lookup_failed ↦ later
      ])

  -- The end of the SRV case.
  pub after_candidates : Option SocketAddr → List SrvRecord → Str → ℕ → Lookup
  after_candidates (some addr) records host p = found addr
  after_candidates none [] host p = dns.lookup host p
  after_candidates none (r ∷ rs) host p = no_address

  abbrev pub records_of : Option (List SrvRecord) → List SrvRecord
  records_of none = []
  records_of (some records) = records

  -- `resolve_with` on a plan; `none` if the ordering panics.
  unfoldable pub resolve_plan : LocationPlan → ℕ → Option Lookup
  unfolding after_candidates
  resolve_plan (direct host p) seed = some (elim (dns.parse_ip host) [
    | some address ↦ found (record { ip = address; addr_port = p })
    | none ↦ dns.lookup host p
  ])
  resolve_plan (by_srv name host p) seed = do
    let records = records_of (dns.srv name)
    candidates ← order_candidates records seed
    some (after_candidates (try_candidates candidates) records host p)

  unfoldable pub resolve_with : SipAccount → ℕ → Option Lookup
  resolve_with a seed = resolve_plan (location_plan a) seed

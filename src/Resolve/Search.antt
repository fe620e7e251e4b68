-- ===== src/Resolve/Search.antt =====
-- crates/wavekat-sip/src/resolve.rs, `resolve_with`: which address is found.
use wavekat_sip.Base.{
  ℕ, ◌≡◌, refl, ap, true, false, Bool-cases, ◌⊎◌, inl, inr, List, [], ◌∷◌, ◌++◌, Option, none, some,
  arith, All,
}
use wavekat_sip.Sip.{Str}
use wavekat_sip.Account.{SipAccount, server}
use wavekat_sip.Resolve.{
  SrvRecord, SocketAddr, Lookup, found, no_address, lookup_failed, Dns, by_srv, location_plan,
  is_absent, try_candidates, after_candidates, records_of, order_candidates, resolve_plan,
  resolve_with,
}
use wavekat_sip.Resolve.Order.{order_candidates_refines}

module _ (dns : Dns) where
  -- A candidate that gives no address: it says that the service is absent, or it does not resolve.
  abbrev pub IsUseless : SrvRecord → Type 0
  IsUseless c =
      (is_absent dns c.target ≡ true)
      ⊎ (dns.lookup c.target c.srv_port ≡ no_address)
      ⊎ (dns.lookup c.target c.srv_port ≡ lookup_failed)

  -- The address is that of the first candidate that gives one; none says that no candidate does.
  abbrev pub FoundIn : List SrvRecord → Option SocketAddr → Type 0
  FoundIn cs none = All IsUseless cs
  FoundIn cs (some addr) =
      (before : List SrvRecord) × (c : SrvRecord) × (after : List SrvRecord) × (cs
        ≡ before ++ c ∷ after)
      × All IsUseless before
      × (is_absent dns c.target ≡ false)
      × (dns.lookup c.target c.srv_port ≡ found addr)

  FoundIn-skip :
      (c : SrvRecord) (cs : List SrvRecord) (o : Option SocketAddr)
      → IsUseless c
      → FoundIn cs o
      → FoundIn (c ∷ cs) o
  FoundIn-skip c cs none u h = (u, h)
  FoundIn-skip c cs (some addr) u (before, x, after, e, useless, present, is) =
      (c ∷ before, x, after, ap (◌∷◌ c) e, (u, useless), present, is)

  lookup-cases :
      (l : Lookup)
      → ((addr : SocketAddr) × (l ≡ found addr)) ⊎ (l ≡ no_address) ⊎ (l ≡ lookup_failed)
  lookup-cases (found addr) = inl (addr, refl)
  lookup-cases no_address = inr (inl refl)
  lookup-cases lookup_failed = inr (inr refl)

  try_candidates-FoundIn : (cs : List SrvRecord) → FoundIn cs (try_candidates dns cs)
  unfolding try_candidates
  try_candidates-FoundIn [] = ground arith
  try_candidates-FoundIn (c ∷ cs) =
      let later = try_candidates-FoundIn cs in
      elim (Bool-cases (is_absent dns c.target)) [
        | inl absent ↦ rw absent (FoundIn-skip c cs (try_candidates dns cs) (inl absent) later)
        | inr present ↦ elim (lookup-cases (dns.lookup c.target c.srv_port)) [
          | inl (addr, is) ↦ rw (present, is) ([], c, cs, refl, ground arith, present, is)
          | inr (inl nothing) ↦
              rw (present, nothing)
                (FoundIn-skip c cs (try_candidates dns cs) (inr (inl nothing)) later)
          | inr (inr failed) ↦
              rw (present, failed)
                (FoundIn-skip c cs (try_candidates dns cs) (inr (inr failed)) later)
        ]
      ]

  -- The address that was found is the answer; with no address and no records the host itself is
  -- looked up, and with records it is not.
  abbrev pub Settles : Option SocketAddr → List SrvRecord → Str → ℕ → Lookup → Type 0
  Settles (some addr) records host p l = l ≡ found addr
  Settles none [] host p l = l ≡ dns.lookup host p
  Settles none (r ∷ rs) host p l = l ≡ no_address

  after_candidates-Settles :
      (o : Option SocketAddr) (records : List SrvRecord) (host : Str) (p : ℕ)
      → Settles o records host p (after_candidates dns o records host p)
  unfolding after_candidates
  after_candidates-Settles (some addr) records host p = refl
  after_candidates-Settles none [] host p = refl
  after_candidates-Settles none (r ∷ rs) host p = refl

  -- For an account whose server is located by SRV, the search ends: it tries the ordered records
  -- (none if the query fails) one by one and answers the first address that a record with a target
  -- gives. When none does, it answers no address if there are records, and looks up the host itself
  -- if there are none.
  pub resolve_with_search :
      (a : SipAccount) (seed : ℕ) (name host : Str) (p : ℕ)
      → location_plan dns a ≡ by_srv name host p
      → (cs : List SrvRecord) × (o : Option SocketAddr) × (l : Lookup) × (order_candidates
            (records_of dns (dns.srv name))
            seed
          ≡ some cs)
        × FoundIn cs o
        × (resolve_with dns a seed ≡ some l)
        × Settles o (records_of dns (dns.srv name)) host p l
  unfolding resolve_with resolve_plan
  resolve_with_search a seed name host p plan =
      let records = records_of dns (dns.srv name) in
      let (cs, ordered, perm, rises) = order_candidates_refines records seed in
      let o = try_candidates dns cs in
      (
        cs,
        o,
        after_candidates dns o records host p,
        ordered,
        try_candidates-FoundIn cs,
        rw (plan, ordered),
        after_candidates-Settles o records host p,
      )

  -- An account with a port, or whose server is an IP address, is never located by SRV: the answer is
  -- the address itself or what the host's lookup gives, at the account's port.
  pub resolve_with_direct :
      (a : SipAccount) (seed p : ℕ)
      → (a.fixed_port ≡ some p)
      → (dns.parse_ip (server a) ≡ none)
      → resolve_with dns a seed ≡ some (dns.lookup (server a) p)
  unfolding resolve_with resolve_plan location_plan
  resolve_with_direct a seed p fixed named = ground arith

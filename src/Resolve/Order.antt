-- ===== src/Resolve/Order.antt =====
-- crates/wavekat-sip/src/resolve.rs, `order_candidates`: the order that RFC 2782 allows.
use mathlib.Core.List.{Perm}
use mathlib.Core.List.Perm
use wavekat_sip.Base.{
  ℕ, zero, suc, ◌+◌, ◌%◌, ◌≤◌, ◌<◌, ◌≡◌, refl, ap, Bool-cases, inl, inr, List, [], ◌∷◌, ◌++◌, some,
  arith, leb, ◌==◌, length, All, ==_refl,
}
use wavekat_sip.Resolve.{
  SrvRecord, next_u64, insert_by, sort_by_key, take_at, total_weight, walk, pick, shuffle, class_of,
  is_weighted, order_classes, order_candidates,
}

-- Every record comes before those with a larger priority number.
abbrev pub IsAscending : List SrvRecord → Type 0
IsAscending [] = Unit
IsAscending (r ∷ rs) = All (λ x. r.priority ≤ x.priority) rs × IsAscending rs

All-map :
    {P Q : SrvRecord → Type 0} (xs : List SrvRecord)
    → ((x : SrvRecord) → P x → Q x)
    → All P xs
    → All Q xs
All-map [] f h = h
All-map (x ∷ xs) f (p, h) = (f x p, All-map xs f h)

All-append :
    (P : SrvRecord → Type 0) (xs ys : List SrvRecord) → All P xs → All P ys → All P (xs ++ ys)
All-append P [] ys h k = k
All-append P (x ∷ xs) ys (p, h) k = (p, All-append P xs ys h k)

module _ (key : SrvRecord → ℕ) where
  insert_by-perm : (r : SrvRecord) (xs : List SrvRecord) → Perm (insert_by key r xs) (r ∷ xs)
  unfolding insert_by
  insert_by-perm r [] = Perm.rfl
  insert_by-perm r (x ∷ xs) = elim (Bool-cases (leb (key r) (key x))) [
    | inl le ↦ rw le Perm.rfl
    | inr gt ↦ rw gt (Perm.trans (Perm.cons x (insert_by-perm r xs)) (Perm.swap r x xs))
  ]

  pub sort_by_key-perm : (xs : List SrvRecord) → Perm (sort_by_key key xs) xs
  unfolding sort_by_key
  sort_by_key-perm [] = Perm.rfl
  sort_by_key-perm (x ∷ xs) =
      Perm.trans (insert_by-perm x (sort_by_key key xs)) (Perm.cons x (sort_by_key-perm xs))

  insert_by-All :
      (P : SrvRecord → Type 0) (r : SrvRecord) (xs : List SrvRecord)
      → P r
      → All P xs
      → All P (insert_by key r xs)
  unfolding insert_by
  insert_by-All P r [] p h = (p, h)
  insert_by-All P r (x ∷ xs) p (q, h) = elim (Bool-cases (leb (key r) (key x))) [
    | inl le ↦ rw le (p, (q, h))
    | inr gt ↦ rw gt (q, insert_by-All P r xs p h)
  ]

  length-insert_by :
      (r : SrvRecord) (xs : List SrvRecord) → length (insert_by key r xs) ≡ suc (length xs)
  unfolding insert_by
  length-insert_by r [] = refl
  length-insert_by r (x ∷ xs) = ground (arith, length-insert_by r xs)

  length-sort_by_key : (xs : List SrvRecord) → length (sort_by_key key xs) ≡ length xs
  unfolding sort_by_key
  length-sort_by_key [] = refl
  length-sort_by_key (x ∷ xs) =
      omega (arith, length-insert_by x (sort_by_key key xs), length-sort_by_key xs)

  pub sort_by_key-All :
      (P : SrvRecord → Type 0) (xs : List SrvRecord) → All P xs → All P (sort_by_key key xs)
  unfolding sort_by_key
  sort_by_key-All P [] h = h
  sort_by_key-All P (x ∷ xs) (p, h) =
      insert_by-All P x (sort_by_key key xs) p (sort_by_key-All P xs h)

insert_by-IsAscending :
    (r : SrvRecord) (xs : List SrvRecord)
    → IsAscending xs
    → IsAscending (insert_by (λ x. x.priority) r xs)
unfolding insert_by
insert_by-IsAscending r [] h = ground arith
insert_by-IsAscending r (x ∷ xs) (low, h) = elim (Bool-cases (leb (r.priority) (x.priority))) [
  | inl le ↦
      let r_le : r.priority ≤ x.priority = ground arith in
      rw le ((r_le, All-map xs (λ y x_le. omega arith) low), (low, h))
  | inr gt ↦
      let x_le : x.priority ≤ r.priority = ground arith in
      rw gt (
        insert_by-All (λ x. x.priority) (λ y. x.priority ≤ y.priority) r xs x_le low,
        insert_by-IsAscending r xs h,
      )
]

sort_by_key-IsAscending : (xs : List SrvRecord) → IsAscending (sort_by_key (λ x. x.priority) xs)
unfolding sort_by_key
sort_by_key-IsAscending [] = ground arith
sort_by_key-IsAscending (x ∷ xs) =
    insert_by-IsAscending x (sort_by_key (λ x. x.priority) xs) (sort_by_key-IsAscending xs)

walk-lt :
    (roll running idx : ℕ) (x : SrvRecord) (xs : List SrvRecord)
    → walk roll running idx (x ∷ xs) < idx + length (x ∷ xs)
unfolding walk
walk-lt roll running idx x [] = ground arith
walk-lt roll running idx x (y ∷ ys) =
    ground (arith, walk-lt roll (running + x.weight) (suc idx) y ys)

pick-lt : (out : ℕ) (x : SrvRecord) (xs : List SrvRecord) → pick out (x ∷ xs) < length (x ∷ xs)
unfolding pick
pick-lt out x xs = ground (arith, walk-lt (out % (total_weight (x ∷ xs) + 1)) 0 0 x xs)

module _ (P : SrvRecord → Type 0) where
  -- A record is taken, the others stay, and what holds of all holds of them.
  Taken : List SrvRecord → SrvRecord → List SrvRecord → Type 0
  Taken xs r rest =
      Perm (r ∷ rest) xs × (length xs ≡ suc (length rest)) × (All P xs → P r × All P rest)

  take_at-Taken :
      (i : ℕ) (xs : List SrvRecord)
      → i < length xs
      → (r : SrvRecord) × (rest : List SrvRecord) × (take_at i xs ≡ some (r, rest))
        × Taken xs r rest
  unfolding take_at Taken
  take_at-Taken i [] h = absurd (omega (arith, h))
  take_at-Taken zero (x ∷ xs) h = (x, xs, refl, (Perm.rfl, refl, λ all. all))
  take_at-Taken (suc i) (x ∷ xs) h =
      let (r, rest, e, (p, len, keep)) = take_at-Taken i xs (omega arith) in
      (
        r,
        x ∷ rest,
        rw e,
        (
          Perm.trans (Perm.swap x r rest) (Perm.cons x p),
          omega arith,
          λ all. let (p_r, p_rest) = keep all.1 in (p_r, (all.0, p_rest)),
        ),
      )

  -- The loop over a class neither panics nor runs out of fuel, and gives the class in some order.
  shuffle-perm :
      (fuel rng : ℕ) (class : List SrvRecord)
      → length class ≤ fuel
      → (out : List SrvRecord) × (rng' : ℕ) × (shuffle fuel rng class ≡ some (out, rng'))
        × Perm out class
        × (All P class → All P out)
  unfolding shuffle Taken
  shuffle-perm fuel rng [] h = ([], rng, refl, Perm.rfl, λ all. all)
  shuffle-perm zero rng (x ∷ xs) h = absurd (omega (arith, h))
  shuffle-perm (suc fuel) rng (x ∷ xs) h =
      let (rng', out) = next_u64 rng in
      let (r, rest, e, (p, len, keep)) =
        take_at-Taken (pick out (x ∷ xs)) (x ∷ xs) (pick-lt out x xs) in
      let (others, last, e', p', keep') = shuffle-perm fuel rng' rest (omega arith) in
      (
        r ∷ others,
        last,
        rw (e, e'),
        Perm.trans (Perm.cons r p') p,
        λ all. let (p_r, p_rest) = keep all in (p_r, keep' p_rest),
      )

abbrev From : ℕ → List SrvRecord → Type 0
From b = All (λ x. b ≤ x.priority)

abbrev In : ℕ → List SrvRecord → Type 0
In p = All (λ x. x.priority ≡ p)

-- A class is what stands in front with its priority; the rest stays as it was.
class_of-splits :
    (p : ℕ) (rs : List SrvRecord)
    → let (class, rest) = class_of p rs in
      (class ++ rest ≡ rs)
      × In p class
      × (length rest ≤ length rs)
      × (IsAscending rs → IsAscending rest)
      × ((b : ℕ) → From b rs → From b rest)
unfolding class_of
class_of-splits p [] = (refl, ground arith, omega arith, λ h. h, λ b h. h)
class_of-splits p (r ∷ rs) =
    let (whole, same, shorter, rises, above) = class_of-splits p rs in
    elim (Bool-cases (r.priority == p)) [
      | inl is_p ↦
          let r_is : r.priority ≡ p = ground arith in
          rw is_p
            (ap (◌∷◌ r) whole, (r_is, same), omega arith, (λ h. rises h.1), λ b h. above b h.1)
      | inr other ↦ rw other (refl, ground arith, omega arith, (λ h. h), λ b h. h)
    ]

In-From : (p b : ℕ) (xs : List SrvRecord) → b ≤ p → In p xs → From b xs
In-From p b [] le h = h
In-From p b (x ∷ xs) le (e, h) = (omega arith, In-From p b xs le h)

IsAscending-append :
    (p : ℕ) (xs ys : List SrvRecord) → In p xs → From p ys → IsAscending ys → IsAscending (xs ++ ys)
IsAscending-append p [] ys same above h = h
IsAscending-append p (x ∷ xs) ys (x_is, same) above h =
    let x_le : From x.priority ys = All-map ys (λ y le. omega arith) above in
    (
      All-append (λ y. x.priority ≤ y.priority) xs ys (In-From p x.priority xs (omega arith) same)
          x_le,
      IsAscending-append p xs ys same above h,
    )

-- What the loop over the classes gives of some records.
Ordered : List SrvRecord → List SrvRecord → Type 0
Ordered rs out = Perm out rs × IsAscending out × ((b : ℕ) → From b rs → From b out)

order_classes-Ordered :
    (fuel rng : ℕ) (rs : List SrvRecord)
    → length rs ≤ fuel
    → IsAscending rs
    → (out : List SrvRecord) × (order_classes fuel rng rs ≡ some out) × Ordered rs out
unfolding order_classes Ordered class_of
order_classes-Ordered fuel rng [] h rises = ([], refl, (Perm.rfl, rises, λ b k. k))
order_classes-Ordered zero rng (r ∷ rs) h rises = absurd (omega (arith, h))
order_classes-Ordered (suc fuel) rng (r ∷ rs) h rises =
    let p = r.priority in
    let c = class_of p rs in
    let class = r ∷ c.0 in
    let (whole, same, shorter, rises', above) = class_of-splits p rs in
    let sorted = sort_by_key is_weighted class in
    let in_sorted : In p sorted =
      sort_by_key-All is_weighted (λ x. x.priority ≡ p) class (refl, same) in
    let (shuffled, rng', e, perm, keep) =
      shuffle-perm (λ x. x.priority ≡ p) (length class) rng sorted
        (omega (arith, length-sort_by_key is_weighted class)) in
    let (others, e', (perm', rises_on, above')) =
      order_classes-Ordered fuel rng' c.1 (omega arith) (rises' rises.1) in
    let from_p : From p others = above' p (above p rises.0) in
    let all_perm : Perm (shuffled ++ others) (class ++ c.1) =
      Perm.append (Perm.trans perm (sort_by_key-perm is_weighted class)) perm' in
    (
      shuffled ++ others,
      rw (==_refl p, e, e'),
      (
        rw (ap (◌∷◌ r) whole) at all_perm,
        IsAscending-append p shuffled others (keep in_sorted) from_p rises_on,
        λ b h.
            All-append (λ x. b ≤ x.priority) shuffled others
              (In-From p b shuffled h.0 (keep in_sorted)) (above' b (above b h.1)),
      ),
    )

-- The loops over the records end on as much fuel as there are records and never take a record
-- that is not there; the candidates are all the records, each as often as given, and a smaller
-- priority number comes first: an order that RFC 2782 allows, whatever the seed.
pub order_candidates_refines :
    (records : List SrvRecord) (seed : ℕ)
    → (out : List SrvRecord) × (order_candidates records seed ≡ some out)
      × Perm out records
      × IsAscending out
unfolding order_candidates Ordered
order_candidates_refines records seed =
    let key = λ (r : SrvRecord). r.priority in
    let (out, e, (perm, rises, above)) =
      order_classes-Ordered (length records) seed (sort_by_key key records)
        (omega (arith, length-sort_by_key key records)) (sort_by_key-IsAscending records) in
    (out, e, Perm.trans perm (sort_by_key-perm key records), rises)

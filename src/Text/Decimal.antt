-- ===== src/Text/Decimal.antt =====
-- The decimal text of a number reads back, and passes the other text functions unchanged.
use mathlib.Core.Path.{subst}
use wavekat_sip.Base.{
  lt→ltb, ltb→lt, ℕ, zero, suc, ◌+◌, ◌-◌, ◌*◌, ◌/◌, ◌%◌, ◌^◌, ◌≤◌, ◌<◌, ◌≡◌, refl, sym, ap, ◌∙◌,
  ◌⊎◌, inl, inr, Bool-cases, false, arith, List, [], ◌∷◌, ◌++◌, some, ltb, ◌==◌, All,
}
use wavekat_sip.Text.{trim, digits_from, parse_uint, digits_of, decimal}
use wavekat_sip.Text.Words.{
  IsVisible, StartsVisible, EndsVisible, All-map, All-EndsVisible, trim-visible,
}

abbrev pub IsDigit : ℕ → Type 0
IsDigit c = (48 ≤ c) × (c ≤ 57)

digits_from-snoc :
    (limit acc : ℕ) (s : List ℕ) (c : ℕ) {m : ℕ}
    → digits_from limit acc s ≡ some m
    → IsDigit c
    → m * 10 + (c - 48) ≤ limit
    → digits_from limit acc (s ++ c ∷ []) ≡ some (m * 10 + (c - 48))
unfolding digits_from
digits_from-snoc limit acc [] c e (low, high) fits = ground arith
digits_from-snoc limit acc (x ∷ s) c {m} e (low, high) fits =
    ground (arith, e, digits_from-snoc limit (acc * 10 + (x - 48)) s c {m = m})

-- The text of a number: a digit first, only digits, and the number when read.
pub record Reads (n : ℕ) (s : List ℕ) : Type 0 where
  pub first : ℕ
  pub rest : List ℕ
  pub is : s ≡ first ∷ rest
  pub digits : All IsDigit s
  pub number : (limit : ℕ) → n ≤ limit → digits_from limit 0 s ≡ some n

abbrev pub pow10 : ℕ → ℕ
pow10 zero = 10
pow10 (suc f) = 10 * pow10 f

All-snoc : (s : List ℕ) (c : ℕ) → All IsDigit s → IsDigit c → All IsDigit (s ++ c ∷ [])
All-snoc [] c all d = (d, all)
All-snoc (x ∷ s) c (h, all) d = (h, All-snoc s c all d)

Reads-one : (n : ℕ) → n < 10 → Reads n ((n + b'0') ∷ [])
unfolding digits_from
Reads-one n small = record {
  first = n + b'0';
  rest = [];
  is = refl;
  digits = ((omega arith, omega arith), ground arith);
  number = λ limit h. ground arith;
}

Reads-more : (n : ℕ) (s : List ℕ) → Reads (n / 10) s → Reads n (s ++ (n % 10 + b'0') ∷ [])
Reads-more n s r =
    let c = n % 10 + b'0' in
    let d : IsDigit c = (omega arith, omega arith) in
    let whole : n / 10 * 10 + (c - 48) ≡ n = omega arith in
    record {
      first = r.first;
      rest = r.rest ++ c ∷ [];
      is = ap (λ t. t ++ c ∷ []) r.is;
      digits = All-snoc s c r.digits d;
      number = λ limit h.
          digits_from-snoc limit 0 s c {m = n / 10} (r.number limit (omega arith)) d (omega arith)
          ∙ ap some whole;
    }

digits_of-Reads : (f n : ℕ) → n < pow10 f → Reads n (digits_of (suc f) n)
unfolding digits_of
digits_of-Reads zero n small = rw (lt→ltb n 10 small) (Reads-one n small)
digits_of-Reads (suc f) n small = elim (Bool-cases (ltb n 10)) [
  | inl e ↦ rw e (Reads-one n (ltb→lt n 10 e))
  | inr e ↦
      rw e (Reads-more n (digits_of (suc f) (n / 10)) (digits_of-Reads f (n / 10) (omega arith)))
]

pub decimal-Reads : (n : ℕ) → n < 10 ^ 20 → Reads n (decimal n)
unfolding decimal
decimal-Reads n small = digits_of-Reads 19 n small

parse_uint-digits :
    (limit c : ℕ) (s : List ℕ)
    → All IsDigit (c ∷ s)
    → parse_uint limit (c ∷ s) ≡ digits_from limit 0 (c ∷ s)
unfolding parse_uint
parse_uint-digits limit c [] h = refl
parse_uint-digits limit c (d ∷ s) ((low, high), rest) =
    let no_plus : (c == b'+') ≡ false = ground arith in rw no_plus refl

-- A number of at most 20 digits reads back from its text, within a limit.
pub parse_uint-Reads :
    (limit n : ℕ) (s : List ℕ) → Reads n s → n ≤ limit → parse_uint limit s ≡ some n
parse_uint-Reads limit n s r h =
    let digits = subst (All IsDigit) r.is r.digits in
    let number = subst (λ t. digits_from limit 0 t ≡ some n) r.is (r.number limit h) in
    subst (λ t. parse_uint limit t ≡ some n) (sym r.is)
      (parse_uint-digits limit r.first r.rest digits ∙ number)

pub digit-IsVisible : (c : ℕ) → IsDigit c → IsVisible c
digit-IsVisible c (low, high) = record { above = omega (arith, low); below = omega (arith, high) }

-- The text of a number is visible, and contains no character that is not a digit.
pub Reads-IsVisible : (n : ℕ) (s : List ℕ) → Reads n s → All IsVisible s
Reads-IsVisible n s r = All-map IsDigit IsVisible digit-IsVisible s r.digits

pub Reads-without :
    (n : ℕ) (s : List ℕ) (sep : ℕ)
    → Reads n s
    → (sep < 48) ⊎ (57 < sep)
    → All (λ c. (c == sep) ≡ false) s
Reads-without n s sep r out =
    All-map IsDigit (λ c. (c == sep) ≡ false)
      (λ c h. elim out [
        | inl below ↦ let (low, high) = h in ground (arith, below, low)
        | inr beyond ↦ let (low, high) = h in ground (arith, beyond, high)
      ])
      s r.digits

pub Reads-StartsVisible : (n : ℕ) (s : List ℕ) → Reads n s → StartsVisible s
Reads-StartsVisible n s r =
    subst StartsVisible (sym r.is) (subst (All IsVisible) r.is (Reads-IsVisible n s r)).0

pub Reads-EndsVisible : (n : ℕ) (s : List ℕ) → Reads n s → EndsVisible s
Reads-EndsVisible n s r =
    subst EndsVisible (sym r.is)
      (All-EndsVisible r.first r.rest (subst (All IsVisible) r.is (Reads-IsVisible n s r)))

pub trim-Reads : (n : ℕ) (s : List ℕ) → Reads n s → trim s ≡ s
trim-Reads n s r = trim-visible s (Reads-StartsVisible n s r) (Reads-EndsVisible n s r)

-- ===== src/Engine/Table.antt =====
-- The transaction table is a map: its laws, in the form that `simp` and `ground` read.
use wavekat_sip.Base.{
  ◌≡◌, ◌↔◌, ◌∙◌, true, inl, inr, [], ◌∷◌, none, some, arith, text_eq_refl, text_eq_sound,
  if◌then◌else◌, Bool-cases,
}
use wavekat_sip.Sip.{Method, method_eq}
use wavekat_sip.Transaction.Key.{TransactionKey, key_eq}
use wavekat_sip.Engine.State.{Entry, Table, get, remove, insert}

method_eq_iff : (m n : Method) → (method_eq m n ≡ true) ↔ (m ≡ n)
method_eq_iff m n = ground arith

key_eq_refl : (k : TransactionKey) → key_eq k k ≡ true
key_eq_refl k = ground (
  arith,
  text_eq_refl k.key_branch,
  text_eq_refl k.key_sent_by,
  method_eq_iff k.key_method k.key_method,
)

pub key_eq_sound : (x y : TransactionKey) → key_eq x y ≡ true → x ≡ y
key_eq_sound x y h = ground (
  arith,
  text_eq_sound x.key_branch y.key_branch,
  text_eq_sound x.key_sent_by y.key_sent_by,
  method_eq_iff x.key_method y.key_method,
)

pub key_eq_iff : (x y : TransactionKey) → (key_eq x y ≡ true) ↔ (x ≡ y)
key_eq_iff x y = (key_eq_sound x y, λ e. rw e (key_eq_refl y))

pub key_eq_self : (k : TransactionKey) → key_eq k k ≡ true
key_eq_self k = key_eq_refl k

pub key_eq_comm : (x y : TransactionKey) → key_eq x y ≡ key_eq y x
key_eq_comm x y = grind (arith, key_eq_iff x y, key_eq_iff y x)

pub get-remove :
    (j k : TransactionKey) (t : Table) → get j (remove k t) ≡ (if key_eq j k then none else get j t)
unfolding get remove
get-remove j k [] = ground arith
get-remove j k ((o, e) ∷ t) = elim (Bool-cases (key_eq k o)) [
  | inl same ↦ rw (same, get-remove j k t, key_eq_sound k o same) (ground arith)
  | inr other ↦ elim (Bool-cases (key_eq j o)) [
    | inl hit ↦ ground (arith, get-remove j k t, key_eq_iff j o, key_eq_iff k o, key_eq_iff j k)
    | inr miss ↦ rw (other, miss) (get-remove j k t)
  ]
]

pub get-insert :
    (j k : TransactionKey) (e : Entry) (t : Table)
    → get j (insert k e t) ≡ (if key_eq j k then some e else get j t)
unfolding get insert
get-insert j k e t = elim (Bool-cases (key_eq j k)) [
  | inl same ↦ rw same
  | inr other ↦ rw other (get-remove j k t ∙ rw other)
]

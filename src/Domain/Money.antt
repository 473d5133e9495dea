-- ===== src/Domain/Money.antt =====
-- backend/internal/domain/money.go: rupiah amounts as text.
use whcms.Base.{
  ℕ, zero, suc, ◌+◌, ◌-◌, ◌*◌, ◌/◌, ◌<◌, ◌≡◌, refl, ap, Bool, true, false, if◌then◌else◌, [], ◌∷◌,
  ◌++◌, take, drop, length, select, arith, take-append-drop, select-append, select-All, All,
  All-take, All-drop, length-drop, ◌==◌,
}
use mathlib.Core.List.{append-nil}
use whcms.Base.Text.{Text, bytes}
use whcms.Base.Int.{ℤ, pos, negsuc, pos_part, neg_part, ltb_ℤ}
use whcms.Base.Word.{two63, neg64, neg64-negsuc}
use whcms.Base.Decimal.{decimal, is_digit, value, value-decimal, All-decimal}

-- `strconv.FormatInt(amount, 10)`
unfoldable pub format_int : ℤ → Text
unfolding decimal
format_int (pos n) = decimal n
format_int (negsuc n) = b'-' ∷ decimal (suc n)

-- The loop `for i := lead; i < n; i += 3`, which makes `k` rounds.
groups_from : ℕ → Text → Text
groups_from zero digits = []
groups_from (suc k) digits = b'.' ∷ (take 3 digits ++ groups_from k (drop 3 digits))

unfoldable pub is_negative : ℤ → Bool
is_negative amount = ltb_ℤ amount (pos 0)

unfoldable pub format_idr : ℤ → Text
unfolding format_int groups_from
format_idr amount =
    let negative = is_negative amount in
    let digits = format_int (if negative then neg64 amount else amount) in
    let n = length digits in
    let groups = (n - 1) / 3 in
    let lead = n - groups * 3 in
    (if negative then b'-' ∷ [] else [])
    ++ (bytes "Rp" ++ (take lead digits ++ (groups_from groups (drop lead digits) ++ bytes ",-")))

format_idr_1234567 : format_idr (pos 1_234_567) ≡ bytes "Rp1.234.567,-"
unfolding format_idr is_negative
format_idr_1234567 = refl

format_idr_negative : format_idr (negsuc 149_999) ≡ bytes "-Rp150.000,-"
unfolding format_idr is_negative neg64
format_idr_negative = refl

format_idr_min : format_idr (negsuc (two63 - 1)) ≡ bytes "-Rp-9.223.372.036.854.775.808,-"
unfolding format_idr is_negative neg64
format_idr_min = refl

abbrev Digits : Text → Type 0
Digits = All (λ c. is_digit c ≡ true)

dot_no_digit : is_digit b'.' ≡ false
unfolding is_digit
dot_no_digit = refl

-- Taking out the separators gives the digits back.
select-groups_from :
    (k : ℕ) (digits : Text)
    → length digits ≡ k * 3
    → Digits digits
    → select is_digit (groups_from k digits) ≡ digits
unfolding groups_from
select-groups_from zero [] e h = refl
select-groups_from zero (x ∷ digits) e h = absurd (omega arith)
select-groups_from (suc k) digits e h =
    let rest =
      select-groups_from k (drop 3 digits) (omega (arith, length-drop 3 digits))
        (All-drop _ 3 digits h) in
    let first = select-All is_digit (take 3 digits) (All-take _ 3 digits h) in
    let both = select-append is_digit (take 3 digits) (groups_from k (drop 3 digits)) in
    rw dot_no_digit (cc (both, first, rest, take-append-drop 3 digits))

-- The digits with separators after the first `lead` of them, and the ending.
abbrev grouped : Text → Text
grouped digits =
    let n = length digits in
    let groups = (n - 1) / 3 in
    let lead = n - groups * 3 in
    take lead digits ++ (groups_from groups (drop lead digits) ++ bytes ",-")

ending_no_digit : select is_digit (bytes ",-") ≡ []
unfolding is_digit
ending_no_digit = refl

select-grouped : (digits : Text) → Digits digits → select is_digit (grouped digits) ≡ digits
select-grouped digits h =
    let n = length digits in
    let groups = (n - 1) / 3 in
    let lead = n - groups * 3 in
    let first = select-All is_digit (take lead digits) (All-take _ lead digits h) in
    let rest =
      select-groups_from groups (drop lead digits) (omega (arith, length-drop lead digits))
        (All-drop _ lead digits h) in
    cc (
      select-append is_digit (take lead digits)
          (groups_from groups (drop lead digits) ++ bytes ",-"),
      select-append is_digit (groups_from groups (drop lead digits)) (bytes ",-"),
      first,
      rest,
      ending_no_digit,
      append-nil (drop lead digits),
      take-append-drop lead digits,
    )

-- The number that the digits of a text stand for, separators and letters left out.
abbrev pub digits_value : Text → ℕ
digits_value s = value (select is_digit s)

abbrev pub starts_negative : Text → Bool
starts_negative [] = false
starts_negative (c ∷ s) = c == b'-'

prefixed :
    (digits : Text)
    → Digits digits
    → (select is_digit (bytes "Rp" ++ grouped digits) ≡ digits)
      × (select is_digit (bytes "-Rp" ++ grouped digits) ≡ digits)
unfolding is_digit
prefixed digits h = (select-grouped digits h, select-grouped digits h)

pos_not_negative : (n : ℕ) → is_negative (pos n) ≡ false
unfolding is_negative
pos_not_negative n = ground arith

negsuc_negative : (n : ℕ) → is_negative (negsuc n) ≡ true
unfolding is_negative
negsuc_negative n = ground arith

positive_text : (n : ℕ) → format_idr (pos n) ≡ bytes "Rp" ++ grouped (decimal n)
unfolding format_idr
positive_text n = rw (pos_not_negative n)

negative_text :
    (n : ℕ) → suc n < two63 → format_idr (negsuc n) ≡ bytes "-Rp" ++ grouped (decimal (suc n))
unfolding format_idr
negative_text n h = rw (negsuc_negative n, neg64-negsuc n h)

-- A formatted amount reads back: its digits are the amount's magnitude, and it begins with a minus
-- sign exactly for a negative amount. This holds of every int64 but the least one.
pub format_idr_reads_back :
    (z : ℤ)
    → pos_part z < two63
    → neg_part z < two63
    → (digits_value (format_idr z) ≡ pos_part z + neg_part z)
      × (starts_negative (format_idr z) ≡ ltb_ℤ z (pos 0))
format_idr_reads_back (pos n) h k =
    rw (positive_text n)
      (rw (prefixed (decimal n) (All-decimal n)).0 (omega (arith, value-decimal n)), ground arith)
format_idr_reads_back (negsuc n) h k = rw (negative_text n k) (
  rw (prefixed (decimal (suc n)) (All-decimal (suc n))).1 (omega (arith, value-decimal (suc n))),
  ground arith,
)

-- Two amounts with one formatted text are one amount.
pub format_idr_injective :
    (z w : ℤ)
    → pos_part z < two63
    → neg_part z < two63
    → pos_part w < two63
    → neg_part w < two63
    → format_idr z ≡ format_idr w
    → z ≡ w
format_idr_injective z w hz kz hw kw e =
    let rz = format_idr_reads_back z hz kz in
    let rw' = format_idr_reads_back w hw kw in
    ground (arith, rz, rw', ap digits_value e, ap starts_negative e)

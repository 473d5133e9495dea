-- ===== src/Orders/Names.antt =====
-- `ValidDomainName`, `domainExtensionOf`, `priceSpec` and `domainAddonsTotal` of
-- backend/internal/modules/orders/pricing.go.
use whcms.Base.{
  ℕ, suc, ◌+◌, ◌≤◌, ◌≡◌, refl, sym, Bool, true, false, not, ◌&&◌, ◌||◌, Option, none, some, List,
  [], ◌∷◌, ◌++◌, ◌==◌, ltb, leb, if◌then◌else◌, is_empty, length, arith, any, inl, inr, Bool-cases,
  Option-cases, subst,
}
use whcms.Base.Text.{Text, eqb_text, eqb_text→eq, after_byte}
use whcms.Base.Int.{ℤ, pos, ltb_ℤ, eqb_ℤ, rem}
use whcms.Base.Word.{add64, sub64, mul64}
use whcms.Store.Tables.{ProductSpec, SpecPricing}

-- `strings.Split(name, ".")`: the first label and the others.
unfoldable pub labels : Text → Text × List Text
labels [] = ([], [])
labels (c ∷ rest) =
    let (first, others) = labels rest in
    if c == b'.' then ([], first ∷ others) else (c ∷ first, others)

unfoldable pub label_byte : ℕ → Bool
label_byte c = (leb b'a' c && leb c b'z') || (leb b'0' c && leb c b'9') || c == b'-'

abbrev pub all_bytes : (ℕ → Bool) → Text → Bool
all_bytes p [] = true
all_bytes p (c ∷ rest) = p c && all_bytes p rest

abbrev first_byte : Text → ℕ
first_byte [] = 0
first_byte (c ∷ rest) = c

abbrev last_byte : Text → ℕ
last_byte [] = 0
last_byte (c ∷ rest) = if is_empty rest then c else last_byte rest

unfoldable pub valid_label : Text → Bool
unfolding label_byte
valid_label l =
    ltb 0 (length l)
    && leb (length l) 63
    && not (first_byte l == b'-')
    && not (last_byte l == b'-')
    && all_bytes label_byte l

-- The last label is the TLD.
unfoldable pub valid_labels : Text → List Text → Bool
unfolding valid_label
valid_labels l [] = valid_label l && leb 2 (length l)
valid_labels l (next ∷ rest) = valid_label l && valid_labels next rest

unfoldable pub valid_domain_name : Text → Bool
unfolding labels valid_labels
valid_domain_name name =
    leb 3 (length name)
    && leb (length name) 253
    && not (is_empty (labels name).1)
    && valid_labels (labels name).0 (labels name).1

unfoldable pub domain_extension_of : Text → Text
domain_extension_of name = elim (after_byte b'.' name) [ none ↦ [] | some rest ↦ rest ]

abbrev one_if : Bool → ℕ
one_if b = if b then 1 else 0

-- How many field errors the chosen quantity has.
unfoldable pub spec_errors : ProductSpec → ℤ → Bool → ℕ
spec_errors sp qty unlimited =
    if unlimited
    then one_if (not sp.allow_unlimited)
    else one_if (ltb_ℤ qty sp.min_qty)
      + one_if (not (eqb_ℤ sp.max_qty (pos 0)) && ltb_ℤ sp.max_qty qty)
      + one_if (
          ltb_ℤ (pos 1) sp.step_qty && not (eqb_ℤ (rem (sub64 qty sp.min_qty) sp.step_qty) (pos 0)))

unfoldable pub spec_amount : ProductSpec → ℤ → Bool → Option SpecPricing → ℤ
spec_amount sp qty unlimited none = pos 0
spec_amount sp qty unlimited (some p) =
    let chargeable = sub64 qty sp.included_qty in
    if unlimited
    then p.unlimited_price
    else mul64 (if ltb_ℤ chargeable (pos 0) then pos 0 else chargeable) p.unit_price

-- The amount, or no result for a quantity with errors.
unfoldable pub price_spec : ProductSpec → ℤ → Bool → Option SpecPricing → Option ℤ
price_spec sp qty unlimited pricing =
    if spec_errors sp qty unlimited == 0 then some (spec_amount sp qty unlimited pricing) else none

-- The loop over the requested keys: those seen, the total, and the number of unknown keys.
unfoldable pub addons_total : (Text → Option ℤ) → List Text → List Text → ℤ → ℕ → ℤ × ℕ
addons_total price [] seen total unknown = (total, unknown)
addons_total price (k ∷ rest) seen total unknown =
    let skip = addons_total price rest seen total unknown in
    let bad = addons_total price rest seen total (suc unknown) in
    if any (eqb_text k) seen then skip else elim (price k) [
      | none ↦ bad
      | some p ↦ addons_total price rest (k ∷ seen) (add64 total p) unknown
    ]

unfoldable pub domain_addons_total : (Text → Option ℤ) → List Text → ℤ × ℕ
domain_addons_total price keys = addons_total price keys [] (pos 0) 0

abbrev pub dotted_byte : ℕ → Bool
dotted_byte c = label_byte c || c == b'.'

abbrev all_labels : List Text → Bool
all_labels [] = true
all_labels (l ∷ rest) = all_bytes label_byte l && all_labels rest

valid_labels_bytes :
    (l : Text) (rest : List Text)
    → valid_labels l rest ≡ true
    → all_bytes label_byte l && all_labels rest ≡ true
unfolding valid_labels
valid_labels_bytes l [] h = ground (arith, h)
valid_labels_bytes l (next ∷ rest) h = ground (arith, h, valid_labels_bytes next rest)

labels_bytes :
    (name : Text)
    → all_bytes label_byte (labels name).0 && all_labels (labels name).1 ≡ true
    → all_bytes dotted_byte name ≡ true
unfolding labels
labels_bytes [] h = refl
labels_bytes (c ∷ rest) h = ground (arith, h, labels_bytes rest)

-- A domain name that is accepted has 3 to 253 bytes, at least two labels, and nothing but lower-case
-- letters, digits, hyphens and dots.
pub valid_domain_name_bytes :
    (name : Text)
    → valid_domain_name name ≡ true
    → (3 ≤ length name)
      × (length name ≤ 253)
      × (is_empty (labels name).1 ≡ false)
      × (all_bytes dotted_byte name ≡ true)
unfolding valid_domain_name
valid_domain_name_bytes name h = (
  ground (arith, h),
  ground (arith, h),
  ground (arith, h),
  labels_bytes name (valid_labels_bytes (labels name).0 (labels name).1 (ground (arith, h))),
)

seen_before :
    (k x : Text) (xs seen : List Text)
    → any (eqb_text x) seen ≡ true
    → any (eqb_text k) seen || any (eqb_text k) (x ∷ xs) ≡ true
    → any (eqb_text k) seen || any (eqb_text k) xs ≡ true
seen_before k x xs seen old h = elim (Bool-cases (eqb_text k x)) [
  | inl e ↦
      let known : any (eqb_text k) seen ≡ true =
        subst (λ t. any (eqb_text t) seen ≡ true) (sym (eqb_text→eq k x e)) old in
      ground (arith, known)
  | inr e ↦ ground (arith, h, e)
]

unknown_other :
    (price : Text → Option ℤ) (k x : Text) (xs seen : List Text) (p : ℤ)
    → price k ≡ some p
    → price x ≡ none
    → any (eqb_text k) seen || any (eqb_text k) (x ∷ xs) ≡ true
    → any (eqb_text k) seen || any (eqb_text k) xs ≡ true
unknown_other price k x xs seen p known missing h = elim (Bool-cases (eqb_text k x)) [
  | inl e ↦ let found = subst (λ t. price t ≡ some p) (eqb_text→eq k x e) known in cc
  | inr e ↦ ground (arith, h, e)
]

addons_total_seen :
    (price : Text → Option ℤ) (k : Text) (xs ys seen : List Text) (total : ℤ) (unknown : ℕ) (p : ℤ)
    → price k ≡ some p
    → any (eqb_text k) seen || any (eqb_text k) xs ≡ true
    → addons_total price (xs ++ (k ∷ ys)) seen total unknown
      ≡ addons_total price (xs ++ ys) seen total unknown
unfolding addons_total
addons_total_seen price k [] ys seen total unknown p e h =
    let known : any (eqb_text k) seen ≡ true = ground (arith, h) in rw known refl
addons_total_seen price k (x ∷ xs) ys seen total unknown p e h =
    let again = λ (s : List Text) (t : ℤ) (n : ℕ). addons_total_seen price k xs ys s t n p e in
    elim (Bool-cases (any (eqb_text x) seen)) [
      | inl old ↦ rw old (again seen total unknown (seen_before k x xs seen old h))
      | inr new ↦ elim (Option-cases (price x)) [
        | inl missing ↦
            rw (new, missing)
              (again seen total (suc unknown) (unknown_other price k x xs seen p e missing h))
        | inr (q, found) ↦
            rw (new, found) (again (x ∷ seen) (add64 total q) unknown (ground (arith, h)))
      ]
    ]

-- An addon that is asked for twice is charged once: a repeated key changes neither the total nor the
-- number of unknown keys.
pub domain_addons_total_repeated :
    (price : Text → Option ℤ) (k : Text) (xs ys : List Text) (p : ℤ)
    → price k ≡ some p
    → any (eqb_text k) xs ≡ true
    → domain_addons_total price (xs ++ (k ∷ ys)) ≡ domain_addons_total price (xs ++ ys)
unfolding domain_addons_total
domain_addons_total_repeated price k xs ys p e h =
    addons_total_seen price k xs ys [] (pos 0) 0 p e h

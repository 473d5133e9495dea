-- ===== src/Domain/Username.antt =====
-- backend/internal/domain/generate.go: the panel user names. Domain names are ASCII here, and a
-- service id is not negative.
use whcms.Base.{
  ℕ, ◌-◌, ◌*◌, ◌%◌, ◌≤◌, ◌<◌, ◌≡◌, refl, Bool, true, ◌||◌, [], ◌∷◌, ◌++◌, ltb, if◌then◌else◌, take,
  length, select, All, arith, length-append, length-take, All-append, All-take, All-mono,
  All-select, Bool-cases, inl, inr, zero, suc,
}
use Prim.Native.Nat.{bit_xor}
use whcms.Base.Text.{Text, bytes, to_lower, trim_space, trim_prefix, before_byte, is_lower}
use whcms.Base.Decimal.{decimal, is_digit, All-decimal, length-decimal}

-- `(r >= 'a' && r <= 'z') || (r >= '0' && r <= '9')`
unfoldable pub is_alnum : ℕ → Bool
unfolding is_lower is_digit
is_alnum c = is_lower c || is_digit c

-- A name that is empty or begins with a digit is given the letter u.
letter_first : Text → Text
unfolding is_digit
letter_first [] = b'u' ∷ []
letter_first (c ∷ s) = if is_digit c then b'u' ∷ c ∷ s else c ∷ s

unfoldable pub username_from_domain : Text → Text
unfolding letter_first
username_from_domain domain =
    let d = to_lower (trim_space domain) in
    let d' = before_byte b'.' (trim_prefix (bytes "www.") d) in
    take 8 (letter_first (select is_alnum d'))

-- FNV-1a over 32 bits: the hash package's New32a.
unfoldable pub fnv32a : ℕ → Text → ℕ
fnv32a h [] = h
fnv32a h (c ∷ s) = fnv32a (bit_xor h c * 16_777_619 % 4_294_967_296) s

-- `if max := 8 - len(suffix); len(base) > max { base = base[:max] }`
unfoldable pub stem : ℕ → Text → Text
stem max base = if ltb max (length base) then take max base else base

unfoldable pub disambiguate_username : Text → ℕ → Text
disambiguate_username base service_id =
    let h = fnv32a 2_166_136_261 (base ++ (b':' ∷ decimal service_id)) in
    let suffix = decimal (h % 1000) in let max = 8 - length suffix in stem max base ++ suffix

abbrev StartsWithLetter : Text → Type 0
StartsWithLetter [] = ⊥
StartsWithLetter (c ∷ s) = is_lower c ≡ true

-- A name that cPanel takes: one to eight lower-case letters and digits, a letter first.
pub record IsUsername (u : Text) : Type 0 where
  pub short : length u ≤ 8
  pub letter : StartsWithLetter u
  pub plain : All (λ c. is_alnum c ≡ true) u

letter_first-StartsWithLetter :
    (s : Text) → All (λ c. is_alnum c ≡ true) s → StartsWithLetter (take 8 (letter_first s))
unfolding letter_first is_alnum
letter_first-StartsWithLetter [] h = refl
letter_first-StartsWithLetter (c ∷ s) h = elim (Bool-cases (is_digit c)) [
  | inl d ↦ rw d refl
  | inr n ↦ rw n (ground arith)
]

letter_first-plain :
    (s : Text) → All (λ c. is_alnum c ≡ true) s → All (λ c. is_alnum c ≡ true) (letter_first s)
unfolding letter_first is_alnum
letter_first-plain [] h = (refl, tt)
letter_first-plain (c ∷ s) h = elim (Bool-cases (is_digit c)) [
  | inl d ↦ rw d (refl, h)
  | inr n ↦ rw n h
]

digit_plain : (c : ℕ) → is_digit c ≡ true → is_alnum c ≡ true
unfolding is_alnum
digit_plain c h = ground arith

stem_lem :
    (max : ℕ) (base : Text)
    → 0 < max
    → IsUsername base
    → (length (stem max base) ≤ max)
      × ((rest : Text) → StartsWithLetter (stem max base ++ rest))
      × All (λ c. is_alnum c ≡ true) (stem max base)
unfolding stem
stem_lem max [] p h = absurd h.letter
stem_lem zero (c ∷ s) p h = elim p [ ]
stem_lem (suc max) (c ∷ s) p h = elim (Bool-cases (ltb (suc max) (length (c ∷ s)))) [
  | inl long ↦
      rw long (
        omega (arith, length-take max s),
        λ rest. h.letter,
        (h.plain.0, All-take _ max s h.plain.1),
      )
  | inr short ↦ rw short (ground arith, λ rest. h.letter, h.plain)
]

username_example : username_from_domain (bytes " WWW.1-Toko.co.id") ≡ bytes "u1toko"
unfolding username_from_domain to_lower trim_space trim_prefix before_byte is_alnum
username_example = refl

disambiguate_example : disambiguate_username (bytes "longname") 7 ≡ bytes "longn171"
unfolding disambiguate_username stem decimal fnv32a
disambiguate_example = refl

-- Whatever the domain name, the derived user name is one that cPanel takes.
pub username_from_domain-IsUsername : (domain : Text) → IsUsername (username_from_domain domain)
unfolding username_from_domain
username_from_domain-IsUsername domain =
    let d = before_byte b'.' (trim_prefix (bytes "www.") (to_lower (trim_space domain))) in
    let s = select is_alnum d in
    record {
      short = omega (arith, length-take 8 (letter_first s));
      letter = letter_first-StartsWithLetter s (All-select is_alnum d);
      plain = All-take _ 8 (letter_first s) (letter_first-plain s (All-select is_alnum d));
    }

-- A user name stays one that cPanel takes when it is told apart by a suffix.
pub disambiguate_username-IsUsername :
    (base : Text) (service_id : ℕ)
    → IsUsername base
    → IsUsername (disambiguate_username base service_id)
unfolding disambiguate_username stem
disambiguate_username-IsUsername base service_id h =
    let tag = fnv32a 2_166_136_261 (base ++ (b':' ∷ decimal service_id)) % 1000 in
    let few = length-decimal 2 tag (omega arith) in
    let max = 8 - length (decimal tag) in
    let s = stem_lem max base (omega (arith, few)) h in
    record {
      short = omega (arith, length-append (stem max base) (decimal tag), s.0, few);
      letter = s.1 (decimal tag);
      plain =
          All-append _ (stem max base) (decimal tag) s.2
            (All-mono _ _ (decimal tag) digit_plain (All-decimal tag));
    }

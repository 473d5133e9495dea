-- ===== src/Domain/Numbers.antt =====
-- backend/internal/domain/numbers.go: the printed numbers of invoices, orders and tickets, and the
-- scopes of their counters. A counter is never negative; the date is in UTC.
use whcms.Base.{ℕ, ◌^◌, ◌<◌, ◌≡◌, refl, ap, sym, ◌∙◌, [], ◌∷◌, ◌++◌, take, drop, length, arith}
use whcms.Base.Text.{Text, bytes}
use whcms.Base.Decimal.{pad, value, value-pad, length-pad}
use whcms.Domain.Calendar.{Time}

-- `t.UTC().Format("200601")`
unfoldable pub year_month : Time → Text
year_month t = pad 4 t.year ++ pad 2 t.month

unfoldable pub format_invoice_number : Time → ℕ → Text
format_invoice_number t n = bytes "INV-" ++ (year_month t ++ (bytes "-" ++ pad 6 n))

unfoldable pub format_order_number : Time → ℕ → Text
format_order_number t n = bytes "ORD-" ++ (year_month t ++ (bytes "-" ++ pad 6 n))

unfoldable pub format_ticket_number : ℕ → Text
format_ticket_number n = bytes "TKT-" ++ pad 6 n

unfoldable pub invoice_counter_scope : Time → Text
invoice_counter_scope t = bytes "invoice:" ++ year_month t

unfoldable pub order_counter_scope : Time → Text
order_counter_scope t = bytes "order:" ++ year_month t

abbrev pub ticket_counter_scope : Text
ticket_counter_scope = bytes "ticket"

abbrev july : Time
july = record { year = 2026; month = 7; day = 3; clock = 0 }

invoice_number_july : format_invoice_number july 42 ≡ bytes "INV-202607-000042"
unfolding format_invoice_number year_month pad
invoice_number_july = refl

order_number_july : format_order_number july 1_234_567 ≡ bytes "ORD-202607-1234567"
unfolding format_order_number year_month pad
order_number_july = refl

-- Cutting a text at the two fields of fixed width.
cut_fields :
    (a b c : Text)
    → length a ≡ 4
    → length b ≡ 2
    → let s = (a ++ b) ++ (b'-' ∷ c) in (take 4 s ≡ a) × (take 2 (drop 4 s) ≡ b) × (drop 7 s ≡ c)
cut_fields (_ ∷ _ ∷ _ ∷ _ ∷ []) (_ ∷ _ ∷ []) c h k = (refl, refl, refl)
cut_fields _ _ c h k = absurd (omega arith)

-- An invoice number can be read: its year, month and sequence number stand at fixed places.
pub invoice_number_reads_back :
    (t : Time) (n : ℕ)
    → t.year < 10 ^ 4
    → t.month < 10 ^ 2
    → let s = format_invoice_number t n in
      (value (take 4 (drop 4 s)) ≡ t.year)
      × (value (take 2 (drop 8 s)) ≡ t.month)
      × (value (drop 11 s) ≡ n)
unfolding format_invoice_number year_month
invoice_number_reads_back t n hy hm =
    let (y, m, s) =
      cut_fields (pad 4 t.year) (pad 2 t.month) (pad 6 n) (length-pad 3 t.year hy)
        (length-pad 1 t.month hm) in
    (ap value y ∙ value-pad 4 t.year, ap value m ∙ value-pad 2 t.month, ap value s ∙ value-pad 6 n)

-- Invoices of different months, or of different numbers in one month, have different numbers.
pub invoice_number_injective :
    (t u : Time) (m n : ℕ)
    → t.year < 10 ^ 4
    → t.month < 10 ^ 2
    → u.year < 10 ^ 4
    → u.month < 10 ^ 2
    → format_invoice_number t m ≡ format_invoice_number u n
    → (t.year ≡ u.year) × (t.month ≡ u.month) × (m ≡ n)
invoice_number_injective t u m n hy hm ky km e =
    let a = invoice_number_reads_back t m hy hm in
    let b = invoice_number_reads_back u n ky km in
    (
      sym a.0 ∙ ap (λ s. value (take 4 (drop 4 s))) e ∙ b.0,
      sym a.1 ∙ ap (λ s. value (take 2 (drop 8 s))) e ∙ b.1,
      sym a.2 ∙ ap (λ s. value (drop 11 s)) e ∙ b.2,
    )

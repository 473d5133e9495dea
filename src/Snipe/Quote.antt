-- ===== src/Snipe/Quote.antt =====
-- The price that backend/internal/modules/snipe/client.go quotes, and the invoice that `CreateInvoice`
-- of backend/internal/modules/billing/service.go makes of it.
use whcms.Base.{
  ℕ, ◌+◌, ◌<◌, ◌≡◌, refl, sym, ap, ◌∙◌, Bool, false, List, [], ◌∷◌, ◌++◌, Bool-cases, inl, inr,
  arith,
}
use whcms.Base.Int.{pos, ltb_ℤ}
use whcms.Base.Word.{two63, add64, sub64, add64-pos, sub64-pos}
use whcms.Base.Float.{Float}
use whcms.Base.Action.{ok, ◌>>◌, pure}
use whcms.Domain.Enums.{RelatedType}
use whcms.Domain.Tax.{calc_tax}
use whcms.Store.Tables.{Db}
use whcms.Billing.Create.{
  CreateInvoiceItem, Settings, sum_items, invoice_totals, clamp_to, at_least_zero,
}
use whcms.Snipe.Price.{Priced, priced_subtotal, priced_total, line, line_if_positive, invoice_items}

-- One taxed line of the loop over the items.
sum_line :
    (n a : ℕ) (type : RelatedType) (id : ℕ) (rest : List CreateInvoiceItem) (db : Db)
    → a + n < two63
    → sum_items (line (pos n) type id ∷ rest) (pos a) (pos a) db
      ≡ sum_items rest (pos (a + n)) (pos (a + n)) db
unfolding sum_items ◌>>◌
sum_line n a type id rest db h =
    let none_negative : ltb_ℤ (pos n) (pos 0) ≡ false = ground arith in
    rw (none_negative, add64-pos a n h) refl

sum_end : (a : ℕ) (db : Db) → sum_items [] (pos a) (pos a) db ≡ (ok (pos a, pos a), db)
unfolding sum_items pure
sum_end a db = refl

sum_optional :
    (n a : ℕ) (rest : List CreateInvoiceItem) (db : Db)
    → a + n < two63
    → sum_items (line_if_positive (pos n) ++ rest) (pos a) (pos a) db
      ≡ sum_items rest (pos (a + n)) (pos (a + n)) db
unfolding line_if_positive
sum_optional n a rest db h = elim (Bool-cases (ltb_ℤ (pos 0) (pos n))) [
  | inl e ↦ rw e (sum_line n a RelatedType.manual 0 rest db h)
  | inr e ↦ rw e (ap (λ k. sum_items rest (pos k) (pos k) db) (ground arith))
]

sum_last :
    (n a : ℕ) (db : Db)
    → a + n < two63
    → sum_items (line_if_positive (pos n)) (pos a) (pos a) db ≡ (ok (pos (a + n), pos (a + n)), db)
unfolding line_if_positive
sum_last n a db h = elim (Bool-cases (ltb_ℤ (pos 0) (pos n))) [
  | inl e ↦ rw e (sum_line n a RelatedType.manual 0 [] db h ∙ sum_end (a + n) db)
  | inr e ↦ rw e (sum_end a db ∙ ap (λ k. (ok (pos k, pos k), db)) (ground arith))
]

-- The lines of a hunt's invoice add up to the quoted subtotal, all of it taxed.
pub hunt_lines_add_up :
    (p : Priced) (snipe_id fee quote success : ℕ) (db : Db)
    → p.fee ≡ pos fee
    → p.quote_total ≡ pos quote
    → p.success_fee ≡ pos success
    → fee + quote + success < two63
    → sum_items (invoice_items snipe_id p) (pos 0) (pos 0) db
      ≡ (ok (priced_subtotal p, priced_subtotal p), db)
unfolding invoice_items priced_subtotal
hunt_lines_add_up p snipe_id fee quote success db ef eq es h =
    let part = add64-pos quote success (omega arith) in
    let whole : add64 (pos fee) (pos (quote + success)) ≡ pos (0 + fee + quote + success) =
      add64-pos fee (quote + success) (omega arith) ∙ ap pos (omega arith) in
    rw (ef, eq, es, part, whole)
      (sum_optional fee 0 _ db (omega arith)
        ∙ sum_line quote (0 + fee) RelatedType.domain_snipe snipe_id _ db (omega arith)
        ∙ sum_last success (0 + fee + quote) db (omega arith))

calc_tax_nothing :
    (f : Float) (rate : f.Real) (inclusive : Bool) → (calc_tax f (pos 0) rate inclusive).tax ≡ pos 0
unfolding calc_tax
calc_tax_nothing f rate inclusive = elim (Bool-cases (f.leq rate (f.of_int (pos 0)))) [
  | inl e ↦ rw e refl
  | inr e ↦ rw e refl
]

zero_of : (n : ℕ) → ltb_ℤ (pos 0) (pos n) ≡ false → n ≡ 0
zero_of n h = ground arith

hunt_for_nothing :
    (f : Float) (settings : Settings)
    → let t = invoice_totals f settings (pos 0) (pos 0) (pos 0) in
      let q = priced_total f settings (pos 0) in (t.tax_total ≡ q.tax) × (t.total ≡ q.total)
unfolding invoice_totals priced_total sub64 add64
hunt_for_nothing f settings =
    let no_tax = calc_tax_nothing f (f.of_int settings.tax_rate) settings.tax_inclusive in
    elim (Bool-cases settings.tax_enabled) [
      | inr off ↦ rw off (refl, refl)
      | inl on ↦ elim (Bool-cases (ltb_ℤ (pos 0) settings.tax_rate)) [
        | inr none_due ↦ rw (on, none_due) (refl, refl)
        | inl due ↦ elim (Bool-cases settings.tax_inclusive) [
          | inl inside ↦ rw (on, due, inside) (sym (rw inside at no_tax), refl)
          | inr on_top ↦
              rw (on, due, on_top) (sym (rw on_top at no_tax), rw (rw on_top at no_tax) refl)
        ]
      ]
    ]

-- The invoice asks for what was quoted: with no discount, the totals of `CreateInvoice` are the tax
-- and the total of the quote, for every tax setting and however the float rounds.
pub hunt_totals_as_quoted :
    (f : Float) (settings : Settings) (n : ℕ)
    → n < two63
    → let t = invoice_totals f settings (pos n) (pos n) (pos 0) in
      let q = priced_total f settings (pos n) in (t.tax_total ≡ q.tax) × (t.total ≡ q.total)
unfolding invoice_totals priced_total
hunt_totals_as_quoted f settings n h =
    let undiscounted : clamp_to (pos n) (pos 0) ≡ pos 0 = ground arith in
    let net : sub64 (pos n) (pos 0) ≡ pos n =
      sub64-pos n 0 (omega arith) h ∙ ap pos (omega arith) in
    let base : at_least_zero (pos n) ≡ pos n = ground arith in
    elim (Bool-cases (ltb_ℤ (pos 0) (pos n))) [
      | inr free ↦ rw (zero_of n free) (hunt_for_nothing f settings)
      | inl some_due ↦
          rw (undiscounted, net, base, some_due)
            (elim (Bool-cases settings.tax_enabled) [
              | inr off ↦ rw off (refl, refl)
              | inl on ↦ elim (Bool-cases (ltb_ℤ (pos 0) settings.tax_rate)) [
                | inr none_due ↦ rw (on, none_due) (refl, refl)
                | inl due ↦ rw (on, due) (refl, refl)
              ]
            ])
    ]

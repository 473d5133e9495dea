-- ===== src/Store/Ledger.antt =====
-- The credit ledger of backend/internal/modules/clients explains every balance.
use whcms.Base.{
  ℕ, ◌≡◌, ◌≢◌, refl, Bool, Option, none, some, List, [], ◌∷◌, ◌==◌, if◌then◌else◌, arith, ◌⊎◌, ◌-◌,
  false, Option-cases, Bool-cases, inl, inr, sym, subst, ◌∙◌,
}
use native.Mathlib.Decide.{ℕ_discrete}
use whcms.Base.Int.{ℤ, pos, ◌+ℤ◌, negsuc, ◌≤ℤ◌, ◌<ℤ◌, leb_ℤ, int_laws}
use whcms.Base.Word.{two63}
use whcms.Base.Action.{Action, Result, ok, err, Code}
use whcms.Base.Keeps.{Keeps, within_tx-Keeps, keeps_rules}
use whcms.Store.Tables.{Db, Client, CreditLedgerEntry}
use whcms.Store.Credit.{fits, apply_delta, adjust_credit, apply_credit, add_credit, deduct_credit}

-- The sum of a client's ledger rows.
abbrev pub ledger_sum : ℕ → List CreditLedgerEntry → ℤ
ledger_sum client [] = pos 0
ledger_sum client (e ∷ rows) =
    let rest = ledger_sum client rows in if e.client_id == client then e.delta +ℤ rest else rest

-- No balance is negative, and each is the sum of its client's ledger rows.
pub record IsBalanced (db : Db) : Type 0 where
  pub explained :
      (id : ℕ) (c : Client)
      → db.clients id ≡ some c
      → (pos 0 ≤ℤ c.credit_balance) × (ledger_sum id db.credit_ledger ≡ c.credit_balance)

-- The three reasons to refuse an adjustment, each with its own error.
abbrev IsRefusal : Option Client → ℤ → Code → Type 0
IsRefusal none delta e = e ≡ Code.not_found
IsRefusal (some c) delta e =
    let sum = c.credit_balance +ℤ delta in
    ((e ≡ Code.conflict) × (negsuc (two63 - 1) ≤ℤ sum) × (sum <ℤ pos 0))
    ⊎ ((e ≡ Code.internal) × ((sum <ℤ negsuc (two63 - 1)) ⊎ (pos two63 ≤ℤ sum)))

-- What a credit adjustment does, on every branch.
abbrev pub Adjusts : ℕ → ℤ → Option ℕ → Db → Result ℤ × Db → Type 0
Adjusts id delta invoice db (ok balance, db') =
    (c : Client) × (db.clients id ≡ some c)
    × (balance ≡ c.credit_balance +ℤ delta)
    × (pos 0 ≤ℤ balance)
    × (db'.clients id ≡ some (record { credit_balance = balance }))
    × ((j : ℕ) → j ≢ id → db'.clients j ≡ db.clients j)
    × (ledger_sum id db'.credit_ledger ≡ delta +ℤ ledger_sum id db.credit_ledger)
    × ((j : ℕ) → j ≢ id → ledger_sum j db'.credit_ledger ≡ ledger_sum j db.credit_ledger)
    × (balance <ℤ pos two63)
    × (db'.credit_ledger ≡ (
        (record {
          client_id = id;
          delta = delta;
          balance_after = balance;
          related_invoice_id = invoice;
        })
        ∷ db.credit_ledger))
Adjusts id delta invoice db (err e, db') = (db' ≡ db) × IsRefusal (db.clients id) delta e

too_wide : (b : ℤ) → fits b ≡ false → (b <ℤ negsuc (two63 - 1)) ⊎ (pos two63 ≤ℤ b)
unfolding fits
too_wide (pos n) h = inr (ground arith)
too_wide (negsuc n) h = inl (ground arith)

apply_delta-Adjusts :
    (id : ℕ) (delta : ℤ) (invoice : Option ℕ) (b : ℤ) (c : Client) (db : Db)
    → db.clients id ≡ some c
    → b ≡ c.credit_balance +ℤ delta
    → Adjusts id delta invoice db (apply_delta id delta invoice b db)
unfolding apply_delta fits
apply_delta-Adjusts id delta invoice b c db found e = elim (Bool-cases (fits b)) [
  | inr wide ↦ rw wide (refl, rw (found, ← e) (inr (refl, too_wide b wide)))
  | inl fit ↦ elim (Bool-cases (leb_ℤ (pos 0) b)) [
    | inr short ↦ rw (fit, short) (refl, rw (found, ← e) (inl (refl, ground arith, ground arith)))
    | inl enough ↦
        rw (fit, enough)
          (
            c,
            found,
            e,
            ground arith,
            ground arith,
            (λ j n. ground arith),
            ground arith,
            (λ j n. ground arith),
            ground arith,
            refl,
          )
  ]
]

-- An adjustment adds the delta to the balance of one client, which stays in 0 .. 2^63 - 1, and adds
-- one ledger row with the client, the delta, the new balance and the invoice. It is refused, and
-- changes nothing, only when there is no such client (not found), when the balance would become
-- negative (conflict), or when the sum is not an int64 (internal).
pub adjust_credit-Adjusts :
    (id : ℕ) (delta : ℤ) (invoice : Option ℕ) (db : Db)
    → Adjusts id delta invoice db (adjust_credit id delta invoice db)
unfolding adjust_credit
adjust_credit-Adjusts id delta invoice db = elim (Option-cases (db.clients id)) [
  | inl missing ↦ rw (missing, adjust_credit) (refl, rw missing refl)
  | inr (c, found) ↦
      rw (found, adjust_credit)
        (apply_delta-Adjusts id delta invoice (c.credit_balance +ℤ delta) c db found refl)
]

Adjusts-IsBalanced :
    (id : ℕ) (delta : ℤ) (invoice : Option ℕ) (db : Db) (r : Result ℤ) (db' : Db)
    → Adjusts id delta invoice db (r, db')
    → IsBalanced db
    → IsBalanced db'
Adjusts-IsBalanced id delta invoice db (err e) db' a v = rw a.0 v
Adjusts-IsBalanced id delta invoice db (ok b) db' (c, found, eb, p, put, others, sum, sums, _, _)
      v =
    record {
      explained = λ j d h. elim (ℕ_discrete j id) [
        | yes e ↦
            let d' : db'.clients id ≡ some d = subst (λ k. db'.clients k ≡ some d) e h in
            let b' : b ≡ d.credit_balance = cc (put, d') in
            let total = (v.explained id c found).1 in
            subst
              (λ k.
                (pos 0 ≤ℤ d.credit_balance) × (ledger_sum k db'.credit_ledger ≡ d.credit_balance))
              (sym e) (rw (← b') p, rw (sum, total, ← b', eb) (omega int_laws))
        | no n ↦ let old = v.explained j d (sym (others j n) ∙ h) in (old.0, sums j n ∙ old.1)
      ];
    }

pub adjust_credit-IsBalanced :
    (id : ℕ) (delta : ℤ) (invoice : Option ℕ) (db : Db)
    → IsBalanced db
    → IsBalanced (adjust_credit id delta invoice db).1
adjust_credit-IsBalanced id delta invoice db =
    let (r, db') = adjust_credit id delta invoice db in
    Adjusts-IsBalanced id delta invoice db r db' (adjust_credit-Adjusts id delta invoice db)

apply_credit-IsBalanced :
    (in_tx : Bool) (id : ℕ) (delta : ℤ) (invoice : ℕ)
    → Keeps IsBalanced (apply_credit in_tx id delta invoice)
unfolding apply_credit
apply_credit-IsBalanced in_tx id delta invoice =
    within_tx-Keeps in_tx _ (λ _. record { at = λ db. adjust_credit-IsBalanced id delta _ db })

-- Adding credit keeps every balance explained by its ledger and not negative.
pub add_credit-IsBalanced :
    (in_tx : Bool) (id : ℕ) (amount : ℤ) (invoice : ℕ)
    → Keeps IsBalanced (add_credit in_tx id amount invoice)
unfolding add_credit
add_credit-IsBalanced in_tx id amount invoice = search (keeps_rules, apply_credit-IsBalanced)

-- So does taking it.
pub deduct_credit-IsBalanced :
    (in_tx : Bool) (id : ℕ) (amount : ℤ) (invoice : ℕ)
    → Keeps IsBalanced (deduct_credit in_tx id amount invoice)
unfolding deduct_credit
deduct_credit-IsBalanced in_tx id amount invoice = search (keeps_rules, apply_credit-IsBalanced)

-- A step that leaves the clients and their ledger alone keeps every balance explained.
pub frame-Keeps :
    {A : Type 0} (m : Action Db A)
    → ((db : Db) → ((m db).1.clients ≡ db.clients) × ((m db).1.credit_ledger ≡ db.credit_ledger))
    → Keeps IsBalanced m
frame-Keeps m same_tables = record {
  at = λ db v.
      let (c, l) = same_tables db in
      record { explained = λ id row. rw (c, l) (v.explained id row) };
}

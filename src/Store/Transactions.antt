-- ===== src/Store/Transactions.antt =====
-- backend/internal/modules/payments/repo.go: the payment transactions.
use whcms.Base.{
  ◌≡◌, ap, ◌⊎◌, inl, inr, Option-cases, ℕ, suc, Bool, false, Option, none, some, List, [], ◌∷◌,
  ◌++◌, ◌==◌, if◌then◌else◌, find, any, select, update_where, not, ◌&&◌, ◌||◌, same,
}
use whcms.Domain.Enums.{TransactionStatus, TransactionStatus-discrete}
use whcms.Base.Text.{Text, eqb_text}
use whcms.Base.Action.{Action, ok, err, Code, ◌>>=◌, or_raise, gets}
use whcms.Store.Tables.{Db, Transaction}

abbrev pub has_order_id : Text → Transaction → Bool
has_order_id mo t = elim t.merchant_order_id [ none ↦ false | some m ↦ eqb_text m mo ]

unfoldable pub get_transaction : ℕ → Action Db Transaction
get_transaction id = do
  or_raise (← gets (λ db. find (λ t. t.id == id) db.transactions)) Code.not_found

unfoldable pub get_by_merchant_order_id : Text → Action Db Transaction
get_by_merchant_order_id mo = do
  or_raise (← gets (λ db. find (has_order_id mo) db.transactions)) Code.not_found

-- The merchant order id is unique among the rows that have one.
abbrev pub taken : Option Text → List Transaction → Bool
taken none rows = false
taken (some mo) rows = any (has_order_id mo) rows

-- The index `transactions_one_success_per_invoice_uniq`: one successful row for each invoice.
abbrev pub is_success_of : ℕ → Transaction → Bool
is_success_of invoice_id u =
    u.invoice_id == invoice_id && same TransactionStatus-discrete u.status TransactionStatus.success

abbrev pub succeeds_again : Transaction → List Transaction → Bool
succeeds_again t rows =
    same TransactionStatus-discrete t.status TransactionStatus.success
    && any (is_success_of t.invoice_id) rows

-- The row would stand beside one with the same merchant order id or the same paid invoice.
abbrev pub clashes : Transaction → List Transaction → Bool
clashes t rows = taken t.merchant_order_id rows || succeeds_again t rows

unfoldable pub create_transaction : Transaction → Action Db (Unit {0})
create_transaction t db = if clashes t db.transactions then (err Code.conflict, db) else (
  ok tt,
  record db {
    transactions = db.transactions ++ (record t { id = db.next_transaction } ∷ []);
    next_transaction = suc db.next_transaction;
  },
)

-- A clash is not told from other errors of the database here.
unfoldable pub update_transaction : Transaction → Action Db (Unit {0})
update_transaction t db = elim (find (λ u. u.id == t.id) db.transactions) [
  | none ↦ (err Code.not_found, db)
  | some old ↦
      if clashes t (select (λ u. not (u.id == t.id)) db.transactions)
      then (err Code.internal, db)
      else (
        ok tt,
        record db { transactions = update_where (λ u. u.id == t.id) (λ _. t) db.transactions },
      )
]

unfoldable pub list_by_invoice : ℕ → Action Db (List Transaction)
list_by_invoice id = gets λ db. select (λ t. t.invoice_id == id) db.transactions

pub get_transaction-cases :
    (id : ℕ) (db : Db)
    → ((t : Transaction) × (get_transaction id db ≡ (ok t, db)))
      ⊎ (get_transaction id db ≡ (err Code.not_found, db))
unfolding get_transaction ◌>>=◌
get_transaction-cases id db = elim (Option-cases (find (λ t. t.id == id) db.transactions)) [
  | inl e ↦ inr (ap (λ o. or_raise o Code.not_found db) e)
  | inr (t, e) ↦ inl (t, ap (λ o. or_raise o Code.not_found db) e)
]

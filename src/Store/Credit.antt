-- ===== src/Store/Credit.antt =====
-- backend/internal/modules/clients: the credit balance and its ledger. `adjust_credit` is
-- `AdjustCredit` of repo.go, the rest is service.go's cross-module surface.
use whcms.Base.{ℕ, Bool, ◌&&◌, not, Option, none, some, ◌∷◌, ◌==◌, leb, ltb, if◌then◌else◌}
use whcms.Base.Int.{ℤ, pos, pos_part, neg_part, ◌+ℤ◌, leb_ℤ}
use whcms.Base.Word.{two63, neg64}
use whcms.Base.Action.{Action, ok, err, Code, ◌>>◌, pure, raise_if, within_tx}
use whcms.Store.Tables.{Db, put}

-- A bigint column takes the values of an int64; PostgreSQL refuses an arithmetic overflow.
unfoldable pub fits : ℤ → Bool
fits z = ltb (pos_part z) two63 && leb (neg_part z) two63

-- The UPDATE and the INSERT of one statement: both rows, or none.
credit_row : ℕ → ℤ → Option ℕ → ℤ → Db → Db
credit_row client_id delta invoice balance db = record db {
  clients = put db.clients client_id (record { credit_balance = balance });
  credit_ledger =
      (record {
        client_id = client_id;
        delta = delta;
        balance_after = balance;
        related_invoice_id = invoice;
      })
      ∷ db.credit_ledger;
}

unfoldable pub apply_delta : ℕ → ℤ → Option ℕ → ℤ → Action Db ℤ
unfolding credit_row
apply_delta client_id delta invoice balance db =
    if not (fits balance)
    then (err Code.internal, db)
    else (if leb_ℤ (pos 0) balance
        then (ok balance, credit_row client_id delta invoice balance db)
        else (err Code.conflict, db))

unfoldable pub adjust_credit : ℕ → ℤ → Option ℕ → Action Db ℤ
unfolding apply_delta
adjust_credit client_id delta invoice db = elim (db.clients client_id) [
  | none ↦ (err Code.not_found, db)
  | some c ↦ apply_delta client_id delta invoice (c.credit_balance +ℤ delta) db
]

-- `applyCredit`: invoice 0 is no reference.
unfoldable pub apply_credit : Bool → ℕ → ℤ → ℕ → Action Db ℤ
apply_credit in_tx client_id delta invoice =
    within_tx in_tx
      (λ _. adjust_credit client_id delta (if invoice == 0 then none else some invoice))

unfoldable pub add_credit : Bool → ℕ → ℤ → ℕ → Action Db (Unit {0})
add_credit in_tx client_id delta invoice = do
  raise_if (leb_ℤ delta (pos 0)) Code.validation
  apply_credit in_tx client_id delta invoice
  pure tt

unfoldable pub deduct_credit : Bool → ℕ → ℤ → ℕ → Action Db (Unit {0})
deduct_credit in_tx client_id amount invoice = do
  raise_if (leb_ℤ amount (pos 0)) Code.validation
  apply_credit in_tx client_id (neg64 amount) invoice
  pure tt

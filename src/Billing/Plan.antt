-- ===== src/Billing/Plan.antt =====
-- What `ProcessPaid` of backend/internal/modules/billing/service.go promises: a list of calls on the
-- other modules, read off the items alone, in which no order is activated twice.
use whcms.Base.{
  ℕ, ◌≡◌, refl, sym, ap, ◌∙◌, true, Option, none, some, List, [], ◌∷◌, ◌==◌, if◌then◌else◌,
  Bool-cases, inl, inr,
}
use whcms.Base.Int.{ℤ}
use whcms.Base.Action.{Action, ok, err, ◌>>=◌, ◌>>◌, pure, bind_ok, bind_err}
use whcms.Base.Keeps.{Result-cases}
use whcms.Domain.Enums.{RelatedType}
use whcms.Store.Tables.{Db, Invoice, InvoiceItem}
use whcms.Store.Credit.{add_credit}
use whcms.Billing.Paid.{
  Handlers, mem_ℕ, related_id_of, activate_once, call_on, dispatch_item, dispatch_items,
}

-- The effects of a paid invoice.
pub data Call : Type 0 where
  activate_order renew_service apply_upgrade renew_domain activate_snipe : ℕ → Call
  deposit : ℤ → Call

module _ (order_of : ℕ → ℕ) where
  abbrev pub on_reference : ℕ → (ℕ → Call) → Option Call
  on_reference related call = if related == 0 then none else some (call related)

  abbrev pub first_activation : ℕ → List ℕ → Option Call × List ℕ
  first_activation order activated =
      if mem_ℕ order activated
      then (none, activated)
      else (some (Call.activate_order order), order ∷ activated)

  -- The call that an item asks for, and the orders activated after it.
  abbrev pub planned : InvoiceItem → RelatedType → List ℕ → Option Call × List ℕ
  planned it RelatedType.order_item activated =
      if related_id_of it == 0
      then (none, activated)
      else first_activation (order_of (related_id_of it)) activated
  planned it RelatedType.service_renewal activated =
      (on_reference (related_id_of it) Call.renew_service, activated)
  planned it RelatedType.service_upgrade activated =
      (on_reference (related_id_of it) Call.apply_upgrade, activated)
  planned it RelatedType.domain_renewal activated =
      (on_reference (related_id_of it) Call.renew_domain, activated)
  planned it RelatedType.domain_snipe activated =
      (on_reference (related_id_of it) Call.activate_snipe, activated)
  planned it RelatedType.deposit activated = (some (Call.deposit it.amount), activated)
  planned it RelatedType.late_fee activated = (none, activated)
  planned it RelatedType.manual activated = (none, activated)

  abbrev pub before : Option Call → List Call → List Call
  before none calls = calls
  before (some c) calls = c ∷ calls

  abbrev pub plan : List InvoiceItem → List ℕ → List Call
  plan [] activated = []
  plan (it ∷ rest) activated =
      let now = planned it it.related_type activated in
      let later = plan rest now.1 in before now.0 later

  -- The handlers with a lookup of orders that never fails.
  abbrev pub with_orders : Handlers → Handlers
  with_orders h = record h { order_id_for_order_item = λ n. pure (order_of n) }

module _ (h : Handlers) (inv : Invoice) where
  abbrev run : Call → Action Db (Unit {0})
  run (Call.activate_order n) = h.activate_order n
  run (Call.renew_service n) = h.renew_service n
  run (Call.apply_upgrade n) = h.apply_upgrade n
  run (Call.renew_domain n) = h.renew_domain_after_payment n
  run (Call.activate_snipe n) = h.activate_snipe_after_payment n
  run (Call.deposit amount) = add_credit true inv.client_id amount inv.id

  abbrev pub run_all : List Call → Action Db (Unit {0})
  run_all [] = pure tt
  run_all (c ∷ rest) = run c >> run_all rest

  abbrev run_before : Option Call → Action Db (Unit {0}) → Action Db (Unit {0})
  run_before none k = k
  run_before (some c) k = run c >> k

then_pure :
    (m : Action Db (Unit {0})) (x : List ℕ) (k : List ℕ → Action Db (Unit {0})) (db : Db)
    → (m >> pure x >>= k) db ≡ (m >> k x) db
unfolding ◌>>◌
then_pure m x k db =
    let s = (m db).1 in
    elim (Result-cases (m db).0) [
      | inl (a, e) ↦
          let p : m db ≡ (ok a, s) = ap (λ r. (r, s)) e in
          bind_ok (m >> pure x) k db x s (bind_ok m (λ _. pure x) db a s p)
          ∙ sym (bind_ok m (λ _. k x) db a s p)
      | inr (c, e) ↦
          let p : m db ≡ (err c, s) = ap (λ r. (r, s)) e in
          bind_err (m >> pure x) k db c s (bind_err m (λ _. pure x) db c s p)
          ∙ sym (bind_err m (λ _. k x) db c s p)
    ]

pure_then : (x : List ℕ) (k : List ℕ → Action Db (Unit {0})) (db : Db) → (pure x >>= k) db ≡ k x db
unfolding ◌>>=◌
pure_then x k db = refl

found_then :
    (o : ℕ) (f : ℕ → Action Db (List ℕ)) (k : List ℕ → Action Db (Unit {0})) (db : Db)
    → (pure o >>= f >>= k) db ≡ (f o >>= k) db
unfolding ◌>>=◌
found_then o f k db = refl

then_cong :
    (m k l : Action Db (Unit {0})) (db : Db) → ((s : Db) → k s ≡ l s) → (m >> k) db ≡ (m >> l) db
unfolding ◌>>◌
then_cong m k l db e = elim (Result-cases (m db).0) [
  | inl (a, r) ↦ rw (r, ◌>>=◌) (e (m db).1)
  | inr (c, r) ↦ rw (r, ◌>>=◌) refl
]

module _ (order_of : ℕ → ℕ) (h : Handlers) (inv : Invoice) where
  call_on-on_reference :
      (related : ℕ) (activated : List ℕ) (call : ℕ → Call) (k : List ℕ → Action Db (Unit {0}))
      (db : Db)
      → (call_on (with_orders order_of h) related activated (λ n. run h inv (call n)) >>= k) db
        ≡ run_before h inv (on_reference order_of related call) (k activated) db
  unfolding call_on
  call_on-on_reference related activated call k db = elim (Bool-cases (related == 0)) [
    | inl e ↦ rw e (pure_then activated k db)
    | inr e ↦ rw e (then_pure (run h inv (call related)) activated k db)
  ]

  activate_once-first_activation :
      (order : ℕ) (activated : List ℕ) (k : List ℕ → Action Db (Unit {0})) (db : Db)
      → let first = first_activation order_of order activated in
        (activate_once (with_orders order_of h) order activated >>= k) db
        ≡ run_before h inv first.0 (k first.1) db
  unfolding activate_once
  activate_once-first_activation order activated k db = elim (Bool-cases (mem_ℕ order activated)) [
    | inl e ↦ rw e (pure_then activated k db)
    | inr e ↦ rw e (then_pure (h.activate_order order) (order ∷ activated) k db)
  ]

  dispatch_item-planned :
      (it : InvoiceItem) (type : RelatedType) (activated : List ℕ)
      (k : List ℕ → Action Db (Unit {0})) (db : Db)
      → let now = planned order_of it type activated in
        (dispatch_item (with_orders order_of h) inv it type activated >>= k) db
        ≡ run_before h inv now.0 (k now.1) db
  unfolding dispatch_item
  dispatch_item-planned it RelatedType.order_item activated k db =
      elim (Bool-cases (related_id_of it == 0)) [
        | inl e ↦ rw e (pure_then activated k db)
        | inr e ↦ rw e (
            found_then _ _ k db
            ∙ activate_once-first_activation (order_of (related_id_of it)) activated k db)
      ]
  dispatch_item-planned it RelatedType.service_renewal activated k db =
      call_on-on_reference (related_id_of it) activated Call.renew_service k db
  dispatch_item-planned it RelatedType.service_upgrade activated k db =
      call_on-on_reference (related_id_of it) activated Call.apply_upgrade k db
  dispatch_item-planned it RelatedType.domain_renewal activated k db =
      call_on-on_reference (related_id_of it) activated Call.renew_domain k db
  dispatch_item-planned it RelatedType.domain_snipe activated k db =
      call_on-on_reference (related_id_of it) activated Call.activate_snipe k db
  dispatch_item-planned it RelatedType.deposit activated k db =
      then_pure (add_credit true inv.client_id it.amount inv.id) activated k db
  dispatch_item-planned it RelatedType.late_fee activated k db = pure_then activated k db
  dispatch_item-planned it RelatedType.manual activated k db = pure_then activated k db

  run_before-before :
      (o : Option Call) (k : Action Db (Unit {0})) (calls : List Call) (db : Db)
      → ((s : Db) → k s ≡ run_all h inv calls s)
      → run_before h inv o k db ≡ run_all h inv (before order_of o calls) db
  run_before-before none k calls db e = e db
  run_before-before (some c) k calls db e = then_cong (run h inv c) k (run_all h inv calls) db e

  -- Dispatching a paid invoice is making the planned calls in order, up to the first that fails: the
  -- plan depends on the items alone, and on nothing that the calls change.
  pub dispatch_items-plan :
      (items : List InvoiceItem) (activated : List ℕ) (db : Db)
      → dispatch_items (with_orders order_of h) inv items activated db
        ≡ run_all h inv (plan order_of items activated) db
  unfolding dispatch_items
  dispatch_items-plan [] activated db = refl
  dispatch_items-plan (it ∷ rest) activated db =
      let now = planned order_of it it.related_type activated in
      dispatch_item-planned it it.related_type activated
        (λ done. dispatch_items (with_orders order_of h) inv rest done) db
      ∙ run_before-before now.0 (dispatch_items (with_orders order_of h) inv rest now.1)
          (plan order_of rest now.1) db (λ s. dispatch_items-plan rest now.1 s)

-- ===== src/Billing/Activations.antt =====
-- The plan of `ProcessPaid` of backend/internal/modules/billing/service.go activates no order twice.
use whcms.Base.{
  ℕ, ◌+◌, ◌≤◌, ◌≡◌, refl, sym, subst, ==_iff, false, Option, none, some, List, [], ◌∷◌, ◌==◌,
  if◌then◌else◌, Bool-cases, inl, inr, arith,
}
use whcms.Domain.Enums.{RelatedType}
use whcms.Store.Tables.{Db, Invoice, InvoiceItem}
use whcms.Billing.Paid.{Handlers, mem_ℕ, related_id_of, dispatch_items}
use whcms.Billing.Plan.{
  Call, run_all, with_orders, dispatch_items-plan, plan, planned, before, on_reference,
  first_activation,
}

-- How often a call activates an order.
abbrev activates : ℕ → Call → ℕ
activates order (Call.activate_order n) = if order == n then 1 else 0
activates order _ = 0

abbrev pub activations : ℕ → List Call → ℕ
activations order [] = 0
activations order (c ∷ rest) = let later = activations order rest in activates order c + later

abbrev asked : ℕ → Option Call → ℕ
asked order none = 0
asked order (some c) = activates order c

abbrev marked : ℕ → List ℕ → ℕ
marked order activated = if mem_ℕ order activated then 1 else 0

module _ (order_of : ℕ → ℕ) (order : ℕ) where
  first_activation-marked :
      (n : ℕ) (activated : List ℕ)
      → let first = first_activation order_of n activated in
        asked order first.0 + marked order activated ≡ marked order first.1
  first_activation-marked n activated = elim (Bool-cases (mem_ℕ n activated)) [
    | inl e ↦ rw e (omega arith)
    | inr e ↦ rw e (elim (Bool-cases (order == n)) [
      | inl same ↦
          let fresh : mem_ℕ order activated ≡ false =
            subst (λ k. mem_ℕ k activated ≡ false) (sym ((==_iff order n).0 same)) e in
          rw (same, fresh) (omega arith)
      | inr other ↦ rw other (omega arith)
    ])
  ]

  on_reference-asked :
      (related : ℕ) (call : ℕ → Call)
      → ((k : ℕ) → activates order (call k) ≡ 0)
      → asked order (on_reference order_of related call) ≡ 0
  on_reference-asked related call h = elim (Bool-cases (related == 0)) [
    | inl e ↦ rw e refl
    | inr e ↦ rw e (h related)
  ]

  planned-marked :
      (it : InvoiceItem) (type : RelatedType) (activated : List ℕ)
      → let now = planned order_of it type activated in
        asked order now.0 + marked order activated ≡ marked order now.1
  planned-marked it RelatedType.order_item activated = elim (Bool-cases (related_id_of it == 0)) [
    | inl e ↦ rw e (omega arith)
    | inr e ↦ rw e (first_activation-marked (order_of (related_id_of it)) activated)
  ]
  planned-marked it RelatedType.service_renewal activated =
      omega (arith, on_reference-asked (related_id_of it) Call.renew_service (λ k. refl))
  planned-marked it RelatedType.service_upgrade activated =
      omega (arith, on_reference-asked (related_id_of it) Call.apply_upgrade (λ k. refl))
  planned-marked it RelatedType.domain_renewal activated =
      omega (arith, on_reference-asked (related_id_of it) Call.renew_domain (λ k. refl))
  planned-marked it RelatedType.domain_snipe activated =
      omega (arith, on_reference-asked (related_id_of it) Call.activate_snipe (λ k. refl))
  planned-marked it _ activated = omega arith

  before-activations :
      (o : Option Call) (calls : List Call)
      → activations order (before order_of o calls) ≡ asked order o + activations order calls
  before-activations none calls = omega arith
  before-activations (some c) calls = refl

  plan-activations_bound :
      (items : List InvoiceItem) (activated : List ℕ)
      → activations order (plan order_of items activated) + marked order activated ≤ 1
  plan-activations_bound [] activated = ground arith
  plan-activations_bound (it ∷ rest) activated =
      let now = planned order_of it it.related_type activated in
      omega (
        arith,
        before-activations now.0 (plan order_of rest now.1),
        planned-marked it it.related_type activated,
        plan-activations_bound rest now.1,
      )

  plan-activates_once : (items : List InvoiceItem) → activations order (plan order_of items []) ≤ 1
  plan-activates_once items = omega (arith, plan-activations_bound items [])

-- However many items of an order an invoice has, dispatching it is a list of calls in which the order
-- is activated at most once, when the lookup of an item's order succeeds.
pub dispatch_items-activates_once :
    (order_of : ℕ → ℕ) (h : Handlers) (inv : Invoice) (items : List InvoiceItem)
    → (calls : List Call) × ((db : Db)
        → dispatch_items (with_orders order_of h) inv items [] db ≡ run_all h inv calls db)
      × ((order : ℕ) → activations order calls ≤ 1)
dispatch_items-activates_once order_of h inv items = (
  plan order_of items [],
  dispatch_items-plan order_of h inv items [],
  λ order. plan-activates_once order_of order items,
)

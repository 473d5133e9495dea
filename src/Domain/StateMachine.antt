-- ===== src/Domain/StateMachine.antt =====
-- backend/internal/domain/statemachine.go: the transition tables, the search through them, and the
-- typed transition functions. `Transition...` returns the new status, or a CONFLICT error.
use whcms.Base.{Bool, true, false, List, [], ◌∷◌, same, if◌then◌else◌}
use whcms.Base.Action.{Result, ok, err, Code}
use whcms.Domain.Enums.{
  InvoiceStatus, OrderStatus, ServiceStatus, DomainStatus, CancellationRequestStatus, SnipeStatus,
  InvoiceStatus-discrete, OrderStatus-discrete, ServiceStatus-discrete, DomainStatus-discrete,
  CancellationRequestStatus-discrete, SnipeStatus-discrete,
}

unfoldable pub invoice_transitions : InvoiceStatus → List InvoiceStatus
invoice_transitions InvoiceStatus.draft = InvoiceStatus.unpaid ∷ []
invoice_transitions InvoiceStatus.unpaid =
    InvoiceStatus.paid ∷ InvoiceStatus.cancelled ∷ InvoiceStatus.overdue ∷ []
invoice_transitions InvoiceStatus.overdue = InvoiceStatus.paid ∷ InvoiceStatus.cancelled ∷ []
invoice_transitions InvoiceStatus.paid = InvoiceStatus.refunded ∷ []
invoice_transitions _ = []

unfoldable pub order_transitions : OrderStatus → List OrderStatus
order_transitions OrderStatus.pending =
    OrderStatus.active ∷ OrderStatus.fraud ∷ OrderStatus.cancelled ∷ []
order_transitions _ = []

unfoldable pub service_transitions : ServiceStatus → List ServiceStatus
service_transitions ServiceStatus.pending = ServiceStatus.active ∷ ServiceStatus.cancelled ∷ []
service_transitions ServiceStatus.active = ServiceStatus.suspended ∷ ServiceStatus.terminated ∷ []
service_transitions ServiceStatus.suspended = ServiceStatus.active ∷ ServiceStatus.terminated ∷ []
service_transitions _ = []

unfoldable pub domain_transitions : DomainStatus → List DomainStatus
domain_transitions DomainStatus.pending =
    DomainStatus.active ∷ DomainStatus.cancelled ∷ DomainStatus.rejected ∷ []
domain_transitions DomainStatus.active =
    DomainStatus.expired ∷ DomainStatus.suspended ∷ DomainStatus.rejected ∷ []
domain_transitions DomainStatus.pending_transfer =
    DomainStatus.active ∷ DomainStatus.cancelled ∷ DomainStatus.rejected ∷ []
domain_transitions DomainStatus.expired = DomainStatus.active ∷ []
domain_transitions DomainStatus.suspended =
    DomainStatus.active ∷ DomainStatus.rejected ∷ DomainStatus.cancelled ∷ []
domain_transitions _ = []

unfoldable pub cancellation_request_transitions :
    CancellationRequestStatus → List CancellationRequestStatus
cancellation_request_transitions CancellationRequestStatus.pending =
    CancellationRequestStatus.accepted ∷ CancellationRequestStatus.rejected
    ∷ CancellationRequestStatus.auto_processed ∷ []
cancellation_request_transitions _ = []

unfoldable pub snipe_transitions : SnipeStatus → List SnipeStatus
snipe_transitions SnipeStatus.pending_payment =
    SnipeStatus.active ∷ SnipeStatus.cancelled ∷ SnipeStatus.failed ∷ []
snipe_transitions SnipeStatus.active =
    SnipeStatus.won ∷ SnipeStatus.expired ∷ SnipeStatus.cancelled ∷ SnipeStatus.failed ∷ []
snipe_transitions _ = []

-- The loop of `canTransition`, over the entries that the table allows.
unfoldable pub allowed_in {ℓ} : {S : Type ℓ} → Discrete S → List S → S → Bool
allowed_in d [] to = false
allowed_in d (allowed ∷ rest) to = if same d allowed to then true else allowed_in d rest to

-- A missing key of the table gives the empty list.
unfoldable pub can_transition {ℓ} : {S : Type ℓ} → Discrete S → (S → List S) → S → S → Bool
unfolding allowed_in
can_transition d table from to = allowed_in d (table from) to

unfoldable pub invoice_can_transition : InvoiceStatus → InvoiceStatus → Bool
unfolding can_transition invoice_transitions InvoiceStatus-discrete
invoice_can_transition = can_transition InvoiceStatus-discrete invoice_transitions

unfoldable pub order_can_transition : OrderStatus → OrderStatus → Bool
unfolding can_transition order_transitions OrderStatus-discrete
order_can_transition = can_transition OrderStatus-discrete order_transitions

unfoldable pub service_can_transition : ServiceStatus → ServiceStatus → Bool
unfolding can_transition service_transitions ServiceStatus-discrete
service_can_transition = can_transition ServiceStatus-discrete service_transitions

unfoldable pub domain_can_transition : DomainStatus → DomainStatus → Bool
unfolding can_transition domain_transitions DomainStatus-discrete
domain_can_transition = can_transition DomainStatus-discrete domain_transitions

unfoldable pub cancellation_request_can_transition :
    CancellationRequestStatus → CancellationRequestStatus → Bool
unfolding can_transition cancellation_request_transitions CancellationRequestStatus-discrete
cancellation_request_can_transition =
    can_transition CancellationRequestStatus-discrete cancellation_request_transitions

unfoldable pub snipe_can_transition : SnipeStatus → SnipeStatus → Bool
unfolding can_transition snipe_transitions SnipeStatus-discrete
snipe_can_transition = can_transition SnipeStatus-discrete snipe_transitions

unfoldable pub snipe_terminal : SnipeStatus → Bool
snipe_terminal SnipeStatus.won = true
snipe_terminal SnipeStatus.expired = true
snipe_terminal SnipeStatus.cancelled = true
snipe_terminal SnipeStatus.failed = true
snipe_terminal _ = false

-- The six `Transition...` functions have one body: on an error the old status comes back with the
-- CONFLICT, and no caller reads it.
abbrev transition {ℓ} : {S : Type ℓ} → (S → S → Bool) → S → S → Result S
transition can from to = if can from to then ok to else err Code.conflict

unfoldable pub transition_invoice : InvoiceStatus → InvoiceStatus → Result InvoiceStatus
transition_invoice = transition invoice_can_transition

unfoldable pub transition_order : OrderStatus → OrderStatus → Result OrderStatus
unfolding order_can_transition
transition_order = transition order_can_transition

unfoldable pub transition_service : ServiceStatus → ServiceStatus → Result ServiceStatus
unfolding service_can_transition
transition_service = transition service_can_transition

unfoldable pub transition_domain : DomainStatus → DomainStatus → Result DomainStatus
unfolding domain_can_transition
transition_domain = transition domain_can_transition

unfoldable pub transition_cancellation_request :
    CancellationRequestStatus → CancellationRequestStatus → Result CancellationRequestStatus
unfolding cancellation_request_can_transition
transition_cancellation_request = transition cancellation_request_can_transition

unfoldable pub transition_snipe : SnipeStatus → SnipeStatus → Result SnipeStatus
unfolding snipe_can_transition
transition_snipe = transition snipe_can_transition

-- ===== src/Domain/Lifecycle.antt =====
-- Histories of the state machines of backend/internal/domain/statemachine.go.
use whcms.Base.{
  ℕ, suc, ◌+◌, ◌≤◌, ◌<◌, ◌≡◌, ◌≢◌, ◌⊎◌, inl, inr, refl, sym, subst, true, false, arith, List, [],
  ◌∷◌,
}
use whcms.Base.Action.{ok}
use whcms.Domain.Enums.{InvoiceStatus, DomainStatus, SnipeStatus}
use whcms.Domain.StateMachine.{
  transition_invoice, invoice_can_transition, transition_domain, transition_snipe, snipe_terminal,
}

-- A history of an invoice: each step is a call of `transition_invoice` that succeeded. `n` counts
-- the steps.
pub data InvoiceRun (start : InvoiceStatus) : InvoiceStatus → ℕ → Type 0 where
  here : InvoiceRun start start 0
  then :
      {s t : InvoiceStatus} {n : ℕ}
      → InvoiceRun start s n
      → transition_invoice s t ≡ ok t
      → InvoiceRun start t (suc n)

-- How far an invoice is from its end: every step brings it nearer.
abbrev steps_left : InvoiceStatus → ℕ
steps_left InvoiceStatus.draft = 4
steps_left InvoiceStatus.unpaid = 3
steps_left InvoiceStatus.overdue = 2
steps_left InvoiceStatus.paid = 1
steps_left InvoiceStatus.cancelled = 0
steps_left InvoiceStatus.refunded = 0

steps_left-transition :
    (s t : InvoiceStatus) → transition_invoice s t ≡ ok t → steps_left t < steps_left s
unfolding transition_invoice invoice_can_transition
steps_left-transition InvoiceStatus.draft t h = ground arith
steps_left-transition _ t h = ground arith

InvoiceRun-measure :
    {s t : InvoiceStatus} {n : ℕ} → InvoiceRun s t n → steps_left t + n ≤ steps_left s
InvoiceRun-measure here = omega arith
InvoiceRun-measure (then {s = s} {t = t} r h) =
    omega (arith, InvoiceRun-measure r, steps_left-transition s t h)

steps_left-le : (s : InvoiceStatus) → steps_left s ≤ 4
steps_left-le InvoiceStatus.draft = omega arith
steps_left-le _ = omega arith

-- No history of an invoice has more than four changes of status, whatever the status it starts in.
pub InvoiceRun-bounded : {s t : InvoiceStatus} {n : ℕ} → InvoiceRun s t n → n ≤ 4
InvoiceRun-bounded {s} r = omega (arith, InvoiceRun-measure r, steps_left-le s)

abbrev WasPaid : InvoiceStatus → Type 0
WasPaid s = (s ≡ InvoiceStatus.paid) ⊎ (s ≡ InvoiceStatus.refunded)

paid_step :
    (s t : InvoiceStatus) → transition_invoice s t ≡ ok t → WasPaid s → t ≡ InvoiceStatus.refunded
unfolding transition_invoice invoice_can_transition
paid_step InvoiceStatus.paid t h w = ground arith
paid_step _ t h w = ground arith

-- An invoice that was paid can only be refunded: no history leads it to any other status.
pub paid_run :
    {t : InvoiceStatus} {n : ℕ}
    → InvoiceRun InvoiceStatus.paid t n
    → (t ≡ InvoiceStatus.paid) ⊎ (t ≡ InvoiceStatus.refunded)
paid_run here = inl refl
paid_run (then {s = s} {t = t} r h) = inr (paid_step s t h (paid_run r))

pub data SnipeRun (start : SnipeStatus) : SnipeStatus → List SnipeStatus → Type 0 where
  here : SnipeRun start start []
  then :
      {s t : SnipeStatus} {before : List SnipeStatus}
      → SnipeRun start s before
      → transition_snipe s t ≡ ok t
      → SnipeRun start t (s ∷ before)

-- A status is terminal exactly when no transition leaves it.
pub snipe_terminal_iff :
    (s : SnipeStatus)
    → (snipe_terminal s ≡ true → (t : SnipeStatus) → transition_snipe s t ≢ ok t)
      × (snipe_terminal s ≡ false
          → (t : SnipeStatus) × (snipe_terminal t ≡ true) × (transition_snipe s t ≡ ok t))
unfolding snipe_terminal transition_snipe
snipe_terminal_iff SnipeStatus.pending_payment = (λ h. cc, λ h. (SnipeStatus.failed, refl, refl))
snipe_terminal_iff SnipeStatus.active = (λ h. cc, λ h. (SnipeStatus.won, refl, refl))
snipe_terminal_iff SnipeStatus.won = (λ h t e. ground arith, λ h. cc)
snipe_terminal_iff SnipeStatus.expired = (λ h t e. ground arith, λ h. cc)
snipe_terminal_iff SnipeStatus.cancelled = (λ h t e. ground arith, λ h. cc)
snipe_terminal_iff SnipeStatus.failed = (λ h t e. ground arith, λ h. cc)

won_from_active :
    (s : SnipeStatus)
    → transition_snipe s SnipeStatus.won ≡ ok SnipeStatus.won
    → s ≡ SnipeStatus.active
unfolding transition_snipe
won_from_active SnipeStatus.active h = refl
won_from_active _ h = cc

active_from_pending :
    (s : SnipeStatus)
    → transition_snipe s SnipeStatus.active ≡ ok SnipeStatus.active
    → s ≡ SnipeStatus.pending_payment
unfolding transition_snipe
active_from_pending SnipeStatus.pending_payment h = refl
active_from_pending _ h = cc

nothing_to_pending :
    (s : SnipeStatus)
    → transition_snipe s SnipeStatus.pending_payment ≢ ok SnipeStatus.pending_payment
unfolding transition_snipe
nothing_to_pending SnipeStatus.active h = cc
nothing_to_pending _ h = cc

run_to_pending :
    {t : SnipeStatus} {before : List SnipeStatus}
    → SnipeRun SnipeStatus.pending_payment t before
    → t ≡ SnipeStatus.pending_payment
    → before ≡ []
run_to_pending here e = refl
run_to_pending (then {s = s} r h) e =
    absurd (nothing_to_pending s (subst (λ u. transition_snipe s u ≡ ok u) e h))

run_to_active :
    {t : SnipeStatus} {before : List SnipeStatus}
    → SnipeRun SnipeStatus.pending_payment t before
    → t ≡ SnipeStatus.active
    → before ≡ SnipeStatus.pending_payment ∷ []
run_to_active here e = cc
run_to_active (then {s = s} {before = b} r h) e =
    let s-pending = active_from_pending s (subst (λ u. transition_snipe s u ≡ ok u) e h) in
    cc (s-pending, run_to_pending r s-pending)

-- A hunt that starts as pending_payment and ends won was active just before, and pending before
-- that: no history wins a hunt that was not paid.
pub won_history :
    {t : SnipeStatus} {before : List SnipeStatus}
    → SnipeRun SnipeStatus.pending_payment t before
    → t ≡ SnipeStatus.won
    → before ≡ SnipeStatus.active ∷ SnipeStatus.pending_payment ∷ []
won_history here e = cc
won_history (then {s = s} r h) e =
    let s-active = won_from_active s (subst (λ u. transition_snipe s u ≡ ok u) e h) in
    cc (s-active, run_to_active r s-active)

pub data DomainRun (start : DomainStatus) : DomainStatus → Type 0 where
  here : DomainRun start start
  then : {s t : DomainStatus} → DomainRun start s → transition_domain s t ≡ ok t → DomainRun start t

abbrev pub Ended : DomainStatus → Type 0
Ended s = (s ≡ DomainStatus.cancelled) ⊎ (s ≡ DomainStatus.rejected)

Ended-stuck : (s t : DomainStatus) → Ended s → transition_domain s t ≢ ok t
unfolding transition_domain
Ended-stuck DomainStatus.cancelled t e h = ground arith
Ended-stuck _ t e h = ground arith

-- No history leaves a cancelled or a rejected domain.
pub Ended-DomainRun : {s t : DomainStatus} → DomainRun s t → Ended s → t ≡ s
Ended-DomainRun here e = refl
Ended-DomainRun {s} (then {s = u} {t = t} r h) e =
    let same = Ended-DomainRun r e in absurd (Ended-stuck u t (subst Ended (sym same) e) h)

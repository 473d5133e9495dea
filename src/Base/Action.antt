-- ===== src/Base/Action.antt =====
-- Errors as values (backend/pkg/apperr) and the state that the repositories read and write.
use mathlib.Core.Path.{◌≡◌, ap}
use mathlib.Core.Bool.{Bool, true, false}
use mathlib.Core.Option.{Option, none, some}
use native.Mathlib.Omega.{arith}

-- The codes of backend/pkg/apperr.
pub data Code : Type 0 where
  validation unauthorized forbidden not_found conflict : Code
  rate_limited payment_required external internal : Code

unfoldable pub Code-discrete : Discrete Code
Code-discrete = hlevel

pub data Result {ℓ} (A : Type ℓ) : Type ℓ where
  ok : A → Result A
  err : Code → Result A

-- A call on a store `S`. What was written before an error stays written: undoing it is the work of
-- the transaction around the call.
abbrev pub Action {ℓ κ} : Type ℓ → Type κ → Type (ℓ ⊔ κ)
Action S A = S → Result A × S

module _ {ℓ κ} {S : Type ℓ} {A : Type κ} where
  unfoldable pub pure : A → Action S A
  pure a s = (ok a, s)

  unfoldable pub raise : Code → Action S A
  raise e s = (err e, s)

  unfoldable pub gets : (S → A) → Action S A
  gets f s = (ok (f s), s)

  unfoldable pub or_raise : Option A → Code → Action S A
  unfolding raise pure
  or_raise none e = raise e
  or_raise (some a) e = pure a

  -- A transaction of its own: rolled back on an error.
  unfoldable pub rollback : Action S A → Action S A
  rollback m s = let (r, s') = m s in elim r [ ok a ↦ (ok a, s') | err e ↦ (err e, s) ]

  -- Whether a transaction is already open travels with the context; a nested one joins it.
  unfoldable pub within_tx : Bool → (Bool → Action S A) → Action S A
  unfolding rollback
  within_tx true f = f true
  within_tx false f = rollback (f true)

  -- The error as a value, for a loop that goes on after it.
  unfoldable pub attempt : Action S A → Action S (Result A)
  attempt m s = let (r, s') = m s in (ok r, s')

module _ {ℓ} {S : Type ℓ} where
  unfoldable pub modify : (S → S) → Action S (Unit {0})
  modify f s = (ok tt, f s)

  unfoldable pub raise_if : Bool → Code → Action S (Unit {0})
  raise_if true e s = (err e, s)
  raise_if false e s = (ok tt, s)

-- To open a bind is to open the actions that it is made of.
infixl 5 ◌>>=◌ ◌>>◌
unfoldable pub ◌>>=◌ {ℓ κ μ} :
    {S : Type ℓ} {A : Type κ} {B : Type μ} → Action S A → (A → Action S B) → Action S B
unfolding pure raise gets or_raise modify raise_if
◌>>=◌ m f s = let (r, s') = m s in elim r [ ok a ↦ f a s' | err e ↦ (err e, s') ]

unfoldable pub ◌>>◌ {ℓ κ μ} :
    {S : Type ℓ} {A : Type κ} {B : Type μ} → Action S A → Action S B → Action S B
unfolding ◌>>=◌
m >> k = m >>= λ _. k

-- A transaction of its own that fails leaves the store as it was.
pub within_tx_atomic {ℓ κ} :
    {S : Type ℓ} {A : Type κ} (f : Bool → Action S A) (s : S) (e : Code)
    → (within_tx false f s).0 ≡ err e
    → (within_tx false f s).1 ≡ s
unfolding within_tx
within_tx_atomic f s e h = ground arith

-- One that ends well keeps what was written.
pub rollback_ok {ℓ κ} :
    {S : Type ℓ} {A : Type κ} (m : Action S A) (s : S) (a : A) (s' : S)
    → m s ≡ (ok a, s')
    → rollback m s ≡ (ok a, s')
unfolding rollback
rollback_ok m s a s' e =
    ap (λ (p : Result _ × _). elim p.0 [ ok a ↦ (ok a, p.1) | err c ↦ (err c, s) ]) e

-- How a bind goes on.
pub bind_ok {ℓ κ μ} :
    {S : Type ℓ} {A : Type κ} {B : Type μ} (m : Action S A) (f : A → Action S B) (s : S) (a : A)
    → (s' : S) → m s ≡ (ok a, s')
    → (m >>= f) s ≡ f a s'
unfolding ◌>>=◌
bind_ok m f s a s' e =
    ap (λ (p : Result _ × _). elim p.0 [ ok b ↦ f b p.1 | err c ↦ (err c, p.1) ]) e

pub bind_err {ℓ κ μ} :
    {S : Type ℓ} {A : Type κ} {B : Type μ} (m : Action S A) (f : A → Action S B) (s : S) (c : Code)
    → (s' : S) → m s ≡ (err c, s')
    → (m >>= f) s ≡ (err c, s')
unfolding ◌>>=◌
bind_err m f s c s' e =
    ap (λ (p : Result _ × _). elim p.0 [ ok b ↦ f b p.1 | err d ↦ (err d, p.1) ]) e

pub rollback_err {ℓ κ} :
    {S : Type ℓ} {A : Type κ} (m : Action S A) (s : S) (c : Code) (s' : S)
    → m s ≡ (err c, s')
    → rollback m s ≡ (err c, s)
unfolding rollback
rollback_err m s c s' e =
    ap (λ (p : Result _ × _). elim p.0 [ ok a ↦ (ok a, p.1) | err d ↦ (err d, s) ]) e

pub within_tx_ok {ℓ κ} :
    {S : Type ℓ} {A : Type κ} (in_tx : Bool) (m : Action S A) (s : S) (a : A) (s' : S)
    → m s ≡ (ok a, s')
    → within_tx in_tx (λ _. m) s ≡ (ok a, s')
unfolding within_tx
within_tx_ok true m s a s' e = e
within_tx_ok false m s a s' e = rollback_ok m s a s' e

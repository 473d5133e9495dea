-- ===== src/Base/Ensures.antt =====
-- Actions that establish a property of the store when they end well.
use mathlib.Core.Path.{◌≡◌}
use mathlib.Core.Logic.{inl, inr}
use native.Mathlib.Omega.{arith}
use mathlib.Core.Bool.{Bool, true, false}
use whcms.Base.Action.{Action, ok, ◌>>=◌, ◌>>◌, rollback, within_tx}
use whcms.Base.Keeps.{Result-cases, Keeps}

pub record Ensures {ℓ κ μ} {S : Type ℓ} {A : Type κ} (P : S → Type μ) (m : Action S A)
    : Type (ℓ ⊔ κ ⊔ μ) where
  pub at : (s : S) (a : A) → (m s).0 ≡ ok a → P (m s).1

module _ {ℓ μ} {S : Type ℓ} {P : S → Type μ} where
  -- The last action establishes it, whatever the first one does.
  pub last-Ensures {κ ν} :
      {A : Type κ} {B : Type ν} (m : Action S A) (f : A → Action S B)
      → ((a : A) → Ensures P (f a))
      → Ensures P (m >>= f)
  unfolding ◌>>=◌
  last-Ensures m f hf = record {
    at = λ s b. elim (Result-cases (m s).0) [
      | inl (a, e) ↦ rw (e, ◌>>=◌) ((hf a).at (m s).1 b)
      | inr (c, e) ↦ rw (e, ◌>>=◌) (λ h. cc)
    ];
  }

  -- The first action establishes it and the last one keeps it.
  pub first-Ensures {κ ν} :
      {A : Type κ} {B : Type ν} (m : Action S A) (f : A → Action S B)
      → Ensures P m
      → ((a : A) → Keeps P (f a))
      → Ensures P (m >>= f)
  unfolding ◌>>=◌
  first-Ensures m f hm hf = record {
    at = λ s b. elim (Result-cases (m s).0) [
      | inl (a, e) ↦ rw (e, ◌>>=◌) (λ h. (hf a).at (m s).1 (hm.at s a e))
      | inr (c, e) ↦ rw (e, ◌>>=◌) (λ h. cc)
    ];
  }

  pub then_last-Ensures {κ ν} :
      {A : Type κ} {B : Type ν} (m : Action S A) (k : Action S B) → Ensures P k → Ensures P (m >> k)
  unfolding ◌>>◌
  then_last-Ensures m k hk = last-Ensures m (λ _. k) (λ _. hk)

  pub then_first-Ensures {κ ν} :
      {A : Type κ} {B : Type ν} (m : Action S A) (k : Action S B)
      → Ensures P m
      → Keeps P k
      → Ensures P (m >> k)
  unfolding ◌>>◌
  then_first-Ensures m k hm hk = first-Ensures m (λ _. k) hm (λ _. hk)

  pub within_tx-Ensures {κ} :
      {A : Type κ} (in_tx : Bool) (f : Bool → Action S A)
      → Ensures P (f true)
      → Ensures P (within_tx in_tx f)
  unfolding within_tx
  within_tx-Ensures true f h = h
  within_tx-Ensures false f h = record {
    at = λ s a. elim (Result-cases (f true s).0) [
      | inl (b, e) ↦ rw (e, rollback) (λ g. h.at s b e)
      | inr (c, e) ↦ rw (e, rollback) (λ g. cc)
    ];
  }

-- A rolled back action that ends well ran to its end.
pub rollback_inv {ℓ κ} :
    {S : Type ℓ} {A : Type κ} (m : Action S A) (s : S) (a : A)
    → (rollback m s).0 ≡ ok a
    → m s ≡ (ok a, (rollback m s).1)
unfolding rollback
rollback_inv m s a h = elim (Result-cases (m s).0) [
  | inl (b, e) ↦ ground (arith, e, h)
  | inr (c, e) ↦ ground (arith, e, h)
]

-- ===== src/Base/Keeps.antt =====
-- Actions that keep a property of the store, whether they end well or in an error.
use mathlib.Core.Path.{◌≡◌, refl}
use mathlib.Core.Logic.{◌⊎◌, inl, inr}
use mathlib.Core.Bool.{Bool, true, false}
use mathlib.Core.Option.{Option}
use whcms.Base.Tests.{if◌then◌else◌, Bool-cases, Option-cases}
use whcms.Base.Action.{
  Action, Result, ok, err, Code, ◌>>=◌, ◌>>◌, pure, raise, raise_if, or_raise, gets, modify,
  rollback, within_tx,
}

pub Result-cases {ℓ} :
    {A : Type ℓ} (r : Result A) → ((a : A) × (r ≡ ok a)) ⊎ ((e : Code) × (r ≡ err e))
Result-cases (ok a) = inl (a, refl)
Result-cases (err e) = inr (e, refl)

pub record Keeps {ℓ κ μ} {S : Type ℓ} {A : Type κ} (P : S → Type μ) (m : Action S A)
    : Type (ℓ ⊔ μ) where
  pub at : (s : S) → P s → P (m s).1

-- After a transaction of its own the store is the old one or the one that the body left.
pub rollback_either {ℓ κ μ} :
    {S : Type ℓ} {A : Type κ} (P : S → Type μ) (m : Action S A) (s : S)
    → P s
    → P (m s).1
    → P (rollback m s).1
unfolding rollback
rollback_either P m s p q = elim (Result-cases (m s).0) [
  | inl (a, e) ↦ rw (e, rollback) q
  | inr (c, e) ↦ rw (e, rollback) p
]

module _ {ℓ μ} {S : Type ℓ} {P : S → Type μ} where
  pub bind-Keeps {κ ν} :
      {A : Type κ} {B : Type ν} (m : Action S A) (f : A → Action S B)
      → Keeps P m
      → ((a : A) → Keeps P (f a))
      → Keeps P (m >>= f)
  unfolding ◌>>=◌
  bind-Keeps m f hm hf = record {
    at = λ s p. elim (Result-cases (m s).0) [
      | inl (a, e) ↦ rw (e, ◌>>=◌) ((hf a).at (m s).1 (hm.at s p))
      | inr (c, e) ↦ rw (e, ◌>>=◌) (hm.at s p)
    ];
  }

  pub then-Keeps {κ ν} :
      {A : Type κ} {B : Type ν} (m : Action S A) (k : Action S B)
      → Keeps P m
      → Keeps P k
      → Keeps P (m >> k)
  unfolding ◌>>◌
  then-Keeps m k hm hk = bind-Keeps m (λ _. k) hm (λ _. hk)

  pub pure-Keeps {κ} : {A : Type κ} (a : A) → Keeps P (pure {S = S} a)
  unfolding pure
  pure-Keeps a = record { at = λ s p. p }

  pub raise-Keeps {κ} : {A : Type κ} (c : Code) → Keeps P (raise {S = S} {A = A} c)
  unfolding raise
  raise-Keeps c = record { at = λ s p. p }

  pub gets-Keeps {κ} : {A : Type κ} (f : S → A) → Keeps P (gets f)
  unfolding gets
  gets-Keeps f = record { at = λ s p. p }

  pub raise_if-Keeps : (b : Bool) (c : Code) → Keeps P (raise_if {S = S} b c)
  unfolding raise_if
  raise_if-Keeps b c = elim (Bool-cases b) [
    | inl e ↦ rw e (record { at = λ s p. p })
    | inr e ↦ rw e (record { at = λ s p. p })
  ]

  pub or_raise-Keeps {κ} : {A : Type κ} (o : Option A) (c : Code) → Keeps P (or_raise {S = S} o c)
  unfolding or_raise
  or_raise-Keeps o c = elim (Option-cases o) [
    | inl e ↦ rw e (record { at = λ s p. p })
    | inr (a, e) ↦ rw e (record { at = λ s p. p })
  ]

  pub modify-Keeps : (f : S → S) → ((s : S) → P s → P (f s)) → Keeps P (modify f)
  unfolding modify
  modify-Keeps f h = record { at = h }

  pub if-Keeps {κ} :
      {A : Type κ} (b : Bool) (m k : Action S A)
      → Keeps P m
      → Keeps P k
      → Keeps P (if b then m else k)
  if-Keeps true m k hm hk = hm
  if-Keeps false m k hm hk = hk

  rollback-Keeps {κ} : {A : Type κ} (m : Action S A) → Keeps P m → Keeps P (rollback m)
  rollback-Keeps m hm = record { at = λ s p. rollback_either P m s p (hm.at s p) }

  pub within_tx-Keeps {κ} :
      {A : Type κ} (in_tx : Bool) (f : Bool → Action S A)
      → ((b : Bool) → Keeps P (f b))
      → Keeps P (within_tx in_tx f)
  unfolding within_tx
  within_tx-Keeps in_tx f h = elim (Bool-cases in_tx) [
    | inl e ↦ rw e (h true)
    | inr e ↦ rw e (rollback-Keeps (f true) (h true))
  ]

pub ruleset keeps_rules = (
  bind-Keeps, then-Keeps, pure-Keeps, raise-Keeps, gets-Keeps, raise_if-Keeps, or_raise-Keeps,
  within_tx-Keeps,
)

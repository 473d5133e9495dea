-- ===== src/Base/Each.antt =====
-- The loop of the scheduled jobs: one call for each row, whose errors are joined and do not stop the
-- run, and a count of the calls that did something.
use mathlib.Core.Path.{◌≡◌}
use mathlib.Core.Bool.{Bool, true, false}
use native.Mathlib.Omega.{arith}
use mathlib.Core.List.{List, [], ◌∷◌}
use Prim.Native.Nat.{ℕ, suc}
use whcms.Base.Action.{Action, Result, ok, err, Code, ◌>>=◌, pure, attempt}
use whcms.Base.Keeps.{Keeps, bind-Keeps, pure-Keeps}

abbrev pub tally : Result Bool → ℕ × List Code → ℕ × List Code
tally (ok true) t = (suc t.0, t.1)
tally (ok false) t = t
tally (err e) t = (t.0, e ∷ t.1)

pub attempt-Keeps {ℓ κ μ} :
    {S : Type ℓ} {B : Type κ} {P : S → Type μ} (m : Action S B) → Keeps P m → Keeps P (attempt m)
unfolding attempt
attempt-Keeps m h = record { at = λ s p. h.at s p }

module _ {ℓ κ} {S : Type ℓ} {A : Type κ} where
  unfoldable pub count_each : (A → Action S Bool) → List A → Action S (ℕ × List Code)
  unfolding ◌>>=◌ attempt
  count_each f [] = pure (0, [])
  count_each f (x ∷ rest) = do r ← attempt (f x); t ← count_each f rest; pure (tally r t)

  -- The store after a run: a call that fails keeps what it wrote, and the next row follows.
  pub count_each_store :
      (f : A → Action S Bool) (x : A) (rest : List A) (s : S)
      → (count_each f (x ∷ rest) s).1 ≡ (count_each f rest (f x s).1).1
  unfolding count_each
  count_each_store f x rest s = ground arith

  pub count_each-Keeps {μ} :
      {P : S → Type μ} (f : A → Action S Bool) (xs : List A)
      → ((x : A) → Keeps P (f x))
      → Keeps P (count_each f xs)
  unfolding count_each
  count_each-Keeps f [] h = pure-Keeps (0, [])
  count_each-Keeps f (x ∷ rest) h =
      bind-Keeps (attempt (f x)) _ (attempt-Keeps (f x) (h x)) λ r.
        bind-Keeps (count_each f rest) _ (count_each-Keeps f rest h) λ t. pure-Keeps (tally r t)

-- ===== src/Base/Leads.antt =====
-- Actions with a property of what they return, and actions that lead from one property of the store to
-- another.
use mathlib.Core.Path.{◌≡◌, refl, subst}
use mathlib.Core.Logic.{inl, inr, ◌≢◌}
use whcms.Base.{Bool, true, false, if◌then◌else◌}
use whcms.Base.Action.{Action, Result, ok, err, Code, ◌>>=◌, ◌>>◌, pure, rollback}
use whcms.Base.Keeps.{Keeps, Result-cases}
use whcms.Base.Ensures.{Ensures}

-- `m` keeps `P`, and what it returns has `Q`.
pub record Runs {ℓ κ μ ν} {S : Type ℓ} {A : Type κ} (P : S → Type μ) (Q : A → Type ν)
    (m : Action S A) : Type (ℓ ⊔ κ ⊔ μ ⊔ ν) where
  pub keeps : Keeps P m
  pub yields : (s : S) (a : A) → (m s).0 ≡ ok a → Q a

-- `m` leads from `P` to `Q`, whether it ends well or in an error.
pub record Leads {ℓ κ μ ν} {S : Type ℓ} {A : Type κ} (P : S → Type μ) (Q : S → Type ν)
    (m : Action S A) : Type (ℓ ⊔ μ ⊔ ν) where
  pub at : (s : S) → P s → Q (m s).1

pub keeps-Runs {ℓ κ μ} :
    {S : Type ℓ} {A : Type κ} {P : S → Type μ} (m : Action S A)
    → Keeps P m
    → Runs P (λ a. Unit {0}) m
keeps-Runs m h = record { keeps = h; yields = λ s a e. tt }

not_returned {ℓ} : {A : Type ℓ} (c : Code) (a : A) → ◌≢◌ {A = Result A} (err c) (ok a)
not_returned c a h = cc

module _ {ℓ κ μ ν ρ} {S : Type ℓ} {A : Type κ} {B : Type ρ} {P : S → Type μ} {Q : A → Type ν} where
  pub bind-Runs {σ} :
      {R : B → Type σ} (m : Action S A) (f : A → Action S B)
      → Runs P Q m
      → ((a : A) → Q a → Runs P R (f a))
      → Runs P R (m >>= f)
  unfolding ◌>>=◌
  bind-Runs m f hm hf = record {
    keeps = record {
      at = λ s p. elim (Result-cases (m s).0) [
        | inl (a, e) ↦ rw (e, ◌>>=◌) ((hf a (hm.yields s a e)).keeps.at (m s).1 (hm.keeps.at s p))
        | inr (c, e) ↦ rw (e, ◌>>=◌) (hm.keeps.at s p)
      ];
    };
    yields = λ s b. elim (Result-cases (m s).0) [
      | inl (a, e) ↦ rw (e, ◌>>=◌) (λ h. (hf a (hm.yields s a e)).yields (m s).1 b h)
      | inr (c, e) ↦ rw (e, ◌>>=◌) (λ h. absurd (not_returned c b h))
    ];
  }

  pub bind-Leads {σ} :
      {R : S → Type σ} (m : Action S A) (f : A → Action S B)
      → ((s : S) → P s → R s)
      → Runs P Q m
      → ((a : A) → Q a → Leads P R (f a))
      → Leads P R (m >>= f)
  unfolding ◌>>=◌
  bind-Leads m f weaken hm hf = record {
    at = λ s p. elim (Result-cases (m s).0) [
      | inl (a, e) ↦ rw (e, ◌>>=◌) ((hf a (hm.yields s a e)).at (m s).1 (hm.keeps.at s p))
      | inr (c, e) ↦ rw (e, ◌>>=◌) (weaken (m s).1 (hm.keeps.at s p))
    ];
  }

-- The first action leads there, and the last one stays.
pub first-Leads {ℓ κ μ ν ρ} :
    {S : Type ℓ} {A : Type κ} {B : Type ρ} {P : S → Type μ} {R : S → Type ν} (m : Action S A)
    → (f : A → Action S B) → Leads P R m
    → ((a : A) → Keeps R (f a))
    → Leads P R (m >>= f)
unfolding ◌>>=◌
first-Leads m f hm hf = record {
  at = λ s p. elim (Result-cases (m s).0) [
    | inl (a, e) ↦ rw (e, ◌>>=◌) ((hf a).at (m s).1 (hm.at s p))
    | inr (c, e) ↦ rw (e, ◌>>=◌) (hm.at s p)
  ];
}

pub if-Leads {ℓ κ μ ν} :
    {S : Type ℓ} {A : Type κ} {P : S → Type μ} {R : S → Type ν} (b : Bool) (m n : Action S A)
    → Leads P R m
    → Leads P R n
    → Leads P R (if b then m else n)
if-Leads true m n hm hn = hm
if-Leads false m n hm hn = hn

-- A step of which only the store matters.
pub step-Runs {ℓ κ μ ρ σ} :
    {S : Type ℓ} {A : Type κ} {B : Type ρ} {P : S → Type μ} {R : B → Type σ} (m : Action S A)
    → (f : A → Action S B) → Keeps P m
    → ((a : A) → Runs P R (f a))
    → Runs P R (m >>= f)
step-Runs m f hm hf = bind-Runs m f (keeps-Runs m hm) (λ a u. hf a)

pub pure-Runs {ℓ κ μ σ} :
    {S : Type ℓ} {A : Type κ} {P : S → Type μ} {R : A → Type σ} (a : A)
    → R a
    → Runs {S = S} P R (pure a)
unfolding pure
pure-Runs {R = R} a r = record {
  keeps = record { at = λ s p. p };
  yields = λ s b e. let same_one : a ≡ b = cc in subst R same_one r;
}

pub then-Runs {ℓ κ μ ρ σ} :
    {S : Type ℓ} {A : Type κ} {B : Type ρ} {P : S → Type μ} {R : B → Type σ} (m : Action S A)
    → (n : Action S B) → Keeps P m
    → Runs P R n
    → Runs P R (m >> n)
unfolding ◌>>◌
then-Runs m n hm hn = step-Runs m (λ a. n) hm (λ a. hn)

pub if-Runs {ℓ κ μ σ} :
    {S : Type ℓ} {A : Type κ} {P : S → Type μ} {R : A → Type σ} (b : Bool) (m n : Action S A)
    → Runs P R m
    → Runs P R n
    → Runs P R (if b then m else n)
if-Runs true m n hm hn = hm
if-Runs false m n hm hn = hn

pub returned-Ensures {ℓ κ μ ν ρ σ} :
    {S : Type ℓ} {A : Type κ} {B : Type ρ} {P : S → Type μ} {Q : A → Type ν} {R : S → Type σ}
    (m : Action S A)
    → (f : A → Action S B) → Runs P Q m
    → ((a : A) → Q a → Ensures R (f a))
    → Ensures R (m >>= f)
unfolding ◌>>=◌
returned-Ensures m f hm hf = record {
  at = λ s b. elim (Result-cases (m s).0) [
    | inl (a, e) ↦ rw (e, ◌>>=◌) (λ h. (hf a (hm.yields s a e)).at (m s).1 b h)
    | inr (c, e) ↦ rw (e, ◌>>=◌) (λ h. absurd (not_returned c b h))
  ];
}

-- From `P`, where `m` returns `a`, the store has `R a`.
pub record Arrives {ℓ κ μ ν} {S : Type ℓ} {A : Type κ} (P : S → Type μ) (R : A → S → Type ν)
    (m : Action S A) : Type (ℓ ⊔ κ ⊔ μ ⊔ ν) where
  pub at : (s : S) (a : A) → P s → (m s).0 ≡ ok a → R a (m s).1

module _ {ℓ κ μ ν ρ} {S : Type ℓ} {A : Type κ} {B : Type ρ} {P : S → Type μ}
    {R : B → S → Type ν} where
  pub step-Arrives :
      (m : Action S A) (f : A → Action S B)
      → Keeps P m
      → ((a : A) → Arrives P R (f a))
      → Arrives P R (m >>= f)
  unfolding ◌>>=◌
  step-Arrives m f hm hf = record {
    at = λ s b p. elim (Result-cases (m s).0) [
      | inl (a, e) ↦ rw (e, ◌>>=◌) (λ h. (hf a).at (m s).1 b (hm.at s p) h)
      | inr (c, e) ↦ rw (e, ◌>>=◌) (λ h. absurd (not_returned c b h))
    ];
  }

  pub then-Arrives :
      (m : Action S A) (n : Action S B) → Keeps P m → Arrives P R n → Arrives P R (m >> n)
  unfolding ◌>>◌
  then-Arrives m n hm hn = step-Arrives m (λ a. n) hm (λ a. hn)

  pub reach-Arrives {σ} :
      {Q : A → S → Type σ} (m : Action S A) (f : A → Action S B)
      → Arrives P Q m
      → ((a : A) → Arrives (Q a) R (f a))
      → Arrives P R (m >>= f)
  unfolding ◌>>=◌
  reach-Arrives m f hm hf = record {
    at = λ s b p. elim (Result-cases (m s).0) [
      | inl (a, e) ↦ rw (e, ◌>>=◌) (λ h. (hf a).at (m s).1 b (hm.at s a p e) h)
      | inr (c, e) ↦ rw (e, ◌>>=◌) (λ h. absurd (not_returned c b h))
    ];
  }

  -- Two stretches of a way.
  pub via-Arrives {σ} :
      {Q : S → Type σ} (m : Action S A) (n : Action S B)
      → Arrives P (λ a. Q) m
      → Arrives Q R n
      → Arrives P R (m >> n)
  unfolding ◌>>=◌ ◌>>◌
  via-Arrives m n hm hn = record {
    at = λ s b p. elim (Result-cases (m s).0) [
      | inl (a, e) ↦ rw (e, ◌>>=◌) (λ h. hn.at (m s).1 b (hm.at s a p e) h)
      | inr (c, e) ↦ rw (e, ◌>>=◌) (λ h. absurd (not_returned c b h))
    ];
  }

module _ {ℓ κ μ ν ρ} {S : Type ℓ} {A : Type κ} {B : Type ρ} {P : S → Type μ} {Q : S → Type ν} where
  pub last-Arrives :
      (m : Action S A) (n : Action S B) → Leads P Q m → Keeps Q n → Arrives P (λ b. Q) (m >> n)
  last-Arrives m n hm hn =
      via-Arrives m n (record { at = λ s a p e. hm.at s p }) (record { at = λ s b q e. hn.at s q })

module _ {ℓ κ μ ν} {S : Type ℓ} {A : Type κ} {P : S → Type μ} {R : A → S → Type ν} where
  pub pure-Arrives : (a : A) → ((s : S) → P s → R a s) → Arrives P R (pure a)
  unfolding pure
  pure-Arrives a h = record {
    at = λ s b p e. let same_one : a ≡ b = cc in subst (λ x. R x s) same_one (h s p);
  }

  pub rollback-Arrives : (m : Action S A) → Arrives P R m → Arrives P R (rollback m)
  unfolding rollback
  rollback-Arrives m hm = record {
    at = λ s b p. elim (Result-cases (m s).0) [
      | inl (a, e) ↦
          rw (e, rollback)
            (λ h. let same_one : a ≡ b = cc in subst (λ x. R x (m s).1) same_one (hm.at s a p e))
      | inr (c, e) ↦ rw (e, rollback) (λ h. absurd (not_returned c b h))
    ];
  }

  pub if-Arrives :
      (b : Bool) (m n : Action S A)
      → (b ≡ true → Arrives P R m)
      → (b ≡ false → Arrives P R n)
      → Arrives P R (if b then m else n)
  if-Arrives true m n hm hn = hm refl
  if-Arrives false m n hm hn = hn refl

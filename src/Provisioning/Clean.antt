-- ===== src/Provisioning/Clean.antt =====
-- Actions of backend/internal/modules/provisioning/service.go that leave the store as it was where they
-- end in an error, and actions that never do.
use whcms.Base.{◌≡◌, ◌≢◌, refl, ◌∙◌, Bool, true, false, inl, inr, if◌then◌else◌}
use whcms.Base.Action.{Action, Result, ok, err, Code, ◌>>=◌, ◌>>◌, pure, gets, attempt}
use whcms.Base.Keeps.{Keeps, Result-cases}
use whcms.Store.Tables.{Db}
use whcms.Provisioning.World.{World}
use whcms.Provisioning.Frames.{Stored}

-- An error leaves the store as it was.
pub record IsClean {κ} {A : Type κ} (m : Action World A) : Type κ where
  pub at : (w : World) (c : Code) → (m w).0 ≡ err c → (m w).1.db ≡ w.db

-- No run ends in an error.
pub record IsSure {κ} {A : Type κ} (m : Action World A) : Type κ where
  pub at : (w : World) (c : Code) → (m w).0 ≢ err c

-- The store is the same after the action.
abbrev pub Reads {κ} : {A : Type κ} → Action World A → Type 0
Reads m = (d : Db) → Keeps (Stored (λ db. db ≡ d)) m

pub not_refused {ℓ} : {A : Type ℓ} (a : A) (c : Code) → ◌≢◌ {A = Result A} (ok a) (err c)
not_refused a c h = cc

module _ {κ ρ} {A : Type κ} {B : Type ρ} where
  pub read-IsClean :
      (m : Action World A) (f : A → Action World B)
      → Reads m
      → ((a : A) → IsClean (f a))
      → IsClean (m >>= f)
  unfolding ◌>>=◌
  read-IsClean m f hm hf = record {
    at = λ w c.
        let same_db : (m w).1.db ≡ w.db = ((hm w.db).at w (record { held = refl })).held in
        elim (Result-cases (m w).0) [
          | inl (a, e) ↦ rw (e, ◌>>=◌) (λ h. (hf a).at (m w).1 c h ∙ same_db)
          | inr (d, e) ↦ rw (e, ◌>>=◌) (λ h. same_db)
        ];
  }

  pub done-IsClean :
      (m : Action World A) (f : A → Action World B)
      → IsClean m
      → ((a : A) → IsSure (f a))
      → IsClean (m >>= f)
  unfolding ◌>>=◌
  done-IsClean m f hm hf = record {
    at = λ w c. elim (Result-cases (m w).0) [
      | inl (a, e) ↦ rw (e, ◌>>=◌) (λ h. absurd ((hf a).at (m w).1 c h))
      | inr (d, e) ↦ rw (e, ◌>>=◌) (λ h. hm.at w d e)
    ];
  }

  pub bind-IsSure :
      (m : Action World A) (f : A → Action World B)
      → IsSure m
      → ((a : A) → IsSure (f a))
      → IsSure (m >>= f)
  unfolding ◌>>=◌
  bind-IsSure m f hm hf = record {
    at = λ w c. elim (Result-cases (m w).0) [
      | inl (a, e) ↦ rw (e, ◌>>=◌) (λ h. (hf a).at (m w).1 c h)
      | inr (d, e) ↦ absurd (hm.at w d e)
    ];
  }

  pub read_then-IsClean :
      (m : Action World A) (n : Action World B) → Reads m → IsClean n → IsClean (m >> n)
  unfolding ◌>>◌
  read_then-IsClean m n hm hn = read-IsClean m (λ a. n) hm (λ a. hn)

  pub done_then-IsClean :
      (m : Action World A) (n : Action World B) → IsClean m → IsSure n → IsClean (m >> n)
  unfolding ◌>>◌
  done_then-IsClean m n hm hn = done-IsClean m (λ a. n) hm (λ a. hn)

  pub then-IsSure :
      (m : Action World A) (n : Action World B) → IsSure m → IsSure n → IsSure (m >> n)
  unfolding ◌>>◌
  then-IsSure m n hm hn = bind-IsSure m (λ a. n) hm (λ a. hn)

module _ {κ} {A : Type κ} where
  pub pure-IsSure : (a : A) → IsSure (pure a)
  unfolding pure
  pure-IsSure a = record { at = λ w c h. not_refused a c h }

  pub attempt-IsSure : (m : Action World A) → IsSure (attempt m)
  unfolding attempt
  attempt-IsSure m = record { at = λ w c h. not_refused _ c h }

  pub gets-IsSure : (f : World → A) → IsSure (gets f)
  unfolding gets
  gets-IsSure f = record { at = λ w c h. not_refused _ c h }

  pub if-IsSure :
      (b : Bool) (m n : Action World A) → IsSure m → IsSure n → IsSure (if b then m else n)
  if-IsSure true m n hm hn = hm
  if-IsSure false m n hm hn = hn

  pub if-IsClean :
      (b : Bool) (m n : Action World A) → IsClean m → IsClean n → IsClean (if b then m else n)
  if-IsClean true m n hm hn = hm
  if-IsClean false m n hm hn = hn

  pub sure-IsClean : (m : Action World A) → IsSure m → IsClean m
  sure-IsClean m h = record { at = λ w c e. absurd (h.at w c e) }

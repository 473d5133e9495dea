-- ===== src/Provisioning/Rows.antt =====
-- How a call on one service of backend/internal/modules/provisioning/service.go goes on from its row.
use whcms.Base.{ℕ, ◌≡◌, refl, Bool, true, false, not, Option, none, some}
use whcms.Base.Action.{Action, Code, ◌>>=◌, ◌>>◌, raise_if, or_raise, bind_ok}
use whcms.Base.Leads.{Arrives}
use whcms.Store.Tables.{Db, Service}
use whcms.Store.Services.{get_service}
use whcms.Provisioning.World.{World, on_db}
use whcms.Provisioning.Frames.{Stored}
use whcms.Provisioning.History.{service_found}

pub record HasRow (id : ℕ) (svc : Service) (db : Db) : Type 0 where
  pub there : db.services id ≡ some svc

pub read_row {κ} :
    {A : Type κ} {R : A → World → Type 0} (id : ℕ) (svc : Service) (f : Service → Action World A)
    → Arrives (Stored (HasRow id svc)) R (f svc)
    → Arrives (Stored (HasRow id svc)) R (on_db (get_service id) >>= f)
read_row id svc f h = record {
  at = λ w a p.
      rw (bind_ok (on_db (get_service id)) f w svc w (service_found id w svc p.held.there))
        (h.at w a p);
}

pub guarded {κ} :
    {A : Type κ} {P : World → Type 0} {R : A → World → Type 0} (b : Bool) (c : Code)
    (n : Action World A)
    → (b ≡ true → Arrives P R n)
    → Arrives P R (raise_if (not b) c >> n)
unfolding raise_if ◌>>◌ ◌>>=◌
guarded true c n h = record { at = λ w a p e. (h refl).at w a p e }
guarded false c n h = record { at = λ w a p e. cc }

pub or_raise-Arrives {κ ρ} :
    {A : Type κ} {B : Type ρ} {P : World → Type 0} {R : B → World → Type 0} (o : Option A)
    (c : Code) (f : A → Action World B)
    → ((a : A) → o ≡ some a → Arrives P R (f a))
    → Arrives P R (or_raise o c >>= f)
unfolding or_raise ◌>>=◌
or_raise-Arrives none c f h = record { at = λ w b p e. cc }
or_raise-Arrives (some a) c f h = record { at = λ w b p e. (h a refl).at w b p e }

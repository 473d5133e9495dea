-- ===== src/Provisioning/RowKept.antt =====
-- The row of a service through the calls of other modules and through `getOwned` of
-- backend/internal/modules/provisioning/service.go.
use whcms.Base.{
  ℕ, ◌≡◌, refl, ap, ◌∙◌, Bool, true, false, not, ◌&&◌, Option, some, inl, inr, Bool-cases, arith,
  ◌==◌,
}
use whcms.Base.Int.{ℤ}
use whcms.Base.Float.{Float}
use whcms.Base.Action.{
  Action, Result, ok, err, Code, ◌>>=◌, ◌>>◌, pure, raise_if, bind_ok, bind_err,
}
use whcms.Base.Keeps.{Result-cases, Keeps, keeps_rules}
use whcms.Base.Leads.{Leads, Arrives}
use whcms.Domain.Calendar.{Time}
use whcms.Store.Tables.{Db, Service, put}
use whcms.Store.Services.{get_service, get_service_found, update_service}
use whcms.Store.Credit.{add_credit, apply_credit, adjust_credit, apply_delta}
use whcms.Billing.Create.{Settings, CreateInvoiceInput, create_invoice, store_invoice}
use whcms.Billing.CreateKeeps.{create_invoice-Keeps}
use whcms.Store.Invoices.{next_number, insert_invoice}
use whcms.Provisioning.World.{World, on_db}
use whcms.Provisioning.Cancellation.{get_owned}
use whcms.Provisioning.Frames.{Stored}
use whcms.Provisioning.History.{put_hit}
use whcms.Provisioning.Rows.{HasRow}

adjust_credit-HasRow :
    (id : ℕ) (row : Service) (client : ℕ) (delta : ℤ) (invoice : Option ℕ)
    → Keeps (HasRow id row) (adjust_credit client delta invoice)
unfolding adjust_credit apply_delta
adjust_credit-HasRow id row client delta invoice = record {
  at = λ db v. record { there = ground (arith, v.there) };
}

pub add_credit-HasRow :
    (id : ℕ) (row : Service) (in_tx : Bool) (client : ℕ) (delta : ℤ) (invoice : ℕ)
    → Keeps (HasRow id row) (add_credit in_tx client delta invoice)
unfolding add_credit apply_credit
add_credit-HasRow id row in_tx client delta invoice =
    search (keeps_rules, adjust_credit-HasRow) depth 20

pub written :
    (id : ℕ) (svc new : Service)
    → new.id ≡ id
    → Leads (HasRow id svc) (HasRow id new) (update_service new)
unfolding update_service
written id svc new same_one = record {
  at = λ db v.
      let found : db.services new.id ≡ some svc = ap db.services same_one ∙ v.there in
      rw (found, update_service)
        (record { there = put_hit db.services new.id id new (ground (arith, same_one)) });
}

pub updated :
    (id : ℕ) (row new : Service) (db : Db)
    → db.services id ≡ some row
    → new.id ≡ id
    → update_service new db ≡ (ok tt, record db { services = put db.services new.id new })
unfolding update_service
updated id row new db found same_one =
    let found' : db.services new.id ≡ some row = ap db.services same_one ∙ found in
    rw (found', update_service) refl

-- What a call on the store returns is known while the way goes on.
pub known-Arrives {κ ρ σ} :
    {A : Type κ} {B : Type ρ} {P : Db → Type 0} {Q : A → Type σ} {R : B → World → Type 0}
    (m : Action Db A) (f : A → Action World B)
    → Arrives P (λ a db. Q a × P db) m
    → ((a : A) → Q a → Arrives (Stored P) R (f a))
    → Arrives (Stored P) R (on_db m >>= f)
unfolding on_db ◌>>=◌
known-Arrives m f hm hf = record {
  at = λ w b p. elim (Result-cases (m w.db).0) [
    | inl (a, e) ↦
        let (q, kept) = hm.at w.db a p.held e in
        rw (e, ◌>>=◌) (λ h. (hf a q).at (record w { db = (m w.db).1 }) b (record { held = kept }) h)
    | inr (c, e) ↦ rw (e, ◌>>=◌) (λ h. cc)
  ];
}

pub on_db-Arrives {κ} :
    {A : Type κ} {P : Db → Type 0} {R : A → Db → Type 0} (m : Action Db A)
    → Arrives P R m
    → Arrives (Stored P) (λ a. Stored (R a)) (on_db m)
unfolding on_db
on_db-Arrives m h = record { at = λ w a p e. record { held = h.at w.db a p.held e } }

pub create_invoice-HasRow :
    (id : ℕ) (row : Service) (f : Float) (settings : Settings) (now : Time)
    (input : CreateInvoiceInput)
    → Keeps (HasRow id row) (create_invoice f settings now false input)
unfolding store_invoice next_number insert_invoice ◌>>=◌
create_invoice-HasRow id row f settings now input =
    create_invoice-Keeps f settings now false input
      (λ inv items. record { at = λ db v. record { there = v.there } })

abbrev is_foreign : ℕ → Service → Bool
is_foreign client svc = not (client == 0) && not (svc.client_id == client)

own :
    (client id : ℕ) (svc : Service) (db : Db)
    → db.services id ≡ some svc
    → get_owned client id db ≡ (raise_if (is_foreign client svc) Code.not_found >> pure svc) db
unfolding get_owned
own client id svc db e = bind_ok (get_service id) _ db svc db (get_service_found id db svc e)

owned :
    (client id : ℕ) (svc : Service) (w : World)
    → w.db.services id ≡ some svc
    → is_foreign client svc ≡ false
    → on_db (get_owned client id) w ≡ (ok svc, w)
unfolding on_db raise_if ◌>>◌ ◌>>=◌ pure
owned client id svc w e same_client =
    ap (λ (q : Result Service × Db). (q.0, record w { db = q.1 }))
      (own client id svc w.db e
        ∙ ap (λ b. (raise_if b Code.not_found >> pure svc) w.db) same_client)

foreign :
    (client id : ℕ) (svc : Service) (w : World)
    → w.db.services id ≡ some svc
    → is_foreign client svc ≡ true
    → on_db (get_owned client id) w ≡ (err Code.not_found, w)
unfolding on_db raise_if ◌>>◌ ◌>>=◌ pure
foreign client id svc w e other_client =
    ap (λ (q : Result Service × Db). (q.0, record w { db = q.1 }))
      (own client id svc w.db e
        ∙ ap (λ b. (raise_if b Code.not_found >> pure svc) w.db) other_client)

pub get_owned-Arrives {κ} :
    {A : Type κ} {P : Db → Type 0} {R : A → World → Type 0} (client id : ℕ) (svc : Service)
    (f : Service → Action World A)
    → ((db : Db) → P db → db.services id ≡ some svc)
    → Arrives (Stored P) R (f svc)
    → Arrives (Stored P) R (on_db (get_owned client id) >>= f)
get_owned-Arrives client id svc f there h = record {
  at = λ w a p. elim (Bool-cases (is_foreign client svc)) [
    | inl e ↦
        rw
          (bind_err (on_db (get_owned client id)) f w Code.not_found w
            (foreign client id svc w (there w.db p.held) e))
          (λ r. cc)
    | inr e ↦
        rw
          (bind_ok (on_db (get_owned client id)) f w svc w
            (owned client id svc w (there w.db p.held) e))
          (h.at w a p)
  ];
}

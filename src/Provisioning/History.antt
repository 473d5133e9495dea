-- ===== src/Provisioning/History.antt =====
-- How the statuses of services move while the provisioning jobs run.
use whcms.Base.{
  ℕ, ◌≡◌, refl, sym, ap, ◌∙◌, subst, true, false, Option, none, some, inl, inr, Bool-cases,
  Option-cases, arith, ◌==◌,
}
use whcms.Base.Action.{Action, Result, ok, err, Code, ◌>>=◌, or_raise, bind_ok, bind_err}
use whcms.Base.Keeps.{Keeps}
use whcms.Base.Leads.{Leads, bind-Leads, keeps-Runs}
use whcms.Domain.Enums.{ServiceStatus}
use whcms.Domain.StateMachine.{transition_service}
use whcms.Store.Tables.{Db, Service, put}
use whcms.Store.Listing.{under}
use whcms.Store.Services.{get_service, get_service_found, update_service}
use whcms.Provisioning.World.{World, on_db}
use whcms.Provisioning.Frames.{Stored, on_db-Keeps}

-- A path along the transitions of the state machine.
pub data ServicePath (start : ServiceStatus) : ServiceStatus → Type 0 where
  here : ServicePath start start
  then :
      {s t : ServiceStatus}
      → ServicePath start s
      → transition_service s t ≡ ok t
      → ServicePath start t

pub joined : {a b c : ServiceStatus} → ServicePath a b → ServicePath b c → ServicePath a c
joined p here = p
joined p (ServicePath.then q e) = ServicePath.then (joined p q) e

-- A row is there as before, with a status that a path leads to.
abbrev pub Moved : Option Service → Option Service → Type 0
Moved none o = o ≡ none
Moved (some s) none = ⊥
Moved (some s) (some t) = ServicePath s.status t.status

abbrev status_of : Option Service → Option ServiceStatus
status_of none = none
status_of (some s) = some s.status

-- Since the services stood in `before`, each has moved along the state machine, under its own id.
pub record IsLater (before : ℕ → Option Service) (db : Db) : Type 0 where
  pub keyed : (k : ℕ) → under (λ (s : Service). s.id) k (db.services k) ≡ true
  pub moved : (k : ℕ) → Moved (before k) (db.services k)

-- The same, where a job has read the service with this id and this status.
pub record HasRead (before : ℕ → Option Service) (id : ℕ) (status : ServiceStatus) (db : Db)
    : Type 0 where
  pub later : IsLater before db
  pub is_now : status_of (db.services id) ≡ some status

step_row :
    (o : Option Service) (row new : Service)
    → Moved o (some row)
    → ServicePath row.status new.status
    → Moved o (some new)
step_row none row new h p = cc
step_row (some s) row new h p = joined h p

pub put_hit :
    (t : ℕ → Option Service) (id k : ℕ) (s : Service) → (k == id) ≡ true → put t id s k ≡ some s
put_hit t id k s e = ground (arith, e)

put_miss :
    (t : ℕ → Option Service) (id k : ℕ) (s : Service) → (k == id) ≡ false → put t id s k ≡ t k
put_miss t id k s e = ground (arith, e)

pub same_id : (k id : ℕ) → (k == id) ≡ true → k ≡ id
same_id k id e = ground (arith, e)

keyed_row :
    (k : ℕ) (new : Service)
    → (k == new.id) ≡ true
    → under (λ (s : Service). s.id) k (some new) ≡ true
keyed_row k new e = ground (arith, e)

-- Writing a row whose status a path leads to.
write_row :
    (before : ℕ → Option Service) (row new : Service) (db : Db)
    → IsLater before db
    → db.services new.id ≡ some row
    → ServicePath row.status new.status
    → IsLater before (record db { services = put db.services new.id new })
write_row before row new db v found p = record {
  keyed = λ k. elim (Bool-cases (k == new.id)) [
    | inl e ↦
        subst (λ o. under (λ (s : Service). s.id) k o ≡ true)
          (sym (put_hit db.services new.id k new e)) (keyed_row k new e)
    | inr e ↦
        subst (λ o. under (λ (s : Service). s.id) k o ≡ true)
          (sym (put_miss db.services new.id k new e)) (v.keyed k)
  ];
  moved = λ k. elim (Bool-cases (k == new.id)) [
    | inl e ↦ subst (Moved (before k)) (sym (put_hit db.services new.id k new e)) (
        step_row (before k) row new
          (subst (Moved (before k)) (ap db.services (same_id k new.id e) ∙ found) (v.moved k)) p)
    | inr e ↦ subst (Moved (before k)) (sym (put_miss db.services new.id k new e)) (v.moved k)
  ];
}

read_row :
    (o : Option Service) (status : ServiceStatus)
    → status_of o ≡ some status
    → (row : Service) × (o ≡ some row) × (row.status ≡ status)
read_row none status e = cc
read_row (some row) status e = (row, refl, cc)

pub service_found :
    (id : ℕ) (w : World) (svc : Service)
    → w.db.services id ≡ some svc
    → on_db (get_service id) w ≡ (ok svc, w)
unfolding on_db
service_found id w svc e =
    ap (λ (p : Result Service × Db). (p.0, record w { db = p.1 })) (get_service_found id w.db svc e)

pub service_missing :
    (id : ℕ) (w : World)
    → w.db.services id ≡ none
    → on_db (get_service id) w ≡ (err Code.not_found, w)
unfolding on_db get_service ◌>>=◌
service_missing id w e =
    ap
      (λ (o : Option Service).
        ((or_raise o Code.not_found w.db).0, record w { db = (or_raise o Code.not_found w.db).1 }))
      e

module _ (before : ℕ → Option Service) where
  -- A row of the same status: what was read still holds.
  pub update_service-HasRead :
      (id : ℕ) (status : ServiceStatus) (new : Service)
      → new.id ≡ id
      → new.status ≡ status
      → Keeps (HasRead before id status) (update_service new)
  unfolding update_service
  update_service-HasRead id status new same_one e = record {
    at = λ db v.
        let (row, found, was) = read_row (db.services id) status v.is_now in
        let found' : db.services new.id ≡ some row = ap db.services same_one ∙ found in
        rw (found', update_service)
          (record {
            later =
                write_row before row new db v.later found'
                  (subst (ServicePath row.status) (was ∙ sym e) ServicePath.here);
            is_now =
                ap status_of (put_hit db.services new.id id new (ground (arith, same_one)))
                ∙ ap some e;
          });
  }

  -- A row whose status an allowed transition leads to.
  pub update_service-Leads :
      (id : ℕ) (status : ServiceStatus) (new : Service)
      → new.id ≡ id
      → transition_service status new.status ≡ ok new.status
      → Leads (HasRead before id status) (IsLater before) (update_service new)
  unfolding update_service
  update_service-Leads id status new same_one e = record {
    at = λ db v.
        let (row, found, was) = read_row (db.services id) status v.is_now in
        let found' : db.services new.id ≡ some row = ap db.services same_one ∙ found in
        rw (found', update_service)
          (write_row before row new db v.later found' (
            ServicePath.then ServicePath.here (ap (λ s. transition_service s new.status) was ∙ e)));
  }

  on_db-Leads {κ μ ν} :
      {A : Type κ} {P : Db → Type μ} {Q : Db → Type ν} (m : Action Db A)
      → Leads P Q m
      → Leads (Stored P) (Stored Q) (on_db m)
  unfolding on_db
  on_db-Leads m h = record { at = λ w p. record { held = h.at w.db p.held } }

  read_status :
      (id : ℕ) (db : Db) (svc : Service)
      → IsLater before db
      → db.services id ≡ some svc
      → HasRead before svc.id svc.status db
  read_status id db svc v e =
      let same_one : svc.id ≡ id =
        same_id svc.id id (ap (under (λ (s : Service). s.id) id) (sym e) ∙ v.keyed id) in
      record { later = v; is_now = ap (λ k. status_of (db.services k)) same_one ∙ ap status_of e }

  -- A job reads a service and goes on with what it read.
  pub read-Keeps {κ} :
      {A : Type κ} (id : ℕ) (f : Service → Action World A)
      → ((svc : Service)
          → Leads (Stored (HasRead before svc.id svc.status)) (Stored (IsLater before)) (f svc))
      → Keeps (Stored (IsLater before)) (on_db (get_service id) >>= f)
  read-Keeps id f hf = record {
    at = λ w v. elim (Option-cases (w.db.services id)) [
      | inl e ↦
          rw (bind_err (on_db (get_service id)) f w Code.not_found w (service_missing id w e)) v
      | inr (svc, e) ↦
          rw (bind_ok (on_db (get_service id)) f w svc w (service_found id w svc e))
            ((hf svc).at w (record { held = read_status id w.db svc v.held e }))
    ];
  }

  pub weaken :
      (id : ℕ) (status : ServiceStatus) (w : World)
      → Stored (HasRead before id status) w
      → Stored (IsLater before) w
  weaken id status w v = record { held = v.held.later }

  -- What a job does between reading a service and writing it.
  pub between {κ ρ} :
      {A : Type κ} {B : Type ρ} {id : ℕ} {status : ServiceStatus} (m : Action World A)
      → (f : A → Action World B) → Keeps (Stored (HasRead before id status)) m
      → ((a : A) → Leads (Stored (HasRead before id status)) (Stored (IsLater before)) (f a))
      → Leads (Stored (HasRead before id status)) (Stored (IsLater before)) (m >>= f)
  between {id = id} {status = status} m f hm hf =
      bind-Leads m f (weaken id status) (keeps-Runs m hm) (λ a u. hf a)

  pub stops {κ} :
      {A : Type κ} {id : ℕ} {status : ServiceStatus} (m : Action World A)
      → Keeps (Stored (HasRead before id status)) m
      → Leads (Stored (HasRead before id status)) (Stored (IsLater before)) m
  stops {id = id} {status = status} m h = record { at = λ w v. weaken id status _ (h.at w v) }

  pub write-Leads :
      (svc new : Service)
      → new.id ≡ svc.id
      → transition_service svc.status new.status ≡ ok new.status
      → Leads
          (Stored (HasRead before svc.id svc.status))
          (Stored (IsLater before))
          (on_db (update_service new))
  write-Leads svc new same_one e =
      on_db-Leads (update_service new) (update_service-Leads svc.id svc.status new same_one e)

  pub rewrite-Keeps :
      (id : ℕ) (status : ServiceStatus) (new : Service)
      → new.id ≡ id
      → new.status ≡ status
      → Keeps (Stored (HasRead before id status)) (on_db (update_service new))
  rewrite-Keeps id status new same_one e =
      on_db-Keeps (update_service new) (update_service-HasRead id status new same_one e)

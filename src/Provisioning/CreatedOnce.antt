-- ===== src/Provisioning/CreatedOnce.antt =====
-- About repeated runs of `ProvisionCreate` of backend/internal/modules/provisioning/service.go.
use whcms.Base.{
  ℕ, ◌≡◌, ◌≢◌, refl, sym, ap, ◌∙◌, subst, true, false, Option, none, some, List, inl, inr,
  Bool-cases, Option-cases, arith, if◌then◌else◌,
}
use whcms.Base.Action.{Action, Result, ok, err, Code, ◌>>=◌, pure, bind_ok, bind_err}
use whcms.Base.Ensures.{Ensures, last-Ensures, then_last-Ensures}
use whcms.Base.Leads.{returned-Ensures, if-Runs, pure-Runs}
use whcms.Domain.Enums.{ServiceStatus, ServiceStatus-discrete}
use whcms.Domain.Calendar.{Time}
use whcms.Domain.StateMachine.{transition_service, service_can_transition}
use whcms.Store.Tables.{Db, Service}
use whcms.Store.Listing.{under}
use whcms.Store.Services.{get_service, update_service}
use whcms.Provisioning.World.{World, Outside, on_db}
use whcms.Provisioning.Lifecycle
use whcms.Provisioning.Lifecycle.{has_status, provision_create}
use whcms.Provisioning.Frames.{Stored}
use whcms.Provisioning.History.{
  ServicePath, Moved, IsLater, service_found, service_missing, put_hit, same_id,
}
use whcms.Provisioning.CreateHistory.{SameRow, set_up-Runs, provision_create-IsLater}
use whcms.Provisioning.Jobs.{PanelJob, run_panel_jobs, run_panel_jobs-IsServiceHistory, unmoved}

-- A service is there and has been set up.
pub record IsSetUp (id : ℕ) (db : Db) : Type 0 where
  row : Service
  found : db.services id ≡ some row
  not_pending : row.status ≢ ServiceStatus.pending

never_again :
    (s t : ServiceStatus)
    → s ≢ ServiceStatus.pending
    → transition_service s t ≡ ok t
    → t ≢ ServiceStatus.pending
unfolding transition_service service_can_transition
never_again s t n e = ground (arith, n, e)

path_never_pending :
    {s t : ServiceStatus} → ServicePath s t → s ≢ ServiceStatus.pending → t ≢ ServiceStatus.pending
path_never_pending ServicePath.here n = n
path_never_pending (ServicePath.then p e) n = never_again _ _ (path_never_pending p n) e

moved-IsSetUp :
    (before : ℕ → Option Service) (id : ℕ) (row : Service) (db : Db)
    → before id ≡ some row
    → row.status ≢ ServiceStatus.pending
    → IsLater before db
    → IsSetUp id db
moved-IsSetUp before id row db e n v = elim (Option-cases (db.services id)) [
  | inl gone ↦ absurd (subst (λ o. Moved o none) e (subst (Moved (before id)) gone (v.moved id)))
  | inr (now, found) ↦ record {
    row = now;
    found = found;
    not_pending =
        path_never_pending
          (subst (λ o. Moved o (some now)) e (subst (Moved (before id)) found (v.moved id))) n;
  }
]

active_is_set_up : ServiceStatus.active ≢ ServiceStatus.pending
active_is_set_up p = cc

refused_write : (u : Unit {0}) → ◌≢◌ {A = Result (Unit {0})} (err Code.not_found) (ok u)
refused_write u h = cc

written-IsSetUp :
    (new : Service)
    → new.status ≡ ServiceStatus.active
    → Ensures (Stored (IsSetUp new.id)) (on_db (update_service new))
unfolding on_db update_service
written-IsSetUp new e = record {
  at = λ w a. elim (Option-cases (w.db.services new.id)) [
    | inl gone ↦ rw (gone, update_service) (λ h. absurd (refused_write a h))
    | inr (old, found) ↦
        rw (found, update_service)
          (λ h. record {
            held = record {
              row = new;
              found = put_hit w.db.services new.id new.id new (ground arith);
              not_pending = λ p. active_is_set_up (sym e ∙ p);
            };
          })
  ];
}

module _ (out : Outside) (before : ℕ → Option Service) where
  create_pending-IsSetUp :
      (today : Time) (svc : Service)
      → Ensures (Stored (IsSetUp svc.id)) (Lifecycle.create_pending out today svc)
  unfolding Lifecycle.create_pending
  create_pending-IsSetUp today svc =
      let row : SameRow svc.id svc.status svc = record { one = refl; stays = refl } in
      then_last-Ensures _ _ (
        last-Ensures _ _ λ p. last-Ensures _ _ λ managed.
          returned-Ensures _ _
            (if-Runs managed _ _ (set_up-Runs out before svc.id svc.status svc p row)
              (pure-Runs svc row))
            λ ready same_row.
              subst
                (λ k.
                  Ensures (Stored (IsSetUp k))
                    (on_db (update_service (Lifecycle.activated today ready))))
                same_row.one (written-IsSetUp (Lifecycle.activated today ready) refl))

set_up_status :
    (svc : Service)
    → has_status svc ServiceStatus.pending ≡ false
    → svc.status ≢ ServiceStatus.pending
unfolding ServiceStatus-discrete
set_up_status svc e p = ground (arith, e, p)

other_status :
    (svc : Service)
    → svc.status ≢ ServiceStatus.pending
    → has_status svc ServiceStatus.pending ≡ false
unfolding ServiceStatus-discrete
other_status svc n = ground (arith, n)

own_id :
    (id : ℕ) (svc : Service) (db : Db)
    → db.services id ≡ some svc
    → ((k : ℕ) → under (λ (s : Service). s.id) k (db.services k) ≡ true)
    → svc.id ≡ id
own_id id svc db found keyed =
    same_id svc.id id (ap (under (λ (s : Service). s.id) id) (sym found) ∙ keyed id)

get_service-IsSetUp :
    (id : ℕ) (f : Service → Action World (Unit {0})) (w : World)
    → ((svc : Service)
        → w.db.services id ≡ some svc
        → (f svc w).0 ≡ ok tt
        → IsSetUp id (f svc w).1.db)
    → ((on_db (get_service id) >>= f) w).0 ≡ ok tt
    → IsSetUp id ((on_db (get_service id) >>= f) w).1.db
get_service-IsSetUp id f w h = elim (Option-cases (w.db.services id)) [
  | inl gone ↦
      rw (bind_err (on_db (get_service id)) f w Code.not_found w (service_missing id w gone))
        (λ e. absurd (refused_write tt e))
  | inr (svc, found) ↦
      rw (bind_ok (on_db (get_service id)) f w svc w (service_found id w svc found)) (h svc found)
]

module _ (out : Outside) where
  -- The first setup leaves a service that has been set up.
  provision_create-IsSetUp :
      (today : Time) (id : ℕ) (w : World)
      → ((k : ℕ) → under (λ (s : Service). s.id) k (w.db.services k) ≡ true)
      → (provision_create out today id w).0 ≡ ok tt
      → IsSetUp id (provision_create out today id w).1.db
  unfolding provision_create pure
  provision_create-IsSetUp today id w keyed = get_service-IsSetUp id _ w λ svc found.
      elim (Bool-cases (has_status svc ServiceStatus.pending)) [
        | inl e ↦ rw e (λ h.
            subst (λ k. IsSetUp k (Lifecycle.create_pending out today svc w).1.db)
              (own_id id svc w.db found keyed)
              ((create_pending-IsSetUp out w.db.services today svc).at w tt h).held)
        | inr e ↦
            rw e
              (λ h. record { row = svc; found = found; not_pending = λ p. set_up_status svc e p })
      ]

  -- A setup job of a service that has been set up.
  settled_create :
      (today : Time) (id : ℕ) (w : World)
      → IsSetUp id w.db
      → provision_create out today id w ≡ (ok tt, w)
  unfolding provision_create pure
  settled_create today id w v =
      bind_ok (on_db (get_service id)) _ w v.row w (service_found id w v.row v.found)
      ∙ ap (λ b. (if b then Lifecycle.create_pending out today v.row else pure tt) w)
          (other_status v.row v.not_pending)

  -- Where every service stands under its own id: once a setup job has ended well, and whatever jobs ran
  -- after it, another setup job of the service returns without an error, asks no panel and changes nothing.
  pub created_once :
      (today later : Time) (id : ℕ) (js : List PanelJob) (w : World)
      → ((k : ℕ) → under (λ (s : Service). s.id) k (w.db.services k) ≡ true)
      → (provision_create out today id w).0 ≡ ok tt
      → (let after = (run_panel_jobs out js (provision_create out today id w).1).1 in
          provision_create out later id after ≡ (ok tt, after))
  created_once today later id js w keyed e =
      let first = provision_create-IsSetUp today id w keyed e in
      let kept =
        ((provision_create-IsLater out w.db.services today id).at w (record {
          held = record { keyed = keyed; moved = λ k. unmoved out (w.db.services k) };
        })).held in
      let run =
        run_panel_jobs-IsServiceHistory out js (provision_create out today id w).1 kept.keyed in
      settled_create later id _ (
        moved-IsSetUp (provision_create out today id w).1.db.services id first.row _ first.found
          first.not_pending run)

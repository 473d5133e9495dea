-- ===== src/Provisioning/Renewed.antt =====
-- What a paid renewal and a paid upgrade do (backend/internal/modules/provisioning/service.go).
use whcms.Base.{
  ℕ, ◌≡◌, ◌≢◌, ◌<◌, refl, Bool, true, false, Option, none, some, arith, inl, inr, Bool-cases,
  Option-cases, is_empty, same,
}
use whcms.Base.Action.{
  Result, ok, err, Code, ◌>>=◌, ◌>>◌, pure, or_raise, bind_ok, within_tx, within_tx_ok,
}
use whcms.Domain.Enums.{BillingCycle, ServiceStatus, ServiceStatus-discrete}
use whcms.Domain.Calendar.{Time, IsDate}
use whcms.Domain.Cycle.{add_cycle, add_cycle_later, date_key}
use whcms.Store.Tables.{Db, Service, put}
use whcms.Store.Services.{get_service, get_service_found, update_service}
use whcms.Provisioning.Renewal.{
  Outside, Job, ServiceUpgrade, renewed, upgraded, or_today, put_on_queue, renew_service,
  apply_decoded, apply_upgrade,
}

abbrev with_service : Service → Db → Db
with_service svc db = record db { services = put db.services svc.id svc }

update_service_found :
    (svc old : Service) (db : Db)
    → db.services svc.id ≡ some old
    → update_service svc db ≡ (ok tt, with_service svc db)
unfolding update_service
update_service_found svc old db e = rw (e, update_service) refl

put_on_queue_store : (out : Outside) (j : Job) (db : Db) → (put_on_queue out j db).1 ≡ db
unfolding put_on_queue
put_on_queue_store out j db = refl

put_same {ℓ} : {A : Type ℓ} (t : ℕ → Option A) (k : ℕ) (x : A) → put t k x k ≡ some x
put_same t k x = ground arith

put_other {ℓ} : {A : Type ℓ} (t : ℕ → Option A) (k j : ℕ) (x : A) → j ≢ k → put t k x j ≡ t j
put_other t k j x h = ground arith

not_applied : (c : Code) → ◌≢◌ {A = Result (Unit {0})} (err c) (ok tt)
not_applied c h = cc

module _ (out : Outside) where
  renew_service_store :
      (today : Time) (svc : Service) (db : Db)
      → db.services svc.id ≡ some svc
      → (renew_service out today svc.id db).1 ≡ with_service (renewed today svc) db
  unfolding renew_service pure ◌>>◌
  renew_service_store today svc db found =
      let after = with_service (renewed today svc) db in
      rw
        (
          bind_ok (get_service svc.id) _ db svc db (get_service_found svc.id db svc found),
          bind_ok (update_service (renewed today svc)) _ db tt after
              (update_service_found (renewed today svc) svc db found),
        )
        (elim (Bool-cases (same ServiceStatus-discrete svc.status ServiceStatus.suspended)) [
          | inl e ↦ rw e (put_on_queue_store out (Job.provision_unsuspend svc.id) after)
          | inr e ↦ rw e refl
        ])

  -- A paid renewal moves the due date strictly forward by one cycle, for a recurring cycle and a date
  -- that exists, and touches no other service, whether or not the queue takes the job.
  pub renew_service_later :
      (today : Time) (svc : Service) (db : Db)
      → db.services svc.id ≡ some svc
      → IsDate (or_today svc.next_due_date today)
      → svc.billing_cycle ≢ BillingCycle.one_time
      → let base = or_today svc.next_due_date today in
        let next = add_cycle base (some svc.billing_cycle) in
        let after = (renew_service out today svc.id db).1 in
        (after.services svc.id ≡ some (record svc { next_due_date = some next }))
        × (date_key base < date_key next)
        × ((j : ℕ) → j ≢ svc.id → after.services j ≡ db.services j)
  renew_service_later today svc db found date recurring =
      let base = or_today svc.next_due_date today in
      rw (renew_service_store today svc db found) (
        put_same db.services svc.id (renewed today svc),
        add_cycle_later base svc.billing_cycle date recurring,
        (λ j n. put_other db.services svc.id j (renewed today svc) n),
      )

  apply_decoded_ok :
      (in_tx : Bool) (svc : Service) (up : ServiceUpgrade) (db : Db)
      → db.services svc.id ≡ some svc
      → (apply_decoded out in_tx svc up db).1
        ≡ with_service (upgraded out.with_chosen_specs up svc) db
  unfolding apply_decoded ◌>>◌
  apply_decoded_ok in_tx svc up db found =
      let after = with_service (upgraded out.with_chosen_specs up svc) db in
      let m = update_service (upgraded out.with_chosen_specs up svc) in
      let ran = update_service_found (upgraded out.with_chosen_specs up svc) svc db found in
      rw (bind_ok (within_tx in_tx (λ _. m)) _ db tt after (within_tx_ok in_tx m db tt after ran))
        (put_on_queue_store out (Job.provision_change_package svc.id) after)

  apply_upgrade_done :
      (in_tx : Bool) (svc : Service) (db : Db)
      → db.services svc.id ≡ some svc
      → is_empty svc.pending_upgrade ≡ true
      → apply_upgrade out in_tx svc.id db ≡ (ok tt, db)
  unfolding apply_upgrade pure
  apply_upgrade_done in_tx svc db found none_left =
      rw
        (
          bind_ok (get_service svc.id) _ db svc db (get_service_found svc.id db svc found),
          none_left,
        )
        refl

  apply_upgrade_unreadable :
      (in_tx : Bool) (svc : Service) (db : Db)
      → db.services svc.id ≡ some svc
      → is_empty svc.pending_upgrade ≡ false
      → out.decode_upgrade svc.pending_upgrade ≡ none
      → apply_upgrade out in_tx svc.id db ≡ (err Code.internal, db)
  unfolding apply_upgrade ◌>>=◌
  apply_upgrade_unreadable in_tx svc db found left e =
      rw (bind_ok (get_service svc.id) _ db svc db (get_service_found svc.id db svc found), left, e)
        refl

  apply_upgrade_store :
      (in_tx : Bool) (svc : Service) (up : ServiceUpgrade) (db : Db)
      → db.services svc.id ≡ some svc
      → is_empty svc.pending_upgrade ≡ false
      → out.decode_upgrade svc.pending_upgrade ≡ some up
      → (apply_upgrade out in_tx svc.id db).1
        ≡ with_service (upgraded out.with_chosen_specs up svc) db
  unfolding apply_upgrade or_raise pure ◌>>=◌ apply_decoded
  apply_upgrade_store in_tx svc up db found left e =
      rw (bind_ok (get_service svc.id) _ db svc db (get_service_found svc.id db svc found), left, e)
        (apply_decoded_ok in_tx svc up db found)

  -- A paid upgrade that has been applied is not applied again.
  pub apply_upgrade_again :
      (in_tx again : Bool) (svc : Service) (db : Db)
      → db.services svc.id ≡ some svc
      → (apply_upgrade out in_tx svc.id db).0 ≡ ok tt
      → let after = (apply_upgrade out in_tx svc.id db).1 in
        apply_upgrade out again svc.id after ≡ (ok tt, after)
  apply_upgrade_again in_tx again svc db found = elim (Bool-cases (is_empty svc.pending_upgrade)) [
    | inl e ↦
        rw (apply_upgrade_done in_tx svc db found e) (λ h. apply_upgrade_done again svc db found e)
    | inr e ↦ elim (Option-cases (out.decode_upgrade svc.pending_upgrade)) [
      | inl bad ↦
          rw (apply_upgrade_unreadable in_tx svc db found e bad)
            (λ h. absurd (not_applied Code.internal h))
      | inr (up, good) ↦
          let row = upgraded out.with_chosen_specs up svc in
          rw (apply_upgrade_store in_tx svc up db found e good) (λ h.
            apply_upgrade_done again row (with_service row db) (put_same db.services svc.id row)
              refl)
    ]
  ]

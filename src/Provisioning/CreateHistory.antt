-- ===== src/Provisioning/CreateHistory.antt =====
-- The status of a service through `ProvisionCreate` and `ProvisionChangePackage` of
-- backend/internal/modules/provisioning/service.go.
use whcms.Base.{ℕ, ◌≡◌, refl, Option, none, some, inl, inr, Option-cases, same}
use whcms.Base.Action.{Result, ok, err, Code, Code-discrete, ◌>>◌, raise}
use whcms.Base.Keeps.{
  Keeps, keeps_rules, pure-Keeps, raise-Keeps, or_raise-Keeps, if-Keeps, bind-Keeps, then-Keeps,
}
use whcms.Base.Each.{attempt-Keeps}
use whcms.Base.Leads.{
  Runs, Leads, bind-Runs, bind-Leads, if-Leads, if-Runs, step-Runs, then-Runs, pure-Runs,
}
use whcms.Domain.Enums.{ServiceStatus}
use whcms.Domain.Calendar.{Time}
use whcms.Store.Tables.{Db, Service, Product}
use whcms.Store.Services.{update_service}
use whcms.Provisioning.World.{
  Outside, ServerConfig, CreateAccountParams, AccountResult, AccountInfo, on_db,
}
use whcms.Provisioning.Lifecycle
use whcms.Provisioning.Lifecycle.{has_status, same_domain}
use whcms.Provisioning.Package.{move_package, provision_change_package}
use whcms.Provisioning.Frames.{
  Stored, on_db-Keeps, ask-Keeps, tell-Keeps, get_server-Keeps, pick_server-Keeps,
  get_product-Keeps, module_for-Keeps, decrypt_secret-Keeps, server_config-Keeps,
  panel_context-Keeps, build_package_spec-Keeps,
}
use whcms.Provisioning.History.{
  IsLater, HasRead, read-Keeps, stops, write-Leads, rewrite-Keeps, weaken,
}
use whcms.Provisioning.JobHistory.{after_check, with_read, unchanged}
use whcms.Provisioning.Panels.{cleanup_dynamic_package-Keeps}

-- The row is the one that was read, as far as the state machine sees it.
pub record SameRow (id : ℕ) (status : ServiceStatus) (svc : Service) : Type 0 where
  pub one : svc.id ≡ id
  pub stays : svc.status ≡ status

module _ (out : Outside) (before : ℕ → Option Service) (id : ℕ) (status : ServiceStatus) where
  ensure_package-Keeps {μ} :
      {P : Db → Type μ} (cfg : ServerConfig) (svc : Service) (p : Product)
      → Keeps (Stored P) (Lifecycle.ensure_package out cfg svc p)
  unfolding Lifecycle.ensure_package
  ensure_package-Keeps cfg svc p =
      search (keeps_rules, if-Keeps, on_db-Keeps, build_package_spec-Keeps, tell-Keeps) depth 20

  pinned :
      (svc : Service) (server : Option ℕ)
      → SameRow id status svc
      → SameRow id status (record svc { server_id = server })
  pinned svc server h = record { one = h.one; stays = h.stays }

  pin_server-Runs :
      (svc : Service) (p : Product)
      → SameRow id status svc
      → Runs
          (Stored (HasRead before id status))
          (λ (r : Service × ℕ). SameRow id status r.0)
          (Lifecycle.pin_server out svc p)
  unfolding Lifecycle.pin_server
  pin_server-Runs svc p h = elim (Option-cases svc.server_id) [
    | inl e ↦
        rw (e, Lifecycle.pin_server)
          (step-Runs _ _ (or_raise-Keeps p.server_group_id Code.conflict) λ group.
            step-Runs _ _ (on_db-Keeps _ (pick_server-Keeps out.created_at group)) λ server.
              then-Runs _ _ (rewrite-Keeps before id status _ h.one h.stays)
                (pure-Runs _ (pinned svc (some server.id) h)))
    | inr (k, e) ↦ rw (e, Lifecycle.pin_server) (pure-Runs (svc, k) h)
  ]

  renamed_on_conflict :
      (svc : Service)
      → SameRow id status svc
      → Keeps {A = AccountResult}
          (Stored (HasRead before id status))
          (on_db (update_service (Lifecycle.disambiguated svc)) >> raise Code.conflict)
  renamed_on_conflict svc h =
      then-Keeps _ _ (rewrite-Keeps before id status _ h.one h.stays) (raise-Keeps Code.conflict)

  settle_conflict-Keeps :
      (cfg : ServerConfig) (svc : Service) (r : Result AccountInfo)
      → SameRow id status svc
      → Keeps (Stored (HasRead before id status)) (Lifecycle.settle_conflict out cfg svc r)
  unfolding Lifecycle.settle_conflict
  settle_conflict-Keeps cfg svc (ok i) h =
      if-Keeps (same_domain i.domain_name svc.domain_name) _ _ (pure-Keeps _)
        (renamed_on_conflict svc h)
  settle_conflict-Keeps cfg svc (err c) h = renamed_on_conflict svc h

  account_of-Keeps :
      (cfg : ServerConfig) (svc : Service) (r : Result AccountResult)
      → SameRow id status svc
      → Keeps (Stored (HasRead before id status)) (Lifecycle.account_of out cfg svc r)
  unfolding Lifecycle.account_of
  account_of-Keeps cfg svc (ok r) h = pure-Keeps r
  account_of-Keeps cfg svc (err c) h =
      if-Keeps (same Code-discrete c Code.conflict) _ _
        (bind-Keeps _ _ (attempt-Keeps _ (ask-Keeps _ _)) (λ r. settle_conflict-Keeps cfg svc r h))
        (raise-Keeps c)

  create_account-Keeps :
      (cfg : ServerConfig) (svc : Service) (params : CreateAccountParams)
      → SameRow id status svc
      → Keeps (Stored (HasRead before id status)) (Lifecycle.create_account out cfg svc params)
  unfolding Lifecycle.create_account
  create_account-Keeps cfg svc params h =
      bind-Keeps _ _ (attempt-Keeps _ (ask-Keeps _ _)) (λ r. account_of-Keeps cfg svc r h)

  pub set_up-Runs :
      (svc : Service) (p : Product)
      → SameRow id status svc
      → Runs (Stored (HasRead before id status)) (SameRow id status) (Lifecycle.set_up out svc p)
  unfolding Lifecycle.set_up
  set_up-Runs svc p h =
      bind-Runs (Lifecycle.pin_server out svc p) _ (pin_server-Runs svc p h) λ r pinned_row.
        step-Runs _ _ (on_db-Keeps _ (get_server-Keeps r.1)) λ server.
          step-Runs _ _ (on_db-Keeps _ (server_config-Keeps out server)) λ cfg.
            step-Runs _ _ (on_db-Keeps _ (decrypt_secret-Keeps out r.0.password_enc)) λ password.
              step-Runs _ _ (ensure_package-Keeps cfg r.0 p) λ pkg.
                step-Runs _ _ (create_account-Keeps cfg r.0 _ pinned_row)
                  λ account. pure-Runs _ (record { one = pinned_row.one; stays = pinned_row.stays })

module _ (out : Outside) (before : ℕ → Option Service) where
  create_pending-Leads :
      (today : Time) (svc : Service)
      → Leads
          (Stored (HasRead before svc.id svc.status))
          (Stored (IsLater before))
          (Lifecycle.create_pending out today svc)
  unfolding Lifecycle.create_pending
  create_pending-Leads today svc =
      let row : SameRow svc.id svc.status svc = record { one = refl; stays = refl } in
      after_check out before ServiceStatus.active _ λ e.
        with_read out before _ _ (on_db-Keeps _ (get_product-Keeps svc.product_id)) λ p.
          with_read out before _ _ (on_db-Keeps _ (module_for-Keeps out p.server_module)) λ managed.
            bind-Leads _ _ (weaken before svc.id svc.status)
              (if-Runs managed _ _ (set_up-Runs out before svc.id svc.status svc p row)
                (pure-Runs svc row))
              λ ready same_row.
                write-Leads before svc (Lifecycle.activated today ready) same_row.one e

  pub provision_create-IsLater :
      (today : Time) (id : ℕ)
      → Keeps (Stored (IsLater before)) (Lifecycle.provision_create out today id)
  unfolding Lifecycle.provision_create
  provision_create-IsLater today id = read-Keeps before id _ λ svc.
      if-Leads (has_status svc ServiceStatus.pending) _ _ (create_pending-Leads today svc)
        (unchanged out before)

  move_package-Keeps :
      (svc : Service) (p : Product) (cfg : Option ServerConfig)
      → Keeps (Stored (HasRead before svc.id svc.status)) (move_package out svc p cfg)
  unfolding move_package
  move_package-Keeps svc p none = pure-Keeps tt
  move_package-Keeps svc p (some cfg) =
      bind-Keeps _ _ (ensure_package-Keeps out before svc.id svc.status cfg svc p) λ pkg.
        then-Keeps _ _ (tell-Keeps out _) (elim (Option-cases pkg.1) [
          | inl e ↦ rw e (
              then-Keeps _ _ (rewrite-Keeps before svc.id svc.status _ refl refl)
                (if-Keeps _ _ _ (pure-Keeps tt) (cleanup_dynamic_package-Keeps out _ cfg _)))
          | inr (s, e) ↦ rw e (
              then-Keeps _ _ (rewrite-Keeps before svc.id svc.status _ refl refl)
                (if-Keeps _ _ _ (pure-Keeps tt) (cleanup_dynamic_package-Keeps out _ cfg _)))
        ])

  pub provision_change_package-IsLater :
      (id : ℕ) → Keeps (Stored (IsLater before)) (provision_change_package out id)
  unfolding provision_change_package
  provision_change_package-IsLater id = read-Keeps before id _ λ svc.
      with_read out before _ _ (on_db-Keeps _ (get_product-Keeps svc.product_id)) λ p.
        with_read out before _ _ (on_db-Keeps _ (panel_context-Keeps out svc))
          λ cfg. stops before _ (move_package-Keeps svc p cfg)

-- ===== src/Provisioning/Lifecycle.antt =====
-- `ProvisionCreate`, `ProvisionSuspend`, `ProvisionUnsuspend` and `ProvisionTerminate` of
-- backend/internal/modules/provisioning/service.go, with what they call. Mails, alerts and audit
-- entries are left out; the names of domains that the panel and the row have are compared as ASCII.
use whcms.Base.{
  ℕ, Bool, false, not, ◌&&◌, ◌||◌, Option, none, some, List, [], ◌==◌, if◌then◌else◌, is_empty,
  same,
}
use whcms.Base.Text.{Text, eqb_text, to_lower}
use whcms.Base.Action.{
  Action, Result, Code, Code-discrete, ok, err, ◌>>=◌, ◌>>◌, pure, raise, or_raise, gets, attempt,
}
use whcms.Domain.Enums.{ServiceStatus, ServiceStatus-discrete, CancellationRequestStatus}
use whcms.Domain.Calendar.{Time}
use whcms.Domain.StateMachine.{transition_service}
use whcms.Domain.Username.{disambiguate_username}
use whcms.Store.Tables.{Db, Service, Product, CancellationRequest}
use whcms.Store.Listing.{rows_below}
use whcms.Store.Services.{get_service, update_service}
use whcms.Store.Servers.{get_server, pick_server}
use whcms.Store.Cancellations.{get_pending_by_service, update_cancellation_request}
use whcms.Provisioning.World.{
  World, Outside, PanelCall, ServerConfig, CreateAccountParams, AccountResult, AccountInfo,
  PackageSpec, on_db, lift_result, ask, tell,
}
use whcms.Provisioning.Context.{
  get_product, module_for, decrypt_secret, server_config, panel_context, build_package_spec,
}

abbrev pub has_status : Service → ServiceStatus → Bool
has_status svc s = same ServiceStatus-discrete svc.status s

-- What `TransitionService` says about a change.
unfoldable pub check_move : ServiceStatus → ServiceStatus → Action World ServiceStatus
unfolding lift_result
check_move from to = lift_result (transition_service from to)

abbrev pub same_domain : Text → Text → Bool
same_domain a b = eqb_text (to_lower a) (to_lower b)

abbrev pub activated : Time → Service → Service
activated today svc = record svc { status = ServiceStatus.active; registration_date = some today }

abbrev adopted : AccountInfo → AccountResult
adopted i = record { username = i.username; ip = []; meta = i.meta }

abbrev pub renamed : Text → Service → Service
renamed name svc = record svc { username = if is_empty name then svc.username else name }

abbrev pub disambiguated : Service → Service
disambiguated svc = record svc { username = disambiguate_username svc.username svc.id }

abbrev spec_meta : (Text → PackageSpec → Text) → Text → Option PackageSpec → Text
spec_meta put_spec meta none = meta
spec_meta put_spec meta (some s) = put_spec meta s

abbrev pub suspended : Time → (Text → Time → Text) → Text → Service → Service
suspended now stamp reason svc = record svc {
  status = ServiceStatus.suspended;
  suspend_reason = reason;
  panel_meta = stamp svc.panel_meta now;
}

abbrev pub unsuspended : (Text → Text) → Service → Service
unsuspended unstamp svc = record svc {
  status = ServiceStatus.active;
  suspend_reason = [];
  panel_meta = unstamp svc.panel_meta;
}

abbrev pub ended : ServiceStatus → Time → Service → Service
ended s now svc = record svc { status = s; terminated_at = some now }

module _ (out : Outside) where
  open out use {
    create, account_info, package_in_use, package_name, with_package, with_account,
    with_suspended_at, without_suspended_at, created_at, email_of,
  }

  -- The server is written to the row before the panel is asked, so that a retry takes the same one.
  unfoldable pub pin_server : Service → Product → Action World (Service × ℕ)
  pin_server svc p = elim svc.server_id [
    | some id ↦ pure (svc, id)
    | none ↦ do
      group ← or_raise p.server_group_id Code.conflict
      server ← on_db (pick_server created_at group)
      on_db (update_service (record svc { server_id = some server.id }))
      pure (record svc { server_id = some server.id }, server.id)
  ]

  -- The package that the account gets, built on the panel first for a configurable product.
  unfoldable pub ensure_package :
      ServerConfig → Service → Product → Action World (Text × Option PackageSpec)
  ensure_package cfg svc p =
      if p.configurable
      then (on_db (build_package_spec out svc svc.product_id p cfg.server.package_prefix) >>= λ s.
          tell out (PanelCall.ensure_package cfg s) >> pure (s.name, some s))
      else pure (p.package_name, none)

  -- A CONFLICT may be the account of an attempt before this one; any other account takes the name.
  unfoldable pub settle_conflict :
      ServerConfig → Service → Result AccountInfo → Action World AccountResult
  settle_conflict cfg svc (ok i) =
      if same_domain i.domain_name svc.domain_name
      then pure (adopted i)
      else on_db (update_service (disambiguated svc)) >> raise Code.conflict
  settle_conflict cfg svc (err c) =
      on_db (update_service (disambiguated svc)) >> raise Code.conflict

  unfoldable pub account_of :
      ServerConfig → Service → Result AccountResult → Action World AccountResult
  account_of cfg svc (ok r) = pure r
  account_of cfg svc (err c) =
      if same Code-discrete c Code.conflict
      then (attempt (
            ask (PanelCall.account_info cfg svc.username)
              (λ calls. account_info calls cfg svc.username))
          >>= settle_conflict cfg svc)
      else raise c

  unfoldable pub create_account :
      ServerConfig → Service → CreateAccountParams → Action World AccountResult
  create_account cfg svc params =
      attempt (ask (PanelCall.create cfg params) (λ calls. create calls cfg params))
      >>= account_of cfg svc

  -- The service as the panel has it.
  unfoldable pub set_up : Service → Product → Action World Service
  set_up svc₀ p = do
    pinned ← pin_server svc₀ p
    let svc = pinned.0
    server ← on_db (get_server pinned.1)
    cfg ← on_db (server_config out server)
    password ← on_db (decrypt_secret out svc.password_enc)
    pkg ← ensure_package cfg svc p
    r ← create_account cfg svc (record {
      username = svc.username;
      domain_name = svc.domain_name;
      password = password;
      package_name = pkg.0;
      email = email_of svc.client_id;
      ip = server.ip_address;
    })
    pure (record (renamed r.username svc) {
      panel_meta = with_account (spec_meta with_package svc.panel_meta pkg.1) r;
    })

  unfoldable pub create_pending : Time → Service → Action World (Unit {0})
  create_pending today svc = do
    check_move svc.status ServiceStatus.active
    p ← on_db (get_product svc.product_id)
    managed ← on_db (module_for out p.server_module)
    ready ← if managed then set_up svc p else pure svc
    on_db (update_service (activated today ready))

  unfoldable pub provision_create : Time → ℕ → Action World (Unit {0})
  provision_create today id = on_db (get_service id) >>= λ svc.
      if has_status svc ServiceStatus.pending then create_pending today svc else pure tt

  -- A request to the panel of a service that has one.
  unfoldable pub on_panel :
      Option ServerConfig → (ServerConfig → PanelCall) → Action World (Unit {0})
  on_panel none call = pure tt
  on_panel (some cfg) call = tell out (call cfg)

  unfoldable pub suspend_checked : Time → Text → Service → Action World (Unit {0})
  suspend_checked now reason svc = do
    check_move svc.status ServiceStatus.suspended
    cfg ← on_db (panel_context out svc)
    on_panel cfg (λ c. PanelCall.suspend c svc.username reason)
    on_db (update_service (suspended now with_suspended_at reason svc))

  unfoldable pub provision_suspend : Time → ℕ → Text → Action World (Unit {0})
  provision_suspend now id reason = on_db (get_service id) >>= λ svc.
      if has_status svc ServiceStatus.suspended then pure tt else suspend_checked now reason svc

  unfoldable pub unsuspend_checked : Service → Action World (Unit {0})
  unsuspend_checked svc = do
    check_move svc.status ServiceStatus.active
    cfg ← on_db (panel_context out svc)
    on_panel cfg (λ c. PanelCall.unsuspend c svc.username)
    on_db (update_service (unsuspended without_suspended_at svc))

  unfoldable pub provision_unsuspend : ℕ → Action World (Unit {0})
  provision_unsuspend id = on_db (get_service id) >>= λ svc.
      if has_status svc ServiceStatus.active then pure tt else unsuspend_checked svc

  -- `CountByServerAndPackage`
  abbrev pub siblings : ℕ → Text → ℕ → Db → List Service
  siblings server name except db =
      rows_below db.services
        (λ s.
          (elim s.server_id [ none ↦ false | some k ↦ k == server ])
          && eqb_text (package_name s.panel_meta) name
          && not (s.id == except)
          && not (has_status s ServiceStatus.terminated || has_status s ServiceStatus.cancelled))
        db.next_service

  -- Best effort: what goes wrong here is reported to the operator and is no error of the job.
  unfoldable pub delete_unused : ServerConfig → Text → Result Bool → Action World (Unit {0})
  delete_unused cfg pkg (ok false) =
      attempt (tell out (PanelCall.delete_package cfg pkg)) >>= λ r. pure tt
  delete_unused cfg pkg r = pure tt

  unfoldable pub cleanup_dynamic_package : Service → ServerConfig → Text → Action World (Unit {0})
  cleanup_dynamic_package svc cfg pkg = elim svc.server_id [
    | none ↦ pure tt
    | some server ↦ gets (λ w. siblings server pkg svc.id w.db) >>= λ others.
        if is_empty pkg || not (is_empty others)
        then pure tt
        else attempt
            (ask (PanelCall.package_in_use cfg pkg) (λ calls. package_in_use calls cfg pkg))
          >>= delete_unused cfg pkg
  ]

  abbrev auto_processed : Time → CancellationRequest → CancellationRequest
  auto_processed now r = record r {
    status = CancellationRequestStatus.auto_processed;
    decided_at = some now;
  }

  -- Best effort: its result is ignored.
  unfoldable pub resolve_pending_cancellation : Time → ℕ → Action World (Unit {0})
  resolve_pending_cancellation now id = on_db (get_pending_by_service id) >>= λ found. elim found [
    | none ↦ pure tt
    | some r ↦ attempt (on_db (update_cancellation_request (auto_processed now r))) >>= λ u. pure tt
  ]

  unfoldable pub cancel_unprovisioned : Time → Service → Action World (Unit {0})
  cancel_unprovisioned now svc = do
    check_move svc.status ServiceStatus.cancelled
    on_db (update_service (ended ServiceStatus.cancelled now svc))
    resolve_pending_cancellation now svc.id

  unfoldable pub cleanup_on : Option ServerConfig → Service → Action World (Unit {0})
  cleanup_on none svc = pure tt
  cleanup_on (some cfg) svc = cleanup_dynamic_package svc cfg (package_name svc.panel_meta)

  unfoldable pub terminate_checked : Time → Service → Action World (Unit {0})
  terminate_checked now svc = do
    check_move svc.status ServiceStatus.terminated
    cfg ← on_db (panel_context out svc)
    on_panel cfg (λ c. PanelCall.terminate c svc.username)
    on_db (update_service (ended ServiceStatus.terminated now svc))
    cleanup_on cfg svc
    resolve_pending_cancellation now svc.id

  -- The switch on the service's status.
  unfoldable pub terminate_by : Time → Service → ServiceStatus → Action World (Unit {0})
  terminate_by now svc ServiceStatus.terminated = pure tt
  terminate_by now svc ServiceStatus.cancelled = pure tt
  terminate_by now svc ServiceStatus.pending = cancel_unprovisioned now svc
  terminate_by now svc _ = terminate_checked now svc

  unfoldable pub provision_terminate : Time → ℕ → Action World (Unit {0})
  provision_terminate now id = on_db (get_service id) >>= λ svc. terminate_by now svc svc.status

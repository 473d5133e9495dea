-- ===== src/Tests/Panel.antt =====
-- Runs of the theorems about the jobs on hosting panels and about cancellation requests.
use whcms.Base.{
  Bool, List, Option, [], arith, is_empty, ltb, none, not, refl, some, true, ℕ, ◌∷◌, ◌≡◌, ◌≤◌, ◌<◌,
}
use whcms.Base.Action.{
  Code, Code-discrete, attempt, err, gets, ok, or_raise, pure, raise, raise_if, ◌>>=◌, ◌>>◌,
}
use whcms.Base.Decimal.{decimal}
use whcms.Base.Int.{◌*ℤ◌}
use whcms.Base.Text.{Text, bytes, lower_byte, to_lower}
use whcms.Base.Word.{mul64, wrap64}
use whcms.Billing.Renewals.{
  Renewal, generate_service_renewal_invoice, panel_meta_cancel_at_period_end, service_renewable,
}
use whcms.Domain.Calendar.{day_number}
use whcms.Domain.Enums.{
  CancelMode, CancelMode-discrete, CancellationRequestStatus-discrete, InvoiceStatus-discrete,
  ProvisionKey-discrete, RelatedType-discrete, ServiceStatus-discrete,
}
use whcms.Domain.Money.{format_int}
use whcms.Domain.PackageName.{dynamic_package_name, limits_text, toggles_text}
use whcms.Domain.Specs.{to_panel_mb}
use whcms.Domain.StateMachine.{
  allowed_in, can_transition, cancellation_request_can_transition, cancellation_request_transitions,
  service_can_transition, service_transitions, transition_cancellation_request, transition_service,
}
use whcms.Domain.Username.{disambiguate_username, fnv32a, stem}
use whcms.Provisioning.Accepted.{accepted_not_renewed, accepted_terminated, skip_reason}
use whcms.Provisioning.Cancellation.{accept_cancellation_request, decide}
use whcms.Provisioning.Context.{
  build_package_spec, config_of, decrypt_secret, get_product, module_for, package_limits,
  panel_context, server_config,
}
use whcms.Provisioning.CreatedOnce.{created_once}
use mathlib.Core.Logic.{◌↔◌}
use whcms.Store.Placement.{IsOpen, rank, pick_server-IsOpen}
use whcms.Domain.Enums.{ServerGroupStrategy}
use whcms.Provisioning.Late.{IsLate, auto_suspend-IsLate}
use whcms.Provisioning.Enqueued.{suspends, terminates}
use whcms.Provisioning.History.{IsLater}
use whcms.Provisioning.Jobs.{
  PanelJob, run_panel_job, run_panel_jobs, run_panel_jobs-IsServiceHistory,
}
use whcms.Provisioning.Lifecycle.{
  account_of, cancel_unprovisioned, check_move, cleanup_dynamic_package, cleanup_on, create_account,
  create_pending, delete_unused, ensure_package, on_panel, pin_server, provision_create,
  provision_suspend, provision_terminate, provision_unsuspend, resolve_pending_cancellation, set_up,
  settle_conflict, suspend_checked, terminate_by, terminate_checked, unsuspend_checked,
}
use whcms.Provisioning.OnePending.{IsOnePending, pending_of}
use whcms.Provisioning.Package.{move_package, provision_change_package}
use whcms.Provisioning.Refused.{refused_job}
use whcms.Provisioning.Requests.{CancelStep, run_cancel_steps, run_cancel_steps-IsOnePending}
use whcms.Provisioning.Schedule.{
  auto_suspend, auto_terminate, enqueue_each, list_overdue_suspendable, list_terminatable,
}
use whcms.Provisioning.World.{World, ask, enqueue, lift_result, on_db, tell}
use whcms.Store.Cancellations.{
  get_cancellation_request, get_pending_by_service, update_cancellation_request,
}
use whcms.Store.Listing.{insert_by, rows_below, sort_by, under}
use whcms.Store.Servers.{count_by_server, get_server, latest, pick_server}
use whcms.Store.Services.{due_by, get_service, update_service}
use whcms.Store.Tables.{Server, Service}
use whcms.Tests.Rack.{
  broken_panels, end_request, hosted, ordered_service, panels, rack, running_service,
}
use whcms.Tests.Sample.{halves, noon}
use whcms.Tests.Shop.{settings}

own_ids :
    (svc : Service)
    → svc.id ≡ 3
    → (k : ℕ) → under (λ (s : Service). s.id) k ((hosted svc).db.services k) ≡ true
own_ids svc e k = ground (arith, e)

abbrev some_jobs : List PanelJob
some_jobs =
    PanelJob.suspend noon 3 (bytes "late")
    ∷ PanelJob.unsuspend 3
    ∷ PanelJob.set_up noon 3
    ∷ PanelJob.terminate noon 3
    ∷ []

run_panel_jobs-IsServiceHistory_example :
    IsLater
      (hosted running_service).db.services
      (run_panel_jobs panels some_jobs (hosted running_service)).1.db
run_panel_jobs-IsServiceHistory_example =
    run_panel_jobs-IsServiceHistory panels some_jobs (hosted running_service)
      (own_ids running_service refl)

set_up_ends : (provision_create panels noon 3 (hosted ordered_service)).0 ≡ ok tt
unfolding Code-discrete attempt gets or_raise pure raise decimal ◌*ℤ◌ lower_byte to_lower mul64
    wrap64 ProvisionKey-discrete ServiceStatus-discrete format_int dynamic_package_name limits_text
    toggles_text to_panel_mb allowed_in can_transition service_can_transition service_transitions
    transition_service disambiguate_username fnv32a stem build_package_spec decrypt_secret
    get_product module_for package_limits server_config account_of check_move create_account
    create_pending ensure_package pin_server provision_create set_up settle_conflict ask lift_result
    on_db tell insert_by rows_below sort_by count_by_server get_server latest pick_server
    get_service update_service ◌>>◌ ◌>>=◌
set_up_ends = refl

created_once_example :
    let after =
      (run_panel_jobs panels some_jobs
        (provision_create panels noon 3 (hosted ordered_service)).1).1 in
    provision_create panels noon 3 after ≡ (ok tt, after)
created_once_example =
    created_once panels noon noon 3 some_jobs (hosted ordered_service)
      (own_ids ordered_service refl) set_up_ends

suspension_refused :
    (run_panel_job broken_panels
      (PanelJob.suspend noon 3 (bytes "late"))
      (hosted running_service)).0
    ≡ err Code.external
unfolding Code-discrete attempt gets or_raise pure raise decimal ◌*ℤ◌ lower_byte to_lower mul64
    wrap64 CancellationRequestStatus-discrete ProvisionKey-discrete ServiceStatus-discrete
    format_int dynamic_package_name limits_text toggles_text to_panel_mb allowed_in can_transition
    service_can_transition service_transitions transition_service disambiguate_username fnv32a stem
    build_package_spec config_of decrypt_secret get_product module_for package_limits panel_context
    server_config run_panel_job account_of cancel_unprovisioned check_move cleanup_dynamic_package
    cleanup_on create_account create_pending delete_unused ensure_package on_panel pin_server
    provision_create provision_suspend provision_terminate provision_unsuspend
    resolve_pending_cancellation set_up settle_conflict suspend_checked terminate_by
    terminate_checked unsuspend_checked move_package provision_change_package ask lift_result on_db
    tell get_pending_by_service update_cancellation_request insert_by rows_below sort_by
    count_by_server get_server latest pick_server get_service update_service ◌>>◌ ◌>>=◌
suspension_refused = refl

refused_job_example :
    (run_panel_job broken_panels
      (PanelJob.suspend noon 3 (bytes "late"))
      (hosted running_service)).1.db
    ≡ (hosted running_service).db
refused_job_example =
    refused_job broken_panels (PanelJob.suspend noon 3 (bytes "late")) (hosted running_service)
      Code.external refl suspension_refused

one_request : (s : ℕ) → pending_of s (hosted running_service).db.cancellation_requests ≤ 1
unfolding CancellationRequestStatus-discrete
one_request s = ground arith

abbrev some_steps : List CancelStep
some_steps =
    CancelStep.ask 7 3 CancelMode.immediate
    ∷ CancelStep.accept noon 1 1
    ∷ CancelStep.ask 7 3 CancelMode.end_of_term
    ∷ CancelStep.terminate noon 3
    ∷ []

run_cancel_steps-IsOnePending_example :
    IsOnePending (run_cancel_steps panels some_steps (hosted running_service)).1.db
run_cancel_steps-IsOnePending_example =
    run_cancel_steps-IsOnePending panels some_steps (hosted running_service)
      (record { most = one_request })

abbrev read_mark : Text → Option Bool
read_mark t = some (not (is_empty t))

mark_read :
    (meta : Text)
    → panel_meta_cancel_at_period_end read_mark (panels.with_cancel_at_period_end meta) ≡ true
unfolding panel_meta_cancel_at_period_end
mark_read meta = refl

abbrev marked_world : World
marked_world = (accept_cancellation_request panels noon 1 1 (hosted running_service)).1

request_accepted : (accept_cancellation_request panels noon 1 1 (hosted running_service)).0 ≡ ok tt
unfolding gets or_raise pure raise raise_if CancelMode-discrete CancellationRequestStatus-discrete
    ServiceStatus-discrete allowed_in can_transition cancellation_request_can_transition
    cancellation_request_transitions transition_cancellation_request accept_cancellation_request
    decide lift_result on_db get_cancellation_request update_cancellation_request get_service
    update_service ◌>>◌ ◌>>=◌
request_accepted = refl

accepted_not_renewed_example :
    generate_service_renewal_invoice halves settings noon read_mark 3 marked_world.db ≡ (
      ok (
          Renewal.skipped (
            skip_reason panels noon 1 (
              service_renewable running_service.status running_service.next_due_date
                running_service.recurring_amount))),
      marked_world.db,
    )
accepted_not_renewed_example =
    accepted_not_renewed panels noon 1 read_mark halves settings noon 1 running_service end_request
      (hosted running_service) mark_read refl refl refl request_accepted

accepted_whole :
    accept_cancellation_request panels noon 1 1 (hosted running_service) ≡ (ok tt, marked_world)
unfolding gets or_raise pure raise raise_if CancelMode-discrete CancellationRequestStatus-discrete
    ServiceStatus-discrete allowed_in can_transition cancellation_request_can_transition
    cancellation_request_transitions transition_cancellation_request accept_cancellation_request
    decide lift_result on_db get_cancellation_request update_cancellation_request get_service
    update_service ◌>>◌ ◌>>=◌
accepted_whole = refl

marked_ids : (k : ℕ) → under (λ (s : Service). s.id) k (marked_world.db.services k) ≡ true
unfolding gets or_raise pure raise raise_if CancelMode-discrete CancellationRequestStatus-discrete
    ServiceStatus-discrete allowed_in can_transition cancellation_request_can_transition
    cancellation_request_transitions transition_cancellation_request accept_cancellation_request
    decide lift_result on_db get_cancellation_request update_cancellation_request get_service
    update_service ◌>>◌ ◌>>=◌
marked_ids k = ground arith

still_used : ltb 3 marked_world.db.next_service ≡ true
unfolding gets or_raise pure raise raise_if CancelMode-discrete CancellationRequestStatus-discrete
    ServiceStatus-discrete allowed_in can_transition cancellation_request_can_transition
    cancellation_request_transitions transition_cancellation_request accept_cancellation_request
    decide lift_result on_db get_cancellation_request update_cancellation_request get_service
    update_service ◌>>◌ ◌>>=◌
still_used = refl

terminations_sent :
    (auto_terminate panels (λ t. none) (λ k. noon) read_mark noon 21 marked_world).0 ≡ ok (1, ok tt)
unfolding attempt gets or_raise pure raise raise_if panel_meta_cancel_at_period_end day_number
    CancelMode-discrete CancellationRequestStatus-discrete ServiceStatus-discrete allowed_in
    can_transition cancellation_request_can_transition cancellation_request_transitions
    transition_cancellation_request accept_cancellation_request decide auto_terminate enqueue_each
    list_terminatable enqueue lift_result on_db get_cancellation_request update_cancellation_request
    rows_below get_service update_service ◌>>◌ ◌>>=◌
terminations_sent = refl

period_over : due_by (day_number noon) running_service.next_due_date ≡ true
unfolding day_number
period_over = refl

accepted_terminated_example :
    terminates 3
      (auto_terminate panels (λ t. none) (λ k. noon) read_mark noon 21 marked_world).1.jobs
    ≡ true
accepted_terminated_example =
    accepted_terminated panels noon 1 read_mark (λ t. none) (λ k. noon) noon 21 1 1 running_service
      end_request (hosted running_service) marked_world mark_read refl refl refl accepted_whole
      marked_ids still_used period_over terminations_sent

suspensions_sent : (auto_suspend panels noon 0 (hosted running_service)).0 ≡ ok (1, ok tt)
unfolding attempt gets pure day_number InvoiceStatus-discrete RelatedType-discrete
    ServiceStatus-discrete auto_suspend enqueue_each list_overdue_suspendable enqueue on_db
    rows_below ◌>>◌ ◌>>=◌
suspensions_sent = refl

id_used : 3 < (hosted running_service).db.next_service
id_used = omega arith

auto_suspend-IsLate_example :
    (suspends 3 (auto_suspend panels noon 0 (hosted running_service)).1.jobs ≡ true)
    ↔ IsLate (day_number noon) 0 3 (hosted running_service).db
auto_suspend-IsLate_example =
    auto_suspend-IsLate panels noon 0 3 1 (hosted running_service) (own_ids running_service refl)
      refl id_used suspensions_sent

rack_picked : (pick_server panels.created_at 2 (hosted running_service).db).0 ≡ ok rack
unfolding gets or_raise pure raise insert_by rows_below sort_by count_by_server latest pick_server
    ◌>>◌ ◌>>=◌
rack_picked = refl

pick_server-IsOpen_example :
    let db = (hosted running_service).db in
    IsOpen 2 db rack
    × ((k : ℕ) (x : Server)
        → db.servers k ≡ some x
        → k < db.next_server
        → IsOpen 2 db x
        → rank panels.created_at ServerGroupStrategy.least_used db rack
          ≤ rank panels.created_at ServerGroupStrategy.least_used db x)
pick_server-IsOpen_example =
    pick_server-IsOpen panels.created_at 2 ServerGroupStrategy.least_used
      (hosted running_service).db rack refl rack_picked

-- ===== src/Tests/Rack.antt =====
-- A server of a hosting panel, what the panel answers, and services before and after their setup.
use whcms.Base.{true, false, none, some, [], ◌∷◌, ◌==◌, if◌then◌else◌}
use whcms.Base.Text.{bytes}
use whcms.Base.Action.{ok, err, Code}
use whcms.Domain.Enums.{
  InvoiceStatus, ServiceStatus, ServerModuleName, ServerGroupStrategy, CancelMode,
  CancellationRequestStatus,
}
use whcms.Store.Tables.{Service, Server, CancellationRequest}
use whcms.Provisioning.World.{World, Outside}
use whcms.Tests.Sample.{hunt}
use whcms.Tests.Shop.{hosting, busy_shop}

abbrev pub rack : Server
rack = record {
  id = 1;
  group_id = some 2;
  server_module = ServerModuleName.cpanel;
  password_enc = [];
  api_token_enc = [];
  package_prefix = bytes "wh";
  ip_address = bytes "10.0.0.1";
  max_accounts = 10;
  is_active = true;
}

abbrev pub panels : Outside
panels = record {
  is_wired = λ m. true;
  create = λ calls cfg params. ok (record { username = params.username; ip = []; meta = [] });
  account_info = λ calls cfg name. err Code.not_found;
  command = λ calls c. ok tt;
  package_in_use = λ calls cfg name. ok false;
  accepts = λ jobs j. ok tt;
  decrypt = λ t. ok t;
  chosen_specs = λ t. ok none;
  package_name = λ t. [];
  with_package = λ t s. t;
  without_package = λ t. t;
  with_account = λ t r. bytes "account";
  with_suspended_at = λ t now. t;
  without_suspended_at = λ t. t;
  with_cancel_at_period_end = λ t. bytes "end";
  fnv64a_hex = λ t. t;
  created_at = λ k. k;
  email_of = λ k. bytes "a@a.id";
}

-- A panel that refuses every command.
abbrev pub broken_panels : Outside
broken_panels = record panels { command = λ calls c. err Code.external }

-- A client's request to end the service with its period.
abbrev pub end_request : CancellationRequest
end_request = record {
  id = 1;
  service_id = 3;
  client_id = 7;
  mode = CancelMode.end_of_term;
  status = CancellationRequestStatus.pending;
  decided_at = none;
  decided_by = none;
}

abbrev pub hosted : Service → World
hosted svc = record {
  db = record (busy_shop InvoiceStatus.overdue hunt) {
    services = λ n. if n == 3 then some svc else none;
    servers = λ n. if n == 1 then some rack else none;
    next_server = 2;
    server_groups = λ n. if n == 2 then some ServerGroupStrategy.least_used else none;
    cancellation_requests = end_request ∷ [];
    next_cancellation_request = 2;
  };
  calls = [];
  jobs = [];
}

abbrev pub ordered_service : Service
ordered_service = record hosting { status = ServiceStatus.pending }

abbrev pub running_service : Service
running_service = record hosting { server_id = some 1 }

-- ===== src/Store/Services.antt =====
-- The rows of services and domains that billing reads and writes: `GetByID`, `GetByIDForUpdate`,
-- `Update` and `ListRenewalsDue` of backend/internal/modules/provisioning/repo.go and
-- backend/internal/modules/domains/repo.go. A list is read off the ids in use and then sorted.
use whcms.Base.{ℕ, ◌≡◌, ap, Bool, false, ◌&&◌, Option, none, some, List, same, leb}
use whcms.Base.Action.{Action, ok, err, Code, ◌>>=◌, or_raise, gets}
use whcms.Domain.Enums.{ServiceStatus, ServiceStatus-discrete, DomainStatus, DomainStatus-discrete}
use whcms.Domain.Calendar.{Time, day_number}
use whcms.Store.Tables.{Db, Service, Domain, put}
use whcms.Store.Listing.{rows_below, sort_by}

unfoldable pub get_service : ℕ → Action Db Service
get_service id = do or_raise (← gets (λ db. db.services id)) Code.not_found

unfoldable pub get_domain : ℕ → Action Db Domain
get_domain id = do or_raise (← gets (λ db. db.domains id)) Code.not_found

unfoldable pub update_service : Service → Action Db (Unit {0})
update_service svc db = elim (db.services svc.id) [
  | none ↦ (err Code.not_found, db)
  | some old ↦ (ok tt, record db { services = put db.services svc.id svc })
]

abbrev pub due_by : ℕ → Option Time → Bool
due_by before none = false
due_by before (some t) = leb (day_number t) before

-- The day of a date; rows without one are never sorted.
abbrev pub due_of : Option Time → ℕ
due_of none = 0
due_of (some t) = day_number t

unfoldable pub list_services_due : ℕ → Action Db (List Service)
list_services_due before = gets λ db.
    sort_by (λ s. due_of s.next_due_date)
      (rows_below db.services
        (λ s.
          same ServiceStatus-discrete s.status ServiceStatus.active
          && due_by before s.next_due_date)
        db.next_service)

unfoldable pub list_domains_due : ℕ → Action Db (List Domain)
list_domains_due before = gets λ db.
    sort_by (λ d. due_of d.next_due_date)
      (rows_below db.domains
        (λ d.
          same DomainStatus-discrete d.status DomainStatus.active
          && d.auto_renew
          && due_by before d.next_due_date)
        db.next_domain)

pub get_service_found :
    (id : ℕ) (db : Db) (svc : Service)
    → db.services id ≡ some svc
    → get_service id db ≡ (ok svc, db)
unfolding get_service ◌>>=◌
get_service_found id db svc e = ap (λ o. or_raise o Code.not_found db) e

pub get_domain_found :
    (id : ℕ) (db : Db) (d : Domain) → db.domains id ≡ some d → get_domain id db ≡ (ok d, db)
unfolding get_domain ◌>>=◌
get_domain_found id db d e = ap (λ o. or_raise o Code.not_found db) e

-- ===== src/Store/Servers.antt =====
-- backend/internal/modules/provisioning/repo.go: panel servers, and the choice of one for a service.
use whcms.Base.{
  ℕ, suc, ◌≤◌, ◌≡◌, Bool, true, false, ◌&&◌, ◌||◌, Option, none, some, List, [], ◌∷◌, ◌==◌, ltb,
  length, max, All, inl, inr, Option-cases, arith, subst,
}
use whcms.Base.Action.{Action, ok, Code, ◌>>=◌, or_raise, gets}
use whcms.Domain.Enums.{ServiceStatus, ServerGroupStrategy}
use whcms.Store.Tables.{Db, Service, Server}
use whcms.Store.Listing.{rows_below, sort_by, HeadLeast, sort_by-HeadLeast, listed-All}

unfoldable pub get_server : ℕ → Action Db Server
get_server id = do or_raise (← gets (λ db. db.servers id)) Code.not_found

-- The statuses that occupy an account on a server.
abbrev pub occupies : ServiceStatus → Bool
occupies ServiceStatus.pending = true
occupies ServiceStatus.active = true
occupies ServiceStatus.suspended = true
occupies _ = false

abbrev pub is_some_of : Option ℕ → ℕ → Bool
is_some_of none k = false
is_some_of (some j) k = j == k

abbrev pub accounts_of : ℕ → Db → List Service
accounts_of server db =
    rows_below db.services (λ s. is_some_of s.server_id server && occupies s.status) db.next_service

-- `c.cnt`
unfoldable pub count_by_server : ℕ → Db → ℕ
count_by_server server db = length (accounts_of server db)

-- `c.last_assigned`, with NULL as 0: `created_at` gives the stamps of the service rows.
unfoldable pub latest : (ℕ → ℕ) → List Service → ℕ
latest created_at [] = 0
latest created_at (s ∷ rest) = max (suc (created_at s.id)) (latest created_at rest)

abbrev pub has_room : ℕ → Db → Server → Bool
has_room group db s =
    is_some_of s.group_id group
    && s.is_active
    && (s.max_accounts == 0 || ltb (count_by_server s.id db) s.max_accounts)

abbrev pub assignment_key : (ℕ → ℕ) → ServerGroupStrategy → Db → Server → ℕ
assignment_key created_at ServerGroupStrategy.least_used db s = count_by_server s.id db
assignment_key created_at ServerGroupStrategy.round_robin db s =
    latest created_at (accounts_of s.id db)

abbrev pub candidates : ℕ → Db → List Server
candidates group db = rows_below db.servers (has_room group db) db.next_server

abbrev first_of : List Server → Option Server
first_of [] = none
first_of (s ∷ rest) = some s

unfoldable pub pick_server : (ℕ → ℕ) → ℕ → Action Db Server
pick_server created_at group = do
  strategy ← or_raise (← gets (λ db. db.server_groups group)) Code.not_found
  found ← gets λ db. sort_by (assignment_key created_at strategy db) (candidates group db)
  or_raise (first_of found) Code.conflict

abbrev IsPicked : (Server → Bool) → (Server → ℕ) → List Server → Server → Type 0
IsPicked p key xs s = (p s ≡ true) × All (λ x. key s ≤ key x) xs

first-IsPicked :
    (p : Server → Bool) (key : Server → ℕ) (xs ys : List Server) (s : Server)
    → All (λ x. p x ≡ true) ys
    → HeadLeast key ys xs
    → first_of ys ≡ some s
    → IsPicked p key xs s
first-IsPicked p key xs [] s passed least e = cc
first-IsPicked p key xs (y ∷ rest) s passed least e =
    let same_one : y ≡ s = cc in subst (IsPicked p key xs) same_one (passed.0, least)

-- A picked server is active, stands in the group and has room for one more account; no other server
-- with room comes before it in the strategy's order.
pub pick_server_lem :
    (created_at : ℕ → ℕ) (group : ℕ) (strategy : ServerGroupStrategy) (db : Db) (s : Server)
    → db.server_groups group ≡ some strategy
    → (pick_server created_at group db).0 ≡ ok s
    → (has_room group db s ≡ true)
      × All
          (λ x. assignment_key created_at strategy db s ≤ assignment_key created_at strategy db x)
          (candidates group db)
unfolding pick_server ◌>>=◌
pick_server_lem created_at group strategy db s g =
    let key = assignment_key created_at strategy db in
    let rows = candidates group db in
    rw (g, or_raise)
      (elim (Option-cases (first_of (sort_by key rows))) [
        | inl e ↦ rw (e, or_raise) (λ h. cc)
        | inr (t, e) ↦
            rw (e, or_raise)
              (λ h.
                first-IsPicked (has_room group db) key rows (sort_by key rows) s
                  (listed-All key db.servers (has_room group db) db.next_server)
                  (sort_by-HeadLeast key rows) (ground (arith, e, h)))
      ])

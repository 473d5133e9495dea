-- ===== src/Store/Placement.antt =====
-- The choice of a server by `PickServer` of backend/internal/modules/provisioning/repo.go, described by
-- the rows of the store.
use whcms.Base.{
  ℕ, zero, suc, ==_refl, ◌+◌, ◌≤◌, ◌<◌, ◌≡◌, refl, sym, ap, subst, ◌∙◌, Bool, true, ◌&&◌, Option,
  none, some, List, [], ◌∷◌, ◌++◌, ◌==◌, ltb, length, max, All, length-append, if◌then◌else◌, ◌⊎◌,
  inl, inr, Bool-cases, arith,
}
use whcms.Base.Action.{ok}
use whcms.Domain.Enums.{ServiceStatus, ServerGroupStrategy}
use whcms.Store.Tables.{Db, Service, Server}
use whcms.Store.Listing.{rows_below, row_if}
use whcms.Store.Servers.{
  pick_server, pick_server_lem, has_room, assignment_key, occupies, is_some_of, count_by_server,
  latest,
}

abbrev weight : ServiceStatus → ℕ
weight ServiceStatus.pending = 1
weight ServiceStatus.active = 1
weight ServiceStatus.suspended = 1
weight _ = 0

abbrev counted : ℕ → Option ℕ → ServiceStatus → ℕ
counted server none st = 0
counted server (some k) st = if k == server then weight st else 0

-- One for a service of the server that is pending, active or suspended.
abbrev account : ℕ → Option Service → ℕ
account server none = 0
account server (some s) = counted server s.server_id s.status

-- The accounts of the server among the services with an id below `n`.
abbrev pub accounts : ℕ → (ℕ → Option Service) → ℕ → ℕ
accounts server table zero = 0
accounts server table (suc n) = accounts server table n + account server (table n)

-- When the account was made, and 0 for no account.
abbrev stamp : (ℕ → ℕ) → ℕ → Option Service → ℕ
stamp created_at server none = 0
stamp created_at server (some s) = if account server (some s) == 0 then 0 else suc (created_at s.id)

-- When the newest of the server's accounts was made.
abbrev pub newest : (ℕ → ℕ) → ℕ → (ℕ → Option Service) → ℕ → ℕ
newest created_at server table zero = 0
newest created_at server table (suc n) =
    max (newest created_at server table n) (stamp created_at server (table n))

-- What the strategy of the group compares.
abbrev pub rank : (ℕ → ℕ) → ServerGroupStrategy → Db → Server → ℕ
rank created_at ServerGroupStrategy.least_used db s = accounts s.id db.services db.next_service
rank created_at ServerGroupStrategy.round_robin db s =
    newest created_at s.id db.services db.next_service

-- The server is one of the group, active, and not full; a limit of 0 is none.
pub record IsOpen (group : ℕ) (db : Db) (s : Server) : Type 0 where
  pub in_group : s.group_id ≡ some group
  pub active : s.is_active ≡ true
  pub room : (s.max_accounts ≡ 0) ⊎ (accounts s.id db.services db.next_service < s.max_accounts)

one_row :
    (s : Service) (st : ServiceStatus) → length (if occupies st then s ∷ [] else []) ≡ weight st
one_row s st = ground arith

row_count :
    (server : ℕ) (s : Service) (o : Option ℕ) (st : ServiceStatus)
    → length (if is_some_of o server && occupies st then s ∷ [] else []) ≡ counted server o st
row_count server s none st = refl
row_count server s (some k) st = elim (Bool-cases (k == server)) [
  | inl h ↦ rw h (one_row s st)
  | inr h ↦ rw h refl
]

length-row_if :
    (server : ℕ) (o : Option Service)
    → length (row_if (λ s. is_some_of s.server_id server && occupies s.status) o) ≡ account server o
length-row_if server none = refl
length-row_if server (some s) = row_count server s s.server_id s.status

length-accounts :
    (server : ℕ) (table : ℕ → Option Service) (n : ℕ)
    → length (rows_below table (λ s. is_some_of s.server_id server && occupies s.status) n)
      ≡ accounts server table n
unfolding rows_below
length-accounts server table zero = refl
length-accounts server table (suc n) =
    length-append (rows_below table _ n) (row_if _ (table n))
    ∙ (let before = length-accounts server table n in
        let here = length-row_if server (table n) in omega arith)

latest-append :
    (created_at : ℕ → ℕ) (xs ys : List Service)
    → latest created_at (xs ++ ys) ≡ max (latest created_at xs) (latest created_at ys)
unfolding latest
latest-append created_at [] ys = ground arith
latest-append created_at (x ∷ xs) ys =
    let rest = latest-append created_at xs ys in rw rest (omega arith)

one_stamp :
    (created_at : ℕ → ℕ) (s : Service) (st : ServiceStatus)
    → latest created_at (if occupies st then s ∷ [] else [])
      ≡ (if weight st == 0 then 0 else suc (created_at s.id))
unfolding latest
one_stamp created_at s st = ground arith

row_stamp :
    (created_at : ℕ → ℕ) (server : ℕ) (s : Service) (o : Option ℕ) (st : ServiceStatus)
    → latest created_at (if is_some_of o server && occupies st then s ∷ [] else [])
      ≡ (if counted server o st == 0 then 0 else suc (created_at s.id))
unfolding latest
row_stamp created_at server s none st = refl
row_stamp created_at server s (some k) st = elim (Bool-cases (k == server)) [
  | inl h ↦ rw h (one_stamp created_at s st)
  | inr h ↦ rw h refl
]

latest-row_if :
    (created_at : ℕ → ℕ) (server : ℕ) (o : Option Service)
    → latest created_at (row_if (λ s. is_some_of s.server_id server && occupies s.status) o)
      ≡ stamp created_at server o
unfolding latest
latest-row_if created_at server none = refl
latest-row_if created_at server (some s) = row_stamp created_at server s s.server_id s.status

latest-newest :
    (created_at : ℕ → ℕ) (server : ℕ) (table : ℕ → Option Service) (n : ℕ)
    → latest created_at
        (rows_below table (λ s. is_some_of s.server_id server && occupies s.status) n)
      ≡ newest created_at server table n
unfolding rows_below latest
latest-newest created_at server table zero = refl
latest-newest created_at server table (suc n) =
    latest-append created_at (rows_below table _ n) (row_if _ (table n))
    ∙ (let before = latest-newest created_at server table n in
        let here = latest-row_if created_at server (table n) in rw (before, here) refl)

rank-assignment_key :
    (created_at : ℕ → ℕ) (strategy : ServerGroupStrategy) (db : Db) (s : Server)
    → assignment_key created_at strategy db s ≡ rank created_at strategy db s
unfolding count_by_server
rank-assignment_key created_at ServerGroupStrategy.least_used db s =
    length-accounts s.id db.services db.next_service
rank-assignment_key created_at ServerGroupStrategy.round_robin db s =
    latest-newest created_at s.id db.services db.next_service

module _ {ℓ} {A : Type ℓ} (P : A → Type 0) where
  All-split : (xs ys : List A) → All P (xs ++ ys) → All P xs × All P ys
  All-split [] ys h = (tt, h)
  All-split (x ∷ xs) ys h = let (l, r) = All-split xs ys h.1 in ((h.0, l), r)

  All-row :
      (table : ℕ → Option A) (p : A → Bool) (n k : ℕ) (x : A)
      → table k ≡ some x
      → k < n
      → p x ≡ true
      → All P (rows_below table p n)
      → P x
  unfolding rows_below
  All-row table p zero k x e lt h all = absurd (omega arith)
  All-row table p (suc n) k x e lt h all =
      let (below, here) = All-split (rows_below table p n) (row_if p (table n)) all in
      elim (Bool-cases (k == n)) [
        | inl same_id ↦
            let at_n : table n ≡ some x = ap table (ground arith) ∙ e in
            let row : All P (row_if p (some x)) = subst (λ o. All P (row_if p o)) at_n here in
            (rw h at row).0
        | inr other ↦ All-row table p n k x e (ground arith) h below
      ]

some_of : (o : Option ℕ) (k : ℕ) → is_some_of o k ≡ true → o ≡ some k
some_of none k h = cc
some_of (some j) k h = ap some (ground arith)

has_room-IsOpen :
    (group : ℕ) (db : Db) (s : Server) → has_room group db s ≡ true → IsOpen group db s
has_room-IsOpen group db s h =
    let used = rank-assignment_key (λ k. 0) ServerGroupStrategy.least_used db s in
    record {
      in_group = some_of s.group_id group (ground arith);
      active = ground arith;
      room = elim (Bool-cases (s.max_accounts == 0)) [
        | inl e ↦ inl (ground arith)
        | inr e ↦
            let free : ltb (count_by_server s.id db) s.max_accounts ≡ true = ground (arith, h, e) in
            let fewer = subst (λ k. ltb k s.max_accounts ≡ true) used free in inr (ground arith)
      ];
    }

IsOpen-has_room :
    (group : ℕ) (db : Db) (s : Server) → IsOpen group db s → has_room group db s ≡ true
IsOpen-has_room group db s v =
    let used = rank-assignment_key (λ k. 0) ServerGroupStrategy.least_used db s in
    let inside : is_some_of s.group_id group ≡ true =
      subst (λ o. is_some_of o group ≡ true) (sym v.in_group) (==_refl group) in
    elim v.room [
      | inl z ↦ ground (arith, inside, v.active, z)
      | inr l ↦
          let fewer : ltb (count_by_server s.id db) s.max_accounts ≡ true =
            subst (λ k. ltb k s.max_accounts ≡ true) (sym used) (ground arith) in
          ground (arith, inside, v.active, fewer)
    ]

-- A picked server is one of the group, active and not full, and no other such server whose id is in use
-- ranks before it: under least_used none has fewer accounts, and under round_robin the newest account of
-- none is older, where a server without accounts counts as older than all others.
pub pick_server-IsOpen :
    (created_at : ℕ → ℕ) (group : ℕ) (strategy : ServerGroupStrategy) (db : Db) (s : Server)
    → db.server_groups group ≡ some strategy
    → (pick_server created_at group db).0 ≡ ok s
    → IsOpen group db s
      × ((k : ℕ) (x : Server)
          → db.servers k ≡ some x
          → k < db.next_server
          → IsOpen group db x
          → rank created_at strategy db s ≤ rank created_at strategy db x)
pick_server-IsOpen created_at group strategy db s g e =
    let (room, least) = pick_server_lem created_at group strategy db s g e in
    (
      has_room-IsOpen group db s room,
      λ k x found lt open_for.
          let ordered =
            All-row
              (λ y.
                assignment_key created_at strategy db s ≤ assignment_key created_at strategy db y)
              db.servers (has_room group db) db.next_server k x found lt
              (IsOpen-has_room group db x open_for) least in
          rw
            (
              ← rank-assignment_key created_at strategy db s,
              ← rank-assignment_key created_at strategy db x,
            )
            ordered,
    )

-- ===== src/Snipe/Leases.antt =====
-- `Claim` of backend/internal/modules/snipe/repo.go: a worker leases hunts that nobody holds.
use whcms.Base.{
  ℕ, zero, suc, ◌≤◌, ◌≡◌, refl, sym, ap, ◌∙◌, Bool, true, false, ◌&&◌, Option, some, List, [], ◌∷◌,
  is_empty, take, any, All, inl, inr, Bool-cases, Option-cases, arith, ◌==◌,
}
use whcms.Base.Text.{Text, eqb_text}
use whcms.Base.Action.{Action, ok}
use whcms.Store.Tables.{Db, DomainSnipe, put}
use whcms.Store.Listing.{rows_below, passes, under, any-rows_below}
use whcms.Store.Snipes.{
  is_active, lease_idle, SnipeFinish, finish_guard, finish_snipe, update_snipe_if,
}

abbrev pub claimable : ℕ → DomainSnipe → Bool
claimable now s = is_active s && lease_idle s.lease_until now

abbrev pub leased : Text → ℕ → DomainSnipe → DomainSnipe
leased owner until s = record s { lease_owner = some owner; lease_until = some until }

unfoldable pub lease_all : Text → ℕ → List DomainSnipe → List DomainSnipe
lease_all owner until [] = []
lease_all owner until (s ∷ rest) = leased owner until s ∷ lease_all owner until rest

unfoldable pub put_all : List DomainSnipe → (ℕ → Option DomainSnipe) → ℕ → Option DomainSnipe
put_all [] table = table
put_all (s ∷ rest) table = put_all rest (put table s.id s)

-- The rows in the order of their ids; the leased rows come back.
unfoldable pub claim : Text → ℕ → ℕ → ℕ → Action Db (List DomainSnipe)
claim owner limit now until db =
    let rows =
      lease_all owner until (take limit (rows_below db.snipes (claimable now) db.next_snipe)) in
    (ok rows, record db { snipes = put_all rows db.snipes })

abbrev pub has : ℕ → List DomainSnipe → Bool
has k rows = any (λ (s : DomainSnipe). s.id == k) rows

-- Every hunt stands under its own id.
pub record HuntsKeyed (db : Db) : Type 0 where
  pub row : (j : ℕ) → under (λ (s : DomainSnipe). s.id) j (db.snipes j) ≡ true

has-lease_all :
    (k : ℕ) (owner : Text) (until : ℕ) (rows : List DomainSnipe)
    → has k (lease_all owner until rows) ≡ has k rows
unfolding lease_all
has-lease_all k owner until [] = refl
has-lease_all k owner until (s ∷ rest) = ground (arith, has-lease_all k owner until rest)

has-take : (k n : ℕ) (rows : List DomainSnipe) → has k rows ≡ false → has k (take n rows) ≡ false
has-take k zero rows h = refl
has-take k (suc n) [] h = refl
has-take k (suc n) (s ∷ rest) h = ground (arith, has-take k n rest)

put_all-other :
    (k : ℕ) (rows : List DomainSnipe) (table : ℕ → Option DomainSnipe)
    → has k rows ≡ false
    → put_all rows table k ≡ table k
unfolding put_all
put_all-other k [] table h = refl
put_all-other k (s ∷ rest) table h =
    let other : (s.id == k) ≡ false = ground arith in
    put_all-other k rest (put table s.id s) (ground (arith, other)) ∙ ground (arith, other)

put_all-passes :
    (q : DomainSnipe → Bool) (k : ℕ) (rows : List DomainSnipe) (table : ℕ → Option DomainSnipe)
    → All (λ s. q s ≡ false) rows
    → has k rows ≡ true
    → passes q (put_all rows table k) ≡ false
unfolding put_all
put_all-passes q k [] table h e = ground (arith, e)
put_all-passes q k (s ∷ rest) table h e = elim (Bool-cases (has k rest)) [
  | inl later ↦ put_all-passes q k rest (put table s.id s) h.1 later
  | inr rest_none ↦
      let here : (k == s.id) ≡ true = ground (arith, e, rest_none) in
      ap (passes q) (put_all-other k rest (put table s.id s) rest_none) ∙ ground (arith, here, h.0)
]

put_all-keyed :
    (rows : List DomainSnipe) (table : ℕ → Option DomainSnipe)
    → ((j : ℕ) → under (λ (s : DomainSnipe). s.id) j (table j) ≡ true)
    → (j : ℕ) → under (λ (s : DomainSnipe). s.id) j (put_all rows table j) ≡ true
unfolding put_all
put_all-keyed [] table h j = h j
put_all-keyed (s ∷ rest) table h j =
    put_all-keyed rest (put table s.id s)
      (λ i. elim (Bool-cases (i == s.id)) [ inl e ↦ ground (arith, e) | inr e ↦ rw e (h i) ]) j

lease_all-All :
    (q : DomainSnipe → Bool) (owner : Text) (until : ℕ) (rows : List DomainSnipe)
    → ((s : DomainSnipe) → q (leased owner until s) ≡ false)
    → All (λ s. q s ≡ false) (lease_all owner until rows)
unfolding lease_all
lease_all-All q owner until [] h = tt
lease_all-All q owner until (s ∷ rest) h = (h s, lease_all-All q owner until rest h)

claim_keyed :
    (owner : Text) (limit now until : ℕ) (db : Db)
    → HuntsKeyed db
    → (j : ℕ)
    → under (λ (s : DomainSnipe). s.id) j ((claim owner limit now until db).1.snipes j) ≡ true
unfolding claim
claim_keyed owner limit now until db keyed =
    put_all-keyed
      (lease_all owner until (take limit (rows_below db.snipes (claimable now) db.next_snipe)))
      db.snipes keyed.row

claim_row :
    (q : DomainSnipe → Bool) (owner : Text) (limit now until k : ℕ) (db : Db)
    (rows : List DomainSnipe)
    → (claim owner limit now until db).0 ≡ ok rows
    → has k rows ≡ true
    → ((s : DomainSnipe) → q (leased owner until s) ≡ false)
    → passes q ((claim owner limit now until db).1.snipes k) ≡ false
unfolding claim
claim_row q owner limit now until k db rows said here h =
    let found = take limit (rows_below db.snipes (claimable now) db.next_snipe) in
    let same_rows : lease_all owner until found ≡ rows = cc in
    put_all-passes q k (lease_all owner until found) db.snipes (lease_all-All q owner until found h)
      (ap (has k) same_rows ∙ here)

claimed_none :
    (owner : Text) (limit now until k : ℕ) (db : Db) (rows : List DomainSnipe)
    → ((j : ℕ) → under (λ (s : DomainSnipe). s.id) j (db.snipes j) ≡ true)
    → (claim owner limit now until db).0 ≡ ok rows
    → passes (claimable now) (db.snipes k) ≡ false
    → has k rows ≡ false
unfolding claim
claimed_none owner limit now until k db rows keyed said h =
    let all_rows = rows_below db.snipes (claimable now) db.next_snipe in
    let same_rows : lease_all owner until (take limit all_rows) ≡ rows = cc in
    let none_there : has k all_rows ≡ false =
      any-rows_below (λ (s : DomainSnipe). s.id) db.snipes (claimable now) k db.next_snipe keyed
      ∙ ground (arith, h) in
    sym (ap (has k) same_rows)
    ∙ has-lease_all k owner until (take limit all_rows)
    ∙ has-take k limit all_rows none_there

not_claimable :
    (owner : Text) (until later : ℕ) (s : DomainSnipe)
    → later ≤ until
    → claimable later (leased owner until s) ≡ false
not_claimable owner until later s h = ground (arith, h)

-- No two workers hold one hunt: what a claim has leased no claim gets while the lease lasts, by
-- whichever worker, where every hunt stands under its own id.
pub claim_exclusive :
    (a b : Text) (limit more now until later end k : ℕ) (db : Db) (mine theirs : List DomainSnipe)
    → HuntsKeyed db
    → (claim a limit now until db).0 ≡ ok mine
    → has k mine ≡ true
    → later ≤ until
    → (claim b more later end (claim a limit now until db).1).0 ≡ ok theirs
    → has k theirs ≡ false
claim_exclusive a b limit more now until later end k db mine theirs keyed said here lasts answered =
    claimed_none b more later end k (claim a limit now until db).1 theirs
      (claim_keyed a limit now until db keyed) answered
      (claim_row (claimable later) a limit now until k db mine said here
        (λ s. not_claimable a until later s lasts))

guard_fails :
    (f : SnipeFinish) (db : Db)
    → passes (finish_guard f) (db.snipes f.id) ≡ false
    → finish_snipe f db ≡ (ok false, db)
unfolding finish_snipe
guard_fails f db = elim (Option-cases (db.snipes f.id)) [
  | inl e ↦ rw (e, update_snipe_if) (λ h. refl)
  | inr (s, e) ↦ rw (e, update_snipe_if) (λ h. rw h refl)
]

-- A worker that has lost its lease cannot end the hunt: once another one has claimed it, an update that
-- asks for the first as the owner hits nothing.
pub finish_snipe-fenced :
    (a : Text) (limit now until : ℕ) (f : SnipeFinish) (db : Db) (mine : List DomainSnipe)
    → (claim a limit now until db).0 ≡ ok mine
    → has f.id mine ≡ true
    → is_empty f.owner ≡ false
    → eqb_text a f.owner ≡ false
    → let after = (claim a limit now until db).1 in finish_snipe f after ≡ (ok false, after)
finish_snipe-fenced a limit now until f db mine said here asks other =
    guard_fails f (claim a limit now until db).1 (
      claim_row (finish_guard f) a limit now until f.id db mine said here
        (λ s. ground (arith, asks, other)))

-- ===== src/Provisioning/Enqueued.antt =====
-- About the jobs that `AutoSuspend` and `AutoTerminate` of
-- backend/internal/modules/provisioning/service.go put on the queue.
use whcms.Base.{
  ℕ, suc, ◌+◌, ◌≡◌, refl, sym, ap, ◌∙◌, subst, Bool, true, false, Option, List, [], ◌∷◌, ◌++◌, map,
  take, length, inl, inr, arith, ◌==◌, any, ltb, ◌&&◌, ◌||◌,
}
use whcms.Base.Text.{Text}
use whcms.Base.Action.{Result, ok, err, Code, ◌>>=◌, pure, gets, attempt, bind_ok}
use whcms.Base.Keeps.{Result-cases}
use whcms.Domain.Calendar.{Time, day_number}
use whcms.Store.Tables.{Service}
use whcms.Store.Listing.{rows_below, any-rows_below, under, passes}
use whcms.Provisioning.World.{World, Outside, on_db, enqueue}
use whcms.Provisioning.Renewal.{Job}
use whcms.Provisioning.Schedule.{
  enqueue_each, auto_suspend, auto_terminate, list_overdue_suspendable, list_terminatable,
  is_suspendable, is_terminatable, overdue_reason,
}

-- `n + sent` is returned, with an error or without one; the jobs of the first `sent` rows are on the
-- queue, of all rows if there is no error, and nothing else has changed.
pub record HasSent (job : Service → Job) (rows : List Service) (n : ℕ) (w : World)
    (run : Result (ℕ × Result (Unit {0})) × World) : Type 0 where
  pub sent : ℕ
  pub outcome : Result (Unit {0})
  pub returned : run.0 ≡ ok (n + sent, outcome)
  pub queued : run.1 ≡ record w { jobs = w.jobs ++ map job (take sent rows) }
  pub complete : outcome ≡ ok tt → sent ≡ length rows

append_nil {ℓ} : {A : Type ℓ} (xs : List A) → xs ++ [] ≡ xs
append_nil [] = refl
append_nil (x ∷ xs) = ap (λ ys. x ∷ ys) (append_nil xs)

append_one {ℓ} :
    {A : Type ℓ} (xs : List A) (x : A) (ys : List A) → (xs ++ (x ∷ [])) ++ ys ≡ xs ++ (x ∷ ys)
append_one [] x ys = refl
append_one (z ∷ xs) x ys = ap (λ zs. z ∷ zs) (append_one xs x ys)

counted :
    {k n : ℕ} (r : Result (Unit {0}))
    → k ≡ n
    → ◌≡◌ {A = Result (ℕ × Result (Unit {0}))} (ok (k, r)) (ok (n, r))
counted r e = cc

module _ (out : Outside) (job : Service → Job) where
  enqueued :
      (j : Job) (w : World) (u : Unit {0})
      → out.accepts w.jobs j ≡ ok u
      → attempt (enqueue out j) w ≡ (ok (ok tt), record w { jobs = w.jobs ++ (j ∷ []) })
  unfolding enqueue attempt
  enqueued j w u e = rw (e, enqueue) refl

  not_enqueued :
      (j : Job) (w : World) (c : Code)
      → out.accepts w.jobs j ≡ err c
      → attempt (enqueue out j) w ≡ (ok (err c), w)
  unfolding enqueue attempt
  not_enqueued j w c e = rw (e, enqueue) refl

  pub enqueue_each_lem :
      (rows : List Service) (n : ℕ) (w : World)
      → HasSent job rows n w (enqueue_each out job rows n w)
  unfolding enqueue_each pure
  enqueue_each_lem [] n w = record {
    sent = 0;
    outcome = ok tt;
    returned = counted (ok tt) (omega arith);
    queued = ap (λ js. record w { jobs = js }) (sym (append_nil w.jobs));
    complete = λ e. refl;
  }
  enqueue_each_lem (s ∷ rest) n w = elim (Result-cases (out.accepts w.jobs (job s))) [
    | inl (u, e) ↦
        let w' = record w { jobs = w.jobs ++ (job s ∷ []) } in
        let h = enqueue_each_lem rest (suc n) w' in
        subst (HasSent job (s ∷ rest) n w)
          (sym (bind_ok (attempt (enqueue out (job s))) _ w (ok tt) w' (enqueued (job s) w u e)))
          (record {
            sent = suc h.sent;
            outcome = h.outcome;
            returned = h.returned ∙ counted h.outcome (omega arith);
            queued =
                h.queued
                ∙ ap (λ js. record w { jobs = js })
                    (append_one w.jobs (job s) (map job (take h.sent rest)));
            complete = λ done. ap suc (h.complete done);
          })
    | inr (c, e) ↦
        subst (HasSent job (s ∷ rest) n w)
          (sym (bind_ok (attempt (enqueue out (job s))) _ w (err c) w (not_enqueued (job s) w c e)))
          (record {
            sent = 0;
            outcome = err c;
            returned = counted (err c) (omega arith);
            queued = ap (λ js. record w { jobs = js }) (sym (append_nil w.jobs));
            complete = λ done. cc;
          })
  ]

-- Some suspension of this service is among the jobs.
abbrev pub suspends : ℕ → List Job → Bool
suspends id [] = false
suspends id (Job.provision_suspend k reason ∷ rest) = (k == id) || suspends id rest
suspends id (j ∷ rest) = suspends id rest

abbrev pub terminates : ℕ → List Job → Bool
terminates id [] = false
terminates id (Job.provision_terminate k ∷ rest) = (k == id) || terminates id rest
terminates id (j ∷ rest) = terminates id rest

suspends-append :
    (id : ℕ) (xs ys : List Job) → suspends id (xs ++ ys) ≡ (suspends id xs || suspends id ys)
suspends-append id [] ys = refl
suspends-append id (Job.provision_suspend k reason ∷ xs) ys =
    ground (arith, suspends-append id xs ys)
suspends-append id (Job.provision_create k ∷ xs) ys = suspends-append id xs ys
suspends-append id (Job.provision_unsuspend k ∷ xs) ys = suspends-append id xs ys
suspends-append id (Job.provision_terminate k ∷ xs) ys = suspends-append id xs ys
suspends-append id (Job.provision_change_package k ∷ xs) ys = suspends-append id xs ys
suspends-append id (Job.domain_renew k y ∷ xs) ys = suspends-append id xs ys

terminates-append :
    (id : ℕ) (xs ys : List Job) → terminates id (xs ++ ys) ≡ (terminates id xs || terminates id ys)
terminates-append id [] ys = refl
terminates-append id (Job.provision_terminate k ∷ xs) ys =
    ground (arith, terminates-append id xs ys)
terminates-append id (Job.provision_create k ∷ xs) ys = terminates-append id xs ys
terminates-append id (Job.provision_unsuspend k ∷ xs) ys = terminates-append id xs ys
terminates-append id (Job.provision_suspend k reason ∷ xs) ys = terminates-append id xs ys
terminates-append id (Job.provision_change_package k ∷ xs) ys = terminates-append id xs ys
terminates-append id (Job.domain_renew k y ∷ xs) ys = terminates-append id xs ys

suspends-map :
    (id : ℕ) (reason : Text) (rows : List Service)
    → suspends id (map (λ (s : Service). Job.provision_suspend s.id reason) rows)
      ≡ any (λ (s : Service). s.id == id) rows
suspends-map id reason [] = refl
suspends-map id reason (s ∷ rows) = ground (arith, suspends-map id reason rows)

terminates-map :
    (id : ℕ) (rows : List Service)
    → terminates id (map (λ (s : Service). Job.provision_terminate s.id) rows)
      ≡ any (λ (s : Service). s.id == id) rows
terminates-map id [] = refl
terminates-map id (s ∷ rows) = ground (arith, terminates-map id rows)

take_whole {ℓ} : {A : Type ℓ} (xs : List A) → take (length xs) xs ≡ xs
take_whole [] = refl
take_whole (x ∷ xs) = ap (λ ys. x ∷ ys) (take_whole xs)

same_count :
    (k n : ℕ) (r : Result (Unit {0}))
    → ◌≡◌ {A = Result (ℕ × Result (Unit {0}))} (ok (k, r)) (ok (n, ok tt))
    → r ≡ ok tt
same_count k n r e = cc

module _ (out : Outside) where
  -- Where every service stands under its own id and no error comes back, a service has a suspension on
  -- the queue afterwards exactly if it had one before, or its id is in use, it is active and one of its
  -- renewals has been overdue for so many days.
  pub auto_suspend_lem :
      (now : Time) (days id n : ℕ) (w : World)
      → ((k : ℕ) → under (λ (s : Service). s.id) k (w.db.services k) ≡ true)
      → (auto_suspend out now days w).0 ≡ ok (n, ok tt)
      → suspends id (auto_suspend out now days w).1.jobs ≡ (
          suspends id w.jobs
          || (ltb id w.db.next_service
              && passes (is_suspendable (day_number now) days w.db) (w.db.services id)))
  unfolding auto_suspend list_overdue_suspendable on_db gets ◌>>=◌
  auto_suspend_lem now days id n w keyed e =
      let rows =
        rows_below w.db.services (is_suspendable (day_number now) days w.db) w.db.next_service in
      let job = λ (s : Service). Job.provision_suspend s.id overdue_reason in
      let h = enqueue_each_lem out job rows 0 w in
      let all = h.complete (same_count (0 + h.sent) n h.outcome (sym h.returned ∙ e)) in
      ap (λ (v : World). suspends id v.jobs) h.queued
      ∙ suspends-append id w.jobs (map job (take h.sent rows))
      ∙ ap (λ rs. suspends id w.jobs || suspends id (map job rs))
          (ap (λ k. take k rows) all ∙ take_whole rows)
      ∙ ap (λ b. suspends id w.jobs || b)
          (suspends-map id overdue_reason rows
            ∙ any-rows_below (λ (s : Service). s.id) w.db.services
                (is_suspendable (day_number now) days w.db) id w.db.next_service keyed)

  -- The same for terminations: of services that have been suspended for so many days, and of those that
  -- are to be cancelled at the end of a period that is over.
  pub auto_terminate_lem :
      (suspended_at : Text → Option Time) (updated_at : ℕ → Time) (decode : Text → Option Bool)
      (now : Time) (days id n : ℕ) (w : World)
      → ((k : ℕ) → under (λ (s : Service). s.id) k (w.db.services k) ≡ true)
      → (auto_terminate out suspended_at updated_at decode now days w).0 ≡ ok (n, ok tt)
      → terminates id (auto_terminate out suspended_at updated_at decode now days w).1.jobs ≡ (
          terminates id w.jobs
          || (ltb id w.db.next_service
              && passes
                  (is_terminatable suspended_at updated_at decode now days)
                  (w.db.services id)))
  unfolding auto_terminate list_terminatable on_db gets ◌>>=◌
  auto_terminate_lem suspended_at updated_at decode now days id n w keyed e =
      let test = is_terminatable suspended_at updated_at decode now days in
      let rows = rows_below w.db.services test w.db.next_service in
      let job = λ (s : Service). Job.provision_terminate s.id in
      let h = enqueue_each_lem out job rows 0 w in
      let all = h.complete (same_count (0 + h.sent) n h.outcome (sym h.returned ∙ e)) in
      ap (λ (v : World). terminates id v.jobs) h.queued
      ∙ terminates-append id w.jobs (map job (take h.sent rows))
      ∙ ap (λ rs. terminates id w.jobs || terminates id (map job rs))
          (ap (λ k. take k rows) all ∙ take_whole rows)
      ∙ ap (λ b. terminates id w.jobs || b)
          (terminates-map id rows
            ∙ any-rows_below (λ (s : Service). s.id) w.db.services test id w.db.next_service keyed)

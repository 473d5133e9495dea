-- ===== src/Provisioning/Jobs.antt =====
-- Runs of provisioning jobs of backend/internal/modules/provisioning/service.go: each job ends well or
-- in an error, and the queue goes on with the next one.
use whcms.Base.{ℕ, true, ◌≡◌, refl, Option, none, some, List, [], ◌∷◌}
use whcms.Base.Text.{Text}
use whcms.Base.Action.{Action, ◌>>◌, pure, attempt}
use whcms.Base.Keeps.{Keeps, pure-Keeps, then-Keeps}
use whcms.Base.Each.{attempt-Keeps}
use whcms.Domain.Calendar.{Time}
use whcms.Store.Tables.{Service}
use whcms.Store.Listing.{under}
use whcms.Provisioning.World.{World, Outside}
use whcms.Provisioning.Lifecycle.{
  provision_create, provision_suspend, provision_unsuspend, provision_terminate,
}
use whcms.Provisioning.Package.{provision_change_package}
use whcms.Provisioning.Frames.{Stored}
use whcms.Provisioning.History.{ServicePath, Moved, IsLater}
use whcms.Provisioning.JobHistory.{
  provision_suspend-IsLater, provision_unsuspend-IsLater, provision_terminate-IsLater,
}
use whcms.Provisioning.CreateHistory.{provision_create-IsLater, provision_change_package-IsLater}

-- A job of the queue with the time at which a worker takes it.
pub data PanelJob : Type 0 where
  set_up terminate : Time → ℕ → PanelJob
  suspend : Time → ℕ → Text → PanelJob
  unsuspend change_package : ℕ → PanelJob

module _ (out : Outside) where
  unfoldable pub run_panel_job : PanelJob → Action World (Unit {0})
  run_panel_job (PanelJob.set_up today id) = provision_create out today id
  run_panel_job (PanelJob.terminate now id) = provision_terminate out now id
  run_panel_job (PanelJob.suspend now id reason) = provision_suspend out now id reason
  run_panel_job (PanelJob.unsuspend id) = provision_unsuspend out id
  run_panel_job (PanelJob.change_package id) = provision_change_package out id

  -- A job that fails does not stop the queue.
  unfoldable pub run_panel_jobs : List PanelJob → Action World (Unit {0})
  run_panel_jobs [] = pure tt
  run_panel_jobs (j ∷ rest) = attempt (run_panel_job j) >> run_panel_jobs rest

  run_panel_job-IsLater :
      (before : ℕ → Option Service) (j : PanelJob)
      → Keeps (Stored (IsLater before)) (run_panel_job j)
  unfolding run_panel_job
  run_panel_job-IsLater before (PanelJob.set_up today id) =
      provision_create-IsLater out before today id
  run_panel_job-IsLater before (PanelJob.terminate now id) =
      provision_terminate-IsLater out before now id
  run_panel_job-IsLater before (PanelJob.suspend now id reason) =
      provision_suspend-IsLater out before now id reason
  run_panel_job-IsLater before (PanelJob.unsuspend id) = provision_unsuspend-IsLater out before id
  run_panel_job-IsLater before (PanelJob.change_package id) =
      provision_change_package-IsLater out before id

  run_panel_jobs-IsLater :
      (before : ℕ → Option Service) (js : List PanelJob)
      → Keeps (Stored (IsLater before)) (run_panel_jobs js)
  unfolding run_panel_jobs
  run_panel_jobs-IsLater before [] = pure-Keeps tt
  run_panel_jobs-IsLater before (j ∷ rest) =
      then-Keeps _ _ (attempt-Keeps _ (run_panel_job-IsLater before j))
        (run_panel_jobs-IsLater before rest)

  pub unmoved : (o : Option Service) → Moved o o
  unmoved none = refl
  unmoved (some s) = ServicePath.here

  -- Where every service stands under its own id, each is there after the jobs, under its own id, and
  -- its status has moved along the transitions of `CanTransition`; no service is new.
  pub run_panel_jobs-IsServiceHistory :
      (js : List PanelJob) (w : World)
      → ((k : ℕ) → under (λ (s : Service). s.id) k (w.db.services k) ≡ true)
      → IsLater w.db.services (run_panel_jobs js w).1.db
  run_panel_jobs-IsServiceHistory js w keyed =
      ((run_panel_jobs-IsLater w.db.services js).at w
        (record { held = record { keyed = keyed; moved = λ k. unmoved (w.db.services k) } })).held

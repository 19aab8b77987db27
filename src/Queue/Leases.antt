-- ===== src/Queue/Leases.antt =====
-- The leases of the queue (internal/state/queue.go).
use saga_rydd.Prelude.{
  ℕ, ◌≤◌, ◌≡◌, refl, Bool, false, List, [], ◌∷◌, length, ok, err, arith, map, ap, ◌∙◌,
}
use saga_rydd.Queue.Types.{stale_lease, JobRow, QueueDb, Job}
use saga_rydd.Queue.Operations.{owned_count, recovered_row, recover_jobs, finish_row, finish_job}

recovered-unowned :
    (j : Job) (now : ℕ) (rows : List JobRow) → owned_count j (map (recovered_row now) rows) ≡ 0
unfolding owned_count
recovered-unowned j now [] = refl
recovered-unowned j now (r ∷ rs) = let rest = recovered-unowned j now rs in ground arith

finish_row-stale :
    (db : QueueDb) (j : Job) (done : Bool) (cursor : List ℕ) (due : ℕ) (why : List ℕ)
    → owned_count j db.jobs ≡ 0
    → length cursor ≤ 65536
    → finish_row db j done cursor due why ≡ err stale_lease
unfolding finish_row
finish_row-stale db j done cursor due why n c = ground arith

recover_jobs-jobs :
    (readonly locked : Bool) (db db' : QueueDb) (now count : ℕ)
    → recover_jobs readonly locked db now ≡ ok (db', count)
    → db'.jobs ≡ map (recovered_row now) db.jobs
unfolding recover_jobs
recover_jobs-jobs readonly locked db db' now count e = ground arith

-- After a successful RecoverJobs every lease that was handed out before is void: FinishJob of any job,
-- with a cursor of at most 64 KiB, fails with ErrStaleLease.
pub recover_jobs_fences :
    (readonly locked : Bool) (db db' : QueueDb) (now count : ℕ) (j : Job) (done : Bool)
    (cursor : List ℕ) (due : ℕ) (why : List ℕ)
    → recover_jobs readonly locked db now ≡ ok (db', count)
    → length cursor ≤ 65536
    → finish_job false db' j done cursor due why ≡ err stale_lease
unfolding finish_job
recover_jobs_fences readonly locked db db' now count j done cursor due why e c =
    let n : owned_count j db'.jobs ≡ 0 =
      ap (owned_count j) (recover_jobs-jobs readonly locked db db' now count e)
      ∙ recovered-unowned j now db.jobs in
    let f = finish_row-stale db' j done cursor due why n c in ground arith

-- ===== src/Queue/Tests.antt =====
-- The queue of internal/state/queue.go with one root and two jobs.
use saga_rydd.Prelude.{
  ℕ, map, ◌==◌, ◌+◌, ◌≡◌, refl, true, false, List, [], ◌∷◌, Option, none, some, bytes_eq, zeros,
  Result, ok, err, ok_or, arith,
}
use mathlib.Core.List.{Memᴰ}
use saga_rydd.Prelude.Int.{pos}
use saga_rydd.Int64.{to_int64}
use saga_rydd.Queue.Types.{
  running, QueueError, stale_lease, JobRow, RootRow, QueueDb, Job, scan_kind, valid_kind,
  kinds_problem, one_of, find_root,
}
use saga_rydd.Queue.Operations.{
  insert_job, next_id, waiting, due_job, update_job, inventory_claim, adaptive_claim, take_job,
  claim_found, claim_job, recover_jobs, running_count, finish_job, new_job, enqueue_job, has_job,
}
use saga_rydd.Queue.Order.{Held, claim_job_least, Claimable, Precedes}
use saga_rydd.Queue.Leases.{recover_jobs_fences}
use saga_rydd.Queue.Enqueue.{enqueue_job_idempotent}

abbrev home : RootRow
home = record { id = 1; enabled = true; path = b'/' ∷ []; volume_id = [] }

abbrev queue : QueueDb
queue = record {
  schema = 16;
  jobs = new_job 1 1 scan_kind (b'a' ∷ []) 500 ∷ new_job 2 1 scan_kind (b'b' ∷ []) 200 ∷ [];
  roots = home ∷ [];
  revisits = [];
  paused_setting = some (b'0' ∷ []);
}

abbrev no_job : Job
no_job = record {
  id = 0;
  root_id = 0;
  kind = [];
  path = [];
  cursor = [];
  attempts = 0;
  token = [];
  lease_until = pos 0;
  root_path = [];
  root_identity = [];
}

abbrev the_job : Option Job → Job
the_job none = no_job
the_job (some j) = j

abbrev claim : Result QueueError (QueueDb × Option Job)
claim = claim_job false queue (scan_kind ∷ []) 1000 60 (zeros 32)

abbrev claimed_queue : QueueDb
claimed_queue = (ok_or (queue, none) claim).0

abbrev claimed : Job
claimed = the_job (ok_or (queue, none) claim).1

claim_ok :
    claim_job false queue (scan_kind ∷ []) 1000 60 (zeros 32) ≡ ok (claimed_queue, some claimed)
unfolding claim_job claim_found take_job due_job waiting one_of find_root kinds_problem valid_kind
    bytes_eq update_job inventory_claim adaptive_claim
claim_ok = refl

claim_job_least_example :
    (r : JobRow) × Memᴰ r queue.jobs
    × (claimed.id ≡ r.id)
    × Claimable queue.roots (scan_kind ∷ []) 1000 r
    × ((x : JobRow)
        → Memᴰ x queue.jobs
        → Claimable queue.roots (scan_kind ∷ []) 1000 x
        → Precedes r x)
    × (claimed.token ≡ zeros 32)
    × (claimed.lease_until ≡ pos (1000 + 60))
    × ((y : JobRow) × Memᴰ y claimed_queue.jobs × Held r claimed y)
    × ((x : JobRow) → Memᴰ x queue.jobs → (x.id == r.id) ≡ false → Memᴰ x claimed_queue.jobs)
claim_job_least_example =
    claim_job_least queue claimed_queue (scan_kind ∷ []) 1000 60 (zeros 32) claimed (omega arith)
      claim_ok

abbrev recovered_queue : QueueDb
recovered_queue = (ok_or (queue, 0) (recover_jobs false true claimed_queue 2000)).0

recovered_ok : recover_jobs false true claimed_queue 2000 ≡ ok (recovered_queue, 1)
unfolding recover_jobs running_count claim_job claim_found take_job due_job waiting one_of find_root
    kinds_problem valid_kind bytes_eq to_int64 update_job inventory_claim adaptive_claim
recovered_ok = refl

recover_jobs_fences_example :
    finish_job false recovered_queue claimed true [] 3000 [] ≡ err stale_lease
recover_jobs_fences_example =
    recover_jobs_fences false true claimed_queue recovered_queue 2000 1 claimed true [] 3000 []
      recovered_ok (omega arith)

abbrev same_path : List ℕ → List ℕ
same_path p = p

abbrev longer_queue : QueueDb
longer_queue = ok_or queue (enqueue_job same_path false queue 1 scan_kind (b'c' ∷ []) 700)

enqueued_ok : enqueue_job same_path false queue 1 scan_kind (b'c' ∷ []) 700 ≡ ok longer_queue
unfolding enqueue_job insert_job next_id find_root valid_kind has_job bytes_eq
enqueued_ok = refl

-- The new job runs, on its second attempt and with a cursor.
abbrev resumed : JobRow → JobRow
resumed r = record r {
  status = running;
  attempts = 2;
  cursor = b'x' ∷ [];
  lease_token = zeros 32;
  lease_until = pos 5000;
}

abbrev later_queue : QueueDb
later_queue = record longer_queue { jobs = map resumed longer_queue.jobs }

later_has : has_job 1 scan_kind (same_path (b'c' ∷ [])) later_queue.jobs ≡ true
unfolding enqueue_job insert_job next_id find_root valid_kind has_job bytes_eq
later_has = refl

enqueue_job_idempotent_example :
    (has_job 1 scan_kind (same_path (b'c' ∷ [])) longer_queue.jobs ≡ true)
    × ((x : JobRow) → Memᴰ x queue.jobs → Memᴰ x longer_queue.jobs)
    × (enqueue_job same_path false later_queue 1 scan_kind (b'c' ∷ []) 900 ≡ ok later_queue)
enqueue_job_idempotent_example =
    enqueue_job_idempotent same_path false queue longer_queue later_queue 1 scan_kind (b'c' ∷ [])
      700 900 enqueued_ok later_has

-- ===== src/Queue/Enqueue.antt =====
-- Repeated calls of EnqueueJob (internal/state/queue.go).
use saga_rydd.Prelude.{
  ℕ, ◌≡◌, subst, sym, Bool, true, List, [], ◌∷◌, ◌++◌, bytes_eq_refl, ok, arith, Bool-cases,
  Option-cases, some, ◌==◌, inl, inr,
}
use mathlib.Core.List.{Memᴰ}
use saga_rydd.Queue.Types.{JobRow, RootRow, QueueDb, find_root}
use saga_rydd.Queue.Operations.{has_job, new_job, next_id, or_dot, insert_job, enqueue_job}

has_job-new :
    (root : ℕ) (kind path : List ℕ) (id due : ℕ) (rows : List JobRow)
    → has_job root kind path (rows ++ (new_job id root kind path due ∷ [])) ≡ true
unfolding has_job
has_job-new root kind path id due [] = ground (arith, bytes_eq_refl kind, bytes_eq_refl path)
has_job-new root kind path id due (r ∷ rs) = ground (arith, has_job-new root kind path id due rs)

find_root-id :
    (id : ℕ) (roots : List RootRow) (r : RootRow)
    → find_root id roots ≡ some r
    → (r.id == id) ≡ true
unfolding find_root
find_root-id id [] r e = cc
find_root-id id (x ∷ xs) r e = elim (Bool-cases (x.id == id)) [
  | inl h ↦ ground (arith, h)
  | inr h ↦ find_root-id id xs r (ground (arith, h))
]

Mem-append : (x : JobRow) (rows more : List JobRow) → Memᴰ x rows → Memᴰ x (rows ++ more)
Mem-append x [] more m = elim m [ ]
Mem-append x (y ∷ rows) more (Memᴰ.head e) = Memᴰ.head e
Mem-append x (y ∷ rows) more (Memᴰ.tail m) = Memᴰ.tail (Mem-append x rows more m)

insert_job-rows :
    (db db' : QueueDb) (root : ℕ) (kind path : List ℕ) (due : ℕ)
    → insert_job db root kind path due ≡ ok db'
    → db'.jobs ≡ db.jobs ++ (new_job (next_id db.jobs) root kind path due ∷ [])
unfolding insert_job
insert_job-rows db db' root kind path due e = elim (Option-cases (find_root root db.roots)) [
  | inl missing ↦ ground arith
  | inr (r, er) ↦ ground (arith, er, find_root-id root db.roots r er)
]

enqueue-kept :
    (clean : List ℕ → List ℕ) (readonly : Bool) (db db' later : QueueDb) (root : ℕ)
    (kind path : List ℕ) (due again : ℕ)
    → enqueue_job clean readonly db root kind path due ≡ ok db'
    → has_job root kind (clean (or_dot path)) later.jobs ≡ true
    → enqueue_job clean readonly later root kind path again ≡ ok later
unfolding enqueue_job
enqueue-kept clean readonly db db' later root kind path due again e h = ground arith

enqueue-rows :
    (clean : List ℕ → List ℕ) (readonly : Bool) (db db' : QueueDb) (root : ℕ) (kind path : List ℕ)
    (due : ℕ)
    → enqueue_job clean readonly db root kind path due ≡ ok db'
    → (has_job root kind (clean (or_dot path)) db'.jobs ≡ true)
      × ((x : JobRow) → Memᴰ x db.jobs → Memᴰ x db'.jobs)
unfolding enqueue_job
enqueue-rows clean readonly db db' root kind path due e =
    let p = clean (or_dot path) in
    elim (Bool-cases (has_job root kind p db.jobs)) [
      | inl there ↦
          let same : db ≡ db' = ground arith in
          (ground arith, λ x m. subst (λ d. Memᴰ x d.jobs) same m)
      | inr missing ↦
          let rows = insert_job-rows db db' root kind p due (ground arith) in
          (
            rw rows (has_job-new root kind p (next_id db.jobs) due db.jobs),
            λ x m.
                subst (Memᴰ x) (sym rows)
                  (Mem-append x db.jobs (new_job (next_id db.jobs) root kind p due ∷ []) m),
          )
    ]

-- EnqueueJob is idempotent, whatever the standard library's cleaning does to a path. A call that
-- succeeds leaves the job in the queue and every row that was there as it was. From then on, the same
-- call, due at any instant, succeeds and changes nothing in any later state of the database that holds
-- a row of the job, whatever its status, attempts and cursor, so it resets no running attempt and no
-- saved cursor.
pub enqueue_job_idempotent :
    (clean : List ℕ → List ℕ) (readonly : Bool) (db db' later : QueueDb) (root : ℕ)
    (kind path : List ℕ) (due again : ℕ)
    → enqueue_job clean readonly db root kind path due ≡ ok db'
    → has_job root kind (clean (or_dot path)) later.jobs ≡ true
    → (has_job root kind (clean (or_dot path)) db'.jobs ≡ true)
      × ((x : JobRow) → Memᴰ x db.jobs → Memᴰ x db'.jobs)
      × (enqueue_job clean readonly later root kind path again ≡ ok later)
enqueue_job_idempotent clean readonly db db' later root kind path due again e h =
    let (there, rows) = enqueue-rows clean readonly db db' root kind path due e in
    (there, rows, enqueue-kept clean readonly db db' later root kind path due again e h)

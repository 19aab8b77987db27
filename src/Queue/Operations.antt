-- ===== src/Queue/Operations.antt =====
-- The operations of a Store on its queue (internal/state/queue.go), with inventoryClaim
-- (internal/state/background_inventory.go), adaptiveClaim and adaptiveUncertain
-- (internal/state/adaptive_revisits_tracking.go). An error leaves the database as it was. The random
-- token of a claim is an argument, and so is the cleaning of a path, which the standard library does.
use saga_rydd.Prelude.{
  ℕ, max, zero, suc, ◌+◌, Bool, true, false, not, ◌&&◌, ◌||◌, Option, none, some, List, [], ◌∷◌,
  ◌++◌, bytes_eq, leb, ltb, ◌==◌, length, if◌then◌else◌, Result, ok, err, ◌>>=◌, ◌>>◌, refuse_if,
  or_else, map,
}
use saga_rydd.Prelude.Int.{ℤ, pos}
use saga_rydd.Int64.{to_int64}
use saga_rydd.Queue.Types.{
  pending, running, QueueError, read_only, invalid_job, missing_root, invalid_lease, stale_lease,
  cursor_too_long, no_writer_lock, claim_corrupt, missing_pause, invalid_pause, JobRow, RootRow,
  AdaptiveRow, QueueDb, Job, scan_kind, is_running, valid_kind, kinds_problem, one_of, find_root,
  root_enabled,
}

-- A nonempty path with its cleaned form.
abbrev pub or_dot : List ℕ → List ℕ
or_dot [] = b'.' ∷ []
or_dot (c ∷ cs) = c ∷ cs

has_nul : List ℕ → Bool
has_nul [] = false
has_nul (c ∷ cs) = (c == 0) || has_nul cs

starts_with : List ℕ → List ℕ → Bool
starts_with [] xs = true
starts_with (p ∷ ps) [] = false
starts_with (p ∷ ps) (x ∷ xs) = (p == x) && starts_with ps xs

-- An absolute path, "..", or a path that starts with "../".
leaves_root : List ℕ → Bool
unfolding starts_with
leaves_root p =
    starts_with (b'/' ∷ []) p
    || bytes_eq p (b'.' ∷ b'.' ∷ [])
    || starts_with (b'.' ∷ b'.' ∷ b'/' ∷ []) p

-- ON CONFLICT(root_id,kind,path) DO NOTHING
unfoldable pub has_job : ℕ → List ℕ → List ℕ → List JobRow → Bool
has_job root kind path [] = false
has_job root kind path (r ∷ rs) =
    (r.root_id == root) && bytes_eq r.kind kind && bytes_eq r.path path || has_job root kind path rs

abbrev pub new_job : ℕ → ℕ → List ℕ → List ℕ → ℕ → JobRow
new_job id root kind path due = record {
  id = id;
  root_id = root;
  kind = kind;
  path = path;
  cursor = [];
  attempts = 0;
  status = pending;
  lease_token = [];
  lease_until = pos 0;
  due_at = due;
  last_error = [];
  inventory_claimed = some false;
}

-- The id that SQLite gives to a new row: one more than the largest.
unfoldable pub next_id : List JobRow → ℕ
next_id [] = 1
next_id (r ∷ rs) = let rest = next_id rs in max (r.id + 1) rest

-- The insert of a new row, whose root must exist (foreign_keys is on).
unfoldable pub insert_job : QueueDb → ℕ → List ℕ → List ℕ → ℕ → Result QueueError QueueDb
insert_job db root kind path due = do
  owner ← or_else (find_root root db.roots) missing_root
  ok (record db { jobs = db.jobs ++ (new_job (next_id db.jobs) owner.id kind path due ∷ []) })

unfoldable pub enqueue_job :
    (List ℕ → List ℕ) → Bool → QueueDb → ℕ → List ℕ → List ℕ → ℕ → Result QueueError QueueDb
unfolding has_nul leaves_root has_job
enqueue_job clean readonly db root kind path due = do
  refuse_if readonly read_only
  let p = clean (or_dot path)
  refuse_if
      ((root == 0) || not (valid_kind kind) || ltb 4096 (length p) || has_nul p || leaves_root p)
      invalid_job
  if has_job root kind p db.jobs then ok db else insert_job db root kind p due

-- Pending, of an enabled root, and of a kind that the caller handles.
unfoldable pub waiting : List RootRow → List (List ℕ) → JobRow → Bool
waiting roots kinds r =
    not (is_running r.status) && root_enabled (find_root r.root_id roots) && one_of r.kind kinds

abbrev pub earliest : Option ℕ → ℕ → Option ℕ
earliest none due = some due
earliest (some other) due = if ltb other due then some other else some due

unfoldable pub least_due : List RootRow → List (List ℕ) → List JobRow → Option ℕ
least_due roots kinds [] = none
least_due roots kinds (r ∷ rs) =
    let rest = least_due roots kinds rs in
    if waiting roots kinds r then earliest rest r.due_at else rest

-- The zero time is `none`.
unfoldable pub next_job_due : QueueDb → List (List ℕ) → Result QueueError (Option ℕ)
next_job_due db [] = ok none
next_job_due db (k ∷ ks) = elim (kinds_problem (k ∷ ks)) [
  | some e ↦ err e
  | none ↦ ok (least_due db.roots (k ∷ ks) db.jobs)
]

-- ORDER BY due_at_ns,id
abbrev pub before : JobRow → JobRow → Bool
before a b = ltb a.due_at b.due_at || (a.due_at == b.due_at) && ltb a.id b.id

abbrev pub first_of : Option JobRow → JobRow → Option JobRow
first_of none r = some r
first_of (some other) r = if before other r then some other else some r

-- The job that a claim takes.
unfoldable pub due_job : List RootRow → List (List ℕ) → ℕ → List JobRow → Option JobRow
due_job roots kinds now [] = none
due_job roots kinds now (r ∷ rs) =
    let rest = due_job roots kinds now rs in
    if waiting roots kinds r && leb r.due_at now then first_of rest r else rest

-- Every row with this id is rewritten.
unfoldable pub update_job : ℕ → (JobRow → JobRow) → List JobRow → List JobRow
update_job id f [] = []
update_job id f (r ∷ rs) =
    let rest = update_job id f rs in if r.id == id then f r ∷ rest else r ∷ rest

abbrev pub leased : List ℕ → ℤ → JobRow → JobRow
leased token until r = record r {
  status = running;
  lease_token = token;
  lease_until = until;
  attempts = r.attempts + 1;
}

abbrev pub root_path_of : Option RootRow → List ℕ
root_path_of none = []
root_path_of (some r) = r.path

abbrev pub identity_of : Option RootRow → List ℕ
identity_of none = []
identity_of (some r) = r.volume_id

abbrev pub claimed_job : QueueDb → JobRow → List ℕ → ℤ → Job
claimed_job db r token until = record {
  id = r.id;
  root_id = r.root_id;
  kind = r.kind;
  path = r.path;
  cursor = r.cursor;
  attempts = r.attempts + 1;
  token = token;
  lease_until = until;
  root_path = root_path_of (find_root r.root_id db.roots);
  root_identity = identity_of (find_root r.root_id db.roots);
}

abbrev pub mark_claimed : JobRow → JobRow
mark_claimed r = record r { inventory_claimed = some true }

-- inventoryClaim
unfoldable pub inventory_claim : QueueDb → JobRow → Result QueueError QueueDb
inventory_claim db r = if not (bytes_eq r.kind scan_kind) then ok db else elim r.inventory_claimed [
  | none ↦ err claim_corrupt
  | some _ ↦ ok (record db { jobs = update_job r.id mark_claimed db.jobs })
]

abbrev pub revisit_claim : ℕ → ℕ → AdaptiveRow → AdaptiveRow
revisit_claim root job a =
    if not (a.root_id == root)
    then a
    else if not (a.root_job_id == job) && not a.started
    then record a { claimed = true; uncertain = true; unchanged_streak = 0 }
    else record a { claimed = true }

-- adaptiveClaim
unfoldable pub adaptive_claim : QueueDb → JobRow → QueueDb
adaptive_claim db r =
    if bytes_eq r.kind scan_kind
    then record db { revisits = map (revisit_claim r.root_id r.id) db.revisits }
    else db

-- The claim of the row that was found.
unfoldable pub take_job : QueueDb → JobRow → List ℕ → ℤ → Result QueueError (QueueDb × Option Job)
unfolding inventory_claim adaptive_claim
take_job db r token until = do
  let held = record db { jobs = update_job r.id (leased token until) db.jobs }
  counted ← (if leb 14 db.schema then inventory_claim held r else ok held)
  ok (
    (if leb 13 db.schema then adaptive_claim counted r else counted),
    some (claimed_job db r token until),
  )

-- 48 * time.Hour
abbrev pub lease_limit : ℕ
lease_limit = 172800000000000

unfoldable pub claim_found :
    QueueDb → List (List ℕ) → ℕ → ℕ → List ℕ → Result QueueError (QueueDb × Option Job)
unfolding take_job
claim_found db kinds now lease token = elim (kinds_problem kinds) [
  | some e ↦ err e
  | none ↦ elim (due_job db.roots kinds now db.jobs) [
    | none ↦ ok (db, none)
    | some r ↦ take_job db r token (to_int64 (now + lease))
  ]
]

unfoldable pub claim_job :
    Bool → QueueDb → List (List ℕ) → ℕ → ℕ → List ℕ → Result QueueError (QueueDb × Option Job)
unfolding claim_found
claim_job readonly db [] now lease token = do refuse_if readonly read_only; ok (db, none)
claim_job readonly db (k ∷ ks) now lease token = do
  refuse_if readonly read_only
  refuse_if ((lease == 0) || ltb lease_limit lease) invalid_lease
  claim_found db (k ∷ ks) now lease token

abbrev pub owned : Job → JobRow → Bool
owned j r = (r.id == j.id) && is_running r.status && bytes_eq r.lease_token j.token

unfoldable pub owned_count : Job → List JobRow → ℕ
owned_count j [] = 0
owned_count j (r ∷ rs) = let rest = owned_count j rs in if owned j r then suc rest else rest

-- DELETE FROM jobs
unfoldable pub drop_owned : Job → List JobRow → List JobRow
drop_owned j [] = []
drop_owned j (r ∷ rs) = let rest = drop_owned j rs in if owned j r then rest else r ∷ rest

abbrev pub put_back : Job → List ℕ → ℕ → List ℕ → JobRow → JobRow
put_back j cursor due why r =
    if owned j r
    then record r {
      status = pending;
      cursor = cursor;
      due_at = due;
      last_error = why;
      lease_token = [];
      lease_until = pos 0;
      attempts = (if length why == 0 then 0 else r.attempts);
    }
    else r

take : ℕ → List ℕ → List ℕ
take zero xs = []
take (suc n) [] = []
take (suc n) (x ∷ xs) = x ∷ take n xs

-- finishJob
unfoldable pub finish_row : QueueDb → Job → Bool → List ℕ → ℕ → List ℕ → Result QueueError QueueDb
unfolding take
finish_row db j done cursor due why = do
  refuse_if (length j.token == 0) stale_lease
  refuse_if (ltb 65536 (length cursor)) cursor_too_long
  let kept = if ltb 2048 (length why) then take 2048 why else why
  refuse_if (not (owned_count j db.jobs == 1)) stale_lease
  ok (record db {
    jobs = (if done then drop_owned j db.jobs else map (put_back j cursor due kept) db.jobs);
  })

abbrev pub revisit_uncertain : ℕ → AdaptiveRow → AdaptiveRow
revisit_uncertain root a =
    if a.root_id == root then record a { uncertain = true; unchanged_streak = 0 } else a

unfoldable pub finish_job :
    Bool → QueueDb → Job → Bool → List ℕ → ℕ → List ℕ → Result QueueError QueueDb
unfolding finish_row
finish_job readonly db j done cursor due why = do
  refuse_if readonly read_only
  db' ← finish_row db j done cursor due why
  ok (
      if leb 13 db.schema && bytes_eq j.kind scan_kind
      then record db' { revisits = map (revisit_uncertain j.root_id) db'.revisits }
      else db')

-- A running scan of this root.
unfoldable pub scan_running : ℕ → List JobRow → Bool
scan_running root [] = false
scan_running root (r ∷ rs) =
    is_running r.status && bytes_eq r.kind scan_kind && (r.root_id == root) || scan_running root rs

abbrev pub revisit_lost : List JobRow → AdaptiveRow → AdaptiveRow
revisit_lost jobs a =
    if scan_running a.root_id jobs then record a { uncertain = true; unchanged_streak = 0 } else a

-- An inventory job keeps its place in the queue.
abbrev pub recovered_row : ℕ → JobRow → JobRow
recovered_row now r = elim r.status [
  | pending ↦ r
  | running ↦ record r {
    status = pending;
    due_at = (if bytes_eq r.kind scan_kind then r.due_at else now);
    lease_token = [];
    lease_until = pos 0;
  }
]

unfoldable pub running_count : List JobRow → ℕ
running_count [] = 0
running_count (r ∷ rs) =
    let rest = running_count rs in if is_running r.status then suc rest else rest

-- `locked` is whether the Store holds the exclusive writer lock.
unfoldable pub recover_jobs : Bool → Bool → QueueDb → ℕ → Result QueueError (QueueDb × ℕ)
recover_jobs readonly locked db now = do
  refuse_if (readonly || not locked) no_writer_lock
  ok (
    record db {
      revisits = (if leb 13 db.schema then map (revisit_lost db.jobs) db.revisits else db.revisits);
      jobs = map (recovered_row now) db.jobs;
    },
    running_count db.jobs,
  )

unfoldable pub paused : QueueDb → Result QueueError Bool
paused db = do
  value ← or_else db.paused_setting missing_pause
  if bytes_eq value (b'0' ∷ [])
      then ok false
      else (if bytes_eq value (b'1' ∷ []) then ok true else err invalid_pause)

unfoldable pub set_paused : Bool → QueueDb → Bool → Result QueueError QueueDb
set_paused readonly db on = do
  refuse_if readonly read_only
  old ← or_else db.paused_setting missing_pause
  ok (record db { paused_setting = some (if on then b'1' ∷ [] else b'0' ∷ []) })

-- ===== src/Queue/Types.antt =====
-- The rows of the job queue and the tests on a request (internal/state/queue.go). Texts are lists of
-- their bytes, and instants are nanoseconds since 1970; a lease ends at an int64 count of them.
use saga_rydd.Prelude.{
  ℕ, Bool, true, false, not, ◌&&◌, ◌||◌, Option, none, some, List, [], ◌∷◌, bytes_eq, leb, ltb,
  ◌==◌, length, if◌then◌else◌,
}
use saga_rydd.Prelude.Int.{ℤ}

pub data JobStatus : Type 0 where
  pending running : JobStatus

pub data QueueError : Type 0 where
  read_only invalid_job missing_root too_many_kinds invalid_kind invalid_lease stale_lease :
      QueueError
  cursor_too_long no_writer_lock claim_corrupt missing_pause invalid_pause : QueueError

-- A row of `jobs`. `inventory_claimed` is `none` when it is neither 0 nor 1.
pub record JobRow : Type 0 where
  pub id : ℕ
  pub root_id : ℕ
  pub kind : List ℕ
  pub path : List ℕ
  pub cursor : List ℕ
  pub attempts : ℕ
  pub status : JobStatus
  pub lease_token : List ℕ
  pub lease_until : ℤ
  pub due_at : ℕ
  pub last_error : List ℕ
  pub inventory_claimed : Option Bool

-- The columns of a row of `roots` that a claim reads.
pub record RootRow : Type 0 where
  pub id : ℕ
  pub enabled : Bool
  pub path : List ℕ
  pub volume_id : List ℕ

-- The columns of a row of `adaptive_inventory_revisits` that the queue writes.
pub record AdaptiveRow : Type 0 where
  pub root_id : ℕ
  pub root_job_id : ℕ
  pub started : Bool
  pub claimed : Bool
  pub uncertain : Bool
  pub unchanged_streak : ℕ

pub record QueueDb : Type 0 where
  pub schema : ℕ
  pub jobs : List JobRow
  pub roots : List RootRow
  pub revisits : List AdaptiveRow
  pub paused_setting : Option (List ℕ)

-- What a claim hands to its worker.
pub record Job : Type 0 where
  pub id : ℕ
  pub root_id : ℕ
  pub kind : List ℕ
  pub path : List ℕ
  pub cursor : List ℕ
  pub attempts : ℕ
  pub token : List ℕ
  pub lease_until : ℤ
  pub root_path : List ℕ
  pub root_identity : List ℕ

-- ScanKind
abbrev pub scan_kind : List ℕ
scan_kind = b'i' ∷ b'n' ∷ b'v' ∷ b'e' ∷ b'n' ∷ b't' ∷ b'o' ∷ b'r' ∷ b'y' ∷ []

abbrev pub is_running : JobStatus → Bool
is_running running = true
is_running pending = false

kind_bytes : List ℕ → Bool
kind_bytes [] = true
kind_bytes (c ∷ cs) =
    (leb b'a' c && leb c b'z' || leb b'0' c && leb c b'9' || c == b'_' || c == b'-')
    && kind_bytes cs

unfoldable pub valid_kind : List ℕ → Bool
unfolding kind_bytes
valid_kind kind = not (length kind == 0) && leb (length kind) 32 && kind_bytes kind

all_valid : List (List ℕ) → Bool
all_valid [] = true
all_valid (k ∷ ks) = valid_kind k && all_valid ks

-- The check of kindsClause, `none` if it lets the kinds pass.
unfoldable pub kinds_problem : List (List ℕ) → Option QueueError
unfolding all_valid
kinds_problem kinds =
    if ltb 64 (length kinds)
    then some too_many_kinds
    else if all_valid kinds
    then none
    else some invalid_kind

-- kind IN (...)
unfoldable pub one_of : List ℕ → List (List ℕ) → Bool
one_of kind [] = false
one_of kind (k ∷ ks) = bytes_eq kind k || one_of kind ks

-- The enabled root that a job belongs to.
unfoldable pub find_root : ℕ → List RootRow → Option RootRow
find_root id [] = none
find_root id (r ∷ rs) = if r.id == id then some r else find_root id rs

abbrev pub root_enabled : Option RootRow → Bool
root_enabled none = false
root_enabled (some r) = r.enabled

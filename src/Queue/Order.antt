-- ===== src/Queue/Order.antt =====
-- The choice of ClaimJob (internal/state/queue.go).
use saga_rydd.Prelude.{
  ℕ, ◌≤◌, ◌==◌, ◌⊎◌, ap, bytes_eq, ◌+◌, ◌≡◌, refl, Bool, true, false, ◌&&◌, List, [], ◌∷◌, Option,
  none, some, ok, arith, leb, inl, inr, Bool-cases, Option-cases, sym, ◌∙◌, subst, ltb, ◌<◌,
}
use mathlib.Core.List.{Memᴰ}
use saga_rydd.Prelude.Int.{ℤ, pos, max_int64}
use saga_rydd.Int64.{to_int64, to_int64-small}
use saga_rydd.Queue.Types.{
  scan_kind, is_running, RootRow, JobRow, QueueDb, Job, root_enabled, find_root, one_of,
}
use saga_rydd.Queue.Operations.{
  update_job, leased, mark_claimed, inventory_claim, adaptive_claim, waiting, before, first_of,
  due_job, take_job, claim_found, claim_job,
}

-- May be claimed now.
abbrev pub due_now : List RootRow → List (List ℕ) → ℕ → JobRow → Bool
due_now roots kinds now r = waiting roots kinds r && leb r.due_at now

some-inj : (a b : JobRow) → some a ≡ some b → a ≡ b
some-inj a b h = cc

first_of-before : (b x : JobRow) → before b x ≡ true → first_of (some b) x ≡ some b
first_of-before b x h = rw h refl

first_of-other : (b x : JobRow) → before b x ≡ false → first_of (some b) x ≡ some x
first_of-other b x h = rw h refl

module _ (roots : List RootRow) (kinds : List (List ℕ)) (now : ℕ) where
  due_job-due :
      (rows : List JobRow) (r : JobRow)
      → due_job roots kinds now rows ≡ some r
      → due_now roots kinds now r ≡ true
  unfolding due_job
  due_job-due [] r e = cc
  due_job-due (x ∷ rows) r e = elim (Option-cases (due_job roots kinds now rows)) [
    | inl empty ↦ ground arith
    | inr (b, eb) ↦ let ih = due_job-due rows b eb in ground arith
  ]

  -- The choice between a row and what was found after it.
  first_of-some :
      (o : Option JobRow) (x : JobRow)
      → (r : JobRow) × (first_of o x ≡ some r)
        × (before x r ≡ false)
        × ((b : JobRow) → o ≡ some b → before b r ≡ false)
  first_of-some none x = (x, refl, ground arith, λ b eb. ground arith)
  first_of-some (some b) x = elim (Bool-cases (before b x)) [
    | inl h ↦ (b, ground arith, ground arith, λ c ec. ground arith)
    | inr h ↦ (x, ground arith, ground arith, λ c ec. ground arith)
  ]

  before_trans : (x b r : JobRow) → before x b ≡ false → before b r ≡ false → before x r ≡ false
  before_trans x b r h k = ground arith

  due_job-skip :
      (y : JobRow) (rows : List JobRow) (o : Option JobRow)
      → due_job roots kinds now rows ≡ o
      → due_now roots kinds now y ≡ false
      → due_job roots kinds now (y ∷ rows) ≡ o
  unfolding due_job
  due_job-skip y rows o e d = ground arith

  due_job-take :
      (y : JobRow) (rows : List JobRow) (o : Option JobRow)
      → due_job roots kinds now rows ≡ o
      → due_now roots kinds now y ≡ true
      → due_job roots kinds now (y ∷ rows) ≡ first_of o y
  unfolding due_job
  due_job-take y rows o e d = ground arith

  none-empty : (r : JobRow) → due_job roots kinds now [] ≡ some r → ⊥
  unfolding due_job
  none-empty r e = cc

  -- The row that is found stands in the queue.
  due_job-Mem :
      (rows : List JobRow) (r : JobRow) → due_job roots kinds now rows ≡ some r → Memᴰ r rows
  due_job-Mem [] r e = elim (none-empty r e) [ ]
  due_job-Mem (x ∷ rows) r e = elim (Bool-cases (due_now roots kinds now x)) [
    | inr d ↦
        Memᴰ.tail
          (due_job-Mem rows r (sym (due_job-skip x rows (due_job roots kinds now rows) refl d) ∙ e))
    | inl d ↦
        let taken = sym (due_job-take x rows (due_job roots kinds now rows) refl d) ∙ e in
        elim (Option-cases (due_job roots kinds now rows)) [
          | inl empty ↦ Memᴰ.head (some-inj r x (sym taken ∙ ap (λ o. first_of o x) empty))
          | inr (b, eb) ↦
              let chosen : first_of (some b) x ≡ some r = ap (λ o. first_of o x) (sym eb) ∙ taken in
              elim (Bool-cases (before b x)) [
                | inl h ↦ Memᴰ.tail (due_job-Mem rows r (eb ∙ sym (first_of-before b x h) ∙ chosen))
                | inr h ↦ Memᴰ.head (some-inj r x (sym chosen ∙ first_of-other b x h))
              ]
        ]
  ]

  due_job-some :
      (x : JobRow) (rows : List JobRow)
      → Memᴰ x rows
      → due_now roots kinds now x ≡ true
      → (r : JobRow) × (due_job roots kinds now rows ≡ some r) × (before x r ≡ false)
  due_job-some x [] m d = elim m [ ]
  due_job-some x (y ∷ rows) (Memᴰ.head xy) d =
      let (r, e, least, _) = first_of-some (due_job roots kinds now rows) y in
      let dy = subst (λ z. due_now roots kinds now z ≡ true) xy d in
      (
        r,
        due_job-take y rows (due_job roots kinds now rows) refl dy ∙ e,
        subst (λ z. before z r ≡ false) (sym xy) least,
      )
  due_job-some x (y ∷ rows) (Memᴰ.tail m) d =
      let (b, eb, xb) = due_job-some x rows m d in
      elim (Bool-cases (due_now roots kinds now y)) [
        | inr dy ↦ (b, due_job-skip y rows (some b) eb dy, xb)
        | inl dy ↦
            let (r, e, _, least) = first_of-some (some b) y in
            (r, due_job-take y rows (some b) eb dy ∙ e, before_trans x b r xb (least b refl))
      ]

update_job-Mem :
    (id : ℕ) (f : JobRow → JobRow) (rows : List JobRow) (r : JobRow)
    → Memᴰ r rows
    → (r.id == id) ≡ true
    → Memᴰ (f r) (update_job id f rows)
unfolding update_job
update_job-Mem id f [] r m e = elim m [ ]
update_job-Mem id f (x ∷ rows) r (Memᴰ.head rx) e =
    let ex : (x.id == id) ≡ true = subst (λ z. (z.id == id) ≡ true) rx e in
    rw ex (Memᴰ.head (ap f rx))
update_job-Mem id f (x ∷ rows) r (Memᴰ.tail m) e = elim (Bool-cases (x.id == id)) [
  | inl h ↦ rw h (Memᴰ.tail (update_job-Mem id f rows r m e))
  | inr h ↦ rw h (Memᴰ.tail (update_job-Mem id f rows r m e))
]

update_job-other :
    (id : ℕ) (f : JobRow → JobRow) (rows : List JobRow) (r : JobRow)
    → Memᴰ r rows
    → (r.id == id) ≡ false
    → Memᴰ r (update_job id f rows)
unfolding update_job
update_job-other id f [] r m e = elim m [ ]
update_job-other id f (x ∷ rows) r (Memᴰ.head rx) e =
    let ex : (x.id == id) ≡ false = subst (λ z. (z.id == id) ≡ false) rx e in rw ex (Memᴰ.head rx)
update_job-other id f (x ∷ rows) r (Memᴰ.tail m) e = elim (Bool-cases (x.id == id)) [
  | inl h ↦ rw h (Memᴰ.tail (update_job-other id f rows r m e))
  | inr h ↦ rw h (Memᴰ.tail (update_job-other id f rows r m e))
]

-- The jobs after a claim.
take_job-rows :
    (db db' : QueueDb) (r : JobRow) (token : List ℕ) (until : ℤ) (j : Job)
    → take_job db r token until ≡ ok (db', some j)
    → (db'.jobs ≡ update_job r.id (leased token until) db.jobs)
      ⊎ (db'.jobs ≡ update_job r.id mark_claimed (update_job r.id (leased token until) db.jobs))
unfolding take_job inventory_claim adaptive_claim
take_job-rows db db' r token until j e =
    let held = record db { jobs = update_job r.id (leased token until) db.jobs } in
    elim (Bool-cases (leb 14 db.schema && bytes_eq r.kind scan_kind)) [
      | inl marks ↦ inr (ground arith)
      | inr plain ↦ inl (ground arith)
    ]

take_job-job :
    (db db' : QueueDb) (r : JobRow) (token : List ℕ) (until : ℤ) (j : Job)
    → take_job db r token until ≡ ok (db', some j)
    → (j.id ≡ r.id) × (j.token ≡ token) × (j.lease_until ≡ until)
unfolding take_job
take_job-job db db' r token until j e = (ground arith, ground arith, ground arith)

-- The row is held under the lease that the job bears, one attempt after it was `old`.
abbrev pub Held : JobRow → Job → JobRow → Type 0
Held old j y =
    (y.id ≡ j.id)
    × (is_running y.status ≡ true)
    × (y.lease_token ≡ j.token)
    × (y.lease_until ≡ j.lease_until)
    × (y.attempts ≡ old.attempts + 1)
    × (y.cursor ≡ old.cursor)

take_job-Held :
    (db db' : QueueDb) (r : JobRow) (token : List ℕ) (until : ℤ) (j : Job)
    → Memᴰ r db.jobs
    → take_job db r token until ≡ ok (db', some j)
    → (y : JobRow) × Memᴰ y db'.jobs × Held r j y
take_job-Held db db' r token until j m e =
    let (ji, jt, ju) = take_job-job db db' r token until j e in
    let self : (r.id == r.id) ≡ true = ground arith in
    let one = update_job-Mem r.id (leased token until) db.jobs r m self in
    elim (take_job-rows db db' r token until j e) [
      | inl rows ↦ (leased token until r, rw rows one, (sym ji, refl, sym jt, sym ju, refl, refl))
      | inr rows ↦ (
        mark_claimed (leased token until r),
        rw rows (
            update_job-Mem r.id mark_claimed (update_job r.id (leased token until) db.jobs)
              (leased token until r) one self),
        (sym ji, refl, sym jt, sym ju, refl, refl),
      )
    ]

take_job-others :
    (db db' : QueueDb) (r : JobRow) (token : List ℕ) (until : ℤ) (j : Job) (x : JobRow)
    → take_job db r token until ≡ ok (db', some j)
    → Memᴰ x db.jobs
    → (x.id == r.id) ≡ false
    → Memᴰ x db'.jobs
take_job-others db db' r token until j x e m other =
    let one = update_job-other r.id (leased token until) db.jobs x m other in
    elim (take_job-rows db db' r token until j e) [
      | inl rows ↦ rw rows one
      | inr rows ↦ rw rows (
          update_job-other r.id mark_claimed (update_job r.id (leased token until) db.jobs) x one
            other)
    ]

claim_job-row :
    (db db' : QueueDb) (kinds : List (List ℕ)) (now lease : ℕ) (token : List ℕ) (j : Job)
    → claim_job false db kinds now lease token ≡ ok (db', some j)
    → (r : JobRow) × (due_job db.roots kinds now db.jobs ≡ some r)
      × (take_job db r token (to_int64 (now + lease)) ≡ ok (db', some j))
unfolding claim_job claim_found
claim_job-row db db' [] now lease token j e = ground arith
claim_job-row db db' (k ∷ ks) now lease token j e =
    elim (Option-cases (due_job db.roots (k ∷ ks) now db.jobs)) [
      | inl idle ↦ ground arith
      | inr (r, er) ↦ (r, er, ground arith)
    ]

-- The row may be claimed: it is pending, of an enabled root, of an asked-for kind and due.
abbrev pub Claimable : List RootRow → List (List ℕ) → ℕ → JobRow → Type 0
Claimable roots kinds now r =
    (is_running r.status ≡ false)
    × (root_enabled (find_root r.root_id roots) ≡ true)
    × (one_of r.kind kinds ≡ true)
    × (r.due_at ≤ now)

-- Due earlier, or at the same instant with no larger id.
abbrev pub Precedes : JobRow → JobRow → Type 0
Precedes r x = (r.due_at < x.due_at) ⊎ ((r.due_at ≡ x.due_at) × (r.id ≤ x.id))

due_now-Claimable :
    (roots : List RootRow) (kinds : List (List ℕ)) (now : ℕ) (r : JobRow)
    → due_now roots kinds now r ≡ true
    → Claimable roots kinds now r
unfolding waiting
due_now-Claimable roots kinds now r d = (ground arith, ground arith, ground arith, ground arith)

Claimable-due_now :
    (roots : List RootRow) (kinds : List (List ℕ)) (now : ℕ) (r : JobRow)
    → Claimable roots kinds now r
    → due_now roots kinds now r ≡ true
unfolding waiting
Claimable-due_now roots kinds now r (idle, enabled, asked, due) = ground arith

before-Precedes : (x r : JobRow) → before x r ≡ false → Precedes r x
before-Precedes x r h = elim (Bool-cases (ltb r.due_at x.due_at)) [
  | inl earlier ↦ inl (ground arith)
  | inr later ↦ inr (ground arith, ground arith)
]

-- A claim that hands out a job takes a row of the queue that is due now, pending, of an enabled root
-- and of a kind that was asked for, and no other such row of the queue is due earlier, or at the same
-- instant with a smaller id. The job bears the token of the call, and its lease ends `lease` after it,
-- provided that this instant is an int64 count of nanoseconds. Afterwards the queue holds that row as
-- running, under this lease, with one more attempt and the same cursor, and the rows of other ids as
-- they were.
pub claim_job_least :
    (db db' : QueueDb) (kinds : List (List ℕ)) (now lease : ℕ) (token : List ℕ) (j : Job)
    → now + lease ≤ max_int64
    → claim_job false db kinds now lease token ≡ ok (db', some j)
    → (r : JobRow) × Memᴰ r db.jobs
      × (j.id ≡ r.id)
      × Claimable db.roots kinds now r
      × ((x : JobRow) → Memᴰ x db.jobs → Claimable db.roots kinds now x → Precedes r x)
      × (j.token ≡ token)
      × (j.lease_until ≡ pos (now + lease))
      × ((y : JobRow) × Memᴰ y db'.jobs × Held r j y)
      × ((x : JobRow) → Memᴰ x db.jobs → (x.id == r.id) ≡ false → Memᴰ x db'.jobs)
claim_job_least db db' kinds now lease token j fits e =
    let (r, er, et) = claim_job-row db db' kinds now lease token j e in
    let until = to_int64 (now + lease) in
    let (ji, jt, ju) = take_job-job db db' r token until j et in
    let there = due_job-Mem db.roots kinds now db.jobs r er in
    (
      r,
      there,
      ji,
      due_now-Claimable db.roots kinds now r (due_job-due db.roots kinds now db.jobs r er),
      (λ x m claimable.
          let (b, eb, least) =
            due_job-some db.roots kinds now x db.jobs m
              (Claimable-due_now db.roots kinds now x claimable) in
          before-Precedes x r (subst (λ z. before x z ≡ false) (some-inj b r (sym eb ∙ er)) least)),
      jt,
      ju ∙ to_int64-small (now + lease) fits,
      take_job-Held db db' r token until j there et,
      λ x m other. take_job-others db db' r token until j x et m other,
    )

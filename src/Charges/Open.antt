-- ===== src/Charges/Open.antt =====
-- The facts of a ledger before and while a session is open, read off the Boolean test and put together
-- again for it.
use saga_rydd.Prelude.{
  Option-cases, ℕ, ◌+◌, ◌≤◌, ◌<◌, ◌≡◌, refl, true, false, ◌||◌, Option, none, some, leb, ◌==◌,
  if◌then◌else◌, arith, ◌⊎◌, inl, inr, ◌≢◌, sym, subst, ◌∙◌, Bool-cases,
}
use saga_rydd.Prelude.Int.{ℤ, pos, negsuc, max_int64}
use saga_rydd.Feedback.{backoff_limit}
use saga_rydd.Charges.Types.{
  Reason, no_reason, reason_eq, ChargeStatus, active, finished, status_eq, CpuSessionSample,
  CpuSessionRecord, CpuChargeState, cpu_charges_problem, cpu_charges_time, cpu_charges_start_valid,
  cpu_charges_sample_valid, cpu_charges_input_cpu, same_ns, unknown, recovered_unknown,
}
use saga_rydd.Charges.Valid.{
  valid_cpu_charges, ledger_valid, base_valid, next_within, untracked_valid, session_valid,
  record_valid, last_self_valid, last_sample_valid, phase_valid, closed_valid, active_valid,
  live_valid, not_before, nonneg_part, nonneg, signed, known_start,
}
use saga_rydd.Charges.Steps.{next_allowed_after}

-- The facts of a ledger that do not depend on its session; `high` bounds its instants.
pub record Base (s : CpuChargeState) (activated high : ℕ) : Type 0 where
  pub at_activation : s.activated_at ≡ some activated
  pub is_available : s.available ≡ true
  pub tails : s.unknown_tail_sessions ≡ s.closed_sessions
  pub recovered_le : s.recovered_sessions ≤ s.closed_sessions
  pub activation_time : cpu_charges_time activated ≡ true
  pub high_time : cpu_charges_time high ≡ true
  pub activation_le : activated ≤ high
  pub within : next_within s.next_allowed_at high ≡ true

pub base_valid-Base :
    (s : CpuChargeState) (a h : ℕ) → s.activated_at ≡ some a → base_valid s a h ≡ true → Base s a h
unfolding base_valid
base_valid-Base s a h e v = ground arith

pub Base-base_valid : (s : CpuChargeState) (a h : ℕ) → Base s a h → base_valid s a h ≡ true
unfolding base_valid
Base-base_valid s a h b = ground arith

-- Between sessions every session is closed.
pub record Ready (s : CpuChargeState) (activated high : ℕ) : Type 0 where
  pub base : Base s activated high
  pub all_closed : s.closed_sessions ≡ s.generation

-- A session `r` is open at the high-water instant `high`.
pub record Open (s : CpuChargeState) (r : CpuSessionRecord) (activated high : ℕ) : Type 0 where
  pub base : Base s activated high
  pub at_high : s.clock_high_water ≡ some high
  pub one_open : s.closed_sessions + 1 ≡ s.generation
  pub same_generation : r.generation ≡ s.generation
  pub start_is_valid : cpu_charges_start_valid r.start ≡ true
  pub expected_lt : r.start.expected_generation < max_int64
  pub expected : r.start.expected_generation + 1 ≡ r.generation
  pub activation_le_start : activated ≤ r.start.observed_at
  pub start_le : r.start.observed_at ≤ high
  pub prefix_le : r.initial_prefix_charge_ns ≤ r.session_charged_cpu_ns
  pub session_le : r.session_charged_cpu_ns ≤ s.charged_cpu_ns
  pub last_le : r.last_charge_ns ≤ r.session_charged_cpu_ns
  pub prefix : nonneg_part r.start.self_cpu_ns ≡ r.initial_prefix_charge_ns
  pub last_self : last_self_valid r r.last_self_cpu_ns ≡ true

valid-parts :
    (s : CpuChargeState)
    → valid_cpu_charges s ≡ true
    → (a : ℕ) × (h : ℕ) × (s.activated_at ≡ some a)
      × (s.clock_high_water ≡ some h)
      × (base_valid s a h ≡ true)
      × ((if s.generation == 0 then untracked_valid s else session_valid s a h s.session) ≡ true)
unfolding valid_cpu_charges ledger_valid
valid-parts s v = ground arith

pub valid-has_session :
    (s : CpuChargeState)
    → valid_cpu_charges s ≡ true
    → (s.generation == 0) ≡ false
    → (r : CpuSessionRecord) × (s.session ≡ some r)
unfolding valid_cpu_charges ledger_valid session_valid
valid-has_session s v some_yet = elim (Option-cases s.session) [
  | inl missing ↦ ground arith
  | inr there ↦ there
]

pub closed-generation :
    (s : CpuChargeState)
    → valid_cpu_charges s ≡ true
    → status_eq s.status unknown || status_eq s.status recovered_unknown ≡ true
    → (s.generation == 0) ≡ false
unfolding valid_cpu_charges ledger_valid untracked_valid
closed-generation s v closed = elim (Bool-cases (s.generation == 0)) [
  | inr n ↦ n
  | inl none_yet ↦ ground arith
]

pub valid-session :
    (s : CpuChargeState) (a h : ℕ) (r : CpuSessionRecord)
    → s.activated_at ≡ some a
    → s.clock_high_water ≡ some h
    → s.session ≡ some r
    → 0 < s.generation
    → Base s a h
    → record_valid s a h r ≡ true
    → last_self_valid r r.last_self_cpu_ns ≡ true
    → last_sample_valid r h r.last_sample ≡ true
    → phase_valid s r h r.status ≡ true
    → valid_cpu_charges s ≡ true
unfolding valid_cpu_charges ledger_valid session_valid
valid-session s a h r ea eh es g b p q t u = ground (arith, Base-base_valid s a h b)

next_within_mono :
    (o : Option ℕ) (h k : ℕ) → h ≤ k → next_within o h ≡ true → next_within o k ≡ true
unfolding next_within
next_within_mono none h k le v = refl
next_within_mono (some n) h k le v = ground arith

-- A new wait that ends within an hour of `high` keeps the next allowed instant within it.
pub next_within-after :
    (o : Option ℕ) (high next wait : ℕ)
    → next_within o high ≡ true
    → cpu_charges_time next ≡ true
    → next ≤ high + backoff_limit
    → next_within (next_allowed_after o next wait) high ≡ true
unfolding next_within next_allowed_after
next_within-after none high next wait v t le = ground arith
next_within-after (some n) high next wait v t le = ground arith

-- A positive wait is covered by the next allowed instant.
pub next_allowed_after_covers :
    (o : Option ℕ) (next wait : ℕ)
    → (leb wait 0 || not_before (next_allowed_after o next wait) next) ≡ true
unfolding next_allowed_after
next_allowed_after_covers none next wait = ground arith
next_allowed_after_covers (some n) next wait = ground arith

pub Base-mono :
    (s : CpuChargeState) (a h k : ℕ) → h ≤ k → cpu_charges_time k ≡ true → Base s a h → Base s a k
Base-mono s a h k le t b = record {
  at_activation = b.at_activation;
  is_available = b.is_available;
  tails = b.tails;
  recovered_le = b.recovered_le;
  activation_time = b.activation_time;
  high_time = t;
  activation_le = omega (arith, b.activation_le);
  within = next_within_mono s.next_allowed_at h k le b.within;
}

status_eq-eq : (a b : ChargeStatus) → status_eq a b ≡ true → a ≡ b
status_eq-eq a b e = ground arith

reason_eq-eq : (a b : Reason) → reason_eq a b ≡ true → a ≡ b
reason_eq-eq a b e = ground arith

untracked-none : (s : CpuChargeState) → untracked_valid s ≡ true → s.session ≡ none
unfolding untracked_valid
untracked-none s v = ground arith

-- The parts of the test of a session.
pub record SessionParts (s : CpuChargeState) (activated high : ℕ) (r : CpuSessionRecord)
    : Type 0 where
  pub at_session : s.session ≡ some r
  pub record_ok : record_valid s activated high r ≡ true
  pub self_ok : last_self_valid r r.last_self_cpu_ns ≡ true
  pub sample_ok : last_sample_valid r high r.last_sample ≡ true
  pub phase_ok : phase_valid s r high r.status ≡ true

session_valid-parts :
    (s : CpuChargeState) (a h : ℕ) (o : Option CpuSessionRecord)
    → s.session ≡ o
    → session_valid s a h o ≡ true
    → (r : CpuSessionRecord) × SessionParts s a h r
unfolding session_valid
session_valid-parts s a h none e v = cc
session_valid-parts s a h (some r) e v = (r, ground arith)

-- A valid ledger has run no session yet, or has a current one.
pub valid-cases :
    (s : CpuChargeState)
    → valid_cpu_charges s ≡ true
    → (a : ℕ) × (h : ℕ) × (s.clock_high_water ≡ some h)
      × Base s a h
      × (((s.generation ≡ 0) × (untracked_valid s ≡ true))
          ⊎ ((r : CpuSessionRecord) × SessionParts s a h r))
valid-cases s v =
    let (a, h, ea, eh, b, rest) = valid-parts s v in
    (
      a,
      h,
      eh,
      base_valid-Base s a h ea b,
      elim (Bool-cases (s.generation == 0)) [
        | inl z ↦ inl (ground arith, rw z at rest)
        | inr nz ↦ inr (session_valid-parts s a h s.session refl (rw nz at rest))
      ],
    )

pub record_valid-status :
    (s : CpuChargeState) (a h : ℕ) (r : CpuSessionRecord)
    → record_valid s a h r ≡ true
    → r.status ≡ s.status
unfolding record_valid
record_valid-status s a h r v = status_eq-eq r.status s.status (ground arith)

closed_valid-closed :
    (s : CpuChargeState) (r : CpuSessionRecord) (h : ℕ) (o : Option ℕ)
    → closed_valid s r h o ≡ true
    → s.closed_sessions ≡ s.generation
unfolding closed_valid
closed_valid-closed s r h none v = cc
closed_valid-closed s r h (some at) v = ground arith

phase_valid-closed :
    (s : CpuChargeState) (r : CpuSessionRecord) (h : ℕ) (t : ChargeStatus)
    → t ≢ active
    → phase_valid s r h t ≡ true
    → s.closed_sessions ≡ s.generation
unfolding phase_valid
phase_valid-closed s r h active na v = absurd (na refl)
phase_valid-closed s r h finished na v = closed_valid-closed s r h r.closed_at (ground arith)
phase_valid-closed s r h _ na v = closed_valid-closed s r h r.closed_at v

-- A valid ledger with no active session is ready for one at any later instant.
pub valid-Ready :
    (s : CpuChargeState) (a h k : ℕ)
    → s.status ≢ active
    → h ≤ k
    → cpu_charges_time k ≡ true
    → Base s a h
    → ((s.generation ≡ 0) × (untracked_valid s ≡ true))
      ⊎ ((r : CpuSessionRecord) × SessionParts s a h r)
    → Ready s a k
unfolding untracked_valid
valid-Ready s a h k na le t b (inl (z, u)) = record {
  base = Base-mono s a h k le t b;
  all_closed = ground arith;
}
valid-Ready s a h k na le t b (inr (r, p)) = record {
  base = Base-mono s a h k le t b;
  all_closed =
      phase_valid-closed s r h r.status
        (λ e. na (sym (record_valid-status s a h r p.record_ok) ∙ e)) p.phase_ok;
}

active_phase :
    (s : CpuChargeState) (r : CpuSessionRecord) (h : ℕ) (t : ChargeStatus)
    → t ≡ active
    → phase_valid s r h t ≡ true
    → s.closed_sessions + 1 ≡ s.generation
unfolding phase_valid active_valid
active_phase s r h active e v = ground arith
active_phase s r h _ e v = cc

-- The current session of a valid ledger is open while it is active.
pub active-Open :
    (s : CpuChargeState) (a h : ℕ) (r : CpuSessionRecord)
    → s.clock_high_water ≡ some h
    → r.status ≡ active
    → Base s a h
    → SessionParts s a h r
    → Open s r a h
unfolding record_valid
active-Open s a h r eh ra b p = record {
  base = b;
  at_high = eh;
  one_open = active_phase s r h r.status ra p.phase_ok;
  same_generation = ground arith;
  start_is_valid = ground arith;
  expected_lt = ground arith;
  expected = ground arith;
  activation_le_start = ground arith;
  start_le = ground arith;
  prefix_le = ground arith;
  session_le = ground arith;
  last_le = ground arith;
  prefix = ground arith;
  last_self = p.self_ok;
}

-- What an open session has while it runs.
pub record Running (s : CpuChargeState) (r : CpuSessionRecord) : Type 0 where
  pub record_active : r.status ≡ active
  pub ledger_active : s.status ≡ active
  pub tail_open : s.open_tail_unobserved ≡ true
  pub not_closed : r.closed_at ≡ none
  pub no_closure : r.closure_reason ≡ no_reason
  pub start_known : nonneg r.start.self_cpu_ns ≡ true

active-Running :
    (s : CpuChargeState) (r : CpuSessionRecord) (h : ℕ) (t : ChargeStatus)
    → t ≡ active
    → r.status ≡ t
    → r.status ≡ s.status
    → phase_valid s r h t ≡ true
    → Running s r × (r.last_sample_final ≡ false)
unfolding phase_valid active_valid
active-Running s r h active e er es v = (
  record {
    record_active = er;
    ledger_active = ground arith;
    tail_open = ground arith;
    not_closed = ground arith;
    no_closure = reason_eq-eq r.closure_reason no_reason (ground arith);
    start_known = ground arith;
  },
  ground arith,
)
active-Running s r h _ e er es v = cc

self_of_same :
    (l : Option ℕ) (c : ℕ) (x : Option ℤ)
    → x ≡ some (pos c)
    → same_ns (signed l) x ≡ true
    → (n : ℕ) × (l ≡ some n)
self_of_same none c x e v = cc (rw e at v)
self_of_same (some n) c x e v = (n, refl)

nonneg-known : (x : Option ℤ) → nonneg x ≡ true → (c : ℕ) × (known_start x ≡ some (pos c))
nonneg-known none e = cc
nonneg-known (some (pos n)) e = (n, refl)
nonneg-known (some (negsuc n)) e = cc

pub fine-known :
    (self : Option ℤ) (why : Reason) (elapsed : Option ℤ)
    → cpu_charges_input_cpu self why ≡ true
    → reason_eq (cpu_charges_problem self why elapsed true) no_reason ≡ true
    → (n : ℕ) × (self ≡ some (pos n))
unfolding cpu_charges_input_cpu cpu_charges_problem
fine-known none why elapsed v e = absurd (clash why v e)
  where
    clash : (w : Reason) → cpu_charges_input_cpu none w ≡ true → reason_eq w no_reason ≡ true → ⊥
    clash w v e = ground arith
fine-known (some (pos n)) why elapsed v e = (n, refl)
fine-known (some (negsuc n)) why elapsed v e = cc

-- A live session has a last observation.
live_self :
    (s : CpuChargeState) (r : CpuSessionRecord) (h : ℕ) (o : Option CpuSessionSample)
    → nonneg r.start.self_cpu_ns ≡ true
    → last_sample_valid r h o ≡ true
    → live_valid s r h o ≡ true
    → (l : ℕ) × (r.last_self_cpu_ns ≡ some l)
unfolding last_sample_valid live_valid cpu_charges_sample_valid
live_self s r h none known v live =
    let (c, e) = nonneg-known r.start.self_cpu_ns known in
    self_of_same r.last_self_cpu_ns c (known_start r.start.self_cpu_ns) e (ground arith)
live_self s r h (some q) known v live =
    let (c, e) = fine-known q.self_cpu_ns q.reason q.elapsed_ns (ground arith) (ground arith) in
    self_of_same r.last_self_cpu_ns c q.self_cpu_ns e (ground arith)

active-live :
    (s : CpuChargeState) (r : CpuSessionRecord) (h : ℕ) (t : ChargeStatus)
    → t ≡ active
    → phase_valid s r h t ≡ true
    → live_valid s r h r.last_sample ≡ true
unfolding phase_valid
active-live s r h active e v = ground arith
active-live s r h _ e v = cc

-- All that a valid ledger says of its active session.
pub record Active (s : CpuChargeState) (r : CpuSessionRecord) (activated high : ℕ) : Type 0 where
  pub open_session : Open s r activated high
  pub running : Running s r
  pub not_final : r.last_sample_final ≡ false
  pub sample_ok : last_sample_valid r high r.last_sample ≡ true
  pub self_known : (l : ℕ) × (r.last_self_cpu_ns ≡ some l)

pub valid-Active :
    (s : CpuChargeState) (r : CpuSessionRecord) (h : ℕ)
    → valid_cpu_charges s ≡ true
    → s.session ≡ some r
    → r.status ≡ active
    → s.clock_high_water ≡ some h
    → (a : ℕ) × Active s r a h
unfolding untracked_valid
valid-Active s r h v er ra eh =
    let (a, k, ek, b, cases) = valid-cases s v in
    elim cases [
      | inl (_, u) ↦ cc (untracked-none s u, er)
      | inr (q, p) ↦
          let hq : q ≡ r = ground (arith, p.at_session) in
          let hk : k ≡ h = ground arith in
          let b' : Base s a h = subst (λ x. Base s a x) hk b in
          let p' : SessionParts s a h r =
            subst (λ x. SessionParts s a h x) hq (subst (λ x. SessionParts s a x q) hk p) in
          let (run, open_final) =
            active-Running s r h r.status ra refl (record_valid-status s a h r p'.record_ok)
              p'.phase_ok in
          (
            a,
            record {
              open_session = active-Open s a h r eh ra b' p';
              running = run;
              not_final = open_final;
              sample_ok = p'.sample_ok;
              self_known =
                  live_self s r h r.last_sample run.start_known p'.sample_ok
                    (active-live s r h r.status ra p'.phase_ok);
            },
          )
    ]

pub last_sample_valid_mono :
    (r : CpuSessionRecord) (h k : ℕ) (q : Option CpuSessionSample)
    → h ≤ k
    → last_sample_valid r h q ≡ true
    → last_sample_valid r k q ≡ true
unfolding last_sample_valid
last_sample_valid_mono r h k none le v = v
last_sample_valid_mono r h k (some q) le v = ground arith

-- The high-water instant of an open session may advance.
pub Open-later :
    (s : CpuChargeState) (r : CpuSessionRecord) (a h k : ℕ)
    → h ≤ k
    → cpu_charges_time k ≡ true
    → Open s r a h
    → Open (record s { clock_high_water = some k }) r a k
Open-later s r a h k le t o =
    let b = Base-mono s a h k le t o.base in
    record {
      base = record {
        at_activation = b.at_activation;
        is_available = b.is_available;
        tails = b.tails;
        recovered_le = b.recovered_le;
        activation_time = b.activation_time;
        high_time = b.high_time;
        activation_le = b.activation_le;
        within = b.within;
      };
      at_high = refl;
      one_open = o.one_open;
      same_generation = o.same_generation;
      start_is_valid = o.start_is_valid;
      expected_lt = o.expected_lt;
      expected = o.expected;
      activation_le_start = o.activation_le_start;
      start_le = omega (arith, o.start_le);
      prefix_le = o.prefix_le;
      session_le = o.session_le;
      last_le = o.last_le;
      prefix = o.prefix;
      last_self = o.last_self;
    }

record_valid-generation :
    (s : CpuChargeState) (a h : ℕ) (r : CpuSessionRecord)
    → record_valid s a h r ≡ true
    → s.generation ≤ max_int64
unfolding record_valid
record_valid-generation s a h r v = ground arith

-- A valid ledger's generation is an int64.
pub valid-generation : (s : CpuChargeState) → valid_cpu_charges s ≡ true → s.generation ≤ max_int64
valid-generation s v =
    let (a, h, eh, b, cases) = valid-cases s v in
    elim cases [
      | inl (none_yet, u) ↦ omega arith
      | inr (r, p) ↦ record_valid-generation s a h r p.record_ok
    ]

-- A valid ledger has a high-water instant.
pub valid-high :
    (s : CpuChargeState)
    → valid_cpu_charges s ≡ true
    → (h : ℕ) × (s.clock_high_water ≡ some h) × (cpu_charges_time h ≡ true)
valid-high s v = let (a, h, eh, b, cases) = valid-cases s v in (h, eh, b.high_time)

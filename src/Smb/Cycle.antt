-- ===== src/Smb/Cycle.antt =====
-- The cycle of the backup and its transfer log (`_run_cycle` and `prune_transfer_log` of
-- src/workers/smb_sync.py). What a cycle meets at a directory is an argument: the leases and inputs
-- that it finds there, the times, and how `process_call` ends. The log is the dictionary of the cycle,
-- which writes it to its file after each call.
pub mod Log
mod Tests
use zenith_voip.Prelude.{
  ℕ, ◌+◌, ◌-◌, ◌*◌, Bool, true, false, not, ◌&&◌, ◌||◌, Option, none, some, List, [], ◌∷◌, Text,
  codes, ltb, is_some, if◌then◌else◌,
}
use zenith_voip.Prelude.Dict.{Dict, lookup, insert}
use zenith_voip.Prelude.Result.{Result, ok, err}
use zenith_voip.Smb.Breaker.{CircuitBreaker, allows_request, record_success, record_failure}

pub data Status : Type 0 where
  done pending failed : Status

-- The fields of an entry of the log that decide something; `updated_at` is `none` where it cannot be
-- read.
pub record Entry : Type 0 where
  pub status : Status
  pub attempts : Option ℕ
  pub updated_at : Option ℕ
  pub sha256 : Option Text
  pub remote_name : Option Text
  pub last_error : Option Text

abbrev pub is_done : Status → Bool
is_done done = true
is_done pending = false
is_done failed = false

abbrev pub is_closed : Status → Bool
is_closed done = true
is_closed pending = false
is_closed failed = true

abbrev pub is_old : ℕ → Option ℕ → Bool
is_old cutoff none = false
is_old cutoff (some t) = ltb t cutoff

-- `prune_transfer_log`
unfoldable pub prune_transfer_log : ℕ → Dict Entry → Dict Entry
prune_transfer_log cutoff [] = []
prune_transfer_log cutoff ((k, e) ∷ d) =
    let rest = prune_transfer_log cutoff d in
    if is_closed e.status && is_old cutoff e.updated_at then rest else (k, e) ∷ rest

-- How `process_call` returns.
pub data Reason : Type 0 where
  already_processing mono_pair_incomplete timeout lease_lost : Reason

pub data Outcome : Type 0 where
  published : Text → Text → Outcome
  waits : Reason → Outcome

-- What it raises: a collision, one of the failures that count for the breaker by the name of its
-- type, or any other.
pub data Raised : Type 0 where
  collision other : Raised
  unavailable : Text → Raised

pub record Visit : Type 0 where
  pub key : Text
  pub leased : Bool
  pub stable : Bool
  pub outcome : Result Raised Outcome
  -- `time.monotonic()` in seconds, and the wall clock
  pub now : ℕ
  pub wall : ℕ

pub record Cycle : Type 0 where
  pub log : Dict Entry
  pub breaker : CircuitBreaker
  pub completed : ℕ
  pub failures : ℕ

abbrev pub error_name : Reason → Text
error_name already_processing = codes "already_processing"
error_name mono_pair_incomplete = codes "mono_pair_incomplete"
error_name timeout = codes "timeout"
error_name lease_lost = codes "lease_lost"

abbrev pub attempts_of : Option Entry → ℕ
attempts_of none = 0
attempts_of (some e) = elim e.attempts [ none ↦ 0 | some n ↦ n ]

abbrev pub done_entry : Visit → Option Entry → Text → Text → Entry
done_entry v previous sha name = record {
  status = done;
  attempts = some (attempts_of previous + 1);
  updated_at = some v.wall;
  sha256 = some sha;
  remote_name = some name;
  last_error = none;
}

abbrev pub pending_entry : Visit → Option Entry → Reason → Entry
pending_entry v previous r = record {
  status = pending;
  attempts = some (attempts_of previous + 1);
  updated_at = some v.wall;
  sha256 = none;
  remote_name = none;
  last_error = some (error_name r);
}

-- The entries of the two `except` clauses, which keep no attempts.
abbrev pub error_entry : Visit → Status → Text → Entry
error_entry v status error = record {
  status = status;
  attempts = none;
  updated_at = some v.wall;
  sha256 = none;
  remote_name = none;
  last_error = some error;
}

-- A call that waits for another process or for its input is passed over.
abbrev pub is_passed_over : Reason → Bool
is_passed_over already_processing = true
is_passed_over mono_pair_incomplete = true
is_passed_over timeout = false
is_passed_over lease_lost = false

abbrev pub after_wait : Visit → Reason → CircuitBreaker → CircuitBreaker
after_wait v timeout b = record_failure v.now b
after_wait v _ b = b

-- The body of the loop once the call is to be processed; `none` where an exception ends the cycle.
unfoldable pub settle : Visit → Cycle → Option Cycle
settle v c = elim v.outcome [
  | ok (published sha name) ↦ some (record c {
    log = insert v.key (done_entry v (lookup v.key c.log) sha name) c.log;
    breaker = record_success c.breaker;
    completed = c.completed + 1;
  })
  | ok (waits r) ↦
      if is_passed_over r
      then some c
      else some (record c {
        log = insert v.key (pending_entry v (lookup v.key c.log) r) c.log;
        breaker = after_wait v r c.breaker;
      })
  | err collision ↦ some (record c {
    log = insert v.key (error_entry v failed (codes "RemoteCollisionError")) c.log;
    failures = c.failures + 1;
  })
  | err (unavailable name) ↦ some (record c {
    log = insert v.key (error_entry v pending name) c.log;
    breaker = record_failure v.now c.breaker;
    failures = c.failures + 1;
  })
  | err other ↦ none
]

abbrev pub already_done : Text → Dict Entry → Bool
already_done k log = elim (lookup k log) [ none ↦ false | some e ↦ is_done e.status ]

-- `state.get(key, {}).get("status") == "done"`, a valid lease or a missing input skips the directory.
abbrev pub is_skipped : Visit → Dict Entry → Bool
is_skipped v log = already_done v.key log || v.leased || not v.stable

-- The loop over the directories; an exception ends it with the log as it was written last.
unfoldable pub visit_all : List Visit → Cycle → Cycle
visit_all [] c = c
visit_all (v ∷ vs) c =
    let (allowed, b) = allows_request v.now c.breaker in
    let c' = record c { breaker = b } in
    elim allowed [
      | false ↦ c'
      | true ↦ elim (is_skipped v c'.log) [
        | true ↦ visit_all vs c'
        | false ↦ elim (settle v c') [ none ↦ c' | some d ↦ visit_all vs d ]
      ]
    ]

-- `timedelta(days=TRANSFER_LOG_RETENTION_DAYS)`
abbrev pub retention : ℕ
retention = 7 * 86_400 * 1_000_000

-- `_run_cycle`, enabled or not, on the log as it is loaded, at a time of the breaker and of the clock
unfoldable pub run_cycle : Bool → ℕ → ℕ → List Visit → Dict Entry → CircuitBreaker → Cycle
run_cycle enabled now wall vs log breaker =
    let (allowed, b) = allows_request now breaker in
    let untouched : Cycle = record { log = log; breaker = breaker; completed = 0; failures = 0 } in
    if not enabled
    then untouched
    else if not allowed
    then record untouched { breaker = b }
    else visit_all vs
        (record untouched { log = prune_transfer_log (wall - retention) log; breaker = b })

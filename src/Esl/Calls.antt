-- ===== src/Esl/Calls.antt =====
-- The call records (src/services/calls.py) in the tables of the tenants, through the session of
-- src/database/database.py. A tenant without tables raises, and so does a second record of one call or
-- one with a value that its column does not take; which texts the driver of the database takes for a
-- UUID is an argument.
use zenith_voip.Prelude.{
  ℕ, ◌-◌, Bool, true, false, Option, none, some, List, [], ◌∷◌, ◌++◌, Text, codes, text_eq,
  is_empty, is_some, one_of, length, ◌&&◌, leb, if◌then◌else◌,
}
use zenith_voip.Prelude.Dict.{Dict, lookup, insert}
use zenith_voip.Prelude.Result.{Result, ok, err}

pub data CallStatus : Type 0 where
  ringing in_progress completed failed : CallStatus

-- A difference of two times, in microseconds.
pub data Duration : Type 0 where
  pos negsuc : ℕ → Duration

abbrev pub minus : ℕ → ℕ → Duration
minus a b = if leb b a then pos (a - b) else negsuc (b - a - 1)

-- The columns of `Call` that these functions read or write.
pub record CallRow : Type 0 where
  pub call_id : Text
  pub pbx_id : Option Text
  pub agent_sip_extension : Option Text
  pub caller_number : Option Text
  pub callee_number : Option Text
  pub status : CallStatus
  pub started_at : Option ℕ
  pub ended_at : Option ℕ
  pub duration_seconds : Option Duration

abbrev pub Tables : Type 0
Tables = Dict (List CallRow)

pub data Error : Type 0 where
  no_schema duplicate_call invalid_value : Error

abbrev pub or_none : Text → Option Text
or_none s = if is_empty s then none else some s

-- The arguments of `create_call_record`.
pub record NewCall : Type 0 where
  pub call_id : Text
  pub pbx_id : Text
  pub agent_extension : Text
  pub caller_number : Option Text
  pub callee_number : Option Text

abbrev pub filled : Option Text → Option Text
filled none = none
filled (some s) = or_none s

abbrev pub new_row : CallStatus → ℕ → NewCall → CallRow
new_row status now n = record {
  call_id = n.call_id;
  pbx_id = or_none n.pbx_id;
  agent_sip_extension = or_none n.agent_extension;
  caller_number = filled n.caller_number;
  callee_number = filled n.callee_number;
  status = status;
  started_at = some now;
  ended_at = none;
  duration_seconds = none;
}

-- The first row of `find_by(call_id=…)`; the column is unique.
unfoldable pub find_call : Text → List CallRow → Option CallRow
find_call id [] = none
find_call id (r ∷ rs) = if text_eq r.call_id id then some r else find_call id rs

unfoldable pub replace_call : CallRow → List CallRow → List CallRow
replace_call r [] = []
replace_call r (q ∷ qs) = if text_eq q.call_id r.call_id then r ∷ qs else q ∷ replace_call r qs

-- How the body of `async for session in get_tenant_db(…)` is left, with the rows as it has written
-- them: at its end, by a `return`, or by an exception.
pub data Exit (A : Type 0) : Type 0 where
  ends : List CallRow → Exit A
  returns : A → List CallRow → Exit A
  raises : Error → Exit A

-- `get_tenant_db` around a body, with the value of the function after the loop. The generator commits
-- its connection only when it is resumed, at the end of the body; a body that returns leaves it
-- before, and the connection is closed without a commit.
unfoldable pub tenant_session :
    {A : Type 0} → A → Text → (List CallRow → Exit A) → Tables → Result Error A × Tables
tenant_session after tenant body t = elim (lookup tenant t) [
  | none ↦ (err no_schema, t)
  | some rows ↦ elim (body rows) [
    | ends rows' ↦ (ok after, insert tenant rows' t)
    | returns a rows' ↦ (ok a, t)
    | raises e ↦ (err e, t)
  ]
]

-- `String(n)`, nullable
abbrev pub fits : ℕ → Option Text → Bool
fits n none = true
fits n (some s) = leb (length s) n

-- `UUID(as_uuid=True)`, nullable
abbrev pub fits_uuid : (Text → Bool) → Option Text → Bool
fits_uuid is_uuid none = true
fits_uuid is_uuid (some s) = is_uuid s

-- Whether the columns of `Call` take the values.
unfoldable pub fits_columns : (Text → Bool) → CallRow → Bool
fits_columns is_uuid r =
    fits 128 (some r.call_id)
    && fits_uuid is_uuid r.pbx_id
    && fits 64 r.agent_sip_extension
    && fits 32 r.caller_number
    && fits 32 r.callee_number

-- `repo.create`
abbrev pub create_row : (Text → Bool) → CallRow → List CallRow → Exit (Unit {0})
create_row is_uuid r rows = elim (fits_columns is_uuid r) [
  | false ↦ raises invalid_value
  | true ↦ elim (is_some (find_call r.call_id rows)) [
    | true ↦ raises duplicate_call
    | false ↦ ends (rows ++ (r ∷ []))
  ]
]

unfoldable pub insert_call :
    (Text → Bool) → Text → CallRow → Tables → Result Error (Unit {0}) × Tables
unfolding tenant_session
insert_call is_uuid tenant r t = tenant_session tt tenant (create_row is_uuid r) t

unfoldable pub create_call_record :
    (Text → Bool) → Text → ℕ → NewCall → Tables → Result Error (Unit {0}) × Tables
create_call_record is_uuid tenant now n t = insert_call is_uuid tenant (new_row in_progress now n) t

unfoldable pub create_ringing_call_record :
    (Text → Bool) → Text → ℕ → NewCall → Tables → Result Error (Unit {0}) × Tables
create_ringing_call_record is_uuid tenant now n t =
    insert_call is_uuid tenant (new_row ringing now n) t

abbrev pub promoted : ℕ → CallRow → CallRow
promoted now r = record r { status = in_progress; started_at = some now }

abbrev pub promote : Text → ℕ → List CallRow → Exit Bool
promote call now rows = elim (find_call call rows) [
  | none ↦ returns false rows
  | some r ↦ returns true (replace_call (promoted now r) rows)
]

unfoldable pub mark_call_in_progress : Text → Text → ℕ → Tables → Result Error Bool × Tables
unfolding tenant_session
mark_call_in_progress tenant call now t = tenant_session false tenant (promote call now) t

-- `NORMAL_HANGUP_CAUSES`
abbrev pub normal_hangup_causes : List Text
normal_hangup_causes = codes "NORMAL_CLEARING" ∷ codes "NORMAL_UNSPECIFIED" ∷ []

abbrev pub is_normal : Option Text → Bool
is_normal none = false
is_normal (some c) = one_of c normal_hangup_causes

abbrev pub lasted : ℕ → Option ℕ → Option Duration
lasted ended none = none
lasted ended (some started) = some (minus ended started)

abbrev pub ended : ℕ → Option Text → CallRow → CallRow
ended now cause r = record r {
  status = if is_normal cause then completed else failed;
  ended_at = some now;
  duration_seconds = lasted now r.started_at;
}

abbrev pub finalize : Text → Option Text → ℕ → List CallRow → Exit (Unit {0})
finalize call cause now rows = elim (find_call call rows) [
  | none ↦ returns tt rows
  | some r ↦ ends (replace_call (ended now cause r) rows)
]

unfoldable pub finalize_call_record :
    Text → Text → Option Text → ℕ → Tables → Result Error (Unit {0}) × Tables
unfolding tenant_session
finalize_call_record tenant call cause now t = tenant_session tt tenant (finalize call cause now) t

-- ===== src/Trunk/State/Reconcile.antt =====
-- `TrunkStateService.reconcile`: registrations and active calls after a connection to FreeSWITCH. The
-- calls on the database and on Redis succeed; those on FreeSWITCH may raise.
pub mod Registered
pub mod Calls
use zenith_voip.Prelude.{
  ℕ, ◌+◌, Bool, true, false, not, ◌&&◌, ◌||◌, Option, none, some, List, [], ◌∷◌, Text, text_eq,
  is_empty, if◌then◌else◌,
}
use zenith_voip.Prelude.Dict.{Dict, lookup, insert}
use zenith_voip.Trunk.Db.{RegistrationStatus, registered, Trunk}
use zenith_voip.Trunk.Service.{given}
use zenith_voip.Trunk.State.{
  State, resolve, set_registration_status, mark_registered_unknown, member_of, sadd, srem, smembers,
}

-- `registration.get("profile")` and `.get("auth_username")`
pub record Registration : Type 0 where
  pub profile : Option Text
  pub auth_username : Option Text

pub record Channel : Type 0 where
  pub trunk_id : Option Text
  pub call_uuid : Option Text

-- What FreeSWITCH answers; `none` where the call raises.
pub record Esl : Type 0 where
  pub registrations : Option (List Registration)
  pub channels : Option (List Channel)

pub record Tally : Type 0 where
  pub unknown_rows : ℕ
  pub registered_rows : ℕ
  pub errors : ℕ

-- The loop over the registrations.
unfoldable pub set_registered : ℕ → List Registration → List Trunk → Tally → List Trunk × Tally
set_registered now [] ts n = (ts, n)
set_registered now (r ∷ rs) ts n = elim (resolve ts r.profile r.auth_username) [
  | none ↦ set_registered now rs ts (record n { errors = n.errors + 1 })
  | some id ↦
      set_registered now rs (set_registration_status now id registered ts)
        (record n { registered_rows = n.registered_rows + 1 })
]

-- `observed.setdefault(trunk_id, set()).add(call_uuid)`
unfoldable pub observe : Text → Text → Dict (List Text) → Dict (List Text)
observe id call d = insert id (sadd call (smembers id d)) d

unfoldable pub observed_calls : List Channel → Dict (List Text) → Dict (List Text)
observed_calls [] d = d
observed_calls (c ∷ cs) d =
    let id = given c.trunk_id [] in
    let call = given c.call_uuid [] in
    observed_calls cs (if is_empty id || is_empty call then d else observe id call d)

-- `for orphan in current_values - expected`
unfoldable pub remove_orphans : List Text → List Text → List Text → List Text
remove_orphans [] expected s = s
remove_orphans (x ∷ current) expected s =
    remove_orphans current expected (if member_of x expected then s else srem x s)

-- `for active in expected - current_values`
unfoldable pub add_active : List Text → List Text → List Text → List Text
add_active [] current s = s
add_active (x ∷ expected) current s =
    add_active expected current (if member_of x current then s else sadd x s)

abbrev pub corrected : List Text → List Text → List Text
corrected current expected = add_active expected current (remove_orphans current expected current)

-- The loop over the enabled trunks.
unfoldable pub correct_sets : List Text → Dict (List Text) → Dict (List Text) → Dict (List Text)
correct_sets [] observed calls = calls
correct_sets (id ∷ ids) observed calls =
    correct_sets ids observed
      (insert id (corrected (smembers id calls) (smembers id observed)) calls)

-- `list_enabled_ids`
unfoldable pub list_enabled_ids : List Trunk → List Text
list_enabled_ids [] = []
list_enabled_ids (t ∷ ts) = if t.enabled then t.id ∷ list_enabled_ids ts else list_enabled_ids ts

-- `_reconcile_active_calls`
unfoldable pub reconcile_active_calls : Esl → State → Tally → State × Tally
reconcile_active_calls esl st n = elim esl.channels [
  | none ↦ (st, record n { errors = n.errors + 1 })
  | some channels ↦ (
    record st {
      calls = correct_sets (list_enabled_ids st.trunks) (observed_calls channels []) st.calls;
    },
    n,
  )
]

unfoldable pub reconcile : ℕ → Esl → State → State × Tally
reconcile now esl st =
    let marked = mark_registered_unknown st.trunks in
    let n : Tally = record { unknown_rows = marked.1; registered_rows = 0; errors = 0 } in
    elim esl.registrations [
      | none ↦ (record st { trunks = marked.0 }, record n { errors = 1 })
      | some rs ↦
          let done = set_registered now rs marked.0 n in
          reconcile_active_calls esl (record st { trunks = done.0 }) done.1
    ]

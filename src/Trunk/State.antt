-- ===== src/Trunk/State.antt =====
-- Registrations and active calls of trunks (src/telephony/trunk_state.py).
pub mod Sets
pub mod Reconcile
mod Tests
use zenith_voip.Prelude.{
  ℕ, ◌+◌, Bool, true, false, not, ◌&&◌, ◌||◌, Option, none, some, List, [], ◌∷◌, ◌++◌, Text, codes,
  text_eq, is_empty, length, if◌then◌else◌,
}
use zenith_voip.Prelude.Dict.{Dict, lookup, insert}
use zenith_voip.Prelude.Result.{Result, ok, err}
use zenith_voip.Trunk.Db.{
  RegistrationStatus, unknown, registered, unregistered, Trunk, has_identity,
}
use zenith_voip.Trunk.Service.{given}

-- `RegistrationEvent`
pub record RegistrationEvent : Type 0 where
  pub status : RegistrationStatus
  pub profile : Text
  pub auth_username : Text

-- `event.get(a) or event.get(b) or …`: the first header that is present and not empty
unfoldable pub first_header : List Text → Dict Text → Option Text
first_header [] event = none
first_header (k ∷ ks) event = elim (lookup k event) [
  | none ↦ first_header ks event
  | some [] ↦ first_header ks event
  | some (c ∷ s) ↦ some (c ∷ s)
]

-- `status_by_event`
unfoldable pub status_by_event : Text → Option RegistrationStatus
status_by_event e =
    if text_eq e (codes "sofia::register") || text_eq e (codes "SOFIA_REGISTER")
    then some registered
    else if text_eq e (codes "sofia::unregister")
        || text_eq e (codes "sofia::expire")
        || text_eq e (codes "SOFIA_UNREGISTER")
    then some unregistered
    else none

abbrev event_headers : List Text
event_headers = codes "Event-Subclass" ∷ codes "Event-Name" ∷ []

abbrev profile_headers : List Text
profile_headers =
    codes "profile-name" ∷ codes "Profile-Name" ∷ codes "variable_sofia_profile_name" ∷ []

abbrev username_headers : List Text
username_headers =
    codes "from-user"
    ∷ codes "from_user"
    ∷ codes "user"
    ∷ codes "username"
    ∷ codes "sip_auth_username"
    ∷ codes "variable_sip_auth_username"
    ∷ codes "Caller-Caller-ID-Number"
    ∷ []

-- `normalize_registration_event` of an event whose headers are texts
unfoldable pub normalize_registration_event : Dict Text → Option RegistrationEvent
normalize_registration_event event =
    elim (status_by_event (given (first_header event_headers event) [])) [
      | none ↦ none
      | some status ↦ elim (first_header profile_headers event) [
        | none ↦ none
        | some profile ↦ elim (first_header username_headers event) [
          | none ↦ none
          | some username ↦
              some (record { status = status; profile = profile; auth_username = username })
        ]
      ]
    ]

-- The rows of the table and the sets of active calls by trunk.
pub record State : Type 0 where
  pub trunks : List Trunk
  pub calls : Dict (List Text)

-- `TrunkIdentityResolver.resolve`: the id of the enabled trunk with the identity; the unique index
-- admits no second one.
unfoldable pub find_enabled : Text → Text → List Trunk → Option Text
find_enabled profile username [] = none
find_enabled profile username (t ∷ ts) =
    if has_identity profile username t && t.enabled
    then some t.id
    else find_enabled profile username ts

unfoldable pub resolve : List Trunk → Option Text → Option Text → Option Text
resolve ts profile username =
    let p = given profile [] in
    let u = given username [] in if is_empty p || is_empty u then none else find_enabled p u ts

-- `status == "registered"` and its time, `status == "unregistered"` and its
abbrev pub with_status : ℕ → RegistrationStatus → Trunk → Trunk
with_status now registered t = record t {
  registration_status = registered;
  last_registered_at = some now;
}
with_status now unregistered t = record t {
  registration_status = unregistered;
  last_unregistered_at = some now;
}
with_status now unknown t = record t { registration_status = unknown }

-- `TrunkStateRepository.set_registration_status`
unfoldable pub set_registration_status : ℕ → Text → RegistrationStatus → List Trunk → List Trunk
set_registration_status now id s [] = []
set_registration_status now id s (t ∷ ts) =
    (if text_eq t.id id then with_status now s t else t) ∷ set_registration_status now id s ts

abbrev pub is_registered : RegistrationStatus → Bool
is_registered registered = true
is_registered unregistered = false
is_registered unknown = false

-- `mark_registered_unknown`: the rows and how many changed
unfoldable pub mark_registered_unknown : List Trunk → List Trunk × ℕ
mark_registered_unknown [] = ([], 0)
mark_registered_unknown (t ∷ ts) =
    let rest = mark_registered_unknown ts in
    if is_registered t.registration_status
    then (record t { registration_status = unknown } ∷ rest.0, rest.1 + 1)
    else (t ∷ rest.0, rest.1)

-- `apply_registration_event`
unfoldable pub apply_registration_event : ℕ → Dict Text → State → Bool × State
apply_registration_event now event st = elim (normalize_registration_event event) [
  | none ↦ (false, st)
  | some e ↦ elim (resolve st.trunks (some e.profile) (some e.auth_username)) [
    | none ↦ (false, st)
    | some id ↦ (true, record st { trunks = set_registration_status now id e.status st.trunks })
  ]
]

unfoldable pub member_of : Text → List Text → Bool
member_of x [] = false
member_of x (y ∷ ys) = text_eq y x || member_of x ys

-- `SADD` and `SREM`
unfoldable pub sadd : Text → List Text → List Text
sadd x s = if member_of x s then s else x ∷ s

unfoldable pub srem : Text → List Text → List Text
srem x [] = []
srem x (y ∷ ys) = let rest = srem x ys in if text_eq y x then rest else y ∷ rest

-- `SMEMBERS`
unfoldable pub smembers : Text → Dict (List Text) → List Text
smembers key d = given (lookup key d) []

-- `track_call`; the key of a trunk's set is its id.
unfoldable pub track_call : Text → Text → Bool → State → ℕ × State
track_call trunk_id call active st =
    let old = smembers trunk_id st.calls in
    let new = if active then sadd call old else srem call old in
    if is_empty trunk_id || is_empty call
    then (0, st)
    else (length new, record st { calls = insert trunk_id new st.calls })

-- `active_calls`
unfoldable pub active_calls : Text → State → ℕ
active_calls trunk_id st = length (smembers trunk_id st.calls)

-- ===== src/Trunk/State/Tests.antt =====
-- Runs of the trunk state on the tables of two tenants.
use zenith_voip.Prelude.{
  ◌≡◌, refl, true, false, ◌&&◌, none, some, List, [], ◌∷◌, Text, codes, text_eq, if◌then◌else◌,
}
use zenith_voip.Prelude.Dict.{Dict, lookup}
use zenith_voip.Trunk.Db.{unregistered, get_trunk}
use zenith_voip.Trunk.Service.Examples.{ours, theirs}
use zenith_voip.Trunk.State.{
  State, first_header, status_by_event, normalize_registration_event, resolve, find_enabled,
  apply_registration_event, member_of, smembers, track_call, active_calls,
}
use zenith_voip.Trunk.State.Sets.{track_call_lem}
use zenith_voip.Trunk.State.Reconcile.{Registration, Channel, Esl, list_enabled_ids, reconcile}
use zenith_voip.Trunk.State.Reconcile.Registered.{shown, listed, reconcile-registered}
use zenith_voip.Trunk.State.Reconcile.Calls.{is_reported, reconcile-calls}

abbrev state : State
state = record { trunks = ours ∷ theirs ∷ []; calls = (codes "t1", codes "c1" ∷ []) ∷ [] }

abbrev expire_event : Dict Text
expire_event =
    (codes "Event-Name", codes "CUSTOM")
    ∷ (codes "Event-Subclass", codes "sofia::expire")
    ∷ (codes "profile-name", codes "internal")
    ∷ (codes "from-user", [])
    ∷ (codes "user", codes "ana")
    ∷ []

normalize_runs :
    normalize_registration_event expire_event
    ≡ some
        (record { status = unregistered; profile = codes "internal"; auth_username = codes "ana" })
unfolding normalize_registration_event first_header status_by_event lookup text_eq
normalize_runs = refl

apply_runs : (apply_registration_event 9 expire_event state).0 ≡ true
unfolding apply_registration_event normalize_registration_event first_header status_by_event lookup
    text_eq resolve find_enabled
apply_runs = refl

track_call_lem_test :
    let after = (track_call (codes "t1") (codes "c2") true state).1 in
    (member_of (codes "c2") (smembers (codes "t1") after.calls) ≡ (
      if text_eq (codes "t1") (codes "t1") && text_eq (codes "c2") (codes "c2")
      then true
      else member_of (codes "c2") (smembers (codes "t1") state.calls)))
    × ((track_call (codes "t1") (codes "c2") true state).0 ≡ active_calls (codes "t1") after)
track_call_lem_test =
    track_call_lem (codes "t1") (codes "c2") true state (codes "t1") (codes "c2") refl refl

abbrev registrations : List Registration
registrations =
    record { profile = some (codes "internal-7060"); auth_username = some (codes "bia") }
    ∷ record { profile = some (codes "internal"); auth_username = some (codes "zed") }
    ∷ []

abbrev channels : List Channel
channels =
    record { trunk_id = some (codes "t1"); call_uuid = some (codes "c9") }
    ∷ record { trunk_id = none; call_uuid = some (codes "c8") }
    ∷ []

abbrev esl : Esl
esl = record { registrations = some registrations; channels = some channels }

reconcile-calls_example :
    let after = (reconcile 9 esl state).0 in
    member_of (codes "c1") (smembers (codes "t1") after.calls) ≡ (
      if member_of (codes "t1") (list_enabled_ids after.trunks)
      then is_reported (codes "t1") (codes "c1") channels
      else member_of (codes "c1") (smembers (codes "t1") state.calls))
reconcile-calls_example =
    reconcile-calls 9 esl state registrations channels (codes "t1") (codes "c1") refl refl

reconcile-registered_example :
    let after = (reconcile 9 esl state).0 in
    ((rs : List Registration)
      → esl.registrations ≡ some rs
      → shown (codes "t1") after.trunks ≡ listed state.trunks rs (codes "t1"))
    × (esl.registrations ≡ none
        → (shown (codes "t1") after.trunks ≡ false) × (after.calls ≡ state.calls))
unfolding get_trunk text_eq
reconcile-registered_example = reconcile-registered 9 esl state (codes "t1") refl

-- ===== src/Esl/Handlers/Tests.antt =====
-- A call from its creation to its hangup.
use zenith_voip.Prelude.{
  ◌≡◌, refl, Bool, true, false, none, some, List, [], ◌∷◌, Text, codes, text_eq, if◌then◌else◌,
}
use zenith_voip.Prelude.Dict.{Dict, lookup, insert}
use zenith_voip.Trunk.State.{first_header}
use zenith_voip.Esl.Calls.{
  mark_call_in_progress, CallRow, completed, failed, ringing, lasted, fits_columns, is_normal,
  or_none, find_call, insert_call, create_ringing_call_record,
}
use zenith_voip.Esl.Handlers.{
  World, header, call_id_of, tenant_of, track_trunk_call, handle_manual_linkage,
  handle_channel_create, handle_channel_answer, handle_channel_hangup, process_event,
}
use zenith_voip.Esl.Handlers.Lifecycle.{
  call_at, call_lifecycle, mark_call_in_progress-lost, handle_channel_create-silent,
}

-- No text is a UUID here.
abbrev is_uuid : Text → Bool
is_uuid s = false

abbrev world : World
world = record {
  tables = (codes "A", []) ∷ [];
  trunks = record { trunks = []; calls = [] };
  streams = [];
  captures = [];
  finalized = [];
  linkages = 0;
  dropped = 0;
}

abbrev of_call : List (Text × Text) → Dict Text
of_call more =
    (codes "Unique-ID", codes "u1")
    ∷ (codes "Call-Direction", codes "inbound")
    ∷ (codes "variable_zenith_tenant_id", codes "A")
    ∷ more

abbrev created : Dict Text
created = of_call ((codes "Event-Name", codes "CHANNEL_CREATE") ∷ [])

abbrev answered : Dict Text
answered = of_call ((codes "Event-Name", codes "CHANNEL_ANSWER") ∷ [])

abbrev closed : Dict Text
closed = of_call (
    (codes "Event-Name", codes "CHANNEL_HANGUP")
    ∷ (codes "Hangup-Cause", codes "NORMAL_CLEARING")
    ∷ [])

-- The other leg of the call.
abbrev outbound : Dict Text
outbound = (codes "Unique-ID", codes "u2") ∷ (codes "Call-Direction", codes "outbound") ∷ []

call_lifecycle_example :
    let rung = handle_channel_create is_uuid true 1 created world in
    let last = handle_channel_hangup 9 closed (handle_channel_answer is_uuid 4 answered rung) in
    let cause = or_none (header (codes "Hangup-Cause") closed) in
    ((r : CallRow) × (call_at (tenant_of answered) (call_id_of answered) last.tables ≡ some r)
      × (r.status ≡ (if is_normal cause then completed else failed))
      × (r.caller_number ≡ none)
      × (r.callee_number ≡ none)
      × (r.agent_sip_extension ≡ none)
      × (r.ended_at ≡ some 9)
      × (r.duration_seconds ≡ lasted 9 r.started_at)
      × (call_at (tenant_of answered) (call_id_of answered) rung.tables ≡ none
          → r.started_at ≡ some 4))
    × (lookup (call_id_of answered) last.streams ≡ none)
unfolding lookup text_eq first_header handle_channel_create create_ringing_call_record insert_call
    track_trunk_call find_call insert fits_columns
call_lifecycle_example =
    call_lifecycle is_uuid true 1 4 9 created answered closed world refl refl refl refl refl refl

handle_channel_create-silent_test :
    (handle_channel_create is_uuid true 1 outbound world).tables ≡ world.tables
unfolding lookup text_eq first_header
handle_channel_create-silent_test = handle_channel_create-silent is_uuid true 1 outbound world refl

abbrev rung_row : CallRow
rung_row = record {
  call_id = codes "u1";
  pbx_id = none;
  agent_sip_extension = none;
  caller_number = none;
  callee_number = none;
  status = ringing;
  started_at = some 1;
  ended_at = none;
  duration_seconds = none;
}

rings_first : (process_event is_uuid true 1 created world).tables ≡ (codes "A", rung_row ∷ []) ∷ []
unfolding process_event handle_channel_create track_trunk_call handle_manual_linkage
    create_ringing_call_record insert_call find_call fits_columns lookup insert text_eq first_header
rings_first = refl

mark_call_in_progress-lost_example :
    (mark_call_in_progress (codes "A") (codes "u1") 4 ((codes "A", rung_row ∷ []) ∷ [])).1
    ≡ (codes "A", rung_row ∷ []) ∷ []
mark_call_in_progress-lost_example =
    mark_call_in_progress-lost (codes "A") (codes "u1") 4 ((codes "A", rung_row ∷ []) ∷ [])

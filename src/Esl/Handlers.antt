-- ===== src/Esl/Handlers.antt =====
-- The handlers of the channel events and their dispatch (`_process_event`). An event is its headers.
pub mod Lifecycle
mod Tests
use zenith_voip.Prelude.{
  ℕ, ◌+◌, Bool, true, false, not, ◌&&◌, ◌||◌, Option, none, some, List, [], ◌∷◌, Text, codes,
  text_eq, is_empty, is_some, if◌then◌else◌,
}
use zenith_voip.Prelude.Dict.{Dict, lookup, insert, erase}
use zenith_voip.Prelude.Result.{Result, ok, err}
use zenith_voip.Trunk.State.{State, first_header, track_call, apply_registration_event}
use zenith_voip.Trunk.Service.{given}
use zenith_voip.Esl.Calls.{
  Tables, NewCall, Error, or_none, create_call_record, create_ringing_call_record,
  mark_call_in_progress, finalize_call_record,
}

-- What `register_stream_metadata` stores.
pub record Metadata : Type 0 where
  pub tenant_id : Text
  pub pbx_id : Text
  pub agent_extension : Text

-- The call records, the trunks, the streams that the ingestor knows of, the calls whose capture was
-- asked for and whose stream was finalized, the linkages that were broadcast, and the calls dropped.
pub record World : Type 0 where
  pub tables : Tables
  pub trunks : State
  pub streams : Dict Metadata
  pub captures : List Text
  pub finalized : List Text
  pub linkages : ℕ
  pub dropped : ℕ

abbrev pub header : Text → Dict Text → Text
header k e = given (lookup k e) []

-- `event.get("Caller-Unique-ID", "") or event.get("Unique-ID", "")`
abbrev pub call_id_of : Dict Text → Text
call_id_of e = given (first_header (codes "Caller-Unique-ID" ∷ codes "Unique-ID" ∷ []) e) []

abbrev pub tenant_of : Dict Text → Text
tenant_of e = header (codes "variable_zenith_tenant_id") e

abbrev pub is_inbound : Dict Text → Bool
is_inbound e = text_eq (header (codes "Call-Direction") e) (codes "inbound")

abbrev pub dialled : Dict Text → Text
dialled e = header (codes "Caller-Destination-Number") e

-- `_track_trunk_call`
unfoldable pub track_trunk_call : Bool → Dict Text → World → World
track_trunk_call active e w =
    let id = header (codes "variable_zenith_trunk_id") e in
    let call = call_id_of e in
    if is_empty id || is_empty call
    then w
    else record w { trunks = (track_call id call active w.trunks).1 }

abbrev pub new_call : Text → Dict Text → NewCall
new_call agent e = record {
  call_id = call_id_of e;
  pbx_id = header (codes "variable_zenith_pbx_id") e;
  agent_extension = agent;
  caller_number = or_none (header (codes "Caller-Caller-ID-Number") e);
  callee_number = or_none (dialled e);
}

abbrev pub ringing_agent : Dict Text → Text
ringing_agent e =
    given
      (first_header (codes "variable_zenith_agent_extension" ∷ codes "variable_sip_from_user" ∷ [])
        e)
      []

-- `_handle_manual_linkage`; `has_ip` is whether `_extract_ip` finds an address.
unfoldable pub handle_manual_linkage : Bool → Dict Text → World → World
handle_manual_linkage has_ip e w =
    let from =
      given (first_header (codes "Caller-Caller-ID-Number" ∷ codes "sip_from_user" ∷ []) e) [] in
    if is_empty from || not has_ip then w else record w { linkages = w.linkages + 1 }

-- Whether `_handle_channel_create` comes to its record.
abbrev pub rings : Dict Text → Bool
rings e =
    not (text_eq (dialled e) (codes "*88"))
    && not (is_empty (call_id_of e))
    && is_inbound e
    && not (is_empty (tenant_of e))

-- `_handle_channel_create`; an exception of the record is logged.
unfoldable pub handle_channel_create : (Text → Bool) → Bool → ℕ → Dict Text → World → World
handle_channel_create is_uuid has_ip now e w =
    let tracked = track_trunk_call true e w in
    let linked = handle_manual_linkage has_ip e tracked in
    let record_made =
      (create_ringing_call_record is_uuid (tenant_of e) now (new_call (ringing_agent e) e)
        tracked.tables).1 in
    if text_eq (dialled e) (codes "*88")
    then linked
    else if rings e
    then record tracked { tables = record_made }
    else tracked

-- The records in `_handle_channel_answer`; an exception is logged.
unfoldable pub answer_record : (Text → Bool) → ℕ → Dict Text → Tables → Tables
answer_record is_uuid now e t =
    let (r, t') = mark_call_in_progress (tenant_of e) (call_id_of e) now t in
    let n = new_call (header (codes "variable_zenith_agent_extension") e) e in
    elim r [
      | err x ↦ t'
      | ok true ↦ t'
      | ok false ↦ (create_call_record is_uuid (tenant_of e) now n t').1
    ]

abbrev pub metadata_of : Dict Text → Metadata
metadata_of e = record {
  tenant_id = tenant_of e;
  pbx_id = header (codes "variable_zenith_pbx_id") e;
  agent_extension = header (codes "variable_zenith_agent_extension") e;
}

-- `_handle_channel_answer`; a failed start of the capture is logged.
unfoldable pub handle_channel_answer : (Text → Bool) → ℕ → Dict Text → World → World
handle_channel_answer is_uuid now e w =
    let tracked = track_trunk_call true e w in
    let known = record tracked {
      streams = insert (call_id_of e) (metadata_of e) tracked.streams;
    } in
    let served = record known {
      tables = answer_record is_uuid now e known.tables;
      captures = call_id_of e ∷ known.captures;
    } in
    let lost = record known {
      dropped = if is_inbound e then known.dropped + 1 else known.dropped;
    } in
    if is_empty (call_id_of e) then tracked else if is_empty (tenant_of e) then lost else served

-- `finalize_stream` as the handler sees it: the call's metadata goes.
abbrev pub finalize_stream : Text → World → World
finalize_stream call w = record w { streams = erase call w.streams; finalized = call ∷ w.finalized }

-- `_handle_channel_hangup`; an exception of the record ends it before the stream is finalized.
unfoldable pub handle_channel_hangup : ℕ → Dict Text → World → World
handle_channel_hangup now e w =
    let call = call_id_of e in
    let tracked = track_trunk_call false e w in
    let cause = or_none (header (codes "Hangup-Cause") e) in
    let done = finalize_call_record (tenant_of e) call cause now tracked.tables in
    let closed = record tracked { tables = done.1 } in
    if is_empty call
    then w
    else if is_empty (tenant_of e)
    then finalize_stream call tracked
    else elim done.0 [ ok tt ↦ finalize_stream call closed | err x ↦ closed ]

abbrev pub is_registration : Text → Bool
is_registration s =
    text_eq s (codes "sofia::register")
    || text_eq s (codes "sofia::unregister")
    || text_eq s (codes "sofia::expire")

-- `_process_event`, without the branches for SOFIA_REGISTER and SOFIA_UNREGISTER
unfoldable pub process_event : (Text → Bool) → Bool → ℕ → Dict Text → World → World
process_event is_uuid has_ip now e w =
    let name = header (codes "Event-Name") e in
    let created = handle_channel_create is_uuid has_ip now e w in
    let answered = handle_channel_answer is_uuid now e w in
    let hung_up = handle_channel_hangup now e w in
    let told = record w { trunks = (apply_registration_event now e w.trunks).1 } in
    if text_eq name (codes "CUSTOM") && is_registration (header (codes "Event-Subclass") e)
    then told
    else if text_eq name (codes "CHANNEL_CREATE")
    then created
    else if text_eq name (codes "CHANNEL_ANSWER")
    then answered
    else if text_eq name (codes "CHANNEL_HANGUP")
    then hung_up
    else w

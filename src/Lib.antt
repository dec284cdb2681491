-- ===== src/Lib.antt =====
-- The back end of Zenith VoIP: recordings of calls, their backup and cleanup, ATA trunks, and the
-- client of FreeSWITCH's event socket.
--
-- How the parts work together. FreeSWITCH reports calls and registrations over its event socket; the
-- client cuts the stream into events, its handlers write the call records of the tenant, count the
-- active calls of a trunk and tell the ingestor of the stream to record. The ingestor asks the
-- capacity guard for room and takes a lease on the call's directory; the converter, the SMB backup
-- and the transcription take leases on the same directory, so that one owner works in it at a time.
-- The backup publishes the recording under a name from which the transcription later derives its
-- own, and marks itself as a consumer. The cleanup deletes from directories without a lease what
-- every required consumer has taken or what is too old. Trunks are created and imported per tenant
-- and PBX; the directory tells FreeSWITCH which identities may register, and registrations set the
-- trunk's status.
--
-- Which file models what:
--   Lease         src/audio/recording_lifecycle.py: acquire_lease, renew_lease, release_lease and
--                 has_valid_lease on the lease files of one directory, and histories of them.
--   Capacity      src/audio/capacity.py: RecordingCapacityGuard.reserve and release over the tree.
--   Smb           src/workers/smb_sync.py: sanitize_segment, build_remote_name and
--                 build_remote_directory (Names), CircuitBreaker (Breaker), SMBBackupStrategy.publish,
--                 resolve_remote_name and _publish_with_retry (Publish), _run_cycle over what
--                 process_call answers, with the pruning of its log (Cycle),
--                 cleanup_remote_temporaries (Temporaries), BandwidthLimiter.store (Limiter);
--                 Call has process_call with ensure_mono_pair, generate_stereo and what follows the
--                 publication; Published has the pattern of src/workers/transcript_batch.py for the
--                 names of the backup.
--   Lease.Slots   what the leases promise: one owner per stage, and how the lease files meet it.
--   Workers       what the two process_call share: the lease around the work and its race with the
--                 renewal.
--   Transcript    src/workers/transcript_batch.py: normalize_segments and transcribe_pair (Segments),
--                 render_markdown (Markdown), load_smb_audio_reference (Reference), process_call
--                 (Owned) and run_transcript_cycle (Cycle).
--   Trunk.Db      src/database/models.py and src/services/base.py: rows, constraints, Repository.
--   Trunk.Service src/services/trunks.py: TrunkService (imports in Upsert, the directory in Lookup).
--   Directory     src/api/freeswitch_directory.py: freeswitch_directory (Answer, Entry);
--                 src/services/legacy_directory.py: LegacyDirectoryProvider (Legacy);
--                 src/services/trunk_credentials.py: TrunkCredentialCipher (Credentials).
--   Trunk.Import  src/services/trunk_import.py: import_trunk_csv and import_trunk_json_batch, the
--                 parsers (Csv, Parse) and the imports from the parsed text on (Files).
--   Trunk.State   src/telephony/trunk_state.py: registrations, active calls, reconcile.
--   Consumers     src/workers/recording_consumers.py: mark_consumed and is_fully_consumed.
--   Cleanup       src/workers/audio_cleanup.py: _cleanup_call_directory, cleanup_tenant_bucket.
--   Ingestor      src/audio/ingestor.py: _start_recording, _write_channel, finalize_stream and what
--                 handle_forked_stream does with a frame.
--   RateLimit     src/api/rate_limit.py: rate_limit_middleware for one client, a command at a
--                 time.
--   Esl.Framing   src/telephony/esl_client.py: _read_events.
--   Esl.Calls     src/services/calls.py: the call records, and get_tenant_db of
--                 src/database/database.py, which commits or rolls back.
--   Esl.Handlers  src/telephony/esl_client.py: the channel handlers and _process_event.
--   Prelude, Text names that the others share: tests on numbers, dictionaries in insertion order,
--                 results with exceptions, JSON values, the string methods.
--
-- How code becomes definitions. A method that changes an object returns its result and the new
-- object; an exception is the `err` of a result, next to the state it leaves. Texts and bytes are
-- lists of character codes. Times are microseconds since the epoch, those of files nanoseconds;
-- percentages are exact fractions (a percent is 1_000_000 parts), where the source computes with
-- floats. JSON numbers are naturals, or texts that equal none. A lease operation runs under the
-- directory's lock, so it is one step; the replacement of a file by a finished temporary is one
-- write.
--
-- What is a parameter. `Lease.Python.Runtime` is the part of Python that reads UUIDs and dates, with
-- the round trip of isoformat. `Directory.Answer.Xml` reads and prints XML, and
-- `Directory.Credentials.Fernet` encrypts, with the round trip under the same keys.
-- `Smb.Share.Share` is the SMB library: what its calls have done when they answer, and which file
-- they may touch when they raise; `sha` is the hash of a content; `Smb.Limiter.Link` is what one
-- transfer sees of that library and of the clock, and what a call that raises leaves of its file. The
-- cipher and the legacy directory are `Trunk.Service.Collaborators`, without laws; `Directory.Created` fills them.
-- `Trunk.State.Reconcile.Esl` is what FreeSWITCH answers. `Transcript.Floats.Floats` are finite
-- floats with their order and a monotone addition; `Transcript.Publisher.Publisher` is what the
-- publication of a content answers, and `Trunk.Import.Parse.Conversions` are Python's str and int.
-- The rows of csv.DictReader, the value of json.loads, what ffmpeg and Whisper answer, and the order
-- in which a race of two tasks ends (`Workers.Ending`: at which await a cancellation arrives) are
-- arguments. New ids are arguments, and so is what the database driver takes as a UUID.
--
-- Loops and fuel. The loops over lists are structural. A retry has the three delays of
-- RETRY_DELAYS_SECONDS and so four attempts. The inner loop of _read_events has the length of its
-- buffer as fuel: every round takes a blank line of two bytes, and any larger fuel gives the same
-- frames. A Content-Length below zero ends the model there, since the source can then loop on the
-- same bytes for ever.
--
-- What is not modelled: sockets, ffmpeg, HTTP routes, speech and language services, metrics and
-- logs, and the failures of disk, database and Redis other than those named above. Nor are the file
-- of the transfer log of the backup, the lookup of a call's metadata and the reading of WAV headers;
-- the heartbeat of a recording is not a step of the ingestor.
pub mod Prelude
pub mod Lease
pub mod Directory
pub mod Text
pub mod Smb
pub mod Workers
pub mod Transcript
pub mod Capacity
pub mod Trunk
pub mod Consumers
pub mod Cleanup
pub mod Esl
pub mod Ingestor
pub mod RateLimit

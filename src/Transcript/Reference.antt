-- ===== src/Transcript/Reference.antt =====
-- Where the transcript worker finds a backed up recording (`load_smb_audio_reference` of
-- src/workers/transcript_batch.py), and the entry of the transfer log that the backup worker writes
-- for one (`_run_cycle` of src/workers/smb_sync.py).
pub mod Found
mod Tests
use zenith_voip.Prelude.{
  ℕ, Bool, true, false, not, ◌&&◌, ◌||◌, Option, none, some, List, [], ◌∷◌, ◌++◌, Text, codes,
  text_eq, ◌==◌, if◌then◌else◌,
}
use zenith_voip.Prelude.Json.{Json, null, num, str, obj, Fields, end, field, member}
use zenith_voip.Smb.Names.{DateTime, build_remote_directory, is_remote_wav, remote_md_name}

-- `c in s`
unfoldable pub has_char : ℕ → Text → Bool
has_char c [] = false
has_char c (d ∷ s) = d == c || has_char c s

-- `item.get(key) == t`
unfoldable pub is_text : Option Json → Text → Bool
is_text (some (str s)) t = text_eq s t
is_text _ t = false

pub record Reference : Type 0 where
  pub remote_dir : Text
  pub remote_wav_name : Text
  pub remote_md_name : Text

-- `f"{tenant_id}/{call_id}"`
abbrev pub log_key : Text → Text → Text
log_key tenant_id call_id = tenant_id ++ (b'/' ∷ call_id)

-- `fromisoformat` is `datetime.fromisoformat` with its result, or None where it raises ValueError, and
-- a date without a zone taken as UTC; `decimal` is the class `\d`.
module _ (decimal : ℕ → Bool) (fromisoformat : Text → Option DateTime) where
  -- The test of `remote_name`, for a value of the key.
  unfoldable pub remote_name_of : Option Json → Option Text
  remote_name_of (some (str s)) =
      if has_char b'/' s || has_char b'\\' s || not (is_remote_wav decimal s) then none else some s
  remote_name_of _ = none

  -- `datetime.fromisoformat(item["started_at"])`; a missing key and a value that is no text end in
  -- the same `except` clause as a text that is no date.
  unfoldable pub started_at_of : Option Json → Option DateTime
  started_at_of (some (str s)) = fromisoformat s
  started_at_of _ = none

  unfoldable pub reference_of : Text → Text → Fields → Option Reference
  reference_of tenant_id call_id item =
      if not (is_text (member (codes "status") item) (codes "done"))
        || not (is_text (member (codes "tenant_id") item) tenant_id)
        || not (is_text (member (codes "call_id") item) call_id)
      then none
      else elim (remote_name_of (member (codes "remote_name") item)) [
        | none ↦ none
        | some name ↦ elim (started_at_of (member (codes "started_at") item)) [
          | none ↦ none
          | some t ↦ some (record {
            remote_dir = build_remote_directory tenant_id t;
            remote_wav_name = name;
            remote_md_name = remote_md_name name;
          })
        ]
      ]

  -- `load_smb_audio_reference` of a log that `load_transfer_log` returns
  unfoldable pub load_smb_audio_reference : Fields → Text → Text → Option Reference
  unfolding reference_of remote_name_of started_at_of
  load_smb_audio_reference log tenant_id call_id = elim (member (log_key tenant_id call_id) log) [
    | some (obj item) ↦ reference_of tenant_id call_id item
    | _ ↦ none
  ]

-- What `_run_cycle` of the backup knows when `process_call` has published a recording.
pub record Backup : Type 0 where
  pub tenant_id : Text
  pub call_id : Text
  pub caller_number : Text
  pub callee_number : Text
  pub started_at : Text
  pub call_dir : Text
  pub attempts : ℕ
  pub sha256 : Text
  pub remote_name : Text
  pub created_at : Json
  pub now : Text
  pub remote_tmp_candidates : Json

-- The entry with status `done`.
unfoldable pub done_item : Backup → Fields
done_item b = field (codes "tenant_id") (str b.tenant_id) (
    field (codes "call_id") (str b.call_id) (
      field (codes "caller_number") (str b.caller_number) (
        field (codes "callee_number") (str b.callee_number) (
          field (codes "started_at") (str b.started_at) (
            field (codes "tx_path") (str (b.call_dir ++ codes "/tx.wav")) (
              field (codes "rx_path") (str (b.call_dir ++ codes "/rx.wav")) (
                field (codes "stereo_path") (str (b.call_dir ++ codes "/stereo.wav")) (
                  field (codes "status") (str (codes "done")) (
                    field (codes "attempts") (num b.attempts) (
                      field (codes "sha256") (str b.sha256) (
                        field (codes "remote_name") (str b.remote_name) (
                          field (codes "created_at") b.created_at (
                            field (codes "transferred_at") (str b.now) (
                              field (codes "updated_at") (str b.now) (
                                field (codes "last_error") null (
                                  field (codes "remote_tmp_candidates") b.remote_tmp_candidates
                                    end))))))))))))))))

-- `state[key] = entry`
unfoldable pub set_field : Text → Json → Fields → Fields
set_field k v end = field k v end
set_field k v (field j w rest) =
    let tail = set_field k v rest in if text_eq j k then field j v tail else field j w tail

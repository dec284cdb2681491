-- ===== src/Transcript/Reference/Tests.antt =====
-- The reference to a recording that the backup wrote in its log.
use zenith_voip.Prelude.{
  ◌≡◌, refl, false, Option, none, some, if◌then◌else◌, Text, codes, text_eq, is_digit,
}
use zenith_voip.Prelude.Result.{ok}
use zenith_voip.Prelude.Json.{null, obj, Fields, end, member}
use zenith_voip.Text.{strip, four_digits, two_digits}
use zenith_voip.Smb.Names.{
  DateTime, format_day, NameParts, build_remote_name, build_remote_directory, sanitize_segment,
  make_safe, format_second, join_dashes, safe_extension, is_remote_wav, match_shape, match_tail,
  all_safe, remote_md_name,
}
use zenith_voip.Transcript.Reference.{
  has_char, is_text, Reference, remote_name_of, started_at_of, reference_of, log_key,
  load_smb_audio_reference, Backup, done_item, set_field,
}
use zenith_voip.Transcript.Reference.Found.{
  IsBackedUp, load_smb_audio_reference-IsBackedUp, load_smb_audio_reference-done_item,
}

abbrev call : NameParts
call = record {
  started_at = record { year = 2026; month = 8; day = 21; hour = 9; minute = 5; second = 7 };
  call_id = codes "abcdef0123";
  caller_number = some (codes "11");
  callee_number = none;
}

abbrev wav_name : Text
wav_name = codes "2026-08-21-09-05-07-abcdef-11-desconhecido.wav"

wav_built : build_remote_name call (codes "wav") false ≡ ok wav_name
unfolding build_remote_name sanitize_segment make_safe strip format_second format_day two_digits
    four_digits join_dashes safe_extension
wav_built = refl

-- Only one text is a date here.
abbrev parse_date : Text → Option DateTime
parse_date s = if text_eq s (codes "2026-08-21T09:05:07+00:00") then some call.started_at else none

abbrev backup : Backup
backup = record {
  tenant_id = codes "t";
  call_id = codes "abcdef0123";
  caller_number = codes "11";
  callee_number = codes "desconhecido";
  started_at = codes "2026-08-21T09:05:07+00:00";
  call_dir = codes "/r/t/abcdef0123";
  attempts = 1;
  sha256 = codes "00";
  remote_name = wav_name;
  created_at = null;
  now = codes "2026-08-21T09:10:00+00:00";
  remote_tmp_candidates = obj end;
}

abbrev log : Fields
log = set_field (log_key (codes "t") (codes "abcdef0123")) (obj (done_item backup)) end

load_smb_audio_reference-done_item_example :
    (r : Reference) × (load_smb_audio_reference is_digit parse_date log
        (codes "t")
        (codes "abcdef0123")
      ≡ some r)
    × (r.remote_dir ≡ build_remote_directory (codes "t") call.started_at)
    × (r.remote_wav_name ≡ wav_name)
    × (build_remote_name call (codes "md") false ≡ ok r.remote_md_name)
unfolding text_eq
load_smb_audio_reference-done_item_example =
    load_smb_audio_reference-done_item is_digit parse_date (λ c h. h) end backup call false
      wav_built refl

abbrev found : Reference
found = record {
  remote_dir = codes "t/2026-08-21";
  remote_wav_name = wav_name;
  remote_md_name = codes "2026-08-21-09-05-07-abcdef-11-desconhecido.md";
}

reference_run :
    load_smb_audio_reference is_digit parse_date log (codes "t") (codes "abcdef0123") ≡ some found
unfolding load_smb_audio_reference reference_of remote_name_of started_at_of is_text has_char
    set_field done_item member text_eq is_remote_wav match_shape match_tail all_safe remote_md_name
    build_remote_directory sanitize_segment make_safe strip format_day two_digits four_digits
reference_run = refl

load_smb_audio_reference-IsBackedUp_test :
    (item : Fields) × IsBackedUp is_digit parse_date log (codes "t") (codes "abcdef0123") found item
load_smb_audio_reference-IsBackedUp_test =
    load_smb_audio_reference-IsBackedUp is_digit parse_date log (codes "t") (codes "abcdef0123")
      found reference_run

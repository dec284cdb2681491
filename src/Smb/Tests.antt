-- ===== src/Smb/Tests.antt =====
-- Names of concrete calls.
use zenith_voip.Prelude.{◌≡◌, ◌≢◌, refl, true, false, none, some, Text, codes, is_digit}
use zenith_voip.Prelude.Result.{ok}
use zenith_voip.Text.{strip, two_digits, four_digits}
use zenith_voip.Text.Safe.{AllSafe}
use zenith_voip.Smb.Names.{
  NameParts, make_safe, sanitize_segment, format_day, format_second, join_dashes, safe_extension,
  build_remote_name, is_remote_wav, remote_md_name,
}
use zenith_voip.Smb.NameLaws.{
  IsSegment, sanitize_segment-IsSegment, sanitize_segment-sanitize_segment,
  build_remote_name-AllSafe, collision_name-ne-base_name,
}
use zenith_voip.Smb.Published.{build_remote_name-is_remote_wav, remote_md_name_lem}

abbrev call : NameParts
call = record {
  started_at = record { year = 2026; month = 8; day = 21; hour = 9; minute = 5; second = 7 };
  call_id = codes "abc/def0123";
  caller_number = some (codes " +55 11 ");
  callee_number = none;
}

abbrev base_wav : Text
base_wav = codes "2026-08-21-09-05-07-abc_de-_55_11-desconhecido.wav"

abbrev collision_wav : Text
collision_wav = codes "2026-08-21-09-05-07-abc_de-_55_11-desconhecido-f012.wav"

base_name : build_remote_name call (codes "wav") false ≡ ok base_wav
unfolding build_remote_name sanitize_segment make_safe strip format_second format_day two_digits
    four_digits join_dashes safe_extension
base_name = refl

collision_name : build_remote_name call (codes "wav") true ≡ ok collision_wav
unfolding build_remote_name sanitize_segment make_safe strip format_second format_day two_digits
    four_digits join_dashes safe_extension
collision_name = refl

build_remote_name-is_remote_wav_test : is_remote_wav is_digit base_wav ≡ true
build_remote_name-is_remote_wav_test =
    build_remote_name-is_remote_wav is_digit (λ c h. h) call false base_wav base_name

remote_md_name_lem_test : build_remote_name call (codes "md") false ≡ ok (remote_md_name base_wav)
remote_md_name_lem_test = remote_md_name_lem call false base_wav base_name

collision_name-ne-base_name_test : base_wav ≢ collision_wav
collision_name-ne-base_name_test =
    collision_name-ne-base_name call (codes "wav") base_wav collision_wav base_name collision_name

build_remote_name-AllSafe_test : AllSafe base_wav
build_remote_name-AllSafe_test =
    build_remote_name-AllSafe call (codes "wav") false base_wav base_name

sanitize_segment-IsSegment_test : IsSegment (sanitize_segment (some (codes "a b/c")))
sanitize_segment-IsSegment_test = sanitize_segment-IsSegment (some (codes "a b/c"))

sanitize_segment-sanitize_segment_test :
    sanitize_segment (some (sanitize_segment (some (codes "a b/c"))))
    ≡ sanitize_segment (some (codes "a b/c"))
sanitize_segment-sanitize_segment_test = sanitize_segment-sanitize_segment (some (codes "a b/c"))

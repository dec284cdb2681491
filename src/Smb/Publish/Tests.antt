-- ===== src/Smb/Publish/Tests.antt =====
-- A share of files in memory, and publications on it.
use zenith_voip.Prelude.{
  ℕ, zero, suc, ◌≡◌, ◌⊎◌, refl, false, none, some, [], ◌∷◌, Text, codes, text_eq, arith,
}
use zenith_voip.Prelude.Result.{Result, ok, err}
use zenith_voip.Smb.Share.{
  Failure, os_error, path, join_path, join_nonempty, strip_all, strip_slashes,
}
use zenith_voip.Smb.Publish.{
  remote_sha, resolve_remote_name, transfer, or_clean_up, verify_remote_temporary_and_rename,
  publish,
}
use zenith_voip.Smb.Publish.Examples.{Files, update, in_memory}
use zenith_voip.Smb.Publish.Steps.{sha_of}
use zenith_voip.Smb.Publish.Safety.{publish-keeps, publish-ok}
use zenith_voip.Smb.Publish.Retry.{
  publish_with_retry, after, retry_delays_seconds, retry_answers, retry_gives_up,
}

-- One recording is there under the base name; another call's recording is published.
abbrev one_file : Files
one_file = update (path (codes "t") (codes "a.wav")) (some (codes "old")) (λ p. none)

abbrev same : Text → Text
same c = c

collision_name_used :
    (publish in_memory same (codes "new") (codes "t") (codes "a.wav") (codes "a-2.wav") one_file).0
    ≡ ok (record { sha256 = codes "new"; remote_name = codes "a-2.wav"; idempotent = false })
unfolding publish resolve_remote_name remote_sha transfer or_clean_up
    verify_remote_temporary_and_rename join_path join_nonempty strip_all strip_slashes text_eq
collision_name_used = refl

publish-keeps_example :
    in_memory.view
      (publish in_memory same
        (codes "new")
        (codes "t")
        (codes "a.wav")
        (codes "a-2.wav")
        one_file).1
      (path (codes "t") (codes "a.wav"))
    ≡ some (codes "old")
unfolding join_path join_nonempty strip_all strip_slashes text_eq
publish-keeps_example =
    publish-keeps in_memory same (codes "new") (codes "t") (codes "a.wav") (codes "a-2.wav")
      one_file (path (codes "t") (codes "a.wav")) (codes "old") refl (ground arith) (ground arith)

publish-ok_example :
    ((codes "a-2.wav" ≡ codes "a.wav") ⊎ (codes "a-2.wav" ≡ codes "a-2.wav"))
    × (sha_of same (
          in_memory.view
            (publish in_memory same
              (codes "new")
              (codes "t")
              (codes "a.wav")
              (codes "a-2.wav")
              one_file).1
            (path (codes "t") (codes "a-2.wav")))
        ≡ some (codes "new"))
publish-ok_example =
    publish-ok in_memory same (codes "new") (codes "t") (codes "a.wav") (codes "a-2.wav") one_file
      (record { sha256 = codes "new"; remote_name = codes "a-2.wav"; idempotent = false })
      collision_name_used

-- An attempt that fails as often as its state says, and then answers.
abbrev flaky : ℕ → Result Failure ℕ × ℕ
flaky zero = (ok 7, zero)
flaky (suc n) = (err os_error, n)

retry_answers_example : publish_with_retry flaky 2 ≡ (ok 7, 0, 1 ∷ 2 ∷ [])
unfolding after
retry_answers_example = retry_answers flaky 2 2 (omega arith) (refl, (refl, tt)) (ground arith)

retry_gives_up_test : publish_with_retry flaky 9 ≡ (err os_error, 5, retry_delays_seconds)
unfolding after
retry_gives_up_test = retry_gives_up flaky 9 (refl, (refl, (refl, (refl, tt))))

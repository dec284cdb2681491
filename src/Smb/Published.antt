-- ===== src/Smb/Published.antt =====
-- The transcript worker recognises every name under which the backup worker publishes a recording,
-- and derives from it the name that it would build for the transcript itself.
use zenith_voip.Prelude.{
  ℕ, ◌+◌, ◌-◌, ◌%◌, ◌≤◌, ◌<◌, ◌≡◌, refl, ap, Bool, true, some, List, [], ◌∷◌, ◌++◌, All, Text,
  codes, take, drop, length, length-append, text_eq_refl, is_digit, arith, append_assoc,
}
use zenith_voip.Prelude.Result.{ok}
use zenith_voip.Text.{digit, two_digits, four_digits}
use zenith_voip.Text.Safe.{AllSafe}
use zenith_voip.Smb.Names.{
  DateTime, format_day, format_second, join_dashes, safe_extension, NameParts, name_parts,
  build_remote_name, all_safe, match_shape, match_tail, date_shape, is_remote_wav, remote_md_name,
}
use zenith_voip.Smb.NameLaws.{
  build_remote_name_lem, name_parts-AllSafe, join_dashes-AllSafe, sanitize_segment-IsSegment,
}

take-append : (s t : Text) → take (length s) (s ++ t) ≡ s
take-append [] t = refl
take-append (c ∷ s) t = ap (λ r. c ∷ r) (take-append s t)

drop-append : (s t : Text) → drop (length s) (s ++ t) ≡ t
drop-append [] t = refl
drop-append (c ∷ s) t = drop-append s t

all_safe_lem : (s : Text) → AllSafe s → all_safe s ≡ true
unfolding all_safe
all_safe_lem [] h = refl
all_safe_lem (c ∷ s) h = rw (h.0, all_safe_lem s h.1)

abbrev dot_wav : Text
dot_wav = codes ".wav"

length-wav : (s : Text) → length (s ++ dot_wav) - 4 ≡ length s
length-wav s = omega (arith, length-append s dot_wav)

match_tail-wav : (s : Text) → AllSafe s → 0 < length s → match_tail (s ++ dot_wav) ≡ true
unfolding match_tail
match_tail-wav s h pos =
    rw
      (
        length-wav s,
        take-append s dot_wav,
        drop-append s dot_wav,
        all_safe_lem s h,
        text_eq_refl dot_wav,
      )
      (ground (arith, length-append s dot_wav))

length-join_dashes : (q : Text) (ps : List Text) → length q ≤ length (join_dashes (q ∷ ps))
unfolding join_dashes
length-join_dashes q [] = omega arith
length-join_dashes q (r ∷ ps) = omega (arith, length-append q (b'-' ∷ join_dashes (r ∷ ps)))

module _ (decimal : ℕ → Bool) (admits : (c : ℕ) → is_digit c ≡ true → decimal c ≡ true) where
  decimal-digit : (n : ℕ) → decimal (b'0' + n % 10) ≡ true
  decimal-digit n = admits (digit n) (ground arith)

  match_shape-format_second :
      (t : DateTime) (s : Text)
      → match_shape decimal date_shape (format_second t ++ (b'-' ∷ s)) ≡ some s
  unfolding match_shape format_second format_day four_digits two_digits
  match_shape-format_second t s = simp decimal-digit

  is_remote_wav_lem :
      (t : DateTime) (s : Text)
      → AllSafe s
      → 0 < length s
      → is_remote_wav decimal (format_second t ++ (b'-' ∷ (s ++ dot_wav))) ≡ true
  unfolding is_remote_wav
  is_remote_wav_lem t s h pos =
      ground (arith, match_shape-format_second t (s ++ dot_wav), match_tail-wav s h pos)

  segments_match :
      (t : DateTime) (q : Text) (ps : List Text)
      → All AllSafe (q ∷ ps)
      → 0 < length q
      → is_remote_wav decimal (join_dashes (format_second t ∷ q ∷ ps) ++ dot_wav) ≡ true
  unfolding join_dashes
  segments_match t q ps h pos =
      rw (append_assoc (format_second t) (b'-' ∷ join_dashes (q ∷ ps)) dot_wav) (
        is_remote_wav_lem t (join_dashes (q ∷ ps)) (join_dashes-AllSafe (q ∷ ps) h)
          (omega (arith, pos, length-join_dashes q ps)))

  -- A name that the backup worker builds for a WAV file, with or without the collision suffix, matches
  -- the pattern by which the transcript worker accepts the name in the transfer log.
  pub build_remote_name-is_remote_wav :
      (p : NameParts) (suffix : Bool) (name : Text)
      → build_remote_name p (codes "wav") suffix ≡ ok name
      → is_remote_wav decimal name ≡ true
  unfolding safe_extension
  build_remote_name-is_remote_wav p suffix name h =
      let e = build_remote_name_lem p (codes "wav") suffix name h in
      let parts = name_parts-AllSafe p suffix in
      let first = sanitize_segment-IsSegment (some (take 6 p.call_id)) in
      rw e (segments_match p.started_at _ _ parts.1 first.pos)

-- The transcript's name, which the transcript worker makes of the recording's by its last four
-- characters, is the name that `build_remote_name` gives the same call with the extension md.
pub remote_md_name_lem :
    (p : NameParts) (suffix : Bool) (name : Text)
    → build_remote_name p (codes "wav") suffix ≡ ok name
    → build_remote_name p (codes "md") suffix ≡ ok (remote_md_name name)
unfolding build_remote_name safe_extension remote_md_name
remote_md_name_lem p suffix name h =
    let e = build_remote_name_lem p (codes "wav") suffix name h in
    let stem = join_dashes (name_parts p suffix) in
    rw (e, length-wav stem, take-append stem dot_wav)

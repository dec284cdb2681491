-- ===== src/Smb/NameLaws.antt =====
-- What holds of every remote name: its characters, its length, and the names derived from it.
use zenith_voip.Prelude.{
  ℕ, suc, zero, ◌/◌, ◌≤◌, ◌<◌, ◌≡◌, ◌≢◌, refl, ap, Bool, true, false, Option, some, List, [], ◌∷◌,
  ◌++◌, All, Text, take, drop, length, length-append, length-take-le, is_empty, arith, Bool-cases,
  inl, inr,
}
use zenith_voip.Prelude.Result.{ok}
use zenith_voip.Text.{strip, is_safe, digit, two_digits, four_digits}
use zenith_voip.Text.Strip.{All-append, strip-NoSpace}
use zenith_voip.Text.Safe.{AllSafe, AllSafe-NoSpace}
use zenith_voip.Smb.Names.{
  or_text, unknown, make_safe, text_or_empty, sanitize_segment, DateTime, format_day, format_second,
  join_dashes, safe_extension, NameParts, name_parts, build_remote_name,
}

make_safe-AllSafe : (s : Text) → AllSafe (make_safe s)
unfolding make_safe
make_safe-AllSafe [] = tt
make_safe-AllSafe (c ∷ s) = (ground arith, make_safe-AllSafe s)

make_safe_self : (s : Text) → AllSafe s → make_safe s ≡ s
unfolding make_safe
make_safe_self [] h = refl
make_safe_self (c ∷ s) h = rw (h.0, make_safe_self s h.1)

take-All {κ} : (P : ℕ → Type κ) (n : ℕ) (s : Text) → All P s → All P (take n s)
take-All P zero s h = tt
take-All P (suc n) [] h = tt
take-All P (suc n) (c ∷ s) h = (h.0, take-All P n s h.1)

pub take_self : (n : ℕ) (s : Text) → length s ≤ n → take n s ≡ s
take_self zero [] h = refl
take_self zero (c ∷ s) h = absurd (omega arith)
take_self (suc n) [] h = refl
take_self (suc n) (c ∷ s) h = ap (λ t. c ∷ t) (take_self n s (omega arith))

or_text-AllSafe : (s d : Text) → AllSafe s → AllSafe d → AllSafe (or_text s d)
or_text-AllSafe [] d hs hd = hd
or_text-AllSafe (c ∷ s) d hs hd = hs

or_text-pos : (s d : Text) → 0 < length d → 0 < length (or_text s d)
or_text-pos [] d h = h
or_text-pos (c ∷ s) d h = omega arith

or_text-le : (s d : Text) (n : ℕ) → length s ≤ n → length d ≤ n → length (or_text s d) ≤ n
or_text-le [] d n hs hd = hd
or_text-le (c ∷ s) d n hs hd = hs

-- The shape of a sanitised segment.
pub record IsSegment (s : Text) : Type 0 where
  pub safe : AllSafe s
  pub pos : 0 < length s
  pub bound : length s ≤ 64

unknown-IsSegment : IsSegment unknown
unknown-IsSegment = ground arith

or_text-IsSegment : (s : Text) → IsSegment (or_text (take 64 (make_safe s)) unknown)
or_text-IsSegment s = record {
  safe = or_text-AllSafe _ unknown (take-All _ 64 _ (make_safe-AllSafe s)) unknown-IsSegment.safe;
  pos = or_text-pos _ unknown (omega arith);
  bound = or_text-le _ unknown 64 (length-take-le 64 (make_safe s)) (omega arith);
}

-- Whatever the value, a sanitised segment has 1 to 64 characters, all of the safe class; so it has no
-- path separator.
pub sanitize_segment-IsSegment : (value : Option Text) → IsSegment (sanitize_segment value)
unfolding sanitize_segment
sanitize_segment-IsSegment value = elim (Bool-cases (is_empty (strip (text_or_empty value)))) [
  | inl e ↦ rw e unknown-IsSegment
  | inr e ↦ rw e (or_text-IsSegment (strip (text_or_empty value)))
]

sanitize_self : (s : Text) → IsSegment s → sanitize_segment (some s) ≡ s
unfolding sanitize_segment
sanitize_self [] h = absurd (omega (arith, h.pos))
sanitize_self (c ∷ s) h =
    rw (strip-NoSpace (c ∷ s) (AllSafe-NoSpace (c ∷ s) h.safe), make_safe_self (c ∷ s) h.safe)
      (ap (λ t. or_text t unknown) (take_self 64 (c ∷ s) h.bound))

-- Sanitising twice is sanitising once.
pub sanitize_segment-sanitize_segment :
    (value : Option Text)
    → sanitize_segment (some (sanitize_segment value)) ≡ sanitize_segment value
sanitize_segment-sanitize_segment value = sanitize_self _ (sanitize_segment-IsSegment value)

digit-safe : (n : ℕ) → is_safe (digit n) ≡ true
digit-safe n = ground arith

two_digits-AllSafe : (n : ℕ) → AllSafe (two_digits n)
unfolding two_digits
two_digits-AllSafe n = (digit-safe (n / 10), (digit-safe n, tt))

format_day-AllSafe : (t : DateTime) → AllSafe (format_day t)
unfolding format_day four_digits
format_day-AllSafe t =
    let dd = two_digits-AllSafe t.day in
    All-append (λ c. is_safe c ≡ true) (four_digits t.year)
      (b'-' ∷ (two_digits t.month ++ (b'-' ∷ two_digits t.day)))
      (
        digit-safe (t.year / 1000),
        (digit-safe (t.year / 100), (digit-safe (t.year / 10), (digit-safe t.year, tt))),
      )
      (refl, All-append _ (two_digits t.month) _ (two_digits-AllSafe t.month) (refl, dd))

format_second-AllSafe : (t : DateTime) → AllSafe (format_second t)
unfolding format_second
format_second-AllSafe t = All-append _ (format_day t) _ (format_day-AllSafe t) (
  refl,
  All-append _ (two_digits t.hour) _ (two_digits-AllSafe t.hour) (
    refl,
    All-append _ (two_digits t.minute) _ (two_digits-AllSafe t.minute)
        (refl, two_digits-AllSafe t.second),
  ),
)

pub join_dashes-AllSafe : (ps : List Text) → All AllSafe ps → AllSafe (join_dashes ps)
unfolding join_dashes
join_dashes-AllSafe [] h = tt
join_dashes-AllSafe (p ∷ []) h = h.0
join_dashes-AllSafe (p ∷ q ∷ ps) h = All-append _ p _ h.0 (refl, join_dashes-AllSafe (q ∷ ps) h.1)

safe_extension-AllSafe : (s : Text) → AllSafe (safe_extension s)
unfolding safe_extension
safe_extension-AllSafe [] = tt
safe_extension-AllSafe (c ∷ s) = ground (arith, safe_extension-AllSafe s)

segment-AllSafe : (value : Option Text) → AllSafe (sanitize_segment value)
segment-AllSafe value = (sanitize_segment-IsSegment value).safe

pub name_parts-AllSafe : (p : NameParts) (suffix : Bool) → All AllSafe (name_parts p suffix)
name_parts-AllSafe p true = (
  format_second-AllSafe p.started_at,
  (segment-AllSafe _, (segment-AllSafe _, (segment-AllSafe _, (segment-AllSafe _, tt)))),
)
name_parts-AllSafe p false = (
  format_second-AllSafe p.started_at,
  (segment-AllSafe _, (segment-AllSafe _, (segment-AllSafe _, tt))),
)

pub build_remote_name_lem :
    (p : NameParts) (extension : Text) (suffix : Bool) (name : Text)
    → build_remote_name p extension suffix ≡ ok name
    → name ≡ join_dashes (name_parts p suffix) ++ (b'.' ∷ safe_extension extension)
unfolding build_remote_name
build_remote_name_lem p extension suffix name h = ground arith

-- Every character of a remote file name is of the safe class, whatever the call's data.
pub build_remote_name-AllSafe :
    (p : NameParts) (extension : Text) (suffix : Bool) (name : Text)
    → build_remote_name p extension suffix ≡ ok name
    → AllSafe name
build_remote_name-AllSafe p extension suffix name h =
    rw (build_remote_name_lem p extension suffix name h) (
      All-append _ (join_dashes (name_parts p suffix)) _
        (join_dashes-AllSafe _ (name_parts-AllSafe p suffix))
        (refl, safe_extension-AllSafe extension))

join_dashes-grows :
    (a b c d e : Text)
    → length (join_dashes (a ∷ b ∷ c ∷ d ∷ [])) < length (join_dashes (a ∷ b ∷ c ∷ d ∷ e ∷ []))
unfolding join_dashes
join_dashes-grows a b c d e = simp length-append (omega arith)

-- The name used on a collision is never the base name.
pub collision_name-ne-base_name :
    (p : NameParts) (extension base collision : Text)
    → build_remote_name p extension false ≡ ok base
    → build_remote_name p extension true ≡ ok collision
    → base ≢ collision
collision_name-ne-base_name p extension base collision hb hc same =
    let lb = ap length (build_remote_name_lem p extension false base hb) in
    let lc = ap length (build_remote_name_lem p extension true collision hc) in
    let tail = b'.' ∷ safe_extension extension in
    omega (
      arith,
      ap length same,
      lb,
      lc,
      length-append (join_dashes (name_parts p false)) tail,
      length-append (join_dashes (name_parts p true)) tail,
      join_dashes-grows (format_second p.started_at) (sanitize_segment (some (take 6 p.call_id)))
          (sanitize_segment p.caller_number) (sanitize_segment p.callee_number)
          (sanitize_segment (some (take 4 (drop 6 p.call_id)))),
    )

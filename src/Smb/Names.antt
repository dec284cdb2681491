-- ===== src/Smb/Names.antt =====
-- The names of remote directories and files (src/workers/smb_sync.py), and the names that the
-- transcript worker derives from them (src/workers/transcript_batch.py).
use zenith_voip.Prelude.{
  ℕ, ◌-◌, Bool, true, false, ◌&&◌, Option, none, some, List, [], ◌∷◌, ◌++◌, Text, codes, leb, ◌==◌,
  is_alnum, is_empty, take, drop, length, text_eq, if◌then◌else◌,
}
use zenith_voip.Prelude.Result.{Result, ok, err}
use zenith_voip.Text.{strip, is_safe, lower, two_digits, four_digits}

-- `value or default`
abbrev pub or_text : Text → Text → Text
or_text [] d = d
or_text (c ∷ s) d = c ∷ s

abbrev pub unknown : Text
unknown = codes "desconhecido"

-- `re.sub(r"[^A-Za-z0-9._-]", "_", s)`
unfoldable pub make_safe : Text → Text
make_safe [] = []
make_safe (c ∷ s) = (if is_safe c then c else b'_') ∷ make_safe s

abbrev pub text_or_empty : Option Text → Text
text_or_empty none = []
text_or_empty (some s) = s

unfoldable pub sanitize_segment : Option Text → Text
sanitize_segment value =
    let normalized = strip (text_or_empty value) in
    if is_empty normalized then unknown else or_text (take 64 (make_safe normalized)) unknown

-- A date in UTC, broken down.
pub record DateTime : Type 0 where
  pub year : ℕ
  pub month : ℕ
  pub day : ℕ
  pub hour : ℕ
  pub minute : ℕ
  pub second : ℕ

-- `%Y-%m-%d`
unfoldable pub format_day : DateTime → Text
format_day t = four_digits t.year ++ (b'-' ∷ (two_digits t.month ++ (b'-' ∷ two_digits t.day)))

-- `%Y-%m-%d-%H-%M-%S`
unfoldable pub format_second : DateTime → Text
format_second t =
    format_day t
    ++ (b'-'
        ∷ (two_digits t.hour ++ (b'-' ∷ (two_digits t.minute ++ (b'-' ∷ two_digits t.second)))))

unfoldable pub build_remote_directory : Text → DateTime → Text
build_remote_directory tenant_id started_at =
    sanitize_segment (some tenant_id) ++ (b'/' ∷ format_day started_at)

-- `"-".join(parts)`
unfoldable pub join_dashes : List Text → Text
join_dashes [] = []
join_dashes (p ∷ []) = p
join_dashes (p ∷ q ∷ ps) = p ++ (b'-' ∷ join_dashes (q ∷ ps))

-- `re.sub(r"[^A-Za-z0-9]", "", extension).lower()`
unfoldable pub safe_extension : Text → Text
safe_extension [] = []
safe_extension (c ∷ s) = let rest = safe_extension s in if is_alnum c then lower c ∷ rest else rest

pub data NameError : Type 0 where
  empty_extension : NameError

pub record NameParts : Type 0 where
  pub started_at : DateTime
  pub call_id : Text
  pub caller_number : Option Text
  pub callee_number : Option Text

abbrev pub name_parts : NameParts → Bool → List Text
name_parts p include_collision_suffix =
    format_second p.started_at
    ∷ sanitize_segment (some (take 6 p.call_id))
    ∷ sanitize_segment p.caller_number
    ∷ sanitize_segment p.callee_number
    ∷ (if include_collision_suffix
        then sanitize_segment (some (take 4 (drop 6 p.call_id))) ∷ []
        else [])

unfoldable pub build_remote_name : NameParts → Text → Bool → Result NameError Text
build_remote_name p extension include_collision_suffix =
    let safe = safe_extension extension in
    if is_empty safe
    then err empty_extension
    else ok (join_dashes (name_parts p include_collision_suffix) ++ (b'.' ∷ safe))

-- `remote_name[:-4]`
abbrev pub drop_last_four : Text → Text
drop_last_four s = take (length s - 4) s

unfoldable pub all_safe : Text → Bool
all_safe [] = true
all_safe (c ∷ s) = is_safe c && all_safe s

-- `[A-Za-z0-9._-]+\.wav`
unfoldable pub match_tail : Text → Bool
match_tail s =
    leb 5 (length s)
    && all_safe (drop_last_four s)
    && text_eq (drop (length s - 4) s) (codes ".wav")

-- `d` stands for a digit.
abbrev pub date_shape : Text
date_shape = codes "dddd-dd-dd-dd-dd-dd-"

-- `_REMOTE_WAV_PATTERN`: a date to the second, a dash, one or more characters of the safe class and
-- `.wav`. `decimal` is the pattern's `\d`, which also admits decimal digits outside ASCII.
module _ (decimal : ℕ → Bool) where
  -- What follows `\d{4}-\d{2}-\d{2}-\d{2}-\d{2}-\d{2}-`, if the text begins so.
  unfoldable pub match_shape : Text → Text → Option Text
  match_shape [] s = some s
  match_shape (p ∷ ps) [] = none
  match_shape (p ∷ ps) (c ∷ s) =
      let rest = match_shape ps s in
      if (if p == b'd' then decimal c else c == p) then rest else none

  unfoldable pub is_remote_wav : Text → Bool
  is_remote_wav s = elim (match_shape date_shape s) [ none ↦ false | some t ↦ match_tail t ]

-- `remote_name[:-4] + ".md"`
unfoldable pub remote_md_name : Text → Text
remote_md_name s = drop_last_four s ++ codes ".md"

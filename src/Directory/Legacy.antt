-- ===== src/Directory/Legacy.antt =====
-- `LegacyDirectoryProvider` (src/services/legacy_directory.py). `ET.fromstring` is a parameter:
-- `none` stands for a ParseError.
use zenith_voip.Prelude.{
  ℕ, Bool, true, false, ◌||◌, Option, none, some, List, [], ◌∷◌, ◌++◌, map, Text, codes, text_eq,
  is_empty, is_some, ◌==◌, one_of, if◌then◌else◌,
}
use zenith_voip.Prelude.Dict.{Dict, lookup, insert, contains}
use zenith_voip.Prelude.Result.{Result, ok, err, ◌>>=◌}
use zenith_voip.Prelude.Xml.{Element, tag, children, attribute, named_in, below}
use zenith_voip.Text.{strip, lower}

-- `stat_failed` is an OSError of `stat` that is no FileNotFoundError.
pub data LegacyError : Type 0 where
  unsafe_xml invalid ambiguous_user stat_failed : LegacyError

pub record LegacyUser : Type 0 where
  pub username : Text
  pub password : Text
  pub params : List (Text × Text)
  pub variables : List (Text × Text)

-- What `stat` answers for the file, and its text, if it can be read and decoded.
pub data Stat : Type 0 where
  missing denied : Stat
  modified : ℕ → Stat

pub record LegacyFile : Type 0 where
  pub stat : Stat
  pub content : Option Text

pub record Provider : Type 0 where
  pub mtime_ns : Option ℕ
  pub users : Dict LegacyUser

-- `__init__`
abbrev pub new_provider : Provider
new_provider = record { mtime_ns = none; users = [] }

abbrev pub starts_with : Text → Text → Bool
starts_with [] s = true
starts_with (c ∷ p) [] = false
starts_with (c ∷ p) (d ∷ s) = if c == d then starts_with p s else false

-- `word in text`
unfoldable pub has_word : Text → Text → Bool
has_word word [] = is_empty word
has_word word (c ∷ s) = let rest = has_word word s in starts_with word (c ∷ s) || rest

unfoldable pub is_unsafe : Text → Bool
is_unsafe raw =
    has_word (codes "<!doctype") (map lower raw) || has_word (codes "<!entity") (map lower raw)

-- The pairs of name and value of some elements.
abbrev pub pairs : List Element → List (Text × Text)
pairs = map (λ e. (attribute (codes "name") e, attribute (codes "value") e))

-- `next((value for name, value in params if name == "password"), "")`
unfoldable pub first_password : List (Text × Text) → Text
first_password [] = []
first_password ((name, v) ∷ rest) =
    if text_eq name (codes "password") then v else first_password rest

unfoldable pub user_of : Element → LegacyUser
user_of e =
    let params = pairs (named_in (codes "params") (codes "param") (children e)) in
    record {
      username = strip (attribute (codes "id") e);
      password = first_password params;
      params = params;
      variables = pairs (named_in (codes "variables") (codes "variable") (children e));
    }

-- The loop over the candidates.
unfoldable pub add_users : List Element → Dict LegacyUser → Result LegacyError (Dict LegacyUser)
add_users [] users = ok users
add_users (e ∷ es) users =
    let user = user_of e in
    let rest = add_users es (insert user.username user users) in
    if is_empty user.username || contains user.username users then err ambiguous_user else rest

unfoldable pub candidates : Element → List Element
candidates root =
    if text_eq (tag root) (codes "user") then root ∷ [] else below (codes "user") (children root)

-- `self._mtime_ns == stat.st_mtime_ns`
abbrev pub is_read_at : ℕ → Option ℕ → Bool
is_read_at m none = false
is_read_at m (some n) = n == m

module _ (fromstring : Text → Option Element) where
  unfoldable pub parse_root : Text → Result LegacyError Element
  parse_root raw = elim (fromstring raw) [
    | some root ↦ ok root
    | none ↦ elim (fromstring (codes "<legacy-directory>" ++ raw ++ codes "</legacy-directory>")) [
      | some root ↦ ok root
      | none ↦ err invalid
    ]
  ]

  -- The users of the file's text.
  unfoldable pub read_users : Option Text → Result LegacyError (Dict LegacyUser)
  read_users none = err invalid
  read_users (some raw) =
      if is_unsafe raw
      then err unsafe_xml
      else parse_root raw >>= λ root. add_users (candidates root) []

  -- `_refresh`
  unfoldable pub refresh : LegacyFile → Provider → Result LegacyError (Unit {0}) × Provider
  refresh file p = elim file.stat [
    | missing ↦ (ok tt, new_provider)
    | denied ↦ (err stat_failed, p)
    | modified m ↦ if is_read_at m p.mtime_ns then (ok tt, p) else elim (read_users file.content) [
      | err e ↦ (err e, p)
      | ok users ↦ (ok tt, record { mtime_ns = some m; users = users })
    ]
  ]

  -- `lookup`
  unfoldable pub lookup_user :
      LegacyFile → Text → Provider → Result LegacyError (Option LegacyUser) × Provider
  lookup_user file username p =
      let (r, p') = refresh file p in ((r >>= λ _. ok (lookup username p'.users)), p')

  -- `contains`
  unfoldable pub contains_user :
      LegacyFile → Text → Text → Provider → Result LegacyError Bool × Provider
  contains_user file profile username p =
      let (r, p') = lookup_user file username p in
      if one_of profile (codes "internal" ∷ codes "internal-7060" ∷ codes "internal-5062" ∷ [])
      then ((r >>= λ u. ok (is_some u)), p')
      else (ok false, p)

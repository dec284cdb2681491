-- ===== src/Smb/Share.antt =====
-- The SMB client library, as src/workers/smb_sync.py uses it: what a call that answers has done, and
-- that a call which raises has changed no file but the one that it writes.
use zenith_voip.Prelude.{
  ◌≡◌, ◌≢◌, Bool, ◌||◌, Option, some, List, [], ◌∷◌, ◌++◌, Text, ◌==◌, is_empty, is_some,
  if◌then◌else◌,
}
use zenith_voip.Prelude.Result.{Result, ok}
use mathlib.Core.List.{reverse}

-- `OSError` and its subclasses, the worker's two own exceptions, and any other that a call may raise.
pub data Failure : Type 0 where
  os_error remote_collision other_failure : Failure

-- `part.strip("/\\")`
unfoldable pub lstrip_slashes : Text → Text
lstrip_slashes [] = []
lstrip_slashes (c ∷ s) = if c == b'/' || c == b'\\' then lstrip_slashes s else c ∷ s

unfoldable pub strip_slashes : Text → Text
unfolding lstrip_slashes
strip_slashes s = reverse (lstrip_slashes (reverse (lstrip_slashes s)))

unfoldable pub join_nonempty : List Text → Text
join_nonempty [] = []
join_nonempty (p ∷ ps) =
    let rest = join_nonempty ps in
    if is_empty p then rest else if is_empty rest then p else p ++ (b'/' ∷ rest)

unfoldable pub strip_all : List Text → List Text
strip_all [] = []
strip_all (p ∷ ps) = strip_slashes p ∷ strip_all ps

-- `_join_path`
unfoldable pub join_path : List Text → Text
join_path parts = join_nonempty (strip_all parts)

abbrev pub path : Text → Text → Text
path dir name = join_path (dir ∷ name ∷ [])

pub record Share : Type 1 where
  pub State : Type 0
  -- the content of the file at a path
  pub view : State → Text → Option Text
  -- `SMBConnection(…).connect` and the creation of each directory of a path
  pub open_directory : Text → State → Result Failure (Unit {0}) × State
  pub list_path : Text → State → Result Failure (Text → Bool) × State
  pub retrieve_file : Text → State → Result Failure Text × State
  -- all the calls of `storeFileFromOffset` for one file
  pub store_file : Text → Text → State → Result Failure (Unit {0}) × State
  pub rename : Text → Text → State → Result Failure (Unit {0}) × State
  pub delete_files : Text → State → Result Failure (Unit {0}) × State
  pub open_keeps : (dir : Text) (s : State) (p : Text) → view (open_directory dir s).1 p ≡ view s p
  pub list_keeps : (dir : Text) (s : State) (p : Text) → view (list_path dir s).1 p ≡ view s p
  pub list_ok :
      (dir : Text) (s : State) (names : Text → Bool)
      → (list_path dir s).0 ≡ ok names
      → (n : Text) → names n ≡ is_some (view s (path dir n))
  pub retrieve_keeps : (p : Text) (s : State) (q : Text) → view (retrieve_file p s).1 q ≡ view s q
  pub retrieve_ok :
      (p : Text) (s : State) (c : Text) → (retrieve_file p s).0 ≡ ok c → view s p ≡ some c
  pub store_keeps :
      (p c : Text) (s : State) (q : Text) → q ≢ p → view (store_file p c s).1 q ≡ view s q
  pub rename_keeps :
      (p q : Text) (s : State) (r : Text) → r ≢ p → r ≢ q → view (rename p q s).1 r ≡ view s r
  pub delete_keeps :
      (p : Text) (s : State) (q : Text) → q ≢ p → view (delete_files p s).1 q ≡ view s q

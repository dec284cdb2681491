-- ===== src/Smb/Publish.antt =====
-- `SMBBackupStrategy.publish` and what it calls (src/workers/smb_sync.py), over any share.
pub mod Steps
pub mod Safety
pub mod Retry
pub mod Examples
mod Tests
use zenith_voip.Prelude.{
  ℕ, Bool, true, false, not, ◌||◌, Option, none, some, List, [], ◌∷◌, ◌++◌, Text, codes, text_eq,
  if◌then◌else◌, length,
}
use zenith_voip.Prelude.Result.{Result, ok, err}
use zenith_voip.Smb.Share.{
  Share, Failure, os_error, remote_collision, other_failure, path, join_path,
}

pub record Published : Type 0 where
  pub sha256 : Text
  pub remote_name : Text
  pub idempotent : Bool

-- `remote_sha == expected`, where there may be no remote file
abbrev pub has_sha : Option Text → Text → Bool
has_sha none sha = false
has_sha (some t) sha = text_eq t sha

-- `sha is None or sha == local_sha256`
abbrev pub is_usable : Option Text → Text → Bool
is_usable none sha = true
is_usable (some t) sha = text_eq t sha

-- `sha` stands for `hashlib.sha256(…).hexdigest()`.
module _ (share : Share) (sha : Text → Text) where
  open share use {State, open_directory, list_path, retrieve_file, store_file, rename, delete_files}

  abbrev pub M : Type 0 → Type 0
  M A = State → Result Failure A × State

  abbrev pub pure : {A : Type 0} → A → M A
  pure a s = (ok a, s)

  abbrev pub raise : {A : Type 0} → Failure → M A
  raise e s = (err e, s)

  infixl 5 ◌>>=◌ ◌>>◌
  abbrev pub ◌>>=◌ : {A B : Type 0} → M A → (A → M B) → M B
  ◌>>=◌ m f s = elim (m s).0 [ ok a ↦ f a (m s).1 | err e ↦ (err e, (m s).1) ]

  abbrev pub ◌>>◌ : {B : Type 0} → M (Unit {0}) → M B → M B
  m >> k = m >>= λ _. k

  -- `_remote_sha`
  unfoldable pub remote_sha : Text → Text → M (Option Text)
  remote_sha dir name = do
    names ← list_path dir
    if names name
        then (do content ← retrieve_file (path dir name); pure (some (sha content)))
        else pure none

  unfoldable pub resolve_remote_name : Text → Text → Text → Text → M Text
  resolve_remote_name dir base collision local_sha = do
    base_sha ← remote_sha dir base
    if is_usable base_sha local_sha then pure base else do
      collision_sha ← remote_sha dir collision
      if is_usable collision_sha local_sha then pure collision else raise remote_collision

  unfoldable pub verify_remote_temporary_and_rename : Text → Text → Text → M (Unit {0})
  verify_remote_temporary_and_rename temporary final expected = do
    content ← retrieve_file temporary
    if text_eq (sha content) expected
        then rename temporary final
        else (do delete_files temporary; raise os_error)

  abbrev pub temporary_path : Text → Text → Text
  temporary_path dir name = path dir name ++ codes ".tmp"

  -- The part of `publish` from the assignment of `tmp_path` on.
  unfoldable pub transfer : Text → Text → Text → M Published
  transfer local dir name = do
    store_file (temporary_path dir name) local
    verify_remote_temporary_and_rename (temporary_path dir name) (path dir name) (sha local)
    remote ← remote_sha dir name
    if has_sha remote (sha local)
        then pure (record { sha256 = sha local; remote_name = name; idempotent = false })
        else (do delete_files (path dir name); raise os_error)

  -- `except Exception`: the temporary object is removed if it can be, and the failure goes on.
  unfoldable pub or_clean_up : Text → M Published → M Published
  or_clean_up temporary m s = elim (m s).0 [
    | ok r ↦ (ok r, (m s).1)
    | err e ↦ (err e, (delete_files temporary (m s).1).1)
  ]

  unfoldable pub publish : Text → Text → Text → Text → M Published
  publish local dir base collision = do
    open_directory dir
    name ← resolve_remote_name dir base collision (sha local)
    existing ← remote_sha dir name
    if has_sha existing (sha local)
        then pure (record { sha256 = sha local; remote_name = name; idempotent = true })
        else or_clean_up (temporary_path dir name) (transfer local dir name)

-- ===== src/Transcript/Publisher.antt =====
-- What the transcript worker asks of the SMB strategy (`list_names` and `publish` of
-- src/workers/smb_sync.py): the interface, and its implementation over a share.
use zenith_voip.Prelude.{[], ◌∷◌, ◌≡◌, Bool, some, Text, codes, arith, ◌⊎◌, inl, inr, ◌∙◌}
use zenith_voip.Prelude.Result.{Result, ok, err, Result-cases}
use zenith_voip.Workers.{Failure, caught, uncaught}
use zenith_voip.Smb.Share as Share
use zenith_voip.Smb.Share.{Share, os_error, remote_collision, other_failure, join_path, path}
use zenith_voip.Smb.Publish.{Published, publish}
use zenith_voip.Smb.Publish.Safety.{publish-ok}
use zenith_voip.Smb.Publish.Steps.{sha_of}

pub record Publisher : Type 1 where
  pub State : Type 0
  pub list_names : Text → State → Result Failure (Text → Bool) × State
  pub publish_text : Text → Text → Text → Text → State → Result Failure Published × State
  -- under a name in a directory there is a file with the hash of a content
  pub Holds : State → Text → Text → Text → Type 0
  pub list_keeps :
      (dir : Text) (s : State) (d n c : Text) → Holds s d n c → Holds (list_names dir s).1 d n c
  pub publish_text-ok :
      (content dir base collision : Text) (s : State) (r : Published)
      → (publish_text content dir base collision s).0 ≡ ok r
      → Holds (publish_text content dir base collision s).1 dir r.remote_name content
        × ((r.remote_name ≡ base) ⊎ (r.remote_name ≡ collision))

-- The exceptions by their names: a collision is a RuntimeError.
abbrev pub failure_of : Share.Failure → Failure
failure_of os_error = caught (codes "OSError")
failure_of remote_collision = caught (codes "RemoteCollisionError")
failure_of other_failure = uncaught (codes "Exception")

abbrev pub lift : {A : Type 0} → Result Share.Failure A → Result Failure A
lift (ok a) = ok a
lift (err e) = err (failure_of e)

pub lift-ok : {A : Type 0} (r : Result Share.Failure A) (a : A) → lift r ≡ ok a → r ≡ ok a
lift-ok (ok b) a h = ground (arith, h)
lift-ok (err e) a h = absurd (ground (arith, h))

-- `sha` is the hash of a content and `root` the path SMB_PATH of the share.
module _ (share : Share) (sha : Text → Text) (root : Text) where
  open share use {State, view, open_directory, list_path, open_keeps, list_keeps}

  abbrev pub full : Text → Text
  full dir = join_path (root ∷ dir ∷ [])

  -- `list_names`
  unfoldable pub list_names : Text → State → Result Failure (Text → Bool) × State
  list_names dir s =
      let (opened, s1) = open_directory (full dir) s in
      elim opened [
        | err e ↦ (err (failure_of e), s1)
        | ok _ ↦ let (names, s2) = list_path (full dir) s1 in (lift names, s2)
      ]

  pub list_names_keeps :
      (dir : Text) (s : State) (p : Text) → view (list_names dir s).1 p ≡ view s p
  unfolding list_names
  list_names_keeps dir s p = elim (Result-cases (open_directory (full dir) s).0) [
    | inr (e, h) ↦ rw (h, list_names) (open_keeps (full dir) s p)
    | inl (u, h) ↦
        rw (h, list_names)
          (list_keeps (full dir) (open_directory (full dir) s).1 p ∙ open_keeps (full dir) s p)
  ]

  abbrev pub smb_publisher : Publisher
  smb_publisher = record {
    State = State;
    list_names = list_names;
    publish_text = λ content dir base collision s.
        let (r, s') = publish share sha content (full dir) base collision s in (lift r, s');
    Holds = λ s d n c. sha_of sha (view s (path (full d) n)) ≡ some (sha c);
    list_keeps = λ dir s d n c h. rw (list_names_keeps dir s (path (full d) n)) h;
    publish_text-ok = λ content dir base collision s r h.
        let (name, held) =
          publish-ok share sha content (full dir) base collision s r (lift-ok _ r h) in
        (held, name);
  }

-- ===== src/Smb/Publish/Safety.antt =====
-- `publish` harms no file that was there before, and what it reports is on the share.
use zenith_voip.Prelude.{
  ◌≡◌, ◌≢◌, ap, ◌∙◌, ◌⊎◌, inl, inr, true, false, Option, none, some, Text, text_eq, text_eq_iff,
  arith, Bool-cases,
}
use zenith_voip.Prelude.Result.{ok, Result-cases}
use zenith_voip.Smb.Share.{Share, path}
use zenith_voip.Smb.Publish.{
  Published, has_sha, is_usable, remote_sha, resolve_remote_name, temporary_path, transfer, publish,
}
use zenith_voip.Smb.Publish.Steps.{
  sha_of, remote_sha-keeps, remote_sha-ok, resolve-keeps, resolve-ok, transfer-keeps,
  or_clean_up-keeps, transfer-ok, or_clean_up-ok,
}

module _ (share : Share) (sha : Text → Text) where
  open share use {
    State, view, open_directory, list_path, retrieve_file, store_file, rename, delete_files,
    open_keeps, list_keeps, list_ok, retrieve_keeps, retrieve_ok, store_keeps, rename_keeps,
    delete_keeps,
  }

  -- A name under which nothing else is stored: an object that is stored there has the local hash.
  existing_lem :
      (dir name local_sha : Text) (s : State) (r : Option Text)
      → is_usable (sha_of sha (view s (path dir name))) local_sha ≡ true
      → (remote_sha share sha dir name s).0 ≡ ok r
      → has_sha r local_sha ≡ false
      → view s (path dir name) ≡ none
  existing_lem dir name local_sha s r u h n = ground (arith, remote_sha-ok share sha dir name s r h)

  temporary-ne :
      (dir base collision name p : Text)
      → (name ≡ base) ⊎ (name ≡ collision)
      → p ≢ temporary_path share sha dir base
      → p ≢ temporary_path share sha dir collision
      → p ≢ temporary_path share sha dir name
  temporary-ne dir base collision name p (inl e) nb nc = rw e nb
  temporary-ne dir base collision name p (inr e) nb nc = rw e nc

  view-ne : (s : State) (p q c : Text) → view s p ≡ some c → view s q ≡ none → p ≢ q
  view-ne s p q c h n e = cc (ap (view s) e)

  -- Whatever fails, and wherever: a file that was on the share before keeps its content, unless it
  -- stands at the temporary path of one of the two names.
  pub publish-keeps :
      (local dir base collision : Text) (s : State) (p c : Text)
      → view s p ≡ some c
      → p ≢ temporary_path share sha dir base
      → p ≢ temporary_path share sha dir collision
      → view (publish share sha local dir base collision s).1 p ≡ some c
  unfolding publish
  publish-keeps local dir base collision s p c h nb nc =
      let s1 = (open_directory dir s).1 in
      let s2 = (resolve_remote_name share sha dir base collision (sha local) s1).1 in
      let v1 = open_keeps dir s p in
      let v2 = resolve-keeps share sha dir base collision (sha local) s1 p in
      elim (Result-cases (resolve_remote_name share sha dir base collision (sha local) s1).0) [
        | inl (name, e) ↦
            let s3 = (remote_sha share sha dir name s2).1 in
            let v3 = remote_sha-keeps share sha dir name s2 p in
            let ok_name = resolve-ok share sha dir base collision (sha local) s1 name e in
            elim (Result-cases (remote_sha share sha dir name s2).0) [
              | inl (r, f) ↦ elim (Bool-cases (has_sha r (sha local))) [
                | inl same ↦ ground (arith, v1, v2, v3, e, f)
                | inr new ↦
                    let at_final =
                      resolve-keeps share sha dir base collision (sha local) s1 (path dir name) in
                    let free =
                      existing_lem dir name (sha local) s2 r (rw at_final ok_name.1) f new in
                    let there : view s2 p ≡ some c = v2 ∙ v1 ∙ h in
                    let nt = temporary-ne dir base collision name p ok_name.0 nb nc in
                    let moved =
                      transfer-keeps share sha local dir name s3 p nt
                        (view-ne s2 p (path dir name) c there free) in
                    let kept =
                      or_clean_up-keeps share sha (temporary_path share sha dir name)
                        (transfer share sha local dir name) s3 p nt moved in
                    ground (arith, v1, v2, v3, e, f, kept)
              ]
              | inr (x, f) ↦ ground (arith, v1, v2, v3, e, f)
            ]
        | inr (x, e) ↦ ground (arith, v1, v2, e)
      ]

  -- A publication that answers reports one of the two names, and under that name the share holds
  -- content with the hash of the local file.
  pub publish-ok :
      (local dir base collision : Text) (s : State) (r : Published)
      → (publish share sha local dir base collision s).0 ≡ ok r
      → ((r.remote_name ≡ base) ⊎ (r.remote_name ≡ collision))
        × (sha_of sha
              (view (publish share sha local dir base collision s).1 (path dir r.remote_name))
            ≡ some (sha local))
  unfolding publish
  publish-ok local dir base collision s r h =
      let s1 = (open_directory dir s).1 in
      let s2 = (resolve_remote_name share sha dir base collision (sha local) s1).1 in
      elim (Result-cases (resolve_remote_name share sha dir base collision (sha local) s1).0) [
        | inl (name, e) ↦
            let s3 = (remote_sha share sha dir name s2).1 in
            let v3 = remote_sha-keeps share sha dir name s2 (path dir name) in
            let ok_name = resolve-ok share sha dir base collision (sha local) s1 name e in
            elim (Result-cases (remote_sha share sha dir name s2).0) [
              | inl (none, f) ↦
                  let moved = transfer-ok share sha local dir name s3 r in
                  let clean =
                    or_clean_up-ok share sha (temporary_path share sha dir name)
                      (transfer share sha local dir name) s3 r (ground arith) in
                  let kept = clean.1 (path dir name) in
                  ground (arith, e, f, ok_name, moved, clean.0, kept)
              | inl (some t, f) ↦
                  let found = remote_sha-ok share sha dir name s2 (some t) f in
                  let iff = text_eq_iff t (sha local) in
                  elim (Bool-cases (text_eq t (sha local))) [
                    | inl same ↦ ground (arith, e, f, ok_name, found, iff, v3)
                    | inr new ↦
                        let moved = transfer-ok share sha local dir name s3 r in
                        let clean =
                          or_clean_up-ok share sha (temporary_path share sha dir name)
                            (transfer share sha local dir name) s3 r (ground arith) in
                        let kept = clean.1 (path dir name) in
                        ground (arith, e, f, ok_name, moved, clean.0, kept)
                  ]
              | inr (x, f) ↦ absurd (ground arith)
            ]
        | inr (x, e) ↦ absurd (ground arith)
      ]

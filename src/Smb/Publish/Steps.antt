-- ===== src/Smb/Publish/Steps.antt =====
-- What each part of `publish` leaves on the share, and what its answer says about it.
use zenith_voip.Prelude.{
  ◌≡◌, ◌≢◌, ◌⊎◌, inl, inr, true, Option, none, some, Text, text_eq_iff, arith,
}
use zenith_voip.Prelude.Result.{ok, Result-cases}
use zenith_voip.Smb.Share.{Share, path}
use zenith_voip.Smb.Publish.{
  Published, is_usable, M, remote_sha, resolve_remote_name, verify_remote_temporary_and_rename,
  temporary_path, transfer, or_clean_up,
}

abbrev pub sha_of : (Text → Text) → Option Text → Option Text
sha_of sha none = none
sha_of sha (some c) = some (sha c)

module _ (share : Share) (sha : Text → Text) where
  open share use {
    State, view, open_directory, list_path, retrieve_file, store_file, rename, delete_files,
    open_keeps, list_keeps, list_ok, retrieve_keeps, retrieve_ok, store_keeps, rename_keeps,
    delete_keeps,
  }

  pub remote_sha-keeps :
      (dir name : Text) (s : State) (p : Text)
      → view (remote_sha share sha dir name s).1 p ≡ view s p
  unfolding remote_sha
  remote_sha-keeps dir name s p =
      ground (arith, list_keeps dir s p, retrieve_keeps (path dir name) (list_path dir s).1 p)

  pub remote_sha-ok :
      (dir name : Text) (s : State) (r : Option Text)
      → (remote_sha share sha dir name s).0 ≡ ok r
      → r ≡ sha_of sha (view s (path dir name))
  unfolding remote_sha
  remote_sha-ok dir name s r h = elim (Result-cases (list_path dir s).0) [
    | inl (names, e) ↦ elim (Result-cases (retrieve_file (path dir name) (list_path dir s).1).0) [
      | inl (c, f) ↦ ground (
        arith,
        e,
        f,
        list_ok dir s names e name,
        retrieve_ok (path dir name) (list_path dir s).1 c f,
        list_keeps dir s (path dir name),
      )
      | inr (x, f) ↦ ground (arith, e, f, list_ok dir s names e name)
    ]
    | inr (x, e) ↦ ground arith
  ]

  pub resolve-keeps :
      (dir base collision local_sha : Text) (s : State) (p : Text)
      → view (resolve_remote_name share sha dir base collision local_sha s).1 p ≡ view s p
  unfolding resolve_remote_name
  resolve-keeps dir base collision local_sha s p = ground (
    arith,
    remote_sha-keeps dir base s p,
    remote_sha-keeps dir collision (remote_sha share sha dir base s).1 p,
  )

  -- The name that is resolved is one of the two, and nothing else is stored under it.
  pub resolve-ok :
      (dir base collision local_sha : Text) (s : State) (name : Text)
      → (resolve_remote_name share sha dir base collision local_sha s).0 ≡ ok name
      → ((name ≡ base) ⊎ (name ≡ collision))
        × (is_usable (sha_of sha (view s (path dir name))) local_sha ≡ true)
  unfolding resolve_remote_name
  resolve-ok dir base collision local_sha s name h =
      elim (Result-cases (remote_sha share sha dir base s).0) [
        | inl (b, e) ↦
            let s' = (remote_sha share sha dir base s).1 in
            let be = remote_sha-ok dir base s b e in
            elim (Result-cases (remote_sha share sha dir collision s').0) [
              | inl (c, f) ↦
                  let ce = remote_sha-ok dir collision s' c f in
                  ground (arith, e, f, be, ce, remote_sha-keeps dir base s (path dir collision))
              | inr (x, f) ↦ ground (arith, e, f, be)
            ]
        | inr (x, e) ↦ ground arith
      ]

  verify-keeps :
      (temporary final expected : Text) (s : State) (p : Text)
      → p ≢ temporary
      → p ≢ final
      → view (verify_remote_temporary_and_rename share sha temporary final expected s).1 p
        ≡ view s p
  unfolding verify_remote_temporary_and_rename
  verify-keeps temporary final expected s p nt nf =
      let s' = (retrieve_file temporary s).1 in
      ground (
        arith,
        retrieve_keeps temporary s p,
        rename_keeps temporary final s' p nt nf,
        delete_keeps temporary s' p nt,
      )

  pub transfer-keeps :
      (local dir name : Text) (s : State) (p : Text)
      → p ≢ temporary_path share sha dir name
      → p ≢ path dir name
      → view (transfer share sha local dir name s).1 p ≡ view s p
  unfolding transfer
  transfer-keeps local dir name s p nt nf =
      let temporary = temporary_path share sha dir name in
      let s1 = (store_file temporary local s).1 in
      let s2 =
        (verify_remote_temporary_and_rename share sha temporary (path dir name) (sha local) s1).1 in
      let s3 = (remote_sha share sha dir name s2).1 in
      ground (
        arith,
        store_keeps temporary local s p nt,
        verify-keeps temporary (path dir name) (sha local) s1 p nt nf,
        remote_sha-keeps dir name s2 p,
        delete_keeps (path dir name) s3 p nf,
      )

  pub or_clean_up-keeps :
      (temporary : Text) (m : M share sha Published) (s : State) (p : Text)
      → p ≢ temporary
      → view (m s).1 p ≡ view s p
      → view (or_clean_up share sha temporary m s).1 p ≡ view s p
  unfolding or_clean_up
  or_clean_up-keeps temporary m s p nt h = ground (arith, delete_keeps temporary (m s).1 p nt)

  -- What a transfer that answers reports is stored, byte for byte up to the hash.
  pub transfer-ok :
      (local dir name : Text) (s : State) (r : Published)
      → (transfer share sha local dir name s).0 ≡ ok r
      → (r.remote_name ≡ name)
        × (sha_of sha (view (transfer share sha local dir name s).1 (path dir name))
            ≡ some (sha local))
  unfolding transfer
  transfer-ok local dir name s r h =
      let temporary = temporary_path share sha dir name in
      let s1 = (store_file temporary local s).1 in
      let s2 =
        (verify_remote_temporary_and_rename share sha temporary (path dir name) (sha local) s1).1 in
      elim (Result-cases (remote_sha share sha dir name s2).0) [
        | inl (none, e) ↦ absurd (ground arith)
        | inl (some t, e) ↦ ground (
          arith,
          e,
          text_eq_iff t (sha local),
          remote_sha-ok dir name s2 (some t) e,
          remote_sha-keeps dir name s2 (path dir name),
        )
        | inr (x, e) ↦ absurd (ground arith)
      ]

  pub or_clean_up-ok :
      (temporary : Text) (m : M share sha Published) (s : State) (r : Published)
      → (or_clean_up share sha temporary m s).0 ≡ ok r
      → ((m s).0 ≡ ok r)
        × ((q : Text) → view (or_clean_up share sha temporary m s).1 q ≡ view (m s).1 q)
  unfolding or_clean_up
  or_clean_up-ok temporary m s r h = elim (Result-cases (m s).0) [
    | inl (a, e) ↦ (ground arith, λ q. ground arith)
    | inr (x, e) ↦ absurd (ground arith)
  ]

-- ===== src/Smb/Temporaries/Keeps.antt =====
-- What the cleanup of remote temporaries does not touch.
use zenith_voip.Prelude.{
  ℕ, ◌≡◌, ◌≢◌, refl, ◌⊎◌, inl, inr, Bool, true, false, Option, none, some, ◌+◌, ◌*◌, ◌<◌, List, [],
  ◌∷◌, All, Text, arith, Bool-cases,
}
use zenith_voip.Prelude.Dict.{Dict, lookup}
use zenith_voip.Prelude.Result.{Result, ok, err, Result-cases}
use zenith_voip.Lease.Python.{Runtime}
use zenith_voip.Smb.Share.{Share, Failure, path}
use zenith_voip.Smb.Temporaries.{
  Decision, note, remove, parse_datetime, object_name, decide, noted, clean_names,
  cleanup_remote_temporaries,
}

abbrev pub removes : Decision → Bool
removes (note t) = false
removes remove = true

Decision-cases : (d : Decision) → ((t : Text) × (d ≡ note t)) ⊎ (d ≡ remove)
Decision-cases (note t) = inl (t, refl)
Decision-cases remove = inr refl

module _ (share : Share) (rt : Runtime) (now round_seconds : ℕ) (dir : Text) where
  open share use {
    State, view, open_directory, list_path, delete_files, open_keeps, list_keeps, delete_keeps,
  }

  -- The log has no time at which the object was first seen, or less than a round has gone by since.
  abbrev pub IsEarly : Option Text → Type 0
  IsEarly candidate =
      (parse_datetime rt candidate ≡ none)
      ⊎ ((first : ℕ) × (parse_datetime rt candidate ≡ some first)
          × (now < first + round_seconds * 1_000_000))

  early-kept :
      (candidate : Option Text)
      → IsEarly candidate
      → removes (decide rt now round_seconds candidate) ≡ false
  unfolding decide
  early-kept candidate (inl h) = ground (arith, h)
  early-kept candidate (inr (first, h, early)) = ground (arith, h, early)

  -- The file is not the temporary object of the name, or that object was first seen too late.
  abbrev pub Spared : Dict Text → Text → Text → Type 0
  Spared candidates p n =
      (p ≢ path dir (object_name n)) ⊎ IsEarly (lookup (object_name n) candidates)

  noted-state :
      (n t : Text) (x : Result Failure (Dict Text) × State)
      → (noted share rt now round_seconds dir n t x).1 ≡ x.1
  noted-state n t (ok d, s) = refl
  noted-state n t (err e, s) = refl

  clean_names-keeps :
      (names : Text → Bool) (candidates : Dict Text) (ns : List Text) (s : State) (p : Text)
      → All (Spared candidates p) ns
      → view (clean_names share rt now round_seconds dir names candidates ns s).1 p ≡ view s p
  unfolding clean_names
  clean_names-keeps names candidates [] s p h = refl
  clean_names-keeps names candidates (n ∷ ns) s p h = elim (Bool-cases (names (object_name n))) [
    | inr absent ↦ ground (arith, absent, clean_names-keeps names candidates ns s p h.1)
    | inl listed ↦
        elim (Decision-cases (decide rt now round_seconds (lookup (object_name n) candidates))) [
          | inl (t, d) ↦
              let rest = clean_names share rt now round_seconds dir names candidates ns s in
              ground (
                arith,
                listed,
                d,
                noted-state n t rest,
                clean_names-keeps names candidates ns s p h.1,
              )
          | inr d ↦
              let deleted = delete_files (path dir (object_name n)) s in
              let apart : p ≢ path dir (object_name n) = elim h.0 [
                | inl ne ↦ ne
                | inr early ↦
                    let kept = early-kept (lookup (object_name n) candidates) early in
                    absurd (ground (arith, d, kept))
              ] in
              let same = delete_keeps (path dir (object_name n)) s p apart in
              elim (Result-cases deleted.0) [
                | inr (e, f) ↦ ground (arith, listed, d, f, same)
                | inl (tt, f) ↦ ground (
                  arith,
                  listed,
                  d,
                  f,
                  same,
                  clean_names-keeps names candidates ns deleted.1 p h.1,
                )
              ]
        ]
  ]

  -- However it ends, a cleanup of remote temporaries changes no file but the temporary objects of the
  -- expected names, and of these none of which the log has no time that can be read, or one less than
  -- `round_seconds` seconds ago.
  pub cleanup_remote_temporaries-keeps :
      (expected : List Text) (candidates : Dict Text) (s : State) (p : Text)
      → All (Spared candidates p) expected
      → view (cleanup_remote_temporaries share rt now round_seconds dir expected candidates s).1 p
        ≡ view s p
  unfolding cleanup_remote_temporaries
  cleanup_remote_temporaries-keeps expected candidates s p h =
      let opened = open_directory dir s in
      let listed = list_path dir opened.1 in
      let same = open_keeps dir s p in
      let same' = list_keeps dir opened.1 p in
      elim (Result-cases opened.0) [
        | inr (e, f) ↦ ground (arith, f, same)
        | inl (tt, f) ↦ elim (Result-cases listed.0) [
          | inr (e, g) ↦ ground (arith, f, g, same, same')
          | inl (names, g) ↦
              ground
                (arith, f, g, same, same', clean_names-keeps names candidates expected listed.1 p h)
        ]
      ]

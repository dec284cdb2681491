-- ===== src/Smb/Call/Strategy.antt =====
-- The strategy that the backup publishes through: `publish` over a share, with the retries of
-- `_publish_with_retry` (src/workers/smb_sync.py).
use zenith_voip.Prelude.{ℕ, ◌≡◌, refl, inl, inr, ◌⊎◌, some, List, [], ◌∷◌, Text, arith}
use zenith_voip.Prelude.Result.{Result, ok, Result-cases}
use zenith_voip.Smb.Share.{Share, Failure, os_error, remote_collision, other_failure, path}
use zenith_voip.Smb.Publish.{Published, publish}
use zenith_voip.Smb.Publish.Retry.{retry_delays_seconds, retry, publish_with_retry}
use zenith_voip.Smb.Publish.Safety.{publish-ok}
use zenith_voip.Smb.Publish.Steps.{sha_of}
use zenith_voip.Transcript.Publisher.{Publisher, lift, lift-ok, full, list_names, list_names_keeps}

-- The answer of a retry is that of one of its attempts.
retry-ok :
    {S A : Type 0} (attempt : S → Result Failure A × S) (ds : List ℕ) (s : S) (a : A)
    → (retry attempt ds s).0 ≡ ok a
    → (t : S) × ((attempt t).0 ≡ ok a) × ((retry attempt ds s).1 ≡ (attempt t).1)
unfolding retry
retry-ok attempt [] s a h = (s, h, refl)
retry-ok attempt (d ∷ ds) s a h = elim (Result-cases (attempt s).0) [
  | inl (b, e) ↦ (s, ground (arith, e, h), ground (arith, e))
  | inr (os_error, e) ↦
      let (t, f, g) = retry-ok attempt ds (attempt s).1 a (ground (arith, e, h)) in
      (t, f, ground (arith, e, g))
  | inr (remote_collision, e) ↦ absurd (ground (arith, e, h))
  | inr (other_failure, e) ↦ absurd (ground (arith, e, h))
]

module _ (share : Share) (sha : Text → Text) (root : Text) where
  open share use {State, view}

  abbrev pub with_retries : Text → Text → Text → Text → State → Result Failure Published × State
  with_retries content dir base other_name s =
      let o =
        publish_with_retry (publish share sha content (full share sha root dir) base other_name)
          s in
      (o.0, o.1)

  pub with_retries-ok :
      (content dir base other_name : Text) (s : State) (r : Published)
      → lift (with_retries content dir base other_name s).0 ≡ ok r
      → (sha_of sha (
            view
              (with_retries content dir base other_name s).1
              (path (full share sha root dir) r.remote_name))
          ≡ some (sha content))
        × ((r.remote_name ≡ base) ⊎ (r.remote_name ≡ other_name))
  unfolding publish_with_retry
  with_retries-ok content dir base other_name s r h =
      let attempt = publish share sha content (full share sha root dir) base other_name in
      let (t, e, same) = retry-ok attempt retry_delays_seconds s r (lift-ok _ r h) in
      let (name, held) =
        publish-ok share sha content (full share sha root dir) base other_name t r e in
      (rw same held, name)

  abbrev pub backup_publisher : Publisher
  backup_publisher = record {
    State = State;
    list_names = list_names share sha root;
    publish_text = λ content dir base other_name s.
        let (r, s') = with_retries content dir base other_name s in (lift r, s');
    Holds = λ s d n c. sha_of sha (view s (path (full share sha root d) n)) ≡ some (sha c);
    list_keeps = λ dir s d n c h.
        rw (list_names_keeps share sha root dir s (path (full share sha root d) n)) h;
    publish_text-ok = with_retries-ok;
  }

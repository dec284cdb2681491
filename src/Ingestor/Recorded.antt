-- ===== src/Ingestor/Recorded.antt =====
-- What the frames of a stream hold is what the raw files of its two channels hold in the end.
use zenith_voip.Prelude.{
  ◌≡◌, refl, sym, ap, ◌∙◌, Bool, true, false, Option, none, some, List, [], ◌∷◌, ◌++◌, Text, codes,
  if◌then◌else◌, text_eq, text_eq_refl, one_of, append_assoc, arith, inl, inr,
}
use zenith_voip.Prelude.Dict.{Dict, contains, lookup, insert, erase, lookup-insert, lookup-erase}
use zenith_voip.Prelude.Result.{ok, Result-cases}
use zenith_voip.Capacity.{reserve}
use zenith_voip.Capacity.Disk.{DiskState}
use zenith_voip.Lease.{acquire_lease, release_lease, lease_busy, invalid_stage, attribute_error}
use zenith_voip.Lease.Python.{Runtime}
use zenith_voip.Esl.Handlers.{Metadata}
use zenith_voip.Ingestor.{
  Recording, Ingestor, Moment, put_at, call_dir, capture_request, start_recording, take_capture,
  content, temporary_name, raw_name, publish_channels, finalize_stream, write_frame,
}
use zenith_voip.Ingestor.Frames.{
  Stereo, frame, tx_bytes, rx_bytes, write_frames, tx_all, rx_all, tx, rx, Holds, write_frame-Holds,
  write_frames-Holds, write_frames-uploads,
}

-- A new recording whose directory has these temporary files.
take_capture-Holds :
    (rt : Runtime) (m : Moment) (id dir : Text) (w : Ingestor) (a b : Option Text)
    → (take_capture rt m id dir w).0 ≡ ok true
    → lookup (temporary_name tx) (w.files dir) ≡ a
    → lookup (temporary_name rx) (w.files dir) ≡ b
    → Holds id dir [] a b (take_capture rt m id dir w).1
      × ((take_capture rt m id dir w).1.uploads ≡ w.uploads)
unfolding take_capture
take_capture-Holds rt m id dir w a b fine on_tx on_rx =
    elim (Result-cases (acquire_lease rt (capture_request m id) (w.leases dir)).0) [
      | inl (l, e) ↦
          let r : Recording = record {
            directory = dir;
            lease_owner = l.owner;
            handles = [];
            failed_channels = [];
          } in
          let taken : (take_capture rt m id dir w).1 ≡ record w {
            leases = put_at dir (acquire_lease rt (capture_request m id) (w.leases dir)).1 w.leases;
            recordings = insert id r w.recordings;
          } =
            unfold take_capture in ground (arith, e) in
          let found = lookup-insert id id r w.recordings in
          rw taken (
            record {
              recording = r;
              found = ground (arith, found, text_eq_refl id);
              here = refl;
              opened = refl;
              sound = refl;
              tx_file = on_tx;
              rx_file = on_rx;
            },
            refl,
          )
      | inr (lease_busy, e) ↦ absurd (ground (arith, e, fine))
      | inr (invalid_stage, e) ↦ absurd (ground (arith, e, fine))
      | inr (attribute_error, e) ↦ absurd (ground (arith, e, fine))
    ]

start-Holds :
    (rt : Runtime) (disk : DiskState) (m : Moment) (id : Text) (w : Ingestor) (meta : Metadata)
    (a b : Option Text)
    → contains id w.recordings ≡ false
    → lookup id w.stream_metadata ≡ some meta
    → (start_recording rt disk m id w).0 ≡ ok true
    → lookup (temporary_name tx) (w.files (call_dir meta id)) ≡ a
    → lookup (temporary_name rx) (w.files (call_dir meta id)) ≡ b
    → Holds id (call_dir meta id) [] a b (start_recording rt disk m id w).1
      × ((start_recording rt disk m id w).1.uploads ≡ w.uploads)
unfolding start_recording
start-Holds rt disk m id w meta a b fresh known fine on_tx on_rx =
    let reserved = record w { guard = (reserve disk id w.guard).1 } in
    let dir = call_dir meta id in
    elim (Result-cases (reserve disk id w.guard).0) [
      | inr (e, f) ↦ absurd (ground (arith, fresh, known, f, fine))
      | inl (false, f) ↦ absurd (ground (arith, fresh, known, f, fine))
      | inl (true, f) ↦
          let taken : start_recording rt disk m id w ≡ take_capture rt m id dir reserved =
            unfold start_recording in ground (arith, fresh, known, f) in
          let held =
            take_capture-Holds rt m id dir reserved a b (sym (ap (λ x. x.0) taken) ∙ fine) on_tx
              on_rx in
          rw taken held
    ]

-- The directory's files once both channels are published.
abbrev both_published : Text → Text → Dict Text → Dict Text
both_published a b d =
    insert (raw_name rx) b
      (erase (temporary_name rx) (insert (raw_name tx) a (erase (temporary_name tx) d)))

lookup-both_published :
    (k a b : Text) (d : Dict Text)
    → lookup k (both_published a b d) ≡ (
        if text_eq (raw_name rx) k
        then some b
        else if text_eq (temporary_name rx) k
        then none
        else if text_eq (raw_name tx) k
        then some a
        else if text_eq (temporary_name tx) k
        then none
        else lookup k d)
lookup-both_published k a b d =
    let d1 = erase (temporary_name tx) d in
    let d2 = insert (raw_name tx) a d1 in
    ground (
      arith,
      lookup-insert (raw_name rx) k b (erase (temporary_name rx) d2),
      lookup-erase (temporary_name rx) k d2,
      lookup-insert (raw_name tx) k a d1,
      lookup-erase (temporary_name tx) k d,
    )

publish_channels-both :
    (a b : Text) (d : Dict Text)
    → lookup (temporary_name tx) d ≡ some a
    → lookup (temporary_name rx) d ≡ some b
    → publish_channels (tx ∷ rx ∷ []) [] d ≡ (both_published a b d, true)
unfolding publish_channels one_of text_eq
publish_channels-both a b d on_tx on_rx =
    let d1 = erase (temporary_name tx) d in
    let d2 = insert (raw_name tx) a d1 in
    let still = lookup-insert (raw_name tx) (temporary_name rx) a d1 in
    let kept = lookup-erase (temporary_name tx) (temporary_name rx) d in
    ground (arith, on_tx, on_rx, still, kept)

finalize-Holds :
    (rt : Runtime) (id dir a b : Text) (w : Ingestor) (y : Bool)
    → Holds id dir (tx ∷ rx ∷ []) (some a) (some b) w
    → (finalize_stream rt id w).0 ≡ ok y
    → let after = (finalize_stream rt id w).1 in
      (lookup (raw_name tx) (after.files dir) ≡ some a)
      × (lookup (raw_name rx) (after.files dir) ≡ some b)
      × (lookup (temporary_name tx) (after.files dir) ≡ none)
      × (lookup (temporary_name rx) (after.files dir) ≡ none)
      × (after.uploads ≡ id ∷ w.uploads)
unfolding finalize_stream text_eq
finalize-Holds rt id dir a b w y h fine =
    let r = h.recording in
    let d = w.files dir in
    let done : publish_channels r.handles r.failed_channels (w.files r.directory)
        ≡ (both_published a b d, true) =
      rw (h.opened, h.sound, h.here) (publish_channels-both a b d h.tx_file h.rx_file) in
    elim (Result-cases
      (release_lease rt (codes "capture") r.lease_owner (w.leases r.directory)).0) [
        | inr (e, f) ↦ absurd (ground (arith, h.found, f, fine))
        | inl (_, f) ↦
            let files : (finalize_stream rt id w).1.files dir ≡ both_published a b d =
              unfold finalize_stream in
              ground (arith, h.found, h.here, f, done, text_eq_refl dir) in
            let queued : (finalize_stream rt id w).1.uploads ≡ id ∷ w.uploads =
              unfold finalize_stream in ground (arith, h.found, f, done) in
            rw (files, queued)
              (
                lookup-both_published (raw_name tx) a b d,
                lookup-both_published (raw_name rx) a b d,
                lookup-both_published (temporary_name tx) a b d,
                lookup-both_published (temporary_name rx) a b d,
                refl,
              )
      ]

-- A call that was registered and has no recording yet is accepted, its stream delivers frames of
-- samples of both channels, at least one frame, all writes succeed, and the stream is finalized
-- without a raise. Then the raw file of each channel holds what was in the temporary file of that
-- channel before (nothing, if there was none), followed by exactly that channel's samples, in
-- order; both temporary files are gone, and the call is queued once for the conversion.
pub finalize-recorded :
    (rt : Runtime) (disk : DiskState) (m : Moment) (id : Text) (first : List Stereo)
    (more : List (List Stereo)) (w : Ingestor) (meta : Metadata) (y : Bool)
    → contains id w.recordings ≡ false
    → lookup id w.stream_metadata ≡ some meta
    → (start_recording rt disk m id w).0 ≡ ok true
    → let written = write_frames id (first ∷ more) (start_recording rt disk m id w).1 in
      (finalize_stream rt id written).0 ≡ ok y
      → let dir = call_dir meta id in
        let before = w.files dir in
        let after = (finalize_stream rt id written).1 in
        (lookup (raw_name tx) (after.files dir)
          ≡ some (content (lookup (temporary_name tx) before) ++ tx_all (first ∷ more)))
        × (lookup (raw_name rx) (after.files dir)
            ≡ some (content (lookup (temporary_name rx) before) ++ rx_all (first ∷ more)))
        × (lookup (temporary_name tx) (after.files dir) ≡ none)
        × (lookup (temporary_name rx) (after.files dir) ≡ none)
        × (after.uploads ≡ id ∷ w.uploads)
unfolding write_frames tx_all rx_all one_of text_eq
finalize-recorded rt disk m id first more w meta y fresh known fine ends =
    let dir = call_dir meta id in
    let a = lookup (temporary_name tx) (w.files dir) in
    let b = lookup (temporary_name rx) (w.files dir) in
    let begun = (start_recording rt disk m id w).1 in
    let (start, same) = start-Holds rt disk m id w meta a b fresh known fine refl refl in
    let once = write_frame-Holds id dir first [] a b begun start in
    let all =
      write_frames-Holds id dir (content a ++ tx_bytes first) (content b ++ rx_bytes first) more
        (write_frame (true, true) id (frame first) begun) once in
    let (raw_tx, raw_rx, gone_tx, gone_rx, queued) =
      finalize-Holds rt id dir _ _ (write_frames id (first ∷ more) begun) y all ends in
    let kept = write_frames-uploads id (first ∷ more) begun in
    (
      raw_tx ∙ ap some (append_assoc (content a) (tx_bytes first) (tx_all more)),
      raw_rx ∙ ap some (append_assoc (content b) (rx_bytes first) (rx_all more)),
      gone_tx,
      gone_rx,
      queued ∙ ap (λ u. id ∷ u) (kept ∙ same),
    )

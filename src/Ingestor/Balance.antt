-- ===== src/Ingestor/Balance.antt =====
-- Reservations and recordings go together, whatever happens to a call.
use zenith_voip.Prelude.{
  ◌≡◌, refl, sym, Bool, false, not, ◌&&◌, ◌||◌, List, [], ◌∷◌, Text, text_eq, text_eq_iff, arith,
  Bool-cases, Option-cases, inl, inr, codes,
}
use zenith_voip.Prelude.Dict.{Dict, lookup, contains, insert, erase, lookup-insert, lookup-erase}
use zenith_voip.Prelude.Result.{Result, ok, err, Result-cases}
use zenith_voip.Capacity.{
  Error as GuardError, Guard, reserve, release, bytes_per_call, zero_division,
}
use zenith_voip.Capacity.Disk.{DiskState}
use zenith_voip.Lease.{acquire_lease, release_lease, lease_busy, invalid_stage, attribute_error}
use zenith_voip.Lease.Python.{Runtime}
use zenith_voip.Esl.Handlers.{Metadata}
use zenith_voip.Ingestor.{
  Recording, Ingestor, Error, Moment, capture_request, call_dir, take_capture, start_recording,
  write_channel, with_name, finalize_stream, register_stream_metadata,
}

-- Exactly the calls that are recorded have a reservation.
abbrev pub Balanced : Ingestor → Type 0
Balanced w = (c : Text) → contains c w.recordings ≡ contains c w.guard.reservations

contains-insert :
    {V : Type 0} (k c : Text) (v : V) (d : Dict V)
    → contains c (insert k v d) ≡ (text_eq k c || contains c d)
contains-insert k c v d = ground (arith, lookup-insert k c v d)

contains-erase :
    {V : Type 0} (k c : Text) (d : Dict V)
    → contains c (erase k d) ≡ (not (text_eq k c) && contains c d)
contains-erase k c d = ground (arith, lookup-erase k c d)

abbrev granted : Result GuardError Bool → Bool
granted (ok b) = b
granted (err e) = false

contains-reserve :
    (disk : DiskState) (id c : Text) (g : Guard)
    → contains c (reserve disk id g).1.reservations
      ≡ ((text_eq id c && granted (reserve disk id g).0) || contains c g.reservations)
unfolding reserve
contains-reserve disk id c g =
    ground (arith, text_eq_iff id c, contains-insert id c (bytes_per_call g) g.reservations)

contains-release :
    (id c : Text) (g : Guard)
    → contains c (release id g).1.reservations ≡ (not (text_eq id c) && contains c g.reservations)
unfolding release
contains-release id c g = contains-erase id c g.reservations

-- The capture lease is taken or the reservation goes.
take_capture-Balanced :
    (rt : Runtime) (m : Moment) (id dir : Text) (w : Ingestor) (b : Bool) (c : Text)
    → (take_capture rt m id dir w).0 ≡ ok b
    → contains id w.recordings ≡ false
    → contains c w.guard.reservations ≡ (text_eq id c || contains c w.recordings)
    → contains c (take_capture rt m id dir w).1.recordings
      ≡ contains c (take_capture rt m id dir w).1.guard.reservations
unfolding take_capture
take_capture-Balanced rt m id dir w b c h fresh held =
    elim (Result-cases (acquire_lease rt (capture_request m id) (w.leases dir)).0) [
      | inl (l, e) ↦
          let r : Recording = record {
            directory = dir;
            lease_owner = l.owner;
            handles = [];
            failed_channels = [];
          } in
          ground (arith, e, h, held, contains-insert id c r w.recordings)
      | inr (lease_busy, e) ↦
          ground (arith, e, h, held, fresh, text_eq_iff id c, contains-release id c w.guard)
      | inr (invalid_stage, e) ↦ absurd (ground (arith, e, h))
      | inr (attribute_error, e) ↦ absurd (ground (arith, e, h))
    ]

start-Balanced :
    (rt : Runtime) (disk : DiskState) (m : Moment) (id : Text) (w : Ingestor) (b : Bool)
    → Balanced w
    → (start_recording rt disk m id w).0 ≡ ok b
    → Balanced (start_recording rt disk m id w).1
unfolding start_recording
start-Balanced rt disk m id w b balanced h c = elim (Bool-cases (contains id w.recordings)) [
  | inl old ↦ ground (arith, old, balanced c)
  | inr new ↦ elim (Option-cases (lookup id w.stream_metadata)) [
    | inl n ↦ ground (arith, new, n, balanced c)
    | inr (meta, n) ↦
        let asked = contains-reserve disk id c w.guard in
        elim (Result-cases (reserve disk id w.guard).0) [
          | inr (zero_division, e) ↦ absurd (ground (arith, new, n, e, h))
          | inl (g, e) ↦ elim (Bool-cases g) [
            | inr f ↦ ground (arith, new, n, e, f, asked, balanced c)
            | inl f ↦
                let reserved = record w { guard = (reserve disk id w.guard).1 } in
                let held : contains c reserved.guard.reservations
                    ≡ (text_eq id c || contains c w.recordings) =
                  ground (arith, e, f, asked, balanced c) in
                ground (
                  arith,
                  new,
                  n,
                  e,
                  f,
                  h,
                  take_capture-Balanced rt m id (call_dir meta id) reserved b c,
                  held,
                )
          ]
        ]
  ]
]

write-Balanced :
    (writable : Bool) (id channel bytes : Text) (w : Ingestor)
    → Balanced w
    → Balanced (write_channel writable id channel bytes w).1
unfolding write_channel
write-Balanced writable id channel bytes w balanced c =
    elim (Option-cases (lookup id w.recordings)) [
      | inl n ↦ ground (arith, n, balanced c)
      | inr (r, n) ↦
          let opened = record r { handles = with_name channel r.handles } in
          let failed = record r { failed_channels = with_name channel r.failed_channels } in
          ground (
            arith,
            n,
            balanced c,
            text_eq_iff id c,
            contains-insert id c opened w.recordings,
            contains-insert id c failed w.recordings,
          )
    ]

finalize-Balanced :
    (rt : Runtime) (id : Text) (w : Ingestor) (b : Bool)
    → Balanced w
    → (finalize_stream rt id w).0 ≡ ok b
    → Balanced (finalize_stream rt id w).1
unfolding finalize_stream
finalize-Balanced rt id w b balanced h c = elim (Option-cases (lookup id w.recordings)) [
  | inl n ↦ ground (arith, n, balanced c)
  | inr (r, n) ↦
      elim (Result-cases
        (release_lease rt (codes "capture") r.lease_owner (w.leases r.directory)).0) [
          | inr (e, f) ↦ absurd (ground (arith, n, f, h))
          | inl (y, f) ↦ ground (
            arith,
            n,
            f,
            balanced c,
            contains-erase id c w.recordings,
            contains-release id c w.guard,
          )
        ]
]

-- What happens to the ingestor.
pub data Event : Type 0 where
  registers : Text → Metadata → Event
  starts : DiskState → Moment → Text → Event
  writes : Bool → Text → Text → Text → Event
  ends : Text → Event

abbrev pub continue_with : Result Error Bool × Ingestor → Result Error Ingestor
continue_with (ok b, w) = ok w
continue_with (err e, w) = err e

unfoldable pub happens : Runtime → Event → Ingestor → Result Error Ingestor
happens rt (registers id m) w = ok (register_stream_metadata id m w)
happens rt (starts disk m id) w = continue_with (start_recording rt disk m id w)
happens rt (writes ok_disk id channel bytes) w = ok (write_channel ok_disk id channel bytes w).1
happens rt (ends id) w = continue_with (finalize_stream rt id w)

unfoldable pub history : Runtime → List Event → Ingestor → Result Error Ingestor
history rt [] w = ok w
history rt (e ∷ es) w = elim (happens rt e w) [ ok w' ↦ history rt es w' | err x ↦ err x ]

continue_lem :
    (x : Result Error Bool × Ingestor) (w : Ingestor)
    → continue_with x ≡ ok w
    → (b : Bool) × (x.0 ≡ ok b) × (x.1 ≡ w)
continue_lem (ok b, w') w h = (b, refl, ground (arith, h))
continue_lem (err e, w') w h = absurd (ground (arith, h))

happens-Balanced :
    (rt : Runtime) (e : Event) (w w' : Ingestor) → happens rt e w ≡ ok w' → Balanced w → Balanced w'
unfolding happens register_stream_metadata
happens-Balanced rt (registers id m) w w' h b = λ c. ground (arith, h, b c)
happens-Balanced rt (starts disk m id) w w' h b =
    let (x, e, same) = continue_lem (start_recording rt disk m id w) w' h in
    rw (sym same) (start-Balanced rt disk m id w x b e)
happens-Balanced rt (writes ok_disk id channel bytes) w w' h b =
    λ c. ground (arith, h, write-Balanced ok_disk id channel bytes w b c)
happens-Balanced rt (ends id) w w' h b =
    let (x, e, same) = continue_lem (finalize_stream rt id w) w' h in
    rw (sym same) (finalize-Balanced rt id w x b e)

-- If exactly the calls that are being recorded have a reservation, then so it is after every
-- history of registrations, starts, writes and ends in which nothing raises, whatever the disk and
-- the leases answer: a refused or ended recording leaks no reservation, and no recording is
-- without one.
pub history-Balanced :
    (rt : Runtime) (es : List Event) (w w' : Ingestor)
    → Balanced w
    → history rt es w ≡ ok w'
    → Balanced w'
unfolding history
history-Balanced rt [] w w' b h = λ c. ground (arith, h, b c)
history-Balanced rt (e ∷ es) w w' b h = elim (Result-cases (happens rt e w)) [
  | inr (x, f) ↦ absurd (ground (arith, f, h))
  | inl (v, f) ↦ history-Balanced rt es v w' (happens-Balanced rt e w v f b) (ground (arith, f, h))
]

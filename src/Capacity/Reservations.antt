-- ===== src/Capacity/Reservations.antt =====
-- What a reservation guarantees, and the account of reserved bytes.
use zenith_voip.Prelude.{
  ℕ, ◌+◌, ◌-◌, ◌*◌, ◌≤◌, ◌≡◌, true, false, [], ◌∷◌, Text, text_eq_refl, arith,
}
use zenith_voip.Prelude.Dict.{Dict, lookup, contains, insert, lookup-insert}
use zenith_voip.Prelude.Result.{ok}
use zenith_voip.Capacity.Disk.{DiskState, remaining_of, pending_processing_bytes}
use zenith_voip.Capacity.{
  Guard, bytes_per_call, remaining_reserved_bytes, threshold, percent_scale, reserve,
}

remaining-insert :
    (disk : DiskState) (k : Text) (v : ℕ) (d : Dict ℕ)
    → contains k d ≡ false
    → remaining_of disk (insert k v d) ≤ remaining_of disk d + v
unfolding remaining_of insert lookup
remaining-insert disk k v [] h = omega arith
remaining-insert disk k v ((j, w) ∷ d) h = ground (arith, remaining-insert disk k v d)

-- Once a new call is admitted, the disk stays above the guard's threshold even when every admitted
-- call records to its limit, all pending conversions are written and the headroom is used up.
pub reserve_leaves_room :
    (disk : DiskState) (call_id : Text) (g : Guard)
    → contains call_id g.reservations ≡ false
    → (reserve disk call_id g).0 ≡ ok true
    → let g' = (reserve disk call_id g).1 in
      threshold g * disk.total
      ≤ 100
        * (disk.total
            - (disk.used
                + remaining_reserved_bytes disk g'
                + pending_processing_bytes disk
                + g'.headroom_bytes))
        * percent_scale
unfolding reserve
reserve_leaves_room disk call_id g new h =
    ground (arith, remaining-insert disk call_id (bytes_per_call g) g.reservations new)

-- Reserving again for a call that has a reservation answers True and changes nothing.
pub reserve_twice :
    (disk later : DiskState) (call_id : Text) (g : Guard)
    → (reserve disk call_id g).0 ≡ ok true
    → reserve later call_id (reserve disk call_id g).1 ≡ (ok true, (reserve disk call_id g).1)
unfolding reserve
reserve_twice disk later call_id g h =
    ground
      (arith, lookup-insert call_id call_id (bytes_per_call g) g.reservations, text_eq_refl call_id)

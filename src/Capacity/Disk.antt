-- ===== src/Capacity/Disk.antt =====
-- The recordings tree as the capacity guard reads it.
use zenith_voip.Prelude.{
  ℕ, ◌+◌, ◌-◌, none, some, List, [], ◌∷◌, Text, codes, text_eq, is_some, if◌then◌else◌,
}
use zenith_voip.Prelude.Dict.{Dict, lookup}

-- A directory `<tenant>/<call_id>`, with the sizes of its regular files.
pub record CallFiles : Type 0 where
  pub call_id : Text
  pub sizes : Dict ℕ

-- `shutil.disk_usage`, and the directories two levels below the root.
pub record DiskState : Type 0 where
  pub total : ℕ
  pub used : ℕ
  pub calls : List CallFiles

unfoldable pub sum_sizes : Dict ℕ → ℕ
sum_sizes [] = 0
sum_sizes ((k, n) ∷ d) = n + sum_sizes d

-- The bytes below all `*/<call_id>`.
unfoldable pub materialized : Text → List CallFiles → ℕ
unfolding sum_sizes
materialized call_id [] = 0
materialized call_id (c ∷ cs) =
    (if text_eq c.call_id call_id then sum_sizes c.sizes else 0) + materialized call_id cs

-- `remaining_reserved_bytes`; `-` stops at 0, as its `max` does.
unfoldable pub remaining_of : DiskState → Dict ℕ → ℕ
unfolding materialized
remaining_of disk [] = 0
remaining_of disk ((call_id, reservation) ∷ d) =
    (reservation - materialized call_id disk.calls) + remaining_of disk d

-- What a channel of one call still has to write as WAV.
unfoldable pub pending_channel : Text → Text → Text → Dict ℕ → ℕ
pending_channel raw wav temporary files =
    if is_some (lookup wav files) then 0 else elim (lookup raw files) [
      | none ↦ 0
      | some raw_size ↦ elim (lookup temporary files) [
        | none ↦ raw_size
        | some temporary_size ↦ raw_size - temporary_size
      ]
    ]

unfoldable pub pending_calls : List CallFiles → ℕ
unfolding pending_channel
pending_calls [] = 0
pending_calls (c ∷ cs) =
    pending_channel (codes "tx.raw") (codes "tx.wav") (codes "tx.tmp.wav") c.sizes
    + pending_channel (codes "rx.raw") (codes "rx.wav") (codes "rx.tmp.wav") c.sizes
    + pending_calls cs

unfoldable pub pending_processing_bytes : DiskState → ℕ
unfolding pending_calls
pending_processing_bytes disk = pending_calls disk.calls

-- ===== src/Smb/Limiter.antt =====
-- `BandwidthLimiter.store` (src/workers/smb_sync.py). The unit of time is that which one byte takes at
-- the limit, so that the expected time of some bytes is their number.
pub mod Pace
mod Tests
use zenith_voip.Prelude.{
  ℕ, ◌≡◌, zero, suc, ◌+◌, ◌-◌, ◌*◌, Bool, true, false, List, [], ◌∷◌, ◌++◌, Text, length, take,
  drop, is_empty, ltb, ◌==◌, if◌then◌else◌,
}
use zenith_voip.Prelude.Result.{Result, ok, err}

-- The SMB library and the clock in one transfer, by the offset of the chunk: whether
-- `storeFileFromOffset` returns, how long it takes, and how much later than asked a sleep ends. `write`
-- is the content of the file after the call, which is truncated before where this is asked: then it is
-- the chunk, and at the end of the file the chunk is added to it. `torn` is the content that a call
-- leaves that raises, which may be anything.
pub record Link : Type 0 where
  pub writes : ℕ → Bool
  pub cost : ℕ → ℕ
  pub late : ℕ → ℕ
  pub write : Bool → ℕ → Text → Text → Text
  pub torn : Bool → ℕ → Text → Text → Text
  pub write-truncated : (chunk old : Text) → write true 0 chunk old ≡ chunk
  pub write-appended : (done chunk : Text) → write false (length done) chunk done ≡ done ++ chunk

pub record Transfer : Type 0 where
  pub now : ℕ
  pub remote : Text

-- `CHUNK_SIZE`
abbrev pub default_chunk_size : ℕ
default_chunk_size = 512 * 1024

module _ (link : Link) (chunk_size : ℕ) (started_at : ℕ) where
  -- `if delay > 0: await self.sleep(delay)`, when some bytes have been sent
  unfoldable pub keep_pace : ℕ → ℕ → ℕ
  keep_pace offset now =
      let elapsed = now - started_at in
      if ltb elapsed offset then now + (offset - elapsed) + link.late offset else now

  -- The loop, for what is left of the source; the fuel is at least the number of its bytes.
  unfoldable pub store_rest : ℕ → Text → ℕ → Transfer → Result (Unit {0}) ℕ × Transfer
  store_rest zero source offset t = (ok offset, t)
  store_rest (suc fuel) source offset t =
      let chunk = take chunk_size source in
      let sent = offset + length chunk in
      let now = t.now + link.cost offset in
      let next = store_rest fuel (drop chunk_size source) sent (record {
        now = keep_pace sent now;
        remote = link.write (offset == 0) offset chunk t.remote;
      }) in
      if is_empty chunk
      then (ok offset, t)
      else if link.writes offset
      then next
      else (err tt, record { now = now; remote = link.torn (offset == 0) offset chunk t.remote })

-- `store`
unfoldable pub store : Link → ℕ → Text → Transfer → Result (Unit {0}) ℕ × Transfer
store link chunk_size source t = store_rest link chunk_size t.now (length source) source 0 t

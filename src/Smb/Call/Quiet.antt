-- ===== src/Smb/Call/Quiet.antt =====
-- The steps of a backup that change no marker and lose no audio.
use zenith_voip.Prelude.{
  ◌≡◌, refl, true, false, ◌||◌, some, Text, codes, arith, ◌⊎◌, ◌∙◌, if◌then◌else◌,
}
use zenith_voip.Prelude.Result.{Result, ok, err}
use zenith_voip.Lease.Python.{Runtime}
use zenith_voip.Lease.{
  RecordingLease, Request, lease_busy, invalid_stage, attribute_error, acquire_lease, release_lease,
}
use zenith_voip.Lease as Lease
use zenith_voip.Smb.Names.{build_remote_name}
use zenith_voip.Transcript.Publisher.{Publisher}
use zenith_voip.Workers.{Failure, Run, M, ◌>>=◌, wait_for}
use zenith_voip.Workers.Leased.{wait_for_ind, bind_ind}
use zenith_voip.Smb.Call.{
  needs_wav, conversion, World, Job, convert_tx, convert_rx, convert_channels, then_release,
  has_pair, once_leased, convert_leased, ensure_mono_pair, remote_dir,
}

module _ (P : Publisher) (j : Job P) where
  open P use {Holds}

  -- The share holds the stereo file of the call under one of its two names.
  pub record IsBackedUp (w : World P) : Type 0 where
    pub base : Text
    pub other_name : Text
    pub base_built : build_remote_name j.parts (codes "wav") false ≡ ok base
    pub other_built : build_remote_name j.parts (codes "wav") true ≡ ok other_name
    pub name : Text
    pub is_name : (name ≡ base) ⊎ (name ≡ other_name)
    pub on_share : Holds w.share (remote_dir P j) name j.content

  -- From `v` to `w` no WAV file goes away.
  pub record KeepsAudio (v w : World P) : Type 0 where
    pub tx : v.tx.wav ≡ true → w.tx.wav ≡ true
    pub rx : v.rx.wav ≡ true → w.rx.wav ≡ true

  pub record Keeps (v w : World P) : Type 0 where
    pub audio : KeepsAudio v w
    pub marks : (w.marked ≡ v.marked) ⊎ IsBackedUp w

  pub record IsQuiet (v w : World P) : Type 0 where
    pub audio : KeepsAudio v w
    pub marks : w.marked ≡ v.marked

  same_audio : {v : World P} → KeepsAudio v v
  same_audio = record { tx = λ h. h; rx = λ h. h }

  audio_trans : {u v w : World P} → KeepsAudio u v → KeepsAudio v w → KeepsAudio u w
  audio_trans p q = record { tx = λ h. q.tx (p.tx h); rx = λ h. q.rx (p.rx h) }

  pub unchanged : (w : World P) → IsQuiet w w
  unchanged w = record { audio = same_audio; marks = refl }

  pub quiet_trans : {u v w : World P} → IsQuiet u v → IsQuiet v w → IsQuiet u w
  quiet_trans p q = record { audio = audio_trans p.audio q.audio; marks = q.marks ∙ p.marks }

  -- Code that changes no marker and loses no audio.
  abbrev pub QuietCode : {A : Type 0} → M (World P) A → Type 0
  QuietCode {A} m = (r : Run (World P)) → IsQuiet r.world (m r).1.world

  pub wait_quiet :
      {A : Type 0} (f : World P → Result Failure A × World P) (cut : World P → World P)
      → ((w : World P) → IsQuiet w (f w).1)
      → ((w : World P) → IsQuiet w (cut w))
      → QuietCode (wait_for f cut)
  wait_quiet f cut does undone r =
      wait_for_ind (λ x w. IsQuiet r.world w) f cut r (does r.world) (undone r.world)

  pub bind_quiet :
      {A B : Type 0} (m : M (World P) A) (f : A → M (World P) B)
      → QuietCode m
      → ((a : A) → QuietCode (f a))
      → QuietCode (m >>= f)
  bind_quiet m f here there r =
      bind_ind (λ o. IsQuiet r.world o.1.world) m f r (λ x e. here r)
        (λ a e. quiet_trans (here r) (there a (m r).1))

  convert_tx_quiet : (w : World P) → IsQuiet w (convert_tx P j w).1
  convert_tx_quiet w = record {
    audio = record { tx = λ h. ground (arith, h); rx = λ h. ground (arith, h) };
    marks = ground arith;
  }

  convert_rx_quiet : (w : World P) → IsQuiet w (convert_rx P j w).1
  convert_rx_quiet w = record {
    audio = record { tx = λ h. ground (arith, h); rx = λ h. ground (arith, h) };
    marks = ground arith;
  }

  convert_channels_quiet : QuietCode (convert_channels P j)
  unfolding convert_channels
  convert_channels_quiet =
      bind_quiet (wait_for (convert_tx P j) (λ w. w)) (λ _. wait_for (convert_rx P j) (λ w. w))
        (wait_quiet (convert_tx P j) (λ w. w) convert_tx_quiet unchanged)
        (λ _. wait_quiet (convert_rx P j) (λ w. w) convert_rx_quiet unchanged)

  then_release_quiet :
      {A : Type 0} (rt : Runtime) (owner : Text) (m : M (World P) A)
      → QuietCode m
      → QuietCode (then_release P rt owner m)
  unfolding then_release
  then_release_quiet rt owner m h r = h r

  once_leased_quiet :
      (rt : Runtime) (l : Result Lease.Error RecordingLease) → QuietCode (once_leased P rt j l)
  unfolding once_leased
  once_leased_quiet rt (ok lease) r =
      bind_quiet (then_release P rt lease.owner (convert_channels P j)) (λ _. has_pair P)
        (then_release_quiet rt lease.owner (convert_channels P j) convert_channels_quiet)
        (λ _ s. unchanged s.world) r
  once_leased_quiet rt (err lease_busy) r = unchanged r.world
  once_leased_quiet rt (err invalid_stage) r = unchanged r.world
  once_leased_quiet rt (err attribute_error) r = unchanged r.world

  convert_leased_quiet : (rt : Runtime) (owner : Text) → QuietCode (convert_leased P rt owner j)
  unfolding convert_leased
  convert_leased_quiet rt owner r =
      let q = record j.conversion_request { stage = conversion; owner = some owner } in
      once_leased_quiet rt (acquire_lease rt q r.dir).0
        (record r { dir = (acquire_lease rt q r.dir).1 })

  pub ensure_mono_pair_quiet :
      (rt : Runtime) (owner : Text) → QuietCode (ensure_mono_pair P rt owner j)
  unfolding ensure_mono_pair
  ensure_mono_pair_quiet rt owner r =
      elim (needs_wav r.world.tx || needs_wav r.world.rx)
        as (λ b.
          IsQuiet r.world ((if b then convert_leased P rt owner j else has_pair P) r).1.world) [
            | true ↦ convert_leased_quiet rt owner r
            | false ↦ unchanged r.world
          ]

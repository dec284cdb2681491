-- ===== src/Smb/Call/Leased.antt =====
-- `process_call` of the backup worker as a whole: its lease, and what it may leave behind.
use zenith_voip.Prelude.{
  ap, sym, ◌∙◌, is_empty, arith, text_eq, ◌≡◌, refl, Bool, true, false, ◌||◌, none, some, Text,
  codes, inl, inr, if◌then◌else◌,
}
use zenith_voip.Prelude.Result.{Result, ok, err, Result-cases}
use zenith_voip.Lease.Python.{Runtime}
use zenith_voip.Lease.Protocol.{AllReadable, acquire_err}
use zenith_voip.Lease.Exclusion.{acquire-Taken}
use zenith_voip.Lease as Lease
use zenith_voip.Lease.{
  conversion as conversion_stage, lease_path, find_stage, Stage, CallDir, RecordingLease, Request,
  lease_busy, invalid_stage, attribute_error, read_lease, acquire_lease, find_owned, release_lease,
}
use zenith_voip.Smb.Cycle.{Outcome, published, waits, timeout, already_processing}
use zenith_voip.Smb.Names.{build_remote_name}
use zenith_voip.Transcript.Publisher.{Publisher}
use zenith_voip.Workers.{Failure, uncaught, Ending, Run, M, pure, ◌>>=◌, ◌>>◌, wait_for, raced}
use zenith_voip.Workers.Leased.{
  release_clears, bind_ind, under_lease-released, under_lease-keeps, raced-keeps, wait_for-IsStill,
  acquire-AllReadable, release-AllReadable, KeepsReadable, IsStill-KeepsReadable,
  bind-KeepsReadable, raced-KeepsReadable,
}
use zenith_voip.Smb.Call.{
  needs_wav, conversion, smb_stage, World, Job, convert_tx, convert_rx, convert_channels,
  then_release, has_pair, once_leased, convert_leased, ensure_mono_pair, render_stereo,
  generate_stereo, cleaned, clean_temporaries, remote_name, publication, publish_stereo,
  mark_backed_up, unlink_stereo, back_up, process_call_unbounded, smb_request, back_up_call,
}
use zenith_voip.Smb.Call.Quiet.{Keeps}
use zenith_voip.Smb.Call.Backup.{marks, publishes, looks, process_call_unbounded-After}

module _ (P : Publisher) (j : Job P) where
  still_wait :
      {A : Type 0} (f : World P → Result Failure A × World P) (cut : World P → World P)
      → KeepsReadable (wait_for f cut)
  still_wait f cut = IsStill-KeepsReadable (wait_for f cut) (wait_for-IsStill f cut)

  convert_channels-KeepsReadable : KeepsReadable (convert_channels P j)
  unfolding convert_channels
  convert_channels-KeepsReadable =
      bind-KeepsReadable (wait_for (convert_tx P j) (λ w. w))
        (λ _. wait_for (convert_rx P j) (λ w. w)) (still_wait (convert_tx P j) (λ w. w))
        (λ _. still_wait (convert_rx P j) (λ w. w))

  module _ (rt : Runtime) where
    then_release-KeepsReadable :
        {A : Type 0} (owner : Text) (m : M (World P) A)
        → KeepsReadable m
        → KeepsReadable (then_release P rt owner m)
    unfolding then_release
    then_release-KeepsReadable owner m h r k =
        release-AllReadable rt conversion owner (m r).1.dir (h r k)

    once_leased-KeepsReadable :
        (l : Result Lease.Error RecordingLease) → KeepsReadable (once_leased P rt j l)
    unfolding once_leased
    once_leased-KeepsReadable (ok lease) r k =
        bind-KeepsReadable (then_release P rt lease.owner (convert_channels P j)) (λ _. has_pair P)
          (then_release-KeepsReadable lease.owner (convert_channels P j)
            convert_channels-KeepsReadable)
          (λ _ s h. h) r k
    once_leased-KeepsReadable (err lease_busy) r k = k
    once_leased-KeepsReadable (err invalid_stage) r k = k
    once_leased-KeepsReadable (err attribute_error) r k = k

    ensure_mono_pair-KeepsReadable : (owner : Text) → KeepsReadable (ensure_mono_pair P rt owner j)
    unfolding ensure_mono_pair convert_leased
    ensure_mono_pair-KeepsReadable owner r k =
        elim (needs_wav r.world.tx || needs_wav r.world.rx)
          as (λ b. AllReadable ((if b then convert_leased P rt owner j else has_pair P) r).1.dir) [
            | true ↦
                let q = record j.conversion_request { stage = conversion; owner = some owner } in
                once_leased-KeepsReadable (acquire_lease rt q r.dir).0
                  (record r { dir = (acquire_lease rt q r.dir).1 })
                  (acquire-AllReadable rt q r.dir k)
            | false ↦ k
          ]

  module _ (rt : Runtime) where
    then_release-released :
        {A : Type 0} (owner : Text) (m : M (World P) A) (r : Run (World P))
        → KeepsReadable m
        → AllReadable r.dir
        → find_owned rt (then_release P rt owner m r).1.dir conversion owner ≡ ok none
    unfolding then_release lease_path find_stage text_eq
    then_release-released owner m r h k =
        release_clears rt conversion owner (m r).1.dir conversion_stage (h r k) refl

    conversion_path : lease_path conversion ≡ ok conversion_stage
    unfolding lease_path find_stage text_eq
    conversion_path = refl

    once_leased-refused :
        (x : Lease.Error) (r : Run (World P)) → (once_leased P rt j (err x) r).1.dir ≡ r.dir
    unfolding once_leased
    once_leased-refused lease_busy r = refl
    once_leased-refused invalid_stage r = refl
    once_leased-refused attribute_error r = refl

    -- The conversion gives back the lease that it takes.
    convert_leased-released :
        (owner : Text) (r : Run (World P))
        → is_empty owner ≡ false
        → AllReadable r.dir
        → find_owned rt r.dir conversion owner ≡ ok none
        → find_owned rt (convert_leased P rt owner j r).1.dir conversion owner ≡ ok none
    unfolding convert_leased once_leased find_owned
    convert_leased-released owner r named k n =
        let q : Request = record j.conversion_request { stage = conversion; owner = some owner } in
        let next : Run (World P) = record r { dir = (acquire_lease rt q r.dir).1 } in
        elim (Result-cases (acquire_lease rt q r.dir).0) [
          | inl (l, e) ↦
              let taken = acquire-Taken rt q r.dir l e in
              let is : l.owner ≡ owner = ap (λ x. x.owner) taken.lease ∙ ground (arith, named) in
              let done =
                then_release-released l.owner (convert_channels P j) next
                  convert_channels-KeepsReadable (acquire-AllReadable rt q r.dir k) in
              let m = then_release P rt l.owner (convert_channels P j) in
              let gone : find_owned rt (m next).1.dir conversion owner ≡ ok none =
                ap (λ o. find_owned rt (m next).1.dir conversion o) (sym is) ∙ done in
              rw (e, convert_leased)
                (bind_ind (λ o. find_owned rt o.1.dir conversion owner ≡ ok none) m
                  (λ _. has_pair P) next (λ x f. gone) (λ a f. gone))
          | inr (x, e) ↦
              let same = acquire_err rt q r.dir x e conversion_stage in
              let kept : find_owned rt next.dir conversion owner ≡ ok none =
                ground (arith, conversion_path, same, n) in
              rw (e, convert_leased, once_leased-refused x next) kept
        ]

    pub ensure_mono_pair-released :
        (owner : Text) (r : Run (World P))
        → is_empty owner ≡ false
        → AllReadable r.dir
        → find_owned rt r.dir conversion owner ≡ ok none
        → find_owned rt (ensure_mono_pair P rt owner j r).1.dir conversion owner ≡ ok none
    unfolding ensure_mono_pair
    ensure_mono_pair-released owner r named k n =
        elim (needs_wav r.world.tx || needs_wav r.world.rx)
          as (λ b.
            find_owned rt ((if b then convert_leased P rt owner j else has_pair P) r).1.dir
              conversion owner
            ≡ ok none) [ true ↦ convert_leased-released owner r named k n | false ↦ n ]

  remote_name-KeepsReadable : (suffix : Bool) → KeepsReadable (remote_name P j suffix)
  unfolding remote_name
  remote_name-KeepsReadable suffix r k =
      elim (Result-cases (build_remote_name j.parts (codes "wav") suffix)) [
        | inl (n, e) ↦ rw (e, remote_name) k
        | inr (x, e) ↦ rw (e, remote_name) k
      ]

  publishes-KeepsReadable : (base other_name : Text) → KeepsReadable (publishes P j base other_name)
  unfolding publish_stereo mark_backed_up
  publishes-KeepsReadable base other_name =
      bind-KeepsReadable (publish_stereo P j base other_name) (marks P j)
        (still_wait (publication P j base other_name)
          (λ w. record w { share = j.cut_publish w.share }))
        λ result.
          bind-KeepsReadable (mark_backed_up P)
            (λ _. unlink_stereo P >> pure (published result.sha256 result.remote_name)) (λ r k. k)
            (λ _ r k. k)

  back_up-KeepsReadable : KeepsReadable (back_up P j)
  unfolding back_up generate_stereo clean_temporaries
  back_up-KeepsReadable =
      bind-KeepsReadable (generate_stereo P j)
        (λ _. remote_name P j false >>= λ base. remote_name P j true >>= λ other_name.
          clean_temporaries P j >> publishes P j base other_name)
        (still_wait (render_stereo P j) (λ w. w))
        λ _.
          bind-KeepsReadable (remote_name P j false)
            (λ base. remote_name P j true >>= λ other_name.
              clean_temporaries P j >> publishes P j base other_name)
            (remote_name-KeepsReadable false)
            λ base.
              bind-KeepsReadable (remote_name P j true)
                (λ other_name. clean_temporaries P j >> publishes P j base other_name)
                (remote_name-KeepsReadable true)
                λ other_name.
                  bind-KeepsReadable (clean_temporaries P j) (λ _. publishes P j base other_name)
                    (still_wait (cleaned P j) (λ w. record w { share = j.cut_cleanup w.share }))
                    λ _. publishes-KeepsReadable base other_name

  looks-KeepsReadable : (pair : Bool) → KeepsReadable (looks P j pair)
  looks-KeepsReadable false r k = k
  looks-KeepsReadable true r k = back_up-KeepsReadable r k

  module _ (rt : Runtime) (q : Request) (meanwhile : CallDir → CallDir) (ending : Ending)
      (d : CallDir) (w : World P) where
    abbrev race : CallDir → World P → Result Failure Outcome × Run (World P)
    race =
        raced (waits timeout) (λ f. err (uncaught (codes "NameError"))) ending
          (process_call_unbounded P rt q.fresh j)

    abbrev pub after : Result Failure Outcome × CallDir × World P
    after = back_up_call P rt q meanwhile ending j d w

    -- Whatever the call meets, and wherever the end of its time, a lost lease or a failure stops it:
    -- no WAV file is lost, and the markers change only in a state where the share holds the stereo
    -- file under one of the two names of the call.
    pub back_up_call-Keeps : Keeps P j w after.2
    unfolding back_up_call
    back_up_call-Keeps =
        under_lease-keeps rt (smb_request q) (waits already_processing) meanwhile race d w
          (Keeps P j w) (record { audio = record { tx = λ h. h; rx = λ h. h }; marks = inl refl })
          λ e.
            raced-keeps (Keeps P j w) (waits timeout) (λ f. err (uncaught (codes "NameError")))
              ending (process_call_unbounded P rt q.fresh j) e w
              λ left.
                (process_call_unbounded-After P j rt q.fresh
                  (record { left = left; dir = e; world = w })).0

    -- However the call ends, the owner that had got the lease of the backup has none for the backup at
    -- the end, if the lease files could be read at the start and the other workers leave them readable.
    -- And wherever the part that makes the pair is called with files that can be read, it gives back
    -- the lease of the conversion: an owner with a name that has none before it has none behind it.
    pub back_up_call-released :
        (l : RecordingLease)
        → (acquire_lease rt (smb_request q) d).0 ≡ ok l
        → AllReadable d
        → ((e : CallDir) → AllReadable e → AllReadable (meanwhile e))
        → (find_owned rt after.1 smb_stage l.owner ≡ ok none)
          × ((owner : Text) (r : Run (World P))
              → is_empty owner ≡ false
              → AllReadable r.dir
              → find_owned rt r.dir conversion owner ≡ ok none
              → find_owned rt (ensure_mono_pair P rt owner j r).1.dir conversion owner ≡ ok none)
    unfolding back_up_call process_call_unbounded
    back_up_call-released l h readable careful = (
      under_lease-released rt (smb_request q) (waits already_processing) meanwhile race d w l h (
          careful _ (
            raced-KeepsReadable (waits timeout) (λ f. err (uncaught (codes "NameError"))) ending
              (process_call_unbounded P rt q.fresh j) (acquire_lease rt (smb_request q) d).1 w
              (bind-KeepsReadable (ensure_mono_pair P rt q.fresh j) (looks P j)
                (ensure_mono_pair-KeepsReadable rt q.fresh) looks-KeepsReadable)
              (acquire-AllReadable rt (smb_request q) d readable))),
      ensure_mono_pair-released rt,
    )

-- ===== src/Transcript/Reference/Found.antt =====
-- The transcript worker finds what the backup worker has published, and nothing else.
use zenith_voip.Prelude.{
  ℕ, ◌≡◌, refl, Bool, true, false, Option, none, some, [], ◌∷◌, Text, codes, text_eq, text_eq_iff,
  text_eq_refl, is_digit, sym, arith, ◌⊎◌, Bool-cases, Option-cases, inl, inr,
}
use zenith_voip.Prelude.Result.{ok}
use zenith_voip.Prelude.Json.{
  Json, null, bool, num, other_num, str, arr, obj, Fields, end, field, member,
}
use zenith_voip.Text.Safe.{AllSafe}
use zenith_voip.Smb.Names.{
  DateTime, NameParts, build_remote_name, build_remote_directory, is_remote_wav, remote_md_name,
}
use zenith_voip.Smb.NameLaws.{build_remote_name-AllSafe}
use zenith_voip.Smb.Published.{build_remote_name-is_remote_wav, remote_md_name_lem}
use zenith_voip.Transcript.Reference.{
  has_char, is_text, Reference, remote_name_of, started_at_of, reference_of, log_key,
  load_smb_audio_reference, Backup, done_item, set_field,
}

is_text_iff : (o : Option Json) (t : Text) → is_text o t ≡ true → o ≡ some (str t)
unfolding is_text
is_text_iff (some (str s)) t h = ground (arith, text_eq_iff s t)
is_text_iff none t h = absurd (ground (arith, h))
is_text_iff (some null) t h = absurd (ground (arith, h))
is_text_iff (some (bool _)) t h = absurd (ground (arith, h))
is_text_iff (some (num _)) t h = absurd (ground (arith, h))
is_text_iff (some (other_num _)) t h = absurd (ground (arith, h))
is_text_iff (some (arr _)) t h = absurd (ground (arith, h))
is_text_iff (some (obj _)) t h = absurd (ground (arith, h))

member-set_field : (k : Text) (v : Json) (d : Fields) → member k (set_field k v d) ≡ some v
unfolding member set_field
member-set_field k v end = ground (arith, text_eq_refl k)
member-set_field k v (field j w rest) = ground (arith, member-set_field k v rest)

has_char_safe : (c : ℕ) (s : Text) → AllSafe s → (c ≡ b'/') ⊎ (c ≡ b'\\') → has_char c s ≡ false
unfolding has_char
has_char_safe c [] h k = refl
has_char_safe c (d ∷ s) (h, hs) k = ground (arith, has_char_safe c s hs k)

-- A name without a separator that the pattern accepts.
pub record IsWavName (decimal : ℕ → Bool) (s : Text) : Type 0 where
  pub no_slash : has_char b'/' s ≡ false
  pub no_backslash : has_char b'\\' s ≡ false
  pub matches : is_remote_wav decimal s ≡ true

module _ (decimal : ℕ → Bool) (fromisoformat : Text → Option DateTime) where
  remote_name_of_lem :
      (o : Option Json) (s : Text)
      → remote_name_of decimal fromisoformat o ≡ some s
      → (o ≡ some (str s)) × IsWavName decimal s
  unfolding remote_name_of
  remote_name_of_lem (some (str t)) s h = elim (Bool-cases (has_char b'/' t)) [
    | inl a ↦ absurd (ground (arith, a, h))
    | inr a ↦ elim (Bool-cases (has_char b'\\' t)) [
      | inl b ↦ absurd (ground (arith, a, b, h))
      | inr b ↦ elim (Bool-cases (is_remote_wav decimal t)) [
        | inr c ↦ absurd (ground (arith, a, b, c, h))
        | inl c ↦
            let same : t ≡ s = ground (arith, a, b, c, h) in
            let good : IsWavName decimal t = record {
              no_slash = a;
              no_backslash = b;
              matches = c;
            } in
            rw (← same) (refl, good)
      ]
    ]
  ]
  remote_name_of_lem none s h = absurd (ground (arith, h))
  remote_name_of_lem (some null) s h = absurd (ground (arith, h))
  remote_name_of_lem (some (bool _)) s h = absurd (ground (arith, h))
  remote_name_of_lem (some (num _)) s h = absurd (ground (arith, h))
  remote_name_of_lem (some (other_num _)) s h = absurd (ground (arith, h))
  remote_name_of_lem (some (arr _)) s h = absurd (ground (arith, h))
  remote_name_of_lem (some (obj _)) s h = absurd (ground (arith, h))

  -- The entry of the log from which a reference is taken.
  pub record IsBackedUp (log : Fields) (tenant_id call_id : Text) (r : Reference) (item : Fields)
      : Type 0 where
    pub entry : member (log_key tenant_id call_id) log ≡ some (obj item)
    pub done : member (codes "status") item ≡ some (str (codes "done"))
    pub of_tenant : member (codes "tenant_id") item ≡ some (str tenant_id)
    pub of_call : member (codes "call_id") item ≡ some (str call_id)
    pub named : member (codes "remote_name") item ≡ some (str r.remote_wav_name)
    pub is_wav : IsWavName decimal r.remote_wav_name
    pub transcript : r.remote_md_name ≡ remote_md_name r.remote_wav_name

  reference_of_lem :
      (log : Fields) (tenant_id call_id : Text) (r : Reference) (item : Fields)
      → member (log_key tenant_id call_id) log ≡ some (obj item)
      → reference_of decimal fromisoformat tenant_id call_id item ≡ some r
      → IsBackedUp log tenant_id call_id r item
  unfolding reference_of
  reference_of_lem log tenant_id call_id r item e h =
      elim (Bool-cases (is_text (member (codes "status") item) (codes "done"))) [
        | inr a ↦ absurd (ground (arith, a, h))
        | inl a ↦ elim (Bool-cases (is_text (member (codes "tenant_id") item) tenant_id)) [
          | inr b ↦ absurd (ground (arith, a, b, h))
          | inl b ↦ elim (Bool-cases (is_text (member (codes "call_id") item) call_id)) [
            | inr c ↦ absurd (ground (arith, a, b, c, h))
            | inl c ↦
                elim (Option-cases
                  (remote_name_of decimal fromisoformat (member (codes "remote_name") item))) [
                    | inl n ↦ absurd (ground (arith, a, b, c, n, h))
                    | inr (name, n) ↦
                        let (found, good) = remote_name_of_lem _ name n in
                        elim (Option-cases (
                          started_at_of decimal fromisoformat (member (codes "started_at") item))) [
                            | inl d ↦ absurd (ground (arith, a, b, c, n, d, h))
                            | inr (t, d) ↦
                                let whole : some (record {
                                  remote_dir = build_remote_directory tenant_id t;
                                  remote_wav_name = name;
                                  remote_md_name = remote_md_name name;
                                })
                                    ≡ some r =
                                  ground (arith, a, b, c, n, d, h) in
                                let same : r.remote_wav_name ≡ name = ground (arith, whole) in
                                record {
                                  entry = e;
                                  done = is_text_iff _ _ a;
                                  of_tenant = is_text_iff _ _ b;
                                  of_call = is_text_iff _ _ c;
                                  named = ground (arith, whole, found);
                                  is_wav = rw same good;
                                  transcript = ground (arith, whole);
                                }
                          ]
                  ]
          ]
        ]
      ]

  -- A reference is taken only from an entry of the log that is marked done and names the tenant and
  -- the call; its recording's name is the entry's, has no path separator and matches the pattern, and
  -- the transcript's name is derived from it.
  pub load_smb_audio_reference-IsBackedUp :
      (log : Fields) (tenant_id call_id : Text) (r : Reference)
      → load_smb_audio_reference decimal fromisoformat log tenant_id call_id ≡ some r
      → (item : Fields) × IsBackedUp log tenant_id call_id r item
  unfolding load_smb_audio_reference
  load_smb_audio_reference-IsBackedUp log tenant_id call_id r h =
      elim (member (log_key tenant_id call_id) log)
          as (λ o.
            o ≡ member (log_key tenant_id call_id) log
            → (item : Fields) × IsBackedUp log tenant_id call_id r item) [
              | some (obj item) ↦ λ e. (
                item,
                reference_of_lem log tenant_id call_id r item (sym e) (ground (arith, e, h)),
              )
              | none ↦ λ e. absurd (ground (arith, e, h))
              | some null ↦ λ e. absurd (ground (arith, e, h))
              | some (bool _) ↦ λ e. absurd (ground (arith, e, h))
              | some (num _) ↦ λ e. absurd (ground (arith, e, h))
              | some (other_num _) ↦ λ e. absurd (ground (arith, e, h))
              | some (str _) ↦ λ e. absurd (ground (arith, e, h))
              | some (arr _) ↦ λ e. absurd (ground (arith, e, h))
            ]
        refl

  module _ (admits : (c : ℕ) → is_digit c ≡ true → decimal c ≡ true) where
    remote_name_of-built :
        (p : NameParts) (suffix : Bool) (name : Text)
        → build_remote_name p (codes "wav") suffix ≡ ok name
        → remote_name_of decimal fromisoformat (some (str name)) ≡ some name
    unfolding remote_name_of
    remote_name_of-built p suffix name h =
        let safe = build_remote_name-AllSafe p (codes "wav") suffix name h in
        ground (
          arith,
          has_char_safe b'/' name safe (inl refl),
          has_char_safe b'\\' name safe (inr refl),
          build_remote_name-is_remote_wav decimal admits p suffix name h,
        )

    -- Once the backup worker has written the entry of a call that it published under a name of the
    -- call's data, the transcript worker finds the recording under that name, in the directory of
    -- the tenant and the day, and the transcript's name is what the same data give with the
    -- extension md; the entry's date has to read back as the date that the name was built from.
    pub load_smb_audio_reference-done_item :
        (log : Fields) (b : Backup) (p : NameParts) (suffix : Bool)
        → build_remote_name p (codes "wav") suffix ≡ ok b.remote_name
        → fromisoformat b.started_at ≡ some p.started_at
        → (r : Reference) × (load_smb_audio_reference decimal fromisoformat
              (set_field (log_key b.tenant_id b.call_id) (obj (done_item b)) log)
              b.tenant_id
              b.call_id
            ≡ some r)
          × (r.remote_dir ≡ build_remote_directory b.tenant_id p.started_at)
          × (r.remote_wav_name ≡ b.remote_name)
          × (build_remote_name p (codes "md") suffix ≡ ok r.remote_md_name)
    unfolding load_smb_audio_reference reference_of done_item member text_eq is_text started_at_of
    load_smb_audio_reference-done_item log b p suffix h date =
        let r : Reference = record {
          remote_dir = build_remote_directory b.tenant_id p.started_at;
          remote_wav_name = b.remote_name;
          remote_md_name = remote_md_name b.remote_name;
        } in
        let found = member-set_field (log_key b.tenant_id b.call_id) (obj (done_item b)) log in
        (
          r,
          ground (
            arith,
            found,
            text_eq_refl b.tenant_id,
            text_eq_refl b.call_id,
            date,
            remote_name_of-built p suffix b.remote_name h,
          ),
          refl,
          refl,
          remote_md_name_lem p suffix b.remote_name h,
        )

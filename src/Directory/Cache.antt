-- ===== src/Directory/Cache.antt =====
-- The cached users of the legacy file.
use zenith_voip.Prelude.{ℕ, ◌≡◌, refl, Option, none, some, List, [], ◌∷◌, map, Text, arith}
use zenith_voip.Prelude.{inl, inr, Bool-cases, true}
use zenith_voip.Prelude.Result.{Result, ok, Result-cases}
use zenith_voip.Prelude.Xml.{Element}
use zenith_voip.Directory.Legacy.{
  LegacyError, LegacyUser, Stat, missing, denied, modified, LegacyFile, Provider, new_provider,
  read_users, is_read_at, refresh, lookup_user,
}

is_read_at_lem : (m : ℕ) (n : Option ℕ) → is_read_at m n ≡ true → n ≡ some m
is_read_at_lem m none h = absurd (ground arith)
is_read_at_lem m (some n) h = ground arith

module _ (fromstring : Text → Option Element) where
  abbrev pub Answer : Type 0
  Answer = Result LegacyError (Option LegacyUser)

  -- The answers to lookups one after the other, each with the file as it stands then.
  unfoldable pub run_lookups : List (LegacyFile × Text) → Provider → List Answer
  run_lookups [] p = []
  run_lookups ((file, username) ∷ rest) p =
      let (r, p') = lookup_user fromstring file username p in r ∷ run_lookups rest p'

  -- What a provider that has read nothing answers.
  abbrev pub fresh_answer : LegacyFile × Text → Answer
  fresh_answer (file, username) = (lookup_user fromstring file username new_provider).0

  module _ (contents : ℕ → Option Text) where
    -- The file has the content of its time of modification.
    abbrev pub HasContent : LegacyFile → Type 0
    HasContent file = (m : ℕ) → file.stat ≡ modified m → file.content ≡ contents m

    abbrev pub AllHaveContent : List (LegacyFile × Text) → Type 0
    AllHaveContent [] = Unit
    AllHaveContent ((file, username) ∷ rest) = HasContent file × AllHaveContent rest

    -- The cached users are those of the file at the cached time.
    abbrev pub IsCurrent : Provider → Type 0
    IsCurrent p = (m : ℕ) → p.mtime_ns ≡ some m → read_users fromstring (contents m) ≡ ok p.users

    new-IsCurrent : IsCurrent new_provider
    new-IsCurrent m h = absurd (ground arith)

    lookup_lem :
        (stat : Stat) (content : Option Text) (username : Text) (p : Provider)
        → let file : LegacyFile = record { stat = stat; content = content } in
          HasContent file
          → IsCurrent p
          → ((lookup_user fromstring file username p).0 ≡ fresh_answer (file, username))
            × IsCurrent (lookup_user fromstring file username p).1
    unfolding lookup_user refresh
    lookup_lem missing content username p h c = (refl, new-IsCurrent)
    lookup_lem denied content username p h c = (refl, c)
    lookup_lem (modified m) content username p h c =
        let file : LegacyFile = record { stat = modified m; content = content } in
        let next = (lookup_user fromstring file username p).1 in
        let here : content ≡ contents m = h m refl in
        elim (Bool-cases (is_read_at m p.mtime_ns)) [
          | inl same ↦
              let at : p.mtime_ns ≡ some m = is_read_at_lem m p.mtime_ns same in
              let users : read_users fromstring (contents m) ≡ ok p.users = c m at in
              let kept : next ≡ p = ground (arith, same) in
              (ground (arith, same, here, users), rw kept c)
          | inr other ↦ elim (Result-cases (read_users fromstring content)) [
            | inl (users, e) ↦
                let read : Provider = record { mtime_ns = some m; users = users } in
                let now : next ≡ read = ground (arith, other, e) in
                let current : IsCurrent read = λ n q. ground (arith, e, here, q) in
                (ground (arith, other, e), rw now current)
            | inr (x, e) ↦
                let kept : next ≡ p = ground (arith, other, e) in
                (ground (arith, other, e), rw kept c)
          ]
        ]

    run_current :
        (looks : List (LegacyFile × Text)) (p : Provider)
        → AllHaveContent looks
        → IsCurrent p
        → run_lookups looks p ≡ map fresh_answer looks
    unfolding run_lookups
    run_current [] p h c = refl
    run_current ((file, username) ∷ rest) p (here, there) c =
        let (same, current) = lookup_lem file.stat file.content username p here c in
        rw (same, run_current rest (lookup_user fromstring file username p).1 there current) refl

    -- A provider that has read nothing answers lookups one after the other, between which the file
    -- may change, go away or be unreadable, as if it read the file anew each time, provided that the
    -- time of modification determines the content. (A file that went bad answers with the error
    -- of its content at every lookup, never with users from before.)
    pub run_lookups-fresh :
        (looks : List (LegacyFile × Text))
        → AllHaveContent looks
        → run_lookups looks new_provider ≡ map fresh_answer looks
    run_lookups-fresh looks h = run_current looks new_provider h new-IsCurrent

-- ===== src/Smb/Publish/Examples.antt =====
-- A share of files in memory.
use zenith_voip.Prelude.{
  ◌≡◌, ◌≢◌, refl, Bool, false, Option, none, some, Text, text_eq, text_eq_iff, is_some, arith, sym,
  ap, if◌then◌else◌,
}
use zenith_voip.Prelude.Result.{Result, ok, err}
use zenith_voip.Smb.Share.{Share, Failure, other_failure, path}

abbrev pub Files : Type 0
Files = Text → Option Text

abbrev pub update : Text → Option Text → Files → Files
update p c s q = if text_eq q p then c else s q

abbrev pub retrieve : Text → Files → Result Failure Text × Files
retrieve p s = (elim (s p) [ none ↦ err other_failure | some c ↦ ok c ], s)

abbrev pub move : Text → Text → Files → Files
move p q s = elim (s p) [ none ↦ s | some c ↦ update p none (update q (some c) s) ]

pub update-ne : (p : Text) (c : Option Text) (s : Files) (q : Text) → q ≢ p → update p c s q ≡ s q
update-ne p c s q h = ground (arith, text_eq_iff q p)

pub move-ne : (p q : Text) (s : Files) (r : Text) → r ≢ p → r ≢ q → move p q s r ≡ s r
move-ne p q s r hp hq = ground (arith, text_eq_iff r p, text_eq_iff r q)

pub retrieve-ok : (p : Text) (s : Files) (c : Text) → (retrieve p s).0 ≡ ok c → s p ≡ some c
retrieve-ok p s c h = ground arith

abbrev pub listing : Files → Text → Result Failure (Text → Bool)
listing s dir = ok (λ n. is_some (s (path dir n)))

abbrev pub answer : Result Failure (Text → Bool) → Text → Bool
answer (ok names) n = names n
answer (err e) n = false

pub list-ok :
    (dir : Text) (s : Files) (names : Text → Bool)
    → listing s dir ≡ ok names
    → (n : Text) → names n ≡ is_some (s (path dir n))
list-ok dir s names h n = sym (ap (λ r. answer r n) h)

abbrev pub in_memory : Share
in_memory = record {
  State = Files;
  view = λ s p. s p;
  open_directory = λ dir s. (ok tt, s);
  list_path = λ dir s. (listing s dir, s);
  retrieve_file = retrieve;
  store_file = λ p c s. (ok tt, update p (some c) s);
  rename = λ p q s. (ok tt, move p q s);
  delete_files = λ p s. (ok tt, update p none s);
  open_keeps = λ dir s p. refl;
  list_keeps = λ dir s p. refl;
  list_ok = list-ok;
  retrieve_keeps = λ p s q. refl;
  retrieve_ok = retrieve-ok;
  store_keeps = λ p c s q. update-ne p (some c) s q;
  rename_keeps = move-ne;
  delete_keeps = λ p s q. update-ne p none s q;
}

-- ===== src/Text/Safe.antt =====
-- Texts over the characters that are allowed in a remote name.
use zenith_voip.Prelude.{ℕ, ◌≡◌, true, false, [], ◌∷◌, All, Text, arith}
use zenith_voip.Text.{is_space, is_safe}
use zenith_voip.Text.Strip.{NoSpace}

abbrev pub AllSafe : Text → Type 0
AllSafe = All (λ c. is_safe c ≡ true)

safe_no_space : (c : ℕ) → is_safe c ≡ true → is_space c ≡ false
unfolding is_space
safe_no_space c h = ground arith

pub AllSafe-NoSpace : (s : Text) → AllSafe s → NoSpace s
AllSafe-NoSpace [] h = tt
AllSafe-NoSpace (c ∷ s) h = (safe_no_space c h.0, AllSafe-NoSpace s h.1)

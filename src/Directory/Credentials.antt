-- ===== src/Directory/Credentials.antt =====
-- `TrunkCredentialCipher` (src/services/trunk_credentials.py) over the library that encrypts. Texts
-- hold no lone surrogates, which `str.encode` refuses.
use zenith_voip.Prelude.{
  ℕ, Bool, true, Option, none, some, List, [], ◌∷◌, Text, is_empty, ◌≡◌, ◌&&◌, if◌then◌else◌, ◌==◌,
}
use zenith_voip.Prelude.Result.{Result, ok, err}
use zenith_voip.Text.{strip}

pub data CredentialError : Type 0 where
  keys_invalid plaintext_invalid token_invalid : CredentialError

-- `Fernet` and `MultiFernet`: which texts are keys; the token of a text under a list of keys, whose
-- time and random bytes are the number; the text of a token, `none` for an InvalidToken or for bytes
-- that are no UTF-8. What is encrypted under some keys is decrypted under them.
pub record Fernet : Type 0 where
  pub is_key : Text → Bool
  pub encrypt : List Text → ℕ → Text → Text
  pub decrypt : List Text → Text → Option Text
  pub decrypt-encrypt :
      (k : Text) (ks : List Text) (n : ℕ) (s : Text)
      → is_key k ≡ true
      → decrypt (k ∷ ks) (encrypt (k ∷ ks) n s) ≡ some s

-- `[key.strip() for key in keys if key and key.strip()]`
unfoldable pub normalized : List Text → List Text
normalized [] = []
normalized (k ∷ ks) =
    let rest = normalized ks in if is_empty (strip k) then rest else strip k ∷ rest

-- `text.split(",")`
unfoldable pub split_commas : Text → List Text
split_commas [] = [] ∷ []
split_commas (c ∷ s) = elim (split_commas s) [
  | [] ↦ []
  | word ∷ words ↦ if c == b',' then [] ∷ word ∷ words else (c ∷ word) ∷ words
]

-- `_keys` of src/api/freeswitch_directory.py
unfoldable pub keys_of : Text → List Text
keys_of s = normalized (split_commas s)

module _ (F : Fernet) where
  abbrev pub all_keys : List Text → Bool
  all_keys [] = true
  all_keys (k ∷ ks) = F.is_key k && all_keys ks

  -- `__init__`, which answers the keys of the cipher
  unfoldable pub new_cipher : List Text → Result CredentialError (List Text)
  new_cipher keys = elim (normalized keys) [
    | [] ↦ err keys_invalid
    | k ∷ ks ↦ if all_keys (k ∷ ks) then ok (k ∷ ks) else err keys_invalid
  ]

  -- `encrypt`
  unfoldable pub encrypt_credential : List Text → ℕ → Text → Result CredentialError Text
  encrypt_credential ks n s = if is_empty s then err plaintext_invalid else ok (F.encrypt ks n s)

  -- `decrypt`
  unfoldable pub decrypt_credential : List Text → Text → Result CredentialError Text
  decrypt_credential ks token = elim (F.decrypt ks token) [
    | none ↦ err token_invalid
    | some s ↦ ok s
  ]

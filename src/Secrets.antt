-- ===== src/Secrets.antt =====
-- controller/src/lib/secrets.ts and passwords.ts.
pub mod RoundTrip
pub mod Password
use Prim.Native.Char.{code}
use Prim.Native.String.{String}
use docker_mass_deployment.Base.{
  ℕ, Bool, Option, none, some, ◌==◌, ◌||◌, ◌⧺◌, if◌then◌else◌, str_eq, or_else,
}
use docker_mass_deployment.Outside.{Outside, Cipher}
use docker_mass_deployment.Store.World.{Action, pure, draw, ◌>>=◌}

abbrev pub prefix : String
prefix = "enc:v1:"

-- The text behind a prefix, if it has that prefix: `startsWith` and `slice`.
unfoldable pub strip_prefix : String → String → Option String
strip_prefix String.[] s = some s
strip_prefix (String.◌∷◌ p ps) String.[] = none
strip_prefix (String.◌∷◌ p ps) (String.◌∷◌ c s) =
    if code p == code c then strip_prefix ps s else none

-- The text up to the first colon, and what follows it if there is one.
unfoldable pub cut_colon : String → String × Option String
cut_colon String.[] = ("", none)
cut_colon (String.◌∷◌ c s) =
    let (head, rest) = cut_colon s in
    if code c == b':' then ("", some s) else (String.◌∷◌ c head, rest)

-- The first three parts of `split(":")`; a missing part is "", which the source tests alike.
unfoldable pub split_cipher : String → Cipher
unfolding cut_colon
split_cipher s =
    let (iv, s₁) = cut_colon s in
    let (tag, s₂) = cut_colon (or_else s₁ "") in
    let (ct, _) = cut_colon (or_else s₂ "") in record { iv = iv; tag = tag; ct = ct }

abbrev is_empty : String → Bool
is_empty s = str_eq s ""

module _ {Q : Type 0} (out : Outside Q) where
  abbrev pub sealed : Cipher → String
  sealed c = prefix ⧺ (c.iv ⧺ (":" ⧺ (c.tag ⧺ (":" ⧺ c.ct))))

  -- `encryptSecret`, at a draw of randomness for the IV.
  unfoldable pub encrypt_at : ℕ → String → String
  encrypt_at n plain = if is_empty plain then "" else sealed (out.aes_encrypt n plain)

  unfoldable pub encrypt_secret : String → Action Q String
  encrypt_secret plain =
      if is_empty plain then pure "" else (do n ← draw; pure (encrypt_at n plain))

  abbrev opened : String → Cipher → String
  opened stored c =
      if is_empty c.iv || is_empty c.tag || is_empty c.ct
      then stored
      else or_else (out.aes_decrypt c) ""

  abbrev decrypt_body : String → Option String → String
  decrypt_body stored none = stored
  decrypt_body stored (some body) = opened stored (split_cipher body)

  -- `decryptSecret`; a value in another format is returned unchanged.
  unfoldable pub decrypt_secret : String → String
  unfolding strip_prefix
  decrypt_secret stored = decrypt_body stored (strip_prefix prefix stored)

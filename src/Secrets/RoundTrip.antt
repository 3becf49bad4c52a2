-- ===== src/Secrets/RoundTrip.antt =====
-- Encryption and decryption of controller/src/lib/secrets.ts, one after the other.
use Prim.Native.Char.{code}
use Prim.Native.String.{String}
use text.Mathlib.TextLemmas.{nil-append, cons-append}
use docker_mass_deployment.Base.{
  ℕ, ◌≡◌, refl, ◌≢◌, none, some, ◌⧺◌, or_else, str_eq, eq_iff, arith, Bool-cases, inl, inr,
}
use docker_mass_deployment.Outside.{Outside, Cipher}
use docker_mass_deployment.Secrets.{
  prefix, strip_prefix, cut_colon, split_cipher, sealed, encrypt_at, decrypt_secret,
}

-- No colon in the text.
abbrev pub NoColon : String → Type 0
NoColon String.[] = Unit
NoColon (String.◌∷◌ c s) = (code c ≢ b':') × NoColon s

strip_prefix-append : (p s : String) → strip_prefix p (p ⧺ s) ≡ some s
unfolding strip_prefix
strip_prefix-append String.[] s = rw nil-append
strip_prefix-append (String.◌∷◌ c p) s = rw cons-append (ground (arith, strip_prefix-append p s))

cut_colon-none : (s : String) → NoColon s → cut_colon s ≡ (s, none)
unfolding cut_colon
cut_colon-none String.[] h = refl
cut_colon-none (String.◌∷◌ c s) (h, hs) = ground (arith, cut_colon-none s hs)

cut_colon-append : (s t : String) → NoColon s → cut_colon (s ⧺ (":" ⧺ t)) ≡ (s, some t)
unfolding cut_colon
cut_colon-append String.[] t h = rw nil-append (rw cons-append (rw nil-append))
cut_colon-append (String.◌∷◌ c s) t (h, hs) =
    rw cons-append (ground (arith, cut_colon-append s t hs))

-- What the code relies on: the parts are base64 texts, which have no colon and are not empty for
-- a text that is not empty, and AES-GCM with one key decrypts what it encrypted.
pub record IsSound {Q : Type 0} (out : Outside Q) : Type 0 where
  pub iv : (n : ℕ) (s : String) → NoColon (out.aes_encrypt n s).iv × ((out.aes_encrypt n s).iv ≢ "")
  pub tag :
      (n : ℕ) (s : String) → NoColon (out.aes_encrypt n s).tag × ((out.aes_encrypt n s).tag ≢ "")
  pub ct : (n : ℕ) (s : String) → NoColon (out.aes_encrypt n s).ct
  pub ct_some : (n : ℕ) (s : String) → s ≢ "" → (out.aes_encrypt n s).ct ≢ ""
  pub decrypts : (n : ℕ) (s : String) → out.aes_decrypt (out.aes_encrypt n s) ≡ some s

split_cipher-sealed :
    (c : Cipher)
    → NoColon c.iv
    → NoColon c.tag
    → NoColon c.ct
    → split_cipher (c.iv ⧺ (":" ⧺ (c.tag ⧺ (":" ⧺ c.ct)))) ≡ c
unfolding split_cipher
split_cipher-sealed c hi ht hc =
    rw (cut_colon-append c.iv _ hi) (rw (cut_colon-append c.tag _ ht) (rw (cut_colon-none c.ct hc)))

decrypt_secret-sealed :
    {Q : Type 0} (out : Outside Q) (c : Cipher)
    → NoColon c.iv × (c.iv ≢ "")
    → NoColon c.tag × (c.tag ≢ "")
    → NoColon c.ct × (c.ct ≢ "")
    → decrypt_secret out (sealed out c) ≡ or_else (out.aes_decrypt c) ""
unfolding decrypt_secret
decrypt_secret-sealed out c (hi, i) (ht, t) (hc, k) =
    rw (strip_prefix-append prefix (c.iv ⧺ (":" ⧺ (c.tag ⧺ (":" ⧺ c.ct))))) (
      rw (split_cipher-sealed c hi ht hc)
        (ground (arith, eq_iff c.iv "", eq_iff c.tag "", eq_iff c.ct "")))

-- A text that is encrypted, at any draw of randomness, decrypts to itself; the empty text too.
pub decrypt_secret-encrypt_at :
    {Q : Type 0} (out : Outside Q)
    → IsSound out
    → (n : ℕ) (s : String) → decrypt_secret out (encrypt_at out n s) ≡ s
unfolding encrypt_at
decrypt_secret-encrypt_at out sound n s = elim (Bool-cases (str_eq s "")) [
  | inl e ↦ rw (e, encrypt_at) (rw ((eq_iff s "").0 e) (unfold decrypt_secret in refl))
  | inr e ↦
      rw (e, encrypt_at)
        (rw
          (decrypt_secret-sealed out (out.aes_encrypt n s) (sound.iv n s) (sound.tag n s)
            (sound.ct n s, sound.ct_some n s (λ q. cc ((eq_iff s "").1 q))))
          (rw (sound.decrypts n s)))
]

-- ===== src/Tests/Texts.antt =====
-- The theorems on secrets, with a cipher that hides colons.
use Prim.Native.Char.{code}
use text.Mathlib.TextEquality.{Char-path}
use text.Mathlib.TextLemmas.{nil-append, cons-append}
use docker_mass_deployment.Base.{
  String, ◌≡◌, ◌↔◌, refl, sym, ◌∙◌, ap, eq_iff, true, false, some, ◌==◌, ==_iff, arith, Bool-cases,
  inl, inr, All, codes, length,
}
use docker_mass_deployment.Json.{Json, obj, field, str, end}
use docker_mass_deployment.Json.Redact.{redact_secrets}
use docker_mass_deployment.Json.Redact.Clean.{IsClean, Masks, redact_secrets-IsClean}
use docker_mass_deployment.Secrets.{encrypt_at, decrypt_secret}
use docker_mass_deployment.Secrets.RoundTrip.{NoColon, IsSound, decrypt_secret-encrypt_at}
use docker_mass_deployment.Secrets.Password.{generate_password}
use docker_mass_deployment.Secrets.Password.Alphabet.{IsTypable, generate_password-IsTypable}
use docker_mass_deployment.Tests.{veil, unveil, toy}

veil-NoColon : (s : String) → NoColon (veil s)
veil-NoColon String.[] = tt
veil-NoColon (String.◌∷◌ c s) = elim (Bool-cases (code c == b':')) [
  | inl e ↦
      rw (e, cons-append, cons-append, nil-append) ((omega arith), ((omega arith), veil-NoColon s))
  | inr e ↦ rw e ((λ p. absurd (ground arith)), ((omega arith), veil-NoColon s))
]

unveil-veil : (s : String) → unveil (veil s) ≡ s
unveil-veil String.[] = refl
unveil-veil (String.◌∷◌ c s) = elim (Bool-cases (code c == b':')) [
  | inl e ↦
      rw (e, cons-append, cons-append, nil-append, unveil-veil s)
        (rw (cons-append, nil-append)
          (ap (λ d. String.◌∷◌ d s) (Char-path ":" c (sym ((==_iff (code c) b':').0 e)))))
  | inr e ↦ rw (e, unveil-veil s) refl
]

clash : false ≡ true → ⊥
clash p = ground arith

toy-IsSound : IsSound toy
toy-IsSound = record {
  iv = λ n s. (((omega arith), ((omega arith), tt)), λ p. clash ((eq_iff "iv" "").1 p));
  tag = λ n s.
      (((omega arith), ((omega arith), ((omega arith), tt))), λ p. clash ((eq_iff "tag" "").1 p));
  ct = λ n s. veil-NoColon s;
  ct_some = λ n s k p. k (sym (unveil-veil s) ∙ ap unveil p);
  decrypts = λ n s. ap some (unveil-veil s);
}

decrypt_secret-encrypt_at_example : decrypt_secret toy (encrypt_at toy 3 "a:b") ≡ "a:b"
decrypt_secret-encrypt_at_example = decrypt_secret-encrypt_at toy toy-IsSound 3 "a:b"

generate_password-IsTypable_example :
    All IsTypable (codes (generate_password toy 9))
    × (length (codes (generate_password toy 9)) ≡ length (toy.random_bytes 9 14))
generate_password-IsTypable_example = generate_password-IsTypable toy 9

abbrev payload : Json
payload = obj (field "username" (str "ann") (field "password" (str "pw") end))

redact_secrets-IsClean_example :
    Masks payload (redact_secrets payload)
    × (IsClean (redact_secrets payload) × ((redact_secrets payload ≡ payload) ↔ IsClean payload))
redact_secrets-IsClean_example = redact_secrets-IsClean payload

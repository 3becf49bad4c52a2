-- ===== src/Secrets/Password/Alphabet.antt =====
-- What a generated password is made of.
use Prim.Native.String.{String}
use text.Mathlib.TextLemmas.{nil-append, cons-append}
use docker_mass_deployment.Base.{
  ℕ, zero, suc, ◌%◌, ◌<◌, ◌≡◌, refl, List, [], ◌∷◌, ◌++◌, ◌⧺◌, arith, length, codes, mem_nat, true,
  not, ◌&&◌, All, All-append, length-append,
}
use docker_mass_deployment.Outside.{Outside}
use docker_mass_deployment.Secrets.Password.{password_chars, char_at, spell, generate_password}

codes-append : (s t : String) → codes (s ⧺ t) ≡ codes s ++ codes t
codes-append String.[] t = rw nil-append
codes-append (String.◌∷◌ c s) t = rw cons-append (rw (codes-append s t))

-- A character that is easy to type: in the alphabet, and none of 0, O, 1, l and I.
abbrev pub IsTypable : ℕ → Type 0
IsTypable c = (mem_nat c (codes password_chars) && not (mem_nat c (codes "0O1lI"))) ≡ true

password_chars-IsTypable : All IsTypable (codes password_chars)
password_chars-IsTypable = ground arith

char_at_one :
    (P : ℕ → Type 0) (s : String) (i : ℕ)
    → All P (codes s)
    → i < length (codes s)
    → All P (codes (char_at s i)) × (length (codes (char_at s i)) ≡ 1)
unfolding char_at
char_at_one P String.[] i h lt = elim lt [ ]
char_at_one P (String.◌∷◌ c s) zero h lt = ((h.0, tt), refl)
char_at_one P (String.◌∷◌ c s) (suc i) h lt = char_at_one P s i h.1 (omega arith)

spell_lem :
    (bytes : List ℕ)
    → All IsTypable (codes (spell bytes)) × (length (codes (spell bytes)) ≡ length bytes)
unfolding spell
spell_lem [] = (tt, refl)
spell_lem (b ∷ bytes) =
    let (typable, one) =
      char_at_one IsTypable password_chars (b % 56) password_chars-IsTypable (omega arith) in
    let (rest, count) = spell_lem bytes in
    rw codes-append (
      All-append IsTypable (codes (char_at password_chars (b % 56))) (codes (spell bytes)) typable
          rest,
      omega (
        arith,
        length-append {0} (codes (char_at password_chars (b % 56))) (codes (spell bytes)),
      ),
    )

-- Whatever bytes are drawn, a password has one character for each, and every character is a
-- typable one.
pub generate_password-IsTypable :
    {Q : Type 0} (out : Outside Q) (n : ℕ)
    → All IsTypable (codes (generate_password out n))
      × (length (codes (generate_password out n)) ≡ length (out.random_bytes n 14))
unfolding generate_password
generate_password-IsTypable out n = spell_lem (out.random_bytes n 14)

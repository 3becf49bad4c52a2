-- ===== src/Secrets/Password.antt =====
-- `generatePassword` of controller/src/lib/passwords.ts.
pub mod Alphabet
use Prim.Native.String.{String}
use docker_mass_deployment.Base.{ℕ, zero, suc, ◌%◌, List, [], ◌∷◌, ◌⧺◌}
use docker_mass_deployment.Outside.{Outside}

abbrev pub password_chars : String
password_chars = "abcdefghijkmnpqrstuvwxyzABCDEFGHJKLMNPQRSTUVWXYZ23456789"

-- `s[i]`, as a text that `+=` appends.
unfoldable pub char_at : String → ℕ → String
char_at String.[] i = ""
char_at (String.◌∷◌ c s) zero = String.◌∷◌ c String.[]
char_at (String.◌∷◌ c s) (suc i) = char_at s i

-- The loop over the bytes; 56 is `PASSWORD_CHARS.length`.
unfoldable pub spell : List ℕ → String
spell [] = ""
spell (b ∷ bytes) = char_at password_chars (b % 56) ⧺ spell bytes

unfoldable pub generate_password : {Q : Type 0} → Outside Q → ℕ → String
unfolding spell char_at
generate_password out n = spell (out.random_bytes n 14)

-- ===== src/Csv/Import.antt =====
-- controller/src/lib/csv.ts: the column mapping and the checks of rows to import. The texts of a
-- file are code points; the issues are the program's.
pub mod Accepted
use docker_mass_deployment.Base.{
  ℕ, String, Bool, true, false, not, ◌&&◌, ◌||◌, Option, none, some, List, [], ◌∷◌, ◌++◌, ◌==◌, all,
  any, map, length, leb, trim, to_lower, is_lower, is_digit, or_else, if◌then◌else◌,
}
use docker_mass_deployment.Csv.{Text, text_eq, is_filled, ParsedCsv}

pub record ColumnMapping : Type 0 where
  pub username : Text
  pub email : Option Text
  pub name : Option Text
  pub student_id : Option Text

pub record RawImportRow : Type 0 where
  pub username : Option Text
  pub email : Option Text
  pub name : Option Text
  pub student_id : Option Text

pub record ImportRow : Type 0 where
  pub username : Text
  pub email : Option Text
  pub name : Option Text
  pub student_id : Option Text
  pub issues : List String

abbrev is_username_char : ℕ → Bool
is_username_char c = is_lower c || is_digit c || c == b'_' || c == b'-'

-- `USERNAME_RE`, /^[a-z_][a-z0-9_-]{0,31}$/
unfoldable pub is_username : Text → Bool
is_username [] = false
is_username (c ∷ s) = (is_lower c || c == b'_') && leb (length s) 31 && all is_username_char s

-- `s || undefined`
abbrev pub filled : Text → Option Text
filled [] = none
filled (c ∷ s) = some (c ∷ s)

-- `s?.trim() || undefined`
abbrev trimmed : Option Text → Option Text
trimmed none = none
trimmed (some s) = filled (trim s)

abbrev pub given_username : RawImportRow → Text
given_username r = map to_lower (trim (or_else r.username []))

abbrev pub has_seen : Text → List Text → Bool
has_seen name seen = any (λ s. text_eq s name) seen

unfoldable pub username_issues : List Text → Text → List String
unfolding is_username
username_issues seen name =
    if not (is_filled name)
    then "missing username" ∷ []
    else if not (is_username name)
    then "invalid username" ∷ []
    else if has_seen name seen
    then "duplicate username in file" ∷ []
    else []

abbrev pub email_issues : Bool → Option Text → List String
email_issues true none = "missing email" ∷ []
email_issues _ _ = []

abbrev pub import_row : Bool → List Text → RawImportRow → ImportRow
import_row require_email seen r = record {
  username = given_username r;
  email = trimmed r.email;
  name = trimmed r.name;
  student_id = trimmed r.student_id;
  issues = username_issues seen (given_username r) ++ email_issues require_email (trimmed r.email);
}

abbrev pub see : Text → List Text → List Text
see [] seen = seen
see (c ∷ s) seen = (c ∷ s) ∷ seen

unfoldable pub validate_rows : Bool → List Text → List RawImportRow → List ImportRow
unfolding username_issues
validate_rows require_email seen [] = []
validate_rows require_email seen (r ∷ rs) =
    import_row require_email seen r ∷ validate_rows require_email (see (given_username r) seen) rs

unfoldable pub validate_import_rows : List RawImportRow → Bool → List ImportRow
unfolding validate_rows
validate_import_rows rows require_email = validate_rows require_email [] rows

-- `r[k] ?? ""`
abbrev column : Text → List (Text × Text) → Text
column k [] = []
column k ((j, v) ∷ o) = if text_eq k j then v else column k o

-- A column that is mapped to nothing is left out.
abbrev mapped_column : Option Text → List (Text × Text) → Option Text
mapped_column none r = none
mapped_column (some []) r = none
mapped_column (some (c ∷ k)) r = some (column (c ∷ k) r)

abbrev pub raw_row : ColumnMapping → List (Text × Text) → RawImportRow
raw_row m r = record {
  username = some (column m.username r);
  email = mapped_column m.email r;
  name = mapped_column m.name r;
  student_id = mapped_column m.student_id r;
}

abbrev pub is_mapped : Option Text → Bool
is_mapped none = false
is_mapped (some k) = is_filled k

unfoldable pub apply_mapping : ParsedCsv → ColumnMapping → List ImportRow
unfolding validate_import_rows
apply_mapping parsed m = validate_import_rows (map (raw_row m) parsed.rows) (is_mapped m.email)

-- ===== src/Tests/Csv.antt =====
-- The theorems on the CSV import at a file with quotes, a blank cell and a username used twice.
use docker_mass_deployment.Base.{true, ◌≡◌, none, some, List, [], ◌∷◌, codes, All, Distinct, filter}
use docker_mass_deployment.Csv.{Text, parse_csv, read_records}
use docker_mass_deployment.Csv.RoundTrip.{written, whole_rows, read_records-written}
use docker_mass_deployment.Csv.Import.{ColumnMapping, is_mapped, apply_mapping}
use docker_mass_deployment.Csv.Import.Accepted.{is_accepted, same_username, Fit, apply_mapping-Fit}

abbrev class_list : List (Text × List Text)
class_list =
    (codes "user", codes "mail, \"work\"" ∷ [])
    ∷ (codes " Ann ", codes "ann@campus" ∷ [])
    ∷ (codes "ann", codes "other@campus" ∷ [])
    ∷ (codes "bob", codes "" ∷ [])
    ∷ []

read_records-written_example : read_records (written true class_list) ≡ whole_rows class_list
read_records-written_example = read_records-written true class_list

abbrev mapping : ColumnMapping
mapping = record {
  username = codes "user";
  email = some (codes "mail, \"work\"");
  name = none;
  student_id = none;
}

apply_mapping-Fit_example :
    Distinct same_username
      (filter is_accepted (apply_mapping (parse_csv (written true class_list)) mapping))
    × All
        (Fit (is_mapped mapping.email))
        (filter is_accepted (apply_mapping (parse_csv (written true class_list)) mapping))
apply_mapping-Fit_example = apply_mapping-Fit (parse_csv (written true class_list)) mapping

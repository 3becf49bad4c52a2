-- ===== src/Csv.antt =====
-- controller/src/lib/csv.ts: the parser. A text is the list of its code points.
pub mod RoundTrip
pub mod Import
use docker_mass_deployment.Base.{
  ℕ, Bool, true, false, not, ◌&&◌, List, [], ◌∷◌, ◌++◌, ◌==◌, any, filter, map, trim, if◌then◌else◌,
}

abbrev pub Text : Type 0
Text = List ℕ

-- What the loop has read: the field and the row under way, and the rows before.
pub record Reader : Type 0 where
  pub cell : Text
  pub row : List Text
  pub records : List (List Text)

abbrev pub push_char : ℕ → Reader → Reader
push_char c r = record r { cell = r.cell ++ c ∷ [] }

abbrev pub push_field : Reader → Reader
push_field r = record r { cell = []; row = r.row ++ r.cell ∷ [] }

abbrev pub push_row : Reader → Reader
push_row r = record { cell = []; row = []; records = r.records ++ (r.row ++ r.cell ∷ []) ∷ [] }

-- A character outside quotes that is no quote. A carriage return is ignored.
abbrev pub plain_char : ℕ → Reader → Reader
plain_char c r =
    if c == b','
    then push_field r
    else if c == 10
    then push_row r
    else if c == 13
    then r
    else push_char c r

-- The loop, in quotes or not. In quotes, two quotes are one, and a single one ends them.
unfoldable pub read : Bool → Text → Reader → Reader
read quoted [] r = r
read true (c ∷ []) r = if c == b'"' then r else push_char c r
read true (c ∷ d ∷ cs) r = elim (c == b'"') [
  | true ↦ elim (d == b'"') [
    | true ↦ read true cs (push_char b'"' r)
    | false ↦ read false (d ∷ cs) r
  ]
  | false ↦ read true (d ∷ cs) (push_char c r)
]
read false (c ∷ cs) r = elim (c == b'"') [
  | true ↦ read true cs r
  | false ↦ read false cs (plain_char c r)
]

-- The last row may have no line end.
abbrev pub finished : Reader → List (List Text)
finished r = elim r.cell [
  | [] ↦ elim r.row [ [] ↦ r.records | f ∷ fs ↦ (push_row r).records ]
  | c ∷ cs ↦ (push_row r).records
]

unfoldable pub read_records : Text → List (List Text)
unfolding read
read_records text = finished (read false text (record { cell = []; row = []; records = [] }))

abbrev pub text_eq : Text → Text → Bool
text_eq [] [] = true
text_eq (a ∷ s) (b ∷ t) = a == b && text_eq s t
text_eq _ _ = false

abbrev pub is_filled : Text → Bool
is_filled [] = false
is_filled (c ∷ s) = true

-- `o[k] = v`
abbrev assign : Text → Text → List (Text × Text) → List (Text × Text)
assign k v [] = (k, v) ∷ []
assign k v ((j, u) ∷ o) = if text_eq k j then (k, v) ∷ o else (j, u) ∷ assign k v o

-- The cells of a row under the headers; a missing one is empty, and the last of two equal headers
-- counts. A header that names a member of every JavaScript object is left out of the model.
abbrev row_object : List Text → List Text → List (Text × Text) → List (Text × Text)
row_object [] cells o = o
row_object (h ∷ hs) [] o = row_object hs [] (assign h [] o)
row_object (h ∷ hs) (v ∷ cells) o = row_object hs cells (assign h (trim v) o)

pub record ParsedCsv : Type 0 where
  pub headers : List Text
  pub rows : List (List (Text × Text))

-- The first row with a cell that is not blank is the header.
abbrev tabulated : List (List Text) → ParsedCsv
tabulated [] = record { headers = []; rows = [] }
tabulated (hs ∷ records) = record {
  headers = map trim hs;
  rows = map (λ r. row_object (map trim hs) r []) records;
}

unfoldable pub parse_csv : Text → ParsedCsv
unfolding read_records
parse_csv text = tabulated (filter (any (λ cell. is_filled (trim cell))) (read_records text))

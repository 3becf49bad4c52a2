-- ===== src/Csv/RoundTrip.antt =====
-- The parser of controller/src/lib/csv.ts against a writer that quotes every field (RFC 4180).
use docker_mass_deployment.Base.{
  ℕ, ◌≡◌, refl, sym, ap, ◌∙◌, Bool, true, false, true≢false, Bool-cases, inl, inr, List, [], ◌∷◌,
  ◌++◌, ◌==◌, ==_iff, if◌then◌else◌,
}
use mathlib.Core.List.{append-nil, append_assoc}
use docker_mass_deployment.Csv.{Text, Reader, push_char, read, finished, read_records}

-- A quote in a field is doubled; `rest` comes behind it.
abbrev escaped : Text → Text → Text
escaped [] rest = rest
escaped (c ∷ cs) rest = if c == b'"' then b'"' ∷ b'"' ∷ escaped cs rest else c ∷ escaped cs rest

abbrev quoted : Text → Text → Text
quoted f rest = b'"' ∷ escaped f (b'"' ∷ rest)

-- A line end: with a carriage return, as RFC 4180 has it, or without.
abbrev line_end : Bool → Text → Text
line_end true rest = 13 ∷ 10 ∷ rest
line_end false rest = 10 ∷ rest

-- Fields with commas between them, and a line end.
abbrev written_row : Bool → Text → List Text → Text → Text
written_row crlf f [] rest = quoted f (line_end crlf rest)
written_row crlf f (g ∷ fs) rest = quoted f (b',' ∷ written_row crlf g fs rest)

-- A row has at least one field.
abbrev pub written : Bool → List (Text × List Text) → Text
written crlf [] = []
written crlf ((f, fs) ∷ rs) = written_row crlf f fs (written crlf rs)

abbrev pub whole_row : Text × List Text → List Text
whole_row (f, fs) = f ∷ fs

abbrev pub whole_rows : List (Text × List Text) → List (List Text)
whole_rows [] = []
whole_rows (r ∷ rs) = whole_row r ∷ whole_rows rs

on_false : {A : Type 0} (b : Bool) (x y : A) → b ≡ false → elim b [ true ↦ x | false ↦ y ] ≡ y
on_false true x y e = absurd (true≢false e)
on_false false x y e = refl

read_other :
    (c : ℕ) (x : Text) (r : Reader)
    → (c == b'"') ≡ false
    → read true (c ∷ x) r ≡ read true x (push_char c r)
unfolding read
read_other c [] r e = rw e refl
read_other c (d ∷ x) r e = on_false (c == b'"') _ (read true (d ∷ x) (push_char c r)) e

read_end :
    (d : ℕ) (rest : Text) (r : Reader)
    → (d == b'"') ≡ false
    → read true (b'"' ∷ d ∷ rest) r ≡ read false (d ∷ rest) r
unfolding read
read_end d rest r e =
    on_false (d == b'"') (read true rest (push_char b'"' r)) (read false (d ∷ rest) r) e

read-escaped :
    (f : Text) (d : ℕ) (rest : Text) (r : Reader)
    → (d == b'"') ≡ false
    → read true (escaped f (b'"' ∷ d ∷ rest)) r
      ≡ read false (d ∷ rest) (record r { cell = r.cell ++ f })
unfolding read
read-escaped [] d rest r e =
    read_end d rest r e
    ∙ ap (λ (t : Text). read false (d ∷ rest) (record r { cell = t })) (sym (append-nil r.cell))
read-escaped (c ∷ cs) d rest r e = elim (Bool-cases (c == b'"')) [
  | inr k ↦ rw k (
      read_other c _ r k
      ∙ read-escaped cs d rest (push_char c r) e
      ∙ ap (λ (t : Text). read false (d ∷ rest) (record r { cell = t }))
          (append_assoc r.cell (c ∷ []) cs))
  | inl k ↦ rw k (
      read-escaped cs d rest (push_char b'"' r) e
      ∙ ap (λ (t : Text). read false (d ∷ rest) (record r { cell = t }))
          (append_assoc r.cell (b'"' ∷ []) cs
            ∙ ap (λ (x : ℕ). r.cell ++ x ∷ cs) (sym ((==_iff c b'"').0 k))))
]

read-written_row :
    (crlf : Bool) (f : Text) (fs : List Text) (rest : Text) (row : List Text)
    → (records : List (List Text))
    → read false (written_row crlf f fs rest) (record { cell = []; row = row; records = records })
      ≡ read false rest (record { cell = []; row = []; records = records ++ (row ++ f ∷ fs) ∷ [] })
unfolding read
read-written_row true f [] rest row records = read-escaped f 13 (10 ∷ rest) _ refl
read-written_row false f [] rest row records = read-escaped f 10 rest _ refl
read-written_row crlf f (g ∷ fs) rest row records =
    read-escaped f b',' (written_row crlf g fs rest) _ refl
    ∙ read-written_row crlf g fs rest (row ++ f ∷ []) records
    ∙ ap (λ x. read false rest (record { cell = []; row = []; records = records ++ x ∷ [] }))
        (append_assoc row (f ∷ []) (g ∷ fs))

read-written :
    (crlf : Bool) (rs : List (Text × List Text)) (records : List (List Text))
    → read false (written crlf rs) (record { cell = []; row = []; records = records })
      ≡ record { cell = []; row = []; records = records ++ whole_rows rs }
unfolding read
read-written crlf [] records = rw (append-nil records) refl
read-written crlf ((f, fs) ∷ rs) records =
    read-written_row crlf f fs (written crlf rs) [] records
    ∙ read-written crlf rs (records ++ (f ∷ fs) ∷ [])
    ∙ ap (λ x. record { cell = []; row = []; records = x })
        (append_assoc records ((f ∷ fs) ∷ []) (whole_rows rs))

-- The records that the parser reads are the rows that were written, cell for cell, before it trims
-- cells and drops blank rows: if every field stands in quotes, with quotes in it doubled, commas
-- stand between the fields, and behind each row a line end, which is CRLF as in RFC 4180 or a bare
-- LF; whatever characters the fields hold.
pub read_records-written :
    (crlf : Bool) (rs : List (Text × List Text)) → read_records (written crlf rs) ≡ whole_rows rs
unfolding read_records
read_records-written crlf rs = ap finished (read-written crlf rs [])

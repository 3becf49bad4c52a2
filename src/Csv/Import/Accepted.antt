-- ===== src/Csv/Import/Accepted.antt =====
-- The rows that the checks of controller/src/lib/csv.ts let through.
use docker_mass_deployment.Base.{
  String, ◌≡◌, refl, sym, ap, ◌∙◌, Bool, true, false, true≢false, ◌&&◌, ◌||◌, Option, none, some,
  List, [], ◌∷◌, ◌++◌, ◌==◌, ==_iff, All, any, map, filter, Distinct, Bool-cases, inl, inr, arith,
}
use docker_mass_deployment.Csv.{Text, text_eq, is_filled, ParsedCsv}
use docker_mass_deployment.Csv.Import.{
  ColumnMapping, RawImportRow, ImportRow, is_username, given_username, has_seen, username_issues,
  email_issues, import_row, see, validate_rows, validate_import_rows, is_mapped, raw_row,
  apply_mapping,
}

abbrev pub is_accepted : ImportRow → Bool
is_accepted r = elim r.issues [ [] ↦ true | i ∷ is ↦ false ]

abbrev pub has_email : ImportRow → Bool
has_email r = elim r.email [ none ↦ false | some e ↦ true ]

abbrev pub same_username : ImportRow → ImportRow → Bool
same_username r s = text_eq r.username s.username

-- What may be imported: a username that the system takes, and an email if it is asked for.
pub record Fit (require_email : Bool) (r : ImportRow) : Type 0 where
  pub username : is_username r.username ≡ true
  pub email : require_email ≡ true → has_email r ≡ true

text_eq_sound : (s t : Text) → text_eq s t ≡ true → s ≡ t
text_eq_sound [] [] h = refl
text_eq_sound [] (b ∷ t) h = absurd (true≢false (sym h))
text_eq_sound (a ∷ s) [] h = absurd (true≢false (sym h))
text_eq_sound (a ∷ s) (b ∷ t) h =
    let (h1, h2) = both (a == b) (text_eq s t) h in
    ap (λ x. x ∷ s) ((==_iff a b).0 h1) ∙ ap (λ x. b ∷ x) (text_eq_sound s t h2)
  where
    both : (a b : Bool) → (a && b) ≡ true → (a ≡ true) × (b ≡ true)
    both a b h = (ground arith, ground arith)

text_eq_refl : (s : Text) → text_eq s s ≡ true
text_eq_refl [] = refl
text_eq_refl (a ∷ s) = rw ((==_iff a a).1 refl, text_eq_refl s) refl

-- A row without issues has a new username that is valid.
no_issues :
    (seen : List Text) (name : Text) (more : List String)
    → elim (username_issues seen name ++ more) [ [] ↦ true | i ∷ is ↦ false ] ≡ true
    → (is_username name ≡ true) × ((has_seen name seen ≡ false) × (more ≡ []))
unfolding username_issues
no_issues seen name more = elim (Bool-cases (is_filled name)) [
  | inr e ↦ rw e λ h. absurd (true≢false (sym h))
  | inl e ↦ elim (Bool-cases (is_username name)) [
    | inr k ↦ rw (e, k) λ h. absurd (true≢false (sym h))
    | inl k ↦ elim (Bool-cases (has_seen name seen)) [
      | inl s ↦ rw (e, k, s) λ h. absurd (true≢false (sym h))
      | inr s ↦ rw (e, k, s) λ h. (refl, (refl, empty more h))
    ]
  ]
]
  where
    empty : (more : List String) → elim more [ [] ↦ true | i ∷ is ↦ false ] ≡ true → more ≡ []
    empty [] h = refl
    empty (i ∷ is) h = absurd (true≢false (sym h))

import_row-Fit :
    (require_email : Bool) (seen : List Text) (r : RawImportRow)
    → is_accepted (import_row require_email seen r) ≡ true
    → Fit require_email (import_row require_email seen r)
import_row-Fit require_email seen r h =
    let (k, (s, m)) = no_issues seen (given_username r) _ h in
    record { username = k; email = asked require_email (import_row require_email seen r).email m }
  where
    asked :
        (b : Bool) (e : Option Text)
        → email_issues b e ≡ []
        → b ≡ true
        → elim e [ none ↦ false | some x ↦ true ] ≡ true
    asked true none m t = ground arith
    asked false none m t = ground arith
    asked b (some x) m t = refl

see_first : (s : Text) (seen : List Text) → is_username s ≡ true → has_seen s (see s seen) ≡ true
unfolding is_username
see_first [] seen h = absurd (true≢false (sym h))
see_first (c ∷ s) seen h = rw (text_eq_refl (c ∷ s)) refl

see_later :
    (t s : Text) (seen : List Text) → has_seen t seen ≡ true → has_seen t (see s seen) ≡ true
see_later t [] seen h = h
see_later t (c ∷ s) seen h = or_true (text_eq (c ∷ s) t) _ h
  where
    or_true : (a b : Bool) → b ≡ true → (a || b) ≡ true
    or_true a b h = ground arith

-- A username that was seen is not accepted again.
validate_rows_new :
    (require_email : Bool) (seen : List Text) (rs : List RawImportRow) (name : Text)
    → has_seen name seen ≡ true
    → any
        (λ (s : ImportRow). text_eq name s.username)
        (filter is_accepted (validate_rows require_email seen rs))
      ≡ false
unfolding validate_rows
validate_rows_new q seen [] name h = refl
validate_rows_new q seen (r ∷ rs) name h =
    let later =
      validate_rows_new q (see (given_username r) seen) rs name
        (see_later name (given_username r) seen h) in
    elim (Bool-cases (is_accepted (import_row q seen r))) [
      | inr e ↦ rw e later
      | inl e ↦ rw (e, fresh e) later
    ]
  where
    fresh : is_accepted (import_row q seen r) ≡ true → text_eq name (given_username r) ≡ false
    fresh e = elim (Bool-cases (text_eq name (given_username r))) [
      | inr k ↦ k
      | inl k ↦ absurd (
          true≢false (
            sym h
            ∙ ap (λ t. has_seen t seen) (text_eq_sound name (given_username r) k)
            ∙ (no_issues seen (given_username r) _ e).1.0))
    ]

validate_rows-Fit :
    (require_email : Bool) (seen : List Text) (rs : List RawImportRow)
    → Distinct same_username (filter is_accepted (validate_rows require_email seen rs))
      × All (Fit require_email) (filter is_accepted (validate_rows require_email seen rs))
unfolding validate_rows
validate_rows-Fit q seen [] = (tt, tt)
validate_rows-Fit q seen (r ∷ rs) =
    let (d, a) = validate_rows-Fit q (see (given_username r) seen) rs in
    elim (Bool-cases (is_accepted (import_row q seen r))) [
      | inr e ↦ rw e (d, a)
      | inl e ↦ rw e (
        (
          validate_rows_new q (see (given_username r) seen) rs (given_username r)
              (see_first (given_username r) seen (import_row-Fit q seen r e).username),
          d,
        ),
        (import_row-Fit q seen r e, a),
      )
    ]

-- The rows that the mapping of a file lets through have usernames that the system takes and that
-- are all different, and an email each if an email column is mapped.
pub apply_mapping-Fit :
    (parsed : ParsedCsv) (m : ColumnMapping)
    → Distinct same_username (filter is_accepted (apply_mapping parsed m))
      × All (Fit (is_mapped m.email)) (filter is_accepted (apply_mapping parsed m))
unfolding apply_mapping validate_import_rows
apply_mapping-Fit parsed m = validate_rows-Fit (is_mapped m.email) [] (map (raw_row m) parsed.rows)

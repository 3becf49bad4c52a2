-- ===== src/Placements/Only.antt =====
-- The rows of placements by their ids (controller/src/lib/db.ts): an id has one row.
use docker_mass_deployment.Base.{
  ◌≡◌, refl, true, false, ◌==◌, List, [], ◌∷◌, arith, All, All-zip, All-map, any, Distinct,
}
use docker_mass_deployment.Store.Rows.{Placement}
use docker_mass_deployment.Placements.Tables.{placement_clash}

-- A row with the id of another is that row.
abbrev pub Only : List Placement → Placement → Type 0
Only rows x = All (λ (r : Placement). (r.id == x.id) ≡ true → r ≡ x) rows

other_ids :
    (x : Placement) (rows : List Placement)
    → any (placement_clash x) rows ≡ false
    → Only rows x × All (λ (y : Placement). (x.id == y.id) ≡ true → x ≡ y) rows
other_ids x [] h = (tt, tt)
other_ids x (y ∷ rows) h =
    let (k, l) = other_ids x rows (ground arith) in
    (((λ e. absurd (apart e)), k), ((λ e. absurd (apart' e)), l))
  where
    apart : (y.id == x.id) ≡ true → ⊥
    apart e = ground arith

    apart' : (x.id == y.id) ≡ true → ⊥
    apart' e = ground arith

pub Distinct-Only : (rows : List Placement) → Distinct placement_clash rows → All (Only rows) rows
Distinct-Only [] h = tt
Distinct-Only (x ∷ rows) (h, hs) =
    let (k, l) = other_ids x rows h in
    (
      ((λ e. refl), k),
      All-map (λ y. ((x.id == y.id) ≡ true → x ≡ y) × Only rows y) (Only (x ∷ rows)) rows (λ y p. p)
          (All-zip (λ y. (x.id == y.id) ≡ true → x ≡ y) (Only rows) rows l (Distinct-Only rows hs)),
    )

-- ===== src/Json.antt =====
-- JSON values, as `JSON.parse` gives them and task parameters hold them. Numbers are naturals:
-- byte counts, ports, ids and epoch milliseconds. A TEXT column of JSON is kept as its value.
pub mod Redact
use docker_mass_deployment.Base.{
  ℕ, String, Bool, Option, none, some, List, [], ◌∷◌, if◌then◌else◌, str_eq,
}

mutual
  pub data Json : Type 0 where
    null : Json
    bool : Bool → Json
    num : ℕ → Json
    str : String → Json
    arr : Items → Json
    obj : Fields → Json

  pub data Items : Type 0 where
    nil : Items
    cons : Json → Items → Items

  pub data Fields : Type 0 where
    end : Fields
    field : String → Json → Fields → Fields

-- `o[k]`, the first field of that name.
unfoldable pub member : String → Fields → Option Json
member k end = none
member k (field j v fs) = if str_eq j k then some v else member k fs

unfoldable pub member_of : String → Json → Option Json
unfolding member
member_of k (obj fs) = member k fs
member_of k _ = none

abbrev pub as_str : Json → Option String
as_str (str s) = some s
as_str _ = none

-- `o?.k as string | undefined`
unfoldable pub str_member : String → Json → Option String
unfolding member_of
str_member k j = elim (member_of k j) [ none ↦ none | some v ↦ as_str v ]

abbrev strings : Items → List String
strings nil = []
strings (cons (str s) xs) = s ∷ strings xs
strings (cons _ xs) = strings xs

-- `o?.k as string[] | undefined`, `[]` if it is missing.
unfoldable pub strs_member : String → Json → List String
unfolding member_of
strs_member k j = elim (member_of k j) [ some (arr xs) ↦ strings xs | _ ↦ [] ]

-- A nullable column as a JSON value.
abbrev pub or_null : Option ℕ → Json
or_null none = null
or_null (some n) = num n

abbrev pub str_items : List String → Items
str_items [] = nil
str_items (s ∷ ss) = cons (str s) (str_items ss)

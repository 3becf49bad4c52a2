-- ===== src/Json/Redact/Clean.antt =====
-- What `redactSecrets` leaves in the task log: nothing under a credential-looking key.
use docker_mass_deployment.Base.{
  ℕ, String, ◌≡◌, refl, Bool, true, false, ◌↔◌, ap, inl, inr, Bool-cases, if◌then◌else◌,
}
use docker_mass_deployment.Json.{
  Json, null, bool, num, str, arr, obj, Items, nil, cons, Fields, end, field,
}
use docker_mass_deployment.Json.Redact.{
  is_secret_key, redacted, redact_secrets, redact_items, redact_fields,
}

-- No value under a credential-looking key, at any depth, is anything but the mask.
mutual
  pub data IsClean : Json → Type 0 where
    a_null : IsClean null
    a_bool : (b : Bool) → IsClean (bool b)
    a_num : (n : ℕ) → IsClean (num n)
    a_str : (s : String) → IsClean (str s)
    an_arr : {xs : Items} → AreClean xs → IsClean (arr xs)
    an_obj : {fs : Fields} → HasClean fs → IsClean (obj fs)

  pub data AreClean : Items → Type 0 where
    none_left : AreClean nil
    one_more : {x : Json} {xs : Items} → IsClean x → AreClean xs → AreClean (cons x xs)

  pub data HasClean : Fields → Type 0 where
    empty : HasClean end
    masked :
        {k : String} {v : Json} {fs : Fields}
        → is_secret_key k ≡ true
        → v ≡ str redacted
        → HasClean fs
        → HasClean (field k v fs)
    shown :
        {k : String} {v : Json} {fs : Fields}
        → is_secret_key k ≡ false
        → IsClean v
        → HasClean fs
        → HasClean (field k v fs)

redact_field-HasClean :
    (k : String) (v : Json) (fs : Fields)
    → IsClean v
    → HasClean fs
    → HasClean (field k (if is_secret_key k then str redacted else v) fs)
redact_field-HasClean k v fs h hs = elim (Bool-cases (is_secret_key k)) [
  | inl secret ↦ masked secret (rw secret) hs
  | inr plain ↦ rw plain (shown plain h hs)
]

mutual
  unfolding redact_secrets

  redacted-IsClean : (j : Json) → IsClean (redact_secrets j)
  redacted-IsClean null = a_null
  redacted-IsClean (bool b) = a_bool b
  redacted-IsClean (num n) = a_num n
  redacted-IsClean (str s) = a_str s
  redacted-IsClean (arr xs) = an_arr (items-AreClean xs)
  redacted-IsClean (obj fs) = an_obj (fields-HasClean fs)

  items-AreClean : (xs : Items) → AreClean (redact_items xs)
  items-AreClean nil = none_left
  items-AreClean (cons x xs) = one_more (redacted-IsClean x) (items-AreClean xs)

  fields-HasClean : (fs : Fields) → HasClean (redact_fields fs)
  fields-HasClean end = empty
  fields-HasClean (field k v fs) =
      redact_field-HasClean k (redact_secrets v) (redact_fields fs) (redacted-IsClean v)
        (fields-HasClean fs)

mutual
  unfolding redact_secrets

  clean_fixed : {j : Json} → IsClean j → redact_secrets j ≡ j
  clean_fixed a_null = refl
  clean_fixed (a_bool b) = refl
  clean_fixed (a_num n) = refl
  clean_fixed (a_str s) = refl
  clean_fixed (an_arr h) = ap arr (clean_items_fixed h)
  clean_fixed (an_obj h) = ap obj (clean_fields_fixed h)

  clean_items_fixed : {xs : Items} → AreClean xs → redact_items xs ≡ xs
  clean_items_fixed none_left = refl
  clean_items_fixed (one_more h hs) = rw (clean_fixed h, clean_items_fixed hs)

  clean_fields_fixed : {fs : Fields} → HasClean fs → redact_fields fs ≡ fs
  clean_fields_fixed empty = refl
  clean_fields_fixed (masked secret e hs) = rw (secret, e, clean_fields_fixed hs)
  clean_fields_fixed (shown plain h hs) = rw (plain, clean_fixed h, clean_fields_fixed hs)

-- The second value is the first with the values under credential-looking keys, at any depth,
-- masked, and is the same elsewhere: keys, order, lengths and all other values.
mutual
  pub data Masks : Json → Json → Type 0 where
    same_null : Masks null null
    same_bool : (b : Bool) → Masks (bool b) (bool b)
    same_num : (n : ℕ) → Masks (num n) (num n)
    same_str : (s : String) → Masks (str s) (str s)
    in_arr : {xs ys : Items} → MasksItems xs ys → Masks (arr xs) (arr ys)
    in_obj : {fs gs : Fields} → MasksFields fs gs → Masks (obj fs) (obj gs)

  pub data MasksItems : Items → Items → Type 0 where
    no_items : MasksItems nil nil
    next_item :
        {x y : Json} {xs ys : Items}
        → Masks x y
        → MasksItems xs ys
        → MasksItems (cons x xs) (cons y ys)

  pub data MasksFields : Fields → Fields → Type 0 where
    no_fields : MasksFields end end
    secret_field :
        {k : String} {v : Json} {fs gs : Fields}
        → is_secret_key k ≡ true
        → MasksFields fs gs
        → MasksFields (field k v fs) (field k (str redacted) gs)
    open_field :
        {k : String} {v u : Json} {fs gs : Fields}
        → is_secret_key k ≡ false
        → Masks v u
        → MasksFields fs gs
        → MasksFields (field k v fs) (field k u gs)

redact_field-MasksFields :
    (k : String) (v u : Json) (fs gs : Fields)
    → Masks v u
    → MasksFields fs gs
    → MasksFields (field k v fs) (field k (if is_secret_key k then str redacted else u) gs)
redact_field-MasksFields k v u fs gs h hs = elim (Bool-cases (is_secret_key k)) [
  | inl secret ↦ rw secret (secret_field secret hs)
  | inr plain ↦ rw plain (open_field plain h hs)
]

mutual
  unfolding redact_secrets

  redact-Masks : (j : Json) → Masks j (redact_secrets j)
  redact-Masks null = same_null
  redact-Masks (bool b) = same_bool b
  redact-Masks (num n) = same_num n
  redact-Masks (str s) = same_str s
  redact-Masks (arr xs) = in_arr (items-MasksItems xs)
  redact-Masks (obj fs) = in_obj (fields-MasksFields fs)

  items-MasksItems : (xs : Items) → MasksItems xs (redact_items xs)
  items-MasksItems nil = no_items
  items-MasksItems (cons x xs) = next_item (redact-Masks x) (items-MasksItems xs)

  fields-MasksFields : (fs : Fields) → MasksFields fs (redact_fields fs)
  fields-MasksFields end = no_fields
  fields-MasksFields (field k v fs) =
      redact_field-MasksFields k v (redact_secrets v) fs (redact_fields fs) (redact-Masks v)
        (fields-MasksFields fs)

-- Redaction masks every value under a key that looks like a credential, at any depth, and changes
-- nothing else: keys, their order, lengths and all other values stay. So nothing but the mask is
-- under such a key afterwards, and a value is its own redaction exactly when that was so before.
pub redact_secrets-IsClean :
    (j : Json)
    → Masks j (redact_secrets j)
      × (IsClean (redact_secrets j) × ((redact_secrets j ≡ j) ↔ IsClean j))
redact_secrets-IsClean j =
    let masked_all = redacted-IsClean j in
    (redact-Masks j, (masked_all, ((λ e. rw e at masked_all), clean_fixed)))

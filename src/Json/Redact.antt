-- ===== src/Json/Redact.antt =====
-- `redactSecrets` of controller/src/lib/queue.ts.
pub mod Clean
use docker_mass_deployment.Base.{
  ℕ, String, Bool, true, false, ◌&&◌, ◌||◌, List, [], ◌∷◌, map, ◌==◌, codes, to_lower,
  if◌then◌else◌,
}
use docker_mass_deployment.Json.{
  Json, null, bool, num, str, arr, obj, Items, nil, cons, Fields, end, field,
}

starts : List ℕ → List ℕ → Bool
starts [] s = true
starts (p ∷ ps) [] = false
starts (p ∷ ps) (c ∷ s) = p == c && starts ps s

-- A regular expression without anchors that is a plain word: the word occurs.
occurs : List ℕ → List ℕ → Bool
unfolding starts
occurs p [] = starts p []
occurs p (c ∷ s) = starts p (c ∷ s) || occurs p s

-- `SECRET_KEY_RE`, /pass|token|secret|key/i
unfoldable pub is_secret_key : String → Bool
unfolding occurs
is_secret_key k =
    let s = map to_lower (codes k) in
    occurs (codes "pass") s
    || occurs (codes "token") s
    || occurs (codes "secret") s
    || occurs (codes "key") s

abbrev pub redacted : String
redacted = "••••••"

unfoldable mutual
  pub redact_secrets : Json → Json
  redact_secrets null = null
  redact_secrets (bool b) = bool b
  redact_secrets (num n) = num n
  redact_secrets (str s) = str s
  redact_secrets (arr xs) = arr (redact_items xs)
  redact_secrets (obj fs) = obj (redact_fields fs)

  pub redact_items : Items → Items
  redact_items nil = nil
  redact_items (cons x xs) = cons (redact_secrets x) (redact_items xs)

  pub redact_fields : Fields → Fields
  redact_fields end = end
  redact_fields (field k v fs) =
      field k (if is_secret_key k then str redacted else redact_secrets v) (redact_fields fs)

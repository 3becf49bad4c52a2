-- ===== src/Email.antt =====
-- controller/src/lib/email.ts: one spelling for each address.
use docker_mass_deployment.Base.{String, Option, none, some, filled_text, lower_text, trim_text}

-- `none` is a missing address.
unfoldable pub normalize_email : Option String → Option String
normalize_email none = none
normalize_email (some email) = filled_text (some (lower_text (trim_text email)))

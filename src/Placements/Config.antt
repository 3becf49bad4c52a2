-- ===== src/Placements/Config.antt =====
-- `validateContainerConfig` and `containerOptionsOf` of controller/src/lib/placements.ts.
use docker_mass_deployment.Base.{
  ℕ, String, Bool, true, false, not, ◌&&◌, ◌||◌, Option, none, some, List, [], ◌∷◌, ◌==◌, ◌⧺◌, leb,
  ltb, str_eq, if◌then◌else◌, codes, is_alnum, is_digit, is_space, length, all, or_else,
}
use docker_mass_deployment.Store.Rows.{ContainerOptions, PartialOptions}

unfoldable pub default_container_options : ContainerOptions
default_container_options = record {
  cpus = "4";
  memory = "8g";
  shm_size = "1g";
  rootfs_quota = "300g";
  restart = "unless-stopped";
}

-- `x*` of a regular expression, where what follows cannot begin with an `x`.
unfoldable pub skip : (ℕ → Bool) → List ℕ → List ℕ
skip p [] = []
skip p (c ∷ s) = if p c then skip p s else c ∷ s

abbrev pub is_repo_char : ℕ → Bool
is_repo_char c = is_alnum c || c == b'.' || c == b'_' || c == b'/' || c == b'-'

abbrev pub is_tag_char : ℕ → Bool
is_tag_char c = is_alnum c || c == b'.' || c == b'_' || c == b'-'

abbrev pub is_hex : ℕ → Bool
is_hex c = is_digit c || (leb b'a' c && leb c b'f')

-- `(@sha256:[a-f0-9]{64})?$`
unfoldable pub ends_digest : List ℕ → Bool
ends_digest [] = true
ends_digest (a ∷ s ∷ h ∷ b ∷ d ∷ e ∷ f ∷ c ∷ hex) =
    a == b'@'
    && s == b's'
    && h == b'h'
    && b == b'a'
    && d == b'2'
    && e == b'5'
    && f == b'6'
    && c == b':'
    && length hex == 64
    && all is_hex hex
ends_digest _ = false

-- `[a-zA-Z0-9._-]+`, then the digest.
unfoldable pub ends_tag : List ℕ → Bool
unfolding ends_digest skip
ends_tag [] = false
ends_tag (c ∷ s) = is_tag_char c && ends_digest (skip is_tag_char s)

-- `(:[a-zA-Z0-9._-]+)?` and the rest; a digest does not begin with a colon.
unfoldable pub ends_image : List ℕ → Bool
unfolding ends_tag
ends_image [] = true
ends_image (c ∷ s) = if c == b':' then ends_tag s else ends_digest (c ∷ s)

-- `DOCKER_IMAGE_RE`
unfoldable pub is_image : List ℕ → Bool
unfolding ends_image
is_image [] = false
is_image (c ∷ s) = is_alnum c && ends_image (skip is_repo_char s)

-- `(\.\d+)?`, if it matches; then what is left.
unfoldable pub skip_fraction : List ℕ → List ℕ
unfolding skip
skip_fraction [] = []
skip_fraction (c ∷ []) = c ∷ []
skip_fraction (c ∷ d ∷ s) = if c == b'.' && is_digit d then skip is_digit s else c ∷ d ∷ s

abbrev is_empty : List ℕ → Bool
is_empty [] = true
is_empty (c ∷ s) = false

-- /^\d+(\.\d+)?$/
unfoldable pub is_number : List ℕ → Bool
unfolding skip_fraction
is_number [] = false
is_number (c ∷ s) = is_digit c && is_empty (skip_fraction (skip is_digit s))

abbrev is_one_of : List ℕ → ℕ → Bool
is_one_of [] c = false
is_one_of (d ∷ ds) c = c == d || is_one_of ds c

-- An optional character of a class.
abbrev skip_one : (ℕ → Bool) → List ℕ → List ℕ
skip_one p [] = []
skip_one p (c ∷ s) = if p c then s else c ∷ s

-- `SIZE_RE`, /^\d+(\.\d+)?\s*[kKmMgGtT]?[bB]?$/
unfoldable pub is_size : List ℕ → Bool
unfolding skip_fraction
is_size [] = false
is_size (c ∷ s) =
    is_digit c
    && is_empty (
        skip_one (is_one_of (codes "bB")) (
          skip_one (is_one_of (codes "kKmMgGtT"))
            (skip is_space (skip_fraction (skip is_digit s)))))

-- `RESTART_POLICIES`
unfoldable pub is_restart_policy : String → Bool
is_restart_policy r =
    str_eq r "no" || str_eq r "on-failure" || str_eq r "always" || str_eq r "unless-stopped"

-- `some` is the message of the first check that fails; `none` lets the configuration pass.
unfoldable pub validate_container_config : String → ContainerOptions → Option String
unfolding is_image is_number is_size is_restart_policy
validate_container_config image opts =
    if not (is_image (codes image)) || ltb 256 (length (codes image))
    then some ("Invalid image reference '" ⧺ (image ⧺ "'"))
    else if not (is_number (codes opts.cpus))
    then some "CPUs must be a number (e.g. 4 or 2.5)"
    else if not (is_size (codes opts.memory))
    then some "Invalid memory size (e.g. 8g, 512m)"
    else if not (is_size (codes opts.shm_size))
    then some "Invalid shared-memory size (e.g. 1g)"
    else if not (is_size (codes opts.rootfs_quota))
    then some "Invalid rootfs quota (e.g. 300g)"
    else if not (is_restart_policy opts.restart)
    then some "Restart policy must be one of: no, on-failure, always, unless-stopped"
    else none

-- The columns's keys over the defaults; NULL and text that does not parse have no keys.
unfoldable pub container_options_of : Option PartialOptions → ContainerOptions
unfolding default_container_options
container_options_of none = default_container_options
container_options_of (some o) = record {
  cpus = or_else o.cpus default_container_options.cpus;
  memory = or_else o.memory default_container_options.memory;
  shm_size = or_else o.shm_size default_container_options.shm_size;
  rootfs_quota = or_else o.rootfs_quota default_container_options.rootfs_quota;
  restart = or_else o.restart default_container_options.restart;
}

-- `JSON.stringify(options)` as the column holds it.
abbrev pub stored_options : ContainerOptions → PartialOptions
stored_options o = record {
  cpus = some o.cpus;
  memory = some o.memory;
  shm_size = some o.shm_size;
  rootfs_quota = some o.rootfs_quota;
  restart = some o.restart;
}

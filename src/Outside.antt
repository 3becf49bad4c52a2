-- ===== src/Outside.antt =====
-- What the controller calls and does not implement: the honker queue engine, node:crypto, JSON
-- text and the mail transport. Each is a field; what is relied on is a hypothesis where it is used.
-- A call of the engine that may throw in the source says so in its result: `none`, or `false`.
use docker_mass_deployment.Base.{ℕ, String, ◌≡◌, Bool, Option, none, some, List}
use docker_mass_deployment.Json.{Json}
use docker_mass_deployment.Store.World.{Mail}

-- `TaskFrame` of controller/src/lib/queue.ts; its `type` is always "task".
pub record TaskFrame : Type 0 where
  pub id : String
  pub action : String
  pub params : Json
  pub requested_by : Option String
  pub ts : ℕ

-- A job's payload: the envelope `{ _enc }`, or a frame that was queued before encryption.
pub data Payload : Type 0 where
  enc : String → Payload
  plain : TaskFrame → Payload

-- Base64 texts of an AES-256-GCM run.
pub record Cipher : Type 0 where
  pub iv : String
  pub tag : String
  pub ct : String

pub record Outside (Q : Type 0) : Type 0 where
  pub enqueue : String → Payload → Q → Option ℕ × Q
  pub notify : String → Q → Q
  pub claim_one : String → String → Q → Option (Option (ℕ × Payload)) × Q
  pub ack_batch : String → List ℕ → String → Q → Bool × Q
  pub retry : String → ℕ → String → ℕ → String → Q → Q
  pub stringify : TaskFrame → String
  pub parse : String → Option TaskFrame
  pub json_text : Json → String
  pub aes_encrypt : ℕ → String → Cipher
  pub aes_decrypt : Cipher → Option String
  pub random_uuid : ℕ → String
  pub random_bytes : ℕ → ℕ → List ℕ
  pub hmac_sha256 : String → String → String
  pub mail_sent : Mail → Bool

-- The engine takes every job.
abbrev pub Accepts : {Q : Type 0} → Outside Q → Type 0
Accepts {Q = Q} out =
    (name : String) (p : Payload) (q : Q) → (job : ℕ) × ((out.enqueue name p q).0 ≡ some job)

-- There is a job that the engine does not take.
abbrev pub Refused : {Q : Type 0} → Outside Q → Type 0
Refused {Q = Q} out =
    (name : String) × ((p : Payload) × ((q : Q) × ((out.enqueue name p q).0 ≡ none)))

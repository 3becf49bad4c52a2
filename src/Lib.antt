-- ===== src/Lib.antt =====
-- Lab Manager controller: a model of its core and the theorems on it.
--
-- The controller (controller/src/lib) keeps the authoritative tables of nodes, labs, students and
-- placements, queues tasks for the agents on the nodes, and takes their results back over one
-- WebSocket per node. The parts work together as follows: an operation on placements checks its
-- request, changes rows and queues tasks; a consumer per connection drains the node's queue into
-- the socket; the agent's frames come back, are bound to the node that sent them, and move tasks,
-- placements and members on; mails and alerts go out on the way.
--
-- Which file models what:
--   Json, Json/Redact   JSON values, and redactSecrets of lib/queue.ts (key pattern, masking).
--   Store/Rows          the tables of lib/db.ts, one record per row; JSON columns are held parsed.
--   Store/World         the state an operation runs over and the actions on it: an action is
--                       synchronous code, it returns or throws, and what it wrote stays written.
--   Store/Keeps         invariants over actions; Store/Refusals: throws that change nothing.
--   Outside             what the controller calls and does not implement, as fields of one record:
--                       the honker queue, node:crypto, JSON text and the mail transport.
--   Secrets, Secrets/Password   lib/secrets.ts and lib/passwords.ts.
--   Queue               lib/queue.ts: enqueueTask, claimTask, ackTask, retryTask, markTaskState,
--                       markTaskReceived, bumpAttempts; Queue/Log: how the task log may change.
--   Placements/*        lib/placements.ts: Config (validateContainerConfig), Tables (rows, lookups,
--                       keys), Ports (nextSshPortForNode), Tasks (task parameters), Members, Create
--                       (createPlacement), Change (updatePlacementQuota, recreatePlacement,
--                       retryPlacement), Teardown (destroyPlacement, forceDeletePlacement, the
--                       states that results set, confirmPlacementDestroyed), Removal
--                       (completeStudentRemoval), Credentials (delivery, completion mail, reveal).
--                       Closed names what these operations write; Admission: what createPlacement
--                       lets in; Secrecy: what the log shows of passwords.
--   Format, Alerts      lib/format.ts and lib/alerts.ts.
--   Protocol            lib/protocol.ts: the frame schemas and the version check.
--   Nodes               lib/nodes.ts: names, token hashes, authentication, provisioning, revocation.
--   Nodes/Cold          lib/nodes.ts: setNodeColdStorage, deleteNode, rotateNodeToken.
--   Labs, Labs/Roster   lib/labs.ts: createLab, updateLabMeta, destroyLab, and the rows of labs,
--                       students and memberships with their keys and cascades.
--   Email, Students     lib/email.ts; lib/students.ts: findOrCreateStudent, ensurePiAccess,
--                       addStudentToLab, copyMembers, removeStudentFromLab.
--   Membership/*        what requests on labs and students keep: Closed (the statements they run),
--                       Requests and Sequences, Heads and Invariant (PIs on rosters, keys), and the
--                       end of a lab: Blocking, Listing, Emptying, Destruction.
--   Csv, Csv/Import     lib/csv.ts: the parser (RoundTrip: against a writer), the column mapping and
--                       the checks of rows (Accepted: what they let through).
--   RateLimit           lib/ratelimit.ts: consume and prune; Bounds: what they let through.
--   Hub/Session         lib/hub.ts: hello, connections, close, the message rate.
--   Hub/Drain           lib/hub.ts: drainNode.
--   Hub/Ingest          lib/hub.ts: ingestFrame and its handlers; Fields: what they read.
--   Telemetry/*         lib/ingest.ts: ingestTelemetry; Fields (what it reads), Quota (alerts), Scrub
--                       (scrub status, cold storage), Storage (samples, scan times), Snapshots (the
--                       GPU table), Closed and Operations (what they keep), Locality, Hosting,
--                       Processes and Isolation (what they can reach), Spacing (alerts over
--                       time), Latest (the GPU table as a whole).
--   Tests               a small campus, and the theorems at it.
--
-- Conventions. Numbers are natural numbers, a quotient that is rounded is exact, and the tokens of a
-- rate limit are counted in parts of a token; times are milliseconds, and the clock stands still
-- within one action. A Map is an association list. Fields of telemetry are read as their interface
-- declares them, and what the database driver would convert between numbers and texts is left out.
-- An asynchronous mail is two actions, one up to the wait and one that gets its outcome; the
-- provisioning loops of students.ts and of createPlacement run as one action. The calls of the queue
-- engine that can throw in the source may refuse in the model; encryption has its key and does not
-- throw, and a statement on the database throws only on a constraint. Fuel: the port search gets
-- one round per port of the range, so it looks at all of them; a drain gets the 20 rounds of the
-- source's loop.
--
-- Not modelled: the import of labs, statistics, maintenance, mail texts, backup, sessions, pages,
-- timers other than the offline alert, and the agent, which is a separate program.
pub mod Base
pub mod Json
pub mod Store
pub mod Outside
pub mod Secrets
pub mod Queue
pub mod Placements
pub mod Format
pub mod Alerts
pub mod Protocol
pub mod Nodes
pub mod Labs
pub mod Csv
pub mod RateLimit
pub mod Email
pub mod Students
pub mod Membership
pub mod Telemetry
pub mod Hub
pub mod Tests

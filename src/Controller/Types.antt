-- ===== src/Controller/Types.antt =====
-- What the handlers of pkg/controller share: the objects they read from the cache, the context they
-- hand on, the calls they make to the API server, and how a handler ends. The packages handler and
-- queue of controller-idioms are not under the repository: that a handler ends in one operation of
-- the queue, or hands the context to the next handler, is how the code uses them.
use spicedb_operator.Base.{Bool, List, Option, String, none, some, true, ℕ, ◌↔◌, ◌∷◌, ◌≡◌}
use spicedb_operator.Base.Map.{Map}
use spicedb_operator.Api.Version.{Version}
use spicedb_operator.Api.Condition.{ConditionOps}
use spicedb_operator.Api.Cluster.{Cluster}

-- `batchv1.JobCondition`, and `batchv1.Job` as far as the code reads it
pub record JobCondition : Type 0 where
  pub type_name : String
  pub status : String
  pub message : String

pub record Job : Type 0 where
  pub name : String
  pub namespace : String
  pub annotations : Option (Map String)
  pub conditions : List JobCondition

-- `appsv1.Deployment` as far as the code reads it
pub record Deployment : Type 0 where
  pub name : String
  pub annotations : Option (Map String)
  pub generation : ℕ
  pub spec_replicas : Option ℕ
  pub observed_generation : ℕ
  pub status_replicas : ℕ
  pub updated_replicas : ℕ
  pub available_replicas : ℕ
  pub ready_replicas : ℕ
  pub unavailable_replicas : ℕ

-- `corev1.Pod`, with the message of the last termination of each container, if it was terminated
pub record Pod : Type 0 where
  pub name : String
  pub namespace : String
  pub labels : Option (Map String)
  pub terminations : List (Option String)

-- `config.Config`, the validated configuration, as far as the handlers read it
pub record Config : Type 0 where
  pub skip_migrations : Bool
  pub datastore_engine : String
  pub target_image : String
  pub target_migration : String
  pub target_phase : String
  pub spicedb_version : Option Version
  pub replicas : ℕ

-- The keys of `context.Context` that the handlers set and read.
pub record Context : Type 0 where
  pub cluster : Cluster
  pub secret_hash : String
  pub migration_hash : String
  pub config : Config
  pub deployments : List Deployment
  pub jobs : List Job
  pub current_job : Option Job
  pub current_deployment : Option Deployment

-- The calls that leave the process.
pub data Call : Type 0 where
  patch_status : Cluster → Call
  event : String → Call
  apply_job : String → Call
  delete_job : String → String → Call
  apply_deployment : String → Call
  delete_deployment : String → String → Call
  delete_pod : String → String → Call

-- The handlers that another handler calls by name.
pub data HandlerKey : Type 0 where
  self_pause : HandlerKey
  run_migration : HandlerKey
  wait_for_migrations : HandlerKey
  deployment_chain : HandlerKey
  next_handler : HandlerKey

-- How a handler ends: one of `QueueOps`, or the call of another handler.
pub data Outcome : Type 0 where
  done : Outcome
  requeue : Outcome
  requeue_after : ℕ → Outcome
  requeue_err : String → Outcome
  requeue_api_err : String → Outcome
  hand_on : HandlerKey → Context → Outcome

-- The calls made so far, the newest first.
abbrev pub Trace : Type 0
Trace = List Call

pub record Run : Type 0 where
  pub trace : Trace
  pub outcome : Outcome

-- What the API server answers: an error, or none. The answer may depend on all calls before.
abbrev pub Server : Type 0
Server = Trace → Call → Option String

-- `if err := call; err != nil { ...; return }` followed by the rest of the handler
abbrev pub perform : Server → Call → (String → Outcome) → (Trace → Run) → Trace → Run
perform server call failed rest t = elim (server t call) [
  | none ↦ rest (call ∷ t)
  | some e ↦ record { trace = call ∷ t; outcome = failed e }
]

-- The same for a failure that is followed by more than the operation of the queue.
abbrev pub perform_or : Server → Call → (String → Trace → Run) → (Trace → Run) → Trace → Run
perform_or server call failed rest t = elim (server t call) [
  | none ↦ rest (call ∷ t)
  | some e ↦ failed e (call ∷ t)
]

abbrev pub finish : Outcome → Trace → Run
finish o t = record { trace = t; outcome = o }

-- `recorder.Eventf`, which has no answer
abbrev pub record_event : String → (Trace → Run) → Trace → Run
record_event reason rest t = rest (event reason ∷ t)

-- The packages outside the repository: conditions, the comparison of hashes, and the rendering of a
-- number as a text.
pub record Env : Type 0 where
  pub conditions : ConditionOps
  -- `hash.SecureEqual` and `hash.Equal` of controller-idioms
  pub secure_equal : String → String → Bool
  pub hash_equal : String → String → Bool
  pub show_number : ℕ → String
  pub secure_equal_iff : (a b : String) → (secure_equal a b ≡ true) ↔ (a ≡ b)
  pub hash_equal_iff : (a b : String) → (hash_equal a b ≡ true) ↔ (a ≡ b)

-- ===== src/Operations/Enqueue.antt =====
-- `OperationService.enqueue` and its parts, of backend/poi_admin/operations/service.py.
pub mod Idempotent
use poi_hub.Base.{
  ℕ, String, Bool, Option, none, some, List, [], ◌∷◌, ◌++◌, ◌&&◌, ◌==◌, opt_eq, if◌then◌else◌,
}
use poi_hub.Base.Result.{Result, ok, err, ◌>>◌}
use poi_hub.Base.Rows.{find, any}
use poi_hub.Base.Text.{codes, is_blank}
use poi_hub.Base.Json.{Fields, fields_eq}
use poi_hub.Connections.Crypto.{redact_fields}
use poi_hub.Connections.Ports.{Capability}
use poi_hub.Operations.Model.{Operation, queued, has_key}

-- the columns of `WeChatConnection` that the services read
pub record Connection : Type 0 where
  pub id : String
  pub tenant_id : String
  pub capability : Capability

-- `ValueError` with its message, and `IdempotencyConflictError`
pub data OperationError : Type 0 where
  value_error : String → OperationError
  idempotency_conflict : OperationError

-- The arguments of `enqueue`, and what the call draws from its surroundings: the id of a new row
-- and the time.
pub record EnqueueRequest : Type 0 where
  pub tenant_id : String
  pub command_type : String
  pub idempotency_key : String
  pub payload : Fields
  pub connection_id : Option String
  pub resource_ref : Option String
  pub max_attempts : ℕ
  pub new_id : String
  pub now : ℕ

-- `_ensure_same_request`, on the redacted payload
unfoldable pub same_request : Operation → EnqueueRequest → Bool
same_request existing r =
    existing.command_type == r.command_type
    && opt_eq existing.connection_id r.connection_id
    && fields_eq existing.payload (redact_fields r.payload)
    && opt_eq existing.resource_ref r.resource_ref

-- a request for a key that is taken
unfoldable pub reuse :
    Operation → EnqueueRequest → List Operation → Result OperationError (Operation × List Operation)
unfolding same_request
reuse existing r table =
    if same_request existing r
    then ok (existing, table)
    else err OperationError.idempotency_conflict

unfoldable pub owns : String → String → Connection → Bool
owns tenant connection c = c.id == connection && c.tenant_id == tenant

unfoldable pub check_connection : List Connection → EnqueueRequest → Result OperationError Unit
unfolding owns
check_connection connections r = elim r.connection_id [
  | none ↦ ok tt
  | some connection ↦
      if any (owns r.tenant_id connection) connections
      then ok tt
      else err (OperationError.value_error "connection does not belong to tenant")
]

unfoldable pub check_key : EnqueueRequest → Result OperationError Unit
unfolding is_blank
check_key r =
    if is_blank (codes r.idempotency_key)
    then err (OperationError.value_error "idempotency key must not be empty")
    else ok tt

-- `sha256` is the hexadecimal digest of a text. `seal` is `encrypt_secret_bundle` under the
-- service's key, and `none` without a key.
module _ (sha256 : String → String) (seal : Option (Fields → String)) where
  unfoldable pub get_by_idempotency_key : String → String → List Operation → Option Operation
  get_by_idempotency_key tenant key table = find (has_key tenant (sha256 key)) table

  unfoldable pub new_operation : EnqueueRequest → Operation
  new_operation r = record {
    id = r.new_id;
    tenant_id = r.tenant_id;
    connection_id = r.connection_id;
    command_type = r.command_type;
    idempotency_key = sha256 r.idempotency_key;
    resource_ref = r.resource_ref;
    status = queued;
    attempt_count = 0;
    max_attempts = r.max_attempts;
    payload = redact_fields r.payload;
    encrypted_payload = elim seal [ none ↦ none | some f ↦ some (f r.payload) ];
    response_summary = none;
    error_code = none;
    error_message = none;
    worker_id = none;
    lease_expires_at = none;
    next_attempt_at = r.now;
    created_at = r.now;
    updated_at = r.now;
    completed_at = none;
  }

  -- The commit: the unique constraint refuses a second row for the key, and the row that is there
  -- is answered in its place.
  unfoldable pub commit_operation :
      EnqueueRequest → List Operation → Result OperationError (Operation × List Operation)
  unfolding reuse new_operation
  commit_operation r table = elim (find (has_key r.tenant_id (sha256 r.idempotency_key)) table) [
    | some existing ↦ reuse existing r table
    | none ↦ ok (new_operation r, table ++ new_operation r ∷ [])
  ]

  -- `seen` is the table as the call's first query reads it, and `table` the table at the commit:
  -- other sessions may have committed in between.
  unfoldable pub enqueue :
      List Connection
      → EnqueueRequest
      → List Operation
      → List Operation
      → Result OperationError (Operation × List Operation)
  unfolding check_connection check_key get_by_idempotency_key commit_operation reuse
  enqueue connections r seen table = do
    check_connection connections r
    check_key r
    elim (get_by_idempotency_key r.tenant_id r.idempotency_key seen) [
      | some existing ↦ reuse existing r table
      | none ↦ commit_operation r table
    ]

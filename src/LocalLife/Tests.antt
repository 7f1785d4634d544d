-- ===== src/LocalLife/Tests.antt =====
-- Rows and settings that the runs of backend/poi_admin/local_life share.
mod Products
mod Vouchers
mod Accounting
mod Orders
mod Creation
use poi_hub.Base.{ℕ, List, String, ◌≡◌, refl, true, none, some, [], ◌∷◌, ◌⊎◌, if◌then◌else◌, eqb}
use poi_hub.Base.Int.{pos}
use poi_hub.Base.Result.{Result, ok, err, ok_or}
use poi_hub.Base.Json.{Json, str, int, Fields, end, field}
use poi_hub.Connections.Ports.{local_life}
use poi_hub.Connections.Crypto.{is_sensitive, redact_secrets}
use poi_hub.Operations.Model.{Operation, queued}
use poi_hub.Operations.Errors.{Failure, timeout}
use poi_hub.Operations.Enqueue.{Connection, get_by_idempotency_key}
use poi_hub.Stores.Model.{Store, Mapping}
use poi_hub.LocalLife.Products.Status.{
  listed, approved, list, delist, parse_action, action_target, command_action, parse_status,
  under_review, status_eq,
}
use poi_hub.LocalLife.Products.Model.{
  Product, Sku, ProductDb, service, get_product, get_sku, product_of, save_product,
}
use poi_hub.LocalLife.Products.Service.{
  Context, Draw, ProductUpdateRequest, action_new, enqueue_action, update_product,
}
use poi_hub.LocalLife.Products.Intent.{Accepted, action_new-Accepted}
use poi_hub.LocalLife.Products.Settled.{unsettled_refused, action_excludes}
use poi_hub.LocalLife.Products.Handlers.{
  Gateway, ProductResult, settle, product_for, validate_intent, apply_action,
}
use poi_hub.LocalLife.Products.Stock.{stock_reply, remote_stock, set_stock}
use poi_hub.LocalLife.Products.Restock.{set_stock_latest}
use poi_hub.Base.Rows.{length, All}
use poi_hub.LocalLife.Accounting.{Entry, reconciliation_summary}
use poi_hub.LocalLife.Accounting.Differences.{Tells, reconciliation_summary-Tells}
use poi_hub.LocalLife.Vouchers.Model.{Voucher, VoucherDb, VoucherResult}
use poi_hub.LocalLife.Vouchers.Model
use poi_hub.LocalLife.Vouchers.Service.{enqueue_consume, enqueue_revoke}
use poi_hub.LocalLife.Vouchers.Service.Replay.{enqueue_consume-replay, enqueue_revoke-replay}
use poi_hub.LocalLife.Vouchers.Handlers.{VoucherGateway, consume, revoke}
use poi_hub.LocalLife.Vouchers.Handlers.Outcomes.{
  Consumed, Revoked, consume-Consumed, revoke-Revoked,
}

abbrev pub digest : String → String
digest s = s

abbrev pub connection : Connection
connection = record { id = "c"; tenant_id = "t"; capability = local_life }

abbrev pub context : Context
context = record { sha256 = digest; seal = none; connections = connection ∷ [] }

abbrev pub draw : Draw
draw = record { new_id = "o-1"; now = 100 }

abbrev pub blank : Operation
blank = record {
  id = "o-0";
  tenant_id = "t";
  connection_id = some "c";
  command_type = "local_life.inventory.set";
  idempotency_key = "k-0";
  resource_ref = none;
  status = queued;
  attempt_count = 0;
  max_attempts = 8;
  payload =
      field "sku_id" (str "s")
        (field "stock" (int (pos 9)) (field "target_version" (int (pos 1)) end));
  encrypted_payload = none;
  response_summary = none;
  error_code = none;
  error_message = none;
  worker_id = none;
  lease_expires_at = none;
  next_attempt_at = 0;
  created_at = 0;
  updated_at = 0;
  completed_at = none;
}

pub free_key : get_by_idempotency_key digest none "t" "k-1" [] ≡ none
unfolding get_by_idempotency_key
free_key = refl

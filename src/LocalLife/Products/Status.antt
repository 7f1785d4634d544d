-- ===== src/LocalLife/Products/Status.antt =====
-- The statuses and actions of a product, and the tables of
-- backend/poi_admin/local_life/products.py that say which action is allowed when.
use poi_hub.Base.{String, Bool, true, false, Option, none, some, ◌≡◌, refl, ◌==◌, if◌then◌else◌}

pub data ProductStatus : Type 0 where
  pending_create under_review draft approved listed delisted deleted : ProductStatus

-- `status.value`
unfoldable pub value : ProductStatus → String
value pending_create = "pending_create"
value under_review = "under_review"
value draft = "draft"
value approved = "approved"
value listed = "listed"
value delisted = "delisted"
value deleted = "deleted"

-- `ProductStatus(value)`; `none` is the `ValueError`
unfoldable pub parse_status : String → Option ProductStatus
parse_status s =
    if s == "pending_create"
    then some pending_create
    else if s == "under_review"
    then some under_review
    else if s == "draft"
    then some draft
    else if s == "approved"
    then some approved
    else if s == "listed"
    then some listed
    else if s == "delisted"
    then some delisted
    else if s == "deleted"
    then some deleted
    else none

pub parse_status-value : (s : ProductStatus) → parse_status (value s) ≡ some s
unfolding parse_status value
parse_status-value pending_create = refl
parse_status-value under_review = refl
parse_status-value draft = refl
parse_status-value approved = refl
parse_status-value listed = refl
parse_status-value delisted = refl
parse_status-value deleted = refl

pub data ProductAction : Type 0 where
  cancel_audit list delist delete : ProductAction

-- `ProductAction(value)`
unfoldable pub parse_action : String → Option ProductAction
parse_action s =
    if s == "cancel_audit"
    then some cancel_audit
    else if s == "list"
    then some list
    else if s == "delist"
    then some delist
    else if s == "delete"
    then some delete
    else none

abbrev pub create_product_command : String
create_product_command = "local_life.product.create"

abbrev pub update_product_command : String
update_product_command = "local_life.product.update"

abbrev pub audit_free_update_product_command : String
audit_free_update_product_command = "local_life.product.audit_free_update"

abbrev pub set_stock_command : String
set_stock_command = "local_life.inventory.set"

-- `ACTION_COMMANDS`
unfoldable pub action_command : ProductAction → String
action_command cancel_audit = "local_life.product.cancel_audit"
action_command list = "local_life.product.list"
action_command delist = "local_life.product.delist"
action_command delete = "local_life.product.delete"

-- The action of a command, the first of `ACTION_COMMANDS` that fits.
unfoldable pub command_action : String → Option ProductAction
unfolding action_command
command_action c =
    if action_command cancel_audit == c
    then some cancel_audit
    else if action_command list == c
    then some list
    else if action_command delist == c
    then some delist
    else if action_command delete == c
    then some delete
    else none

command_action-action_command : (a : ProductAction) → command_action (action_command a) ≡ some a
unfolding command_action
command_action-action_command cancel_audit = refl
command_action-action_command list = refl
command_action-action_command delist = refl
command_action-action_command delete = refl

-- `_ACTION_TARGETS`
unfoldable pub action_target : ProductAction → ProductStatus
action_target cancel_audit = draft
action_target list = listed
action_target delist = delisted
action_target delete = deleted

-- `_ACTION_ALLOWED_FROM`
unfoldable pub action_allowed : ProductAction → ProductStatus → Bool
action_allowed cancel_audit under_review = true
action_allowed list approved = true
action_allowed list delisted = true
action_allowed delist listed = true
action_allowed delete draft = true
action_allowed delete approved = true
action_allowed delete delisted = true
action_allowed _ _ = false

-- `_REGULAR_UPDATE_ALLOWED_FROM`
unfoldable pub regular_update_allowed : ProductStatus → Bool
regular_update_allowed draft = true
regular_update_allowed approved = true
regular_update_allowed delisted = true
regular_update_allowed _ = false

-- `_AUDIT_FREE_UPDATE_ALLOWED_FROM`
unfoldable pub audit_free_update_allowed : ProductStatus → Bool
audit_free_update_allowed approved = true
audit_free_update_allowed listed = true
audit_free_update_allowed delisted = true
audit_free_update_allowed _ = false

unfoldable pub status_eq : ProductStatus → ProductStatus → Bool
unfolding value
status_eq a b = value a == value b

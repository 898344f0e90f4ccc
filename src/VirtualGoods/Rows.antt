-- ===== src/VirtualGoods/Rows.antt =====
-- The rows of the tables of `VirtualGoodsStore` in src/modules/virtual_goods/store.py, and the store
-- as a record of its tables. Times are whole seconds, which the source formats as texts of one
-- width, ordered as the seconds are. A JSON column is the dict that was dumped into it.
use realxianyu.Base.{ℕ, Bool, Option, List, String}
use realxianyu.VirtualGoods.Status.{OrderStatus}

-- A JSON object: the text of each value, "" for one that Python counts as false.
abbrev pub Payload : Type 0
Payload = List (String × String)

pub data FulfillmentStatus : Type 0 where
  pending delivering fulfilled failed manual : FulfillmentStatus

pub data CallbackStatus : Type 0 where
  no_callback callback_received callback_processed callback_failed : CallbackStatus

-- a row of virtual_goods_orders
pub record Order : Type 0 where
  pub xianyu_order_id : String
  pub xianyu_product_id : String
  pub supply_order_no : Option String
  pub session_id : String
  pub order_status : OrderStatus
  pub fulfillment_status : FulfillmentStatus
  pub callback_status : CallbackStatus
  pub manual_takeover : Bool
  pub last_error : Option String
  pub created_at : ℕ
  pub updated_at : ℕ

-- the headers that are kept with a callback, and the query parameters under a key of their own
pub record AuditHeaders : Type 0 where
  pub fields : Payload
  pub query_params : Payload

-- a row of virtual_goods_callbacks
pub record Callback : Type 0 where
  pub id : ℕ
  pub callback_type : String
  pub source_family : String
  pub event_kind : String
  pub external_event_id : Option String
  pub dedupe_key : Option String
  pub xianyu_order_id : Option String
  pub payload : Payload
  pub raw_body : String
  pub headers : AuditHeaders
  pub signature : String
  pub verify_passed : Bool
  pub verify_error : Option String
  pub processed : Bool
  pub processed_at : Option ℕ
  pub claimed_by : Option String
  pub claimed_at : Option ℕ
  pub claim_expires_at : Option ℕ
  pub last_process_error : Option String
  pub attempt_count : ℕ
  pub created_at : ℕ

-- a row of virtual_goods_manual_takeover_events
pub record TakeoverEvent : Type 0 where
  pub xianyu_order_id : String
  pub enabled : Bool
  pub reason : Option String
  pub operator : Option String
  pub detail : Payload
  pub created_at : ℕ

-- a row of virtual_goods_order_events
pub record OrderEvent : Type 0 where
  pub id : ℕ
  pub xianyu_order_id : Option String
  pub event_type : String
  pub event_kind : String
  pub callback_id : Option ℕ
  pub from_status : Option String
  pub to_status : Option String
  pub result : Option String
  pub error_code : Option String
  pub is_exception : Bool
  pub detail : Payload
  pub created_at : ℕ

-- a row of ops_exception_pool
pub record OpsException : Type 0 where
  pub id : ℕ
  pub xianyu_order_id : Option String
  pub event_kind : String
  pub exception_code : String
  pub severity : String
  pub status : String
  pub first_seen_at : ℕ
  pub last_seen_at : ℕ
  pub occurrence_count : ℕ
  pub detail : Payload
  pub resolved_at : Option ℕ
  pub created_at : ℕ
  pub updated_at : ℕ

-- a row of ops_exception_transition_log
pub record ExceptionTransition : Type 0 where
  pub exception_id : ℕ
  pub from_status : Option String
  pub to_status : String
  pub operator : String
  pub reason : String
  pub detail : Payload
  pub created_at : ℕ

-- a row of listing_product_mappings
pub record Mapping : Type 0 where
  pub xianyu_product_id : String
  pub internal_listing_id : Option String
  pub supply_goods_no : Option String
  pub mapping_status : String
  pub last_sync_at : Option String
  pub created_at : ℕ
  pub updated_at : ℕ

-- the order and the product of a delivery that failed, which a notification names
pub record DeliveryNotice : Type 0 where
  pub order_id : String
  pub product_id : String

-- The `next_…` fields are AUTOINCREMENT counters. `notified` lists the calls of
-- `send_system_notification`, in order.
pub record VirtualGoodsStore : Type 0 where
  pub callback_lease_ttl_sec : ℕ
  pub callback_claimer_id : String
  pub orders : List Order
  pub callbacks : List Callback
  pub next_callback_id : ℕ
  pub takeover_events : List TakeoverEvent
  pub order_events : List OrderEvent
  pub next_event_id : ℕ
  pub exceptions : List OpsException
  pub next_exception_id : ℕ
  pub exception_transitions : List ExceptionTransition
  pub mappings : List Mapping
  pub notified : List DeliveryNotice

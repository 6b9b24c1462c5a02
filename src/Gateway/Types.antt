-- ===== src/Gateway/Types.antt =====
-- The types of apps/services/integration-gateway/src/commerce.ts and trusted-context.ts that the
-- refund context is made of.
use customer_service_os_lite.Common.{Bool, Option, List, String}
use customer_service_os_lite.Common.Int.{ℤ}
use customer_service_os_lite.Common.Dates.{Timestamp}
use customer_service_os_lite.Policy.Types.{Money}

pub record OrderSource : Type 0 where
  pub provider : String
  pub order_id : String

pub record Customer : Type 0 where
  pub id : String
  pub name : String
  pub email : String

pub record Item : Type 0 where
  pub id : String
  pub sku : String
  pub name : String
  pub quantity : ℤ
  pub unit_price : Money
  pub line_total : Money

pub record Refund : Type 0 where
  pub id : String
  pub status : String
  pub amount : Money
  pub line_ids : List String

pub record Payment : Type 0 where
  pub id : String
  pub status : String
  pub amount : Money
  pub method : String
  pub transaction_reference : Option String
  pub refunds : List Refund

pub record Fulfillment : Type 0 where
  pub id : String
  pub status : String
  pub method : String
  pub tracking_code : Option String

pub record CommerceOrder : Type 0 where
  pub source : OrderSource
  pub reference : String
  pub status : String
  pub active : Bool
  pub placed_at : Option String
  pub customer : Option Customer
  pub total : Money
  pub items : List Item
  pub payments : List Payment
  pub fulfillments : List Fulfillment

pub record ObservationMetadata : Type 0 where
  pub observation_id : String
  pub observed_at : Timestamp

-- `getRefundContext` looks at one field of the access context.
pub record OrderAccessContext : Type 0 where
  pub subject_customer_id : String

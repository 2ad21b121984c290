-- ===== src/Models.antt =====
-- src/types/models.ts: the records of the business, over the numbers `N` of the platform. A value of
-- a union of string literals is the text that it is at run time; a `Date` is its time value, which
-- is not finite where the date is invalid. The methods of the interfaces, which only implementing
-- classes define, are left out.
use miguel_n_ai_trackflow_pr.Common.{Bool, List, Text}

pub record ProductItem (N : Type 0) : Type 0 where
  pub product : Text
  pub quantity : N

pub record Department : Type 0 where
  pub name : Text
  pub department_id : Text
  pub location : List Text
  pub needs : List Text
  pub manager_id : Text

pub record Warehouse : Type 0 where
  pub warehouse_id : Text
  pub location : Text
  pub country : Text
  pub management_system : Text

pub record Worker : Type 0 where
  pub name : Text
  pub worker_id : Text
  pub location : Text
  pub department_id : Text
  pub position : Text

pub record Carrier : Type 0 where
  pub name : Text
  pub carrier_id : Text
  pub location : List Text
  pub service : Text

pub record Order (N : Type 0) : Type 0 where
  pub order_id : Text
  pub placed_at : N
  pub expected_delivery : N
  pub package_quantity : N
  pub package_size : Text
  pub weight : N
  pub urgent : Bool
  pub destination : Text
  pub products : List (ProductItem N)
  pub carrier_id : Text
  pub warehouse_id : Text
  pub client : Text
  pub status : Text

pub record Return (N : Type 0) : Type 0 where
  pub order_id : Text
  pub return_id : Text
  pub returning_reason : Text
  pub requested_at : N
  pub product_condition : Text
  pub status : Text
  pub expected_arrival : N
  pub package_quantity : N
  pub package_size : Text
  pub weight : N
  pub products : List (ProductItem N)
  pub carrier_id : Text
  pub warehouse_id : Text
  pub client : Text

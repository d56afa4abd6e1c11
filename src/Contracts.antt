-- ===== src/Contracts.antt =====
-- contracts/events.py: the events, over the type `P` of their payloads, and JSON values.
use aura_claw.Prelude.{ℕ, Bool, String, Option}

-- What a payload's `Any` holds. Numbers are the natural ones: no modelled code reads others.
mutual
  pub data Fields : Type 0 where
    end : Fields
    field : (key : String) (value : Value) (rest : Fields) → Fields

  pub data Items : Type 0 where
    nil : Items
    cons : (first : Value) (rest : Items) → Items

  pub data Value : Type 0 where
    null : Value
    str : String → Value
    bool : Bool → Value
    num : ℕ → Value
    obj : Fields → Value
    arr : Items → Value

-- Visibility of contracts/state.py
pub data Visibility : Type 0 where
  user internal secret : Visibility

pub record Actor : Type 0 where
  pub kind : String
  pub id : String

pub record NewEvent (P : Type 0) : Type 0 where
  pub type : String
  pub payload : P
  pub visibility : Visibility

pub record CanonicalEvent (P : Type 0) : Type 0 where
  pub event_id : String
  pub tenant_id : String
  pub root_session_id : String
  pub session_id : String
  pub run_id : Option String
  pub aggregate_version : ℕ
  pub type : String
  pub occurred_at : ℕ
  pub actor : Actor
  pub correlation_id : String
  pub causation_id : String
  pub visibility : Visibility
  pub schema_version : ℕ
  pub payload : P

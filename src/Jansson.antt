-- ===== src/Jansson.antt =====
-- Jansson, the JSON library that libetcd and the etcd engine call: a parameter of the model.
-- `keys` lists an object's keys in the order of `json_object_foreach`, which Jansson leaves open.
use libcluster.Prelude.{Bool, Option, List}
use libcluster.Prelude.Int.{ℤ}
use libcluster.Prelude.Bytes.{Bytes}

pub record Jansson : Type 1 where
  pub Json : Type 0
  pub is_object : Json → Bool
  pub is_array : Json → Bool
  pub is_string : Json → Bool
  pub is_true : Json → Bool
  pub object_get : Json → Bytes → Option Json
  pub keys : Json → List Bytes
  pub elems : Json → List Json
  pub string_value : Json → Bytes
  pub integer_value : Json → ℤ
  pub object : Json
  pub object_set : Json → Bytes → Json → Json
  pub loads : Bytes → Option Json

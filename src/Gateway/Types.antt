-- ===== src/Gateway/Types.antt =====
-- The fields of the Gateway API objects that gateway_controller.go reads (package gwv1). A Go
-- pointer is an `Option`, a string its bytes, an int32 weight an integer.
use netbird_operator.Prelude.Int.{ℤ}
use netbird_operator.Prelude.{ℕ, Option, List, Str}

pub data Protocol : Type 0 where
  http https tls other : Protocol

-- `listener.allowedRoutes.namespaces.from`
pub data From : Type 0 where
  all same selector none : From

pub record Listener : Type 0 where
  pub name : Str
  pub hostname : Option Str
  pub protocol : Protocol
  -- `TLS.CertificateRefs` by name; no TLS block is `none`
  pub certificate_refs : Option (List Str)
  -- the first nil pointer of `AllowedRoutes.Namespaces.From` makes this `none`
  pub allowed_from : Option From

pub record ParametersRef : Type 0 where
  pub group : Str
  pub kind : Str
  pub name : Str

pub record Gateway : Type 0 where
  pub name : Str
  pub namespace : Str
  pub class_name : Str
  pub generation : ℕ
  pub listeners : List Listener
  pub parameters_ref : Option ParametersRef

pub record ParentRef : Type 0 where
  pub namespace : Option Str
  pub name : Str

pub data PathType : Type 0 where
  prefix exact regex : PathType

pub record PathMatch : Type 0 where
  pub type : Option PathType
  pub value : Option Str

pub record RouteMatch : Type 0 where
  pub path : Option PathMatch

-- Only the number of filters matters to the code.
pub record BackendRef : Type 0 where
  pub name : Str
  pub port : Option ℕ
  pub weight : Option ℤ
  pub filters : ℕ

pub record Rule : Type 0 where
  pub matches : List RouteMatch
  pub filters : ℕ
  pub backend_refs : List BackendRef

pub record Route : Type 0 where
  pub name : Str
  pub namespace : Str
  pub generation : ℕ
  pub parent_refs : List ParentRef
  pub hostnames : List Str
  pub rules : List Rule

-- The backend that one path and one backendRef give.
pub record ProxyBackend : Type 0 where
  pub service : Str
  pub path : Str
  pub port : Option ℕ

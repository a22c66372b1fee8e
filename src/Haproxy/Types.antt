-- ===== src/Haproxy/Types.antt =====
-- haproxy/types.go: the paths of the Data Plane API and the objects that are sent to it. The fields
-- of the third-party models are those that the program reads or sets.
use pod_proxier.Base.{Bool, false, Option, none}
use pod_proxier.Base.Int.{ℤ, pos}
use pod_proxier.GoString.{GoString, str}

abbrev pub backend_path : GoString
backend_path = str "/v2/services/haproxy/configuration/backends"

abbrev pub frontend_path : GoString
frontend_path = str "/v2/services/haproxy/configuration/frontends"

abbrev pub server_path : GoString
server_path = str "/v2/services/haproxy/configuration/servers"

abbrev pub version_path : GoString
version_path = str "/v2/services/haproxy/configuration/version"

abbrev pub bind_path : GoString
bind_path = str "/v2/services/haproxy/configuration/binds"

abbrev pub transaction_path : GoString
transaction_path = str "/v2/services/haproxy/transactions"

-- models.StatsOptions
pub record StatsOptions : Type 0 where
  pub stats_enable : Bool

-- models.Backend
pub record Backend : Type 0 where
  pub name : GoString
  pub mode : GoString
  pub check_timeout : Option ℤ
  pub stats_options : Option StatsOptions

-- models.Frontend
pub record Frontend : Type 0 where
  pub name : GoString
  pub default_backend : GoString
  pub mode : GoString

-- models.Bind
pub record Bind : Type 0 where
  pub name : GoString
  pub port : Option ℤ
  pub address : GoString

abbrev pub empty_backend : Backend
empty_backend = record { name = str ""; mode = str ""; check_timeout = none; stats_options = none }

abbrev pub empty_frontend : Frontend
empty_frontend = record { name = str ""; default_backend = str ""; mode = str "" }

abbrev pub empty_bind : Bind
empty_bind = record { name = str ""; port = none; address = str "" }

-- One entry of GetServices.
pub record Service : Type 0 where
  pub name : GoString
  pub backend : Backend
  pub frontend : Frontend

pub record Server : Type 0 where
  pub address : GoString
  pub allow_0rtt : Bool
  pub backup : GoString
  pub check : GoString
  pub cookie : GoString
  pub inter : ℤ
  pub maintenance : GoString
  pub maxconn : ℤ
  pub name : GoString
  pub on_error : GoString
  pub on_marked_down : GoString
  pub on_marked_up : GoString
  pub port : ℤ
  pub send_proxy : GoString
  pub send_proxy_v2 : GoString
  pub ssl : GoString
  pub ssl_cafile : GoString
  pub ssl_certificate : GoString
  pub tls_tickets : GoString
  pub verify : GoString
  pub weight : ℤ

-- The zero value of the struct.
abbrev pub empty_server : Server
empty_server = record {
  address = str "";
  allow_0rtt = false;
  backup = str "";
  check = str "";
  cookie = str "";
  inter = pos 0;
  maintenance = str "";
  maxconn = pos 0;
  name = str "";
  on_error = str "";
  on_marked_down = str "";
  on_marked_up = str "";
  port = pos 0;
  send_proxy = str "";
  send_proxy_v2 = str "";
  ssl = str "";
  ssl_cafile = str "";
  ssl_certificate = str "";
  tls_tickets = str "";
  verify = str "";
  weight = pos 0;
}

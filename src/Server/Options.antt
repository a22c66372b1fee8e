-- ===== src/Server/Options.antt =====
-- server/cmd.go: the options, their defaults and Validate.
use pod_proxier.Base.{
  Bool, true, false, not, ◌&&◌, ◌||◌, none, some, List, [], ◌∷◌, if◌then◌else◌, length,
  ◌==◌ as nat_eq,
}
use pod_proxier.Base.Int.{ℤ, pos, ltb_ℤ, leb_ℤ}
use pod_proxier.GoString.{GoString, str}
use pod_proxier.Haproxy.Response.{GoError}

pub record PodProxier : Type 0 where
  pub port : ℤ
  pub addr : GoString
  pub data_plan_api_addr : GoString
  pub data_plan_api_user : GoString
  pub data_plan_api_password : GoString
  pub kubeconfig : GoString
  pub default_mapping_port : ℤ
  pub jprofiler_port_name : GoString
  pub max_mapping_time : ℤ
  pub resync_time : ℤ
  pub enable_v1 : Bool
  pub enable_v2 : Bool
  pub hide_backend : Bool
  pub port_range_start : ℤ
  pub port_range_end : ℤ
  pub port_name : GoString
  pub allowed_namespaces : List GoString
  pub check_timeout : ℤ
  pub check_interval : ℤ
  pub max_batch_size : ℤ
  pub default_health_check : Bool

-- The values that AddFlags sets before the command line is read.
abbrev pub defaults : PodProxier
defaults = record {
  port = pos 3343;
  addr = str "0.0.0.0";
  data_plan_api_addr = str "http://127.0.0.1:5555";
  data_plan_api_user = str "admin";
  data_plan_api_password = str "1fc917c7ad66487470e466c0ad40ddd45b9f7730a4b43e1b2542627f0596bbdc";
  kubeconfig = str "~/.kube/config";
  default_mapping_port = pos 8849;
  jprofiler_port_name = str "jprofiler_tcp";
  max_mapping_time = pos 10800;
  resync_time = pos 600;
  enable_v1 = false;
  enable_v2 = false;
  hide_backend = true;
  port_range_start = pos 9000;
  port_range_end = pos 9100;
  port_name = str "debug";
  allowed_namespaces = str "default" ∷ [];
  check_timeout = pos 15;
  check_interval = pos 2;
  max_batch_size = pos 50;
  default_health_check = false;
}

abbrev is_empty : List GoString → Bool
is_empty namespaces = nat_eq (length namespaces) 0

unfoldable pub validate_v2 : PodProxier → GoError
validate_v2 o =
    if leb_ℤ o.port_range_end o.port_range_start
    then some (str "port-range-start must be less than port-range-end")
    else if ltb_ℤ o.port_range_start (pos 1024) || ltb_ℤ (pos 65535) o.port_range_end
    then some (str "port range must be between 1024 and 65535")
    else if is_empty o.allowed_namespaces
    then some (str "allowed-namespaces cannot be empty when v2 is enabled")
    else none

unfoldable pub validate : PodProxier → GoError
unfolding validate_v2
validate o =
    if not o.enable_v1 && not o.enable_v2
    then some (str "at least one of --enable-v1 or --enable-v2 must be specify")
    else if o.enable_v2
    then validate_v2 o
    else none

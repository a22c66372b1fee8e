-- ===== src/Tests/Fixtures.antt =====
-- A Data Plane API, a queue, a cache and a clock that answer by simple rules.
use pod_proxier.Base.{
  ℕ, suc, true, false, Option, none, some, List, [], ◌∷◌, ◌++◌, if◌then◌else◌, length,
  ◌==◌ as nat_eq,
}
use pod_proxier.Base.Int.{pos}
use pod_proxier.GoString.{GoString, str, ◌==◌}
use pod_proxier.Haproxy.Types.{
  version_path, empty_backend, empty_frontend, empty_bind, empty_server,
}
use pod_proxier.Haproxy.Response.{Response}
use pod_proxier.Haproxy.Api.{Api, Codec, get, post, put, delete, Request, string}
use pod_proxier.Haproxy.Handle.{HaproxyHandle}
use pod_proxier.Service.State.{ServiceController, KubeService, ServicePort}
use pod_proxier.Service.Mapping.{mapping_key, new_mapping}
use pod_proxier.Service.Cluster.{Cluster, Split, parts, malformed, found, absent}

-- What waits in the queue, and the time.
pub record Outside : Type 0 where
  pub waiting : List GoString
  pub time : ℕ

-- A body is the name of what it encodes; every answer decodes to the object of a transaction `t1`
-- and to nothing else.
abbrev pub codec : Codec
codec = record {
  marshal_backend = λ b. (b.name, none);
  marshal_frontend = λ f. (f.name, none);
  marshal_bind = λ b. (b.name, none);
  marshal_server = λ s. (s.name, none);
  unmarshal_raw = λ s. ([], none);
  unmarshal_object = λ s. ((str "id", string (str "t1")) ∷ [], none);
  unmarshal_bind_lists = λ s. ([], none);
  unmarshal_backend = λ s. (empty_backend, none);
  unmarshal_backends = λ s. ([], none);
  unmarshal_frontend = λ s. (empty_frontend, none);
  unmarshal_frontends = λ s. ([], none);
  unmarshal_bind = λ s. (empty_bind, none);
  unmarshal_server = λ s. (empty_server, none);
  unmarshal_servers = λ s. ([], none);
}

abbrev pub status : ℕ → Response
status code = record { err = none; code = code; body = str "7" }

-- The version is 7; nothing else exists; a write has the given code, and a deletion 204.
abbrev pub reply : ℕ → Request → Response
reply code r = elim r.method [
  | get ↦ if r.path == version_path then status 200 else status 404
  | post ↦ status code
  | put ↦ status 202
  | delete ↦ status 204
]

-- An API that answers a creation with the given code.
abbrev pub api_with : ℕ → Api
api_with code = record { World = Outside; send = λ r w. (reply code r, w); codec = codec }

abbrev take_first : Outside → Option GoString × Outside
take_first w = elim w.waiting [
  | [] ↦ (none, w)
  | key ∷ keys ↦ (some key, record w { waiting = keys })
]

-- The Service default/web, with a port that is selected and one that is not.
abbrev pub debug_port : ServicePort
debug_port = record { name = str "debug"; port = pos 8849 }

abbrev pub web : KubeService
web = record {
  name = str "web";
  namespace = str "default";
  resource_version = str "1";
  cluster_ip = str "10.0.0.7";
  ports = debug_port ∷ record { name = str "http"; port = pos 80 } ∷ [];
}

-- A Service of another namespace whose name continues that of `web`.
abbrev pub web2 : KubeService
web2 = record web { name = str "web2" }

-- The text in front of the first slash, and the text behind it.
abbrev cut : GoString → GoString → Split
cut front [] = malformed (str "unexpected key format")
cut front (c ∷ s) = if nat_eq c b'/' then parts front s else cut (front ++ c ∷ []) s

-- The cache holds `web` alone.
abbrev pub cluster_with : ℕ → Cluster
cluster_with code = record {
  api = api_with code;
  now = λ w. (w.time, record w { time = suc w.time });
  queue_get = take_first;
  queue_len = λ w. (length w.waiting, w);
  queue_add = λ key w. (tt, record w { waiting = w.waiting ++ key ∷ [] });
  queue_add_rate_limited = λ key w. (tt, w);
  queue_forget = λ key w. (tt, w);
  queue_done = λ key w. (tt, w);
  get_by_key = λ key w. ((if key == str "default/web" then found web else absent), w);
  split_key = cut [];
}

abbrev pub idle : Outside
idle = record { waiting = []; time = 100 }

abbrev pub busy : Outside
busy = record { waiting = str "default/web" ∷ str "default/old" ∷ []; time = 100 }

abbrev pub handle : HaproxyHandle
handle = record {
  local_addr = str "127.0.0.1:5555";
  host = str "http://127.0.0.1:5555";
  user = str "admin";
  password = str "secret";
}

-- A V2 controller that starts, with the range 9000..9001.
abbrev pub fresh : ServiceController
fresh = record {
  handler = handle;
  controller_addr = str "0.0.0.0";
  controller_port = pos 3343;
  port_range_start = 9000;
  port_range_end = 9001;
  allowed_namespaces = str "default" ∷ [];
  target_port_names = str "debug" ∷ [];
  service_mappings = [];
  port_allocations = [];
  check_timeout = pos 15;
  check_interval = pos 2;
  hide_backend = true;
  max_batch_size = pos 50;
  is_off_check = false;
}

-- The fresh controller after `web` has been mapped.
abbrev pub mapped : ServiceController
mapped = record fresh {
  service_mappings = (mapping_key web debug_port, new_mapping web debug_port 9000 100) ∷ [];
  port_allocations = (9000, true) ∷ [];
}

-- The V2 controller of the default options.
abbrev pub default_controller : ServiceController
default_controller = record fresh {
  handler = record handle {
    password = str "1fc917c7ad66487470e466c0ad40ddd45b9f7730a4b43e1b2542627f0596bbdc";
  };
  port_range_end = 9100;
}

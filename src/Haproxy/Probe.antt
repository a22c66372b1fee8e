-- ===== src/Haproxy/Probe.antt =====
-- haproxy/haproxy.go, the checks of ports, interfaces and processes. What the operating system
-- answers is an argument.
use pod_proxier.Base.{Bool, true, false, Option, none, some, List, [], ◌∷◌, if◌then◌else◌}
use pod_proxier.Base.Int.{ℤ}
use pod_proxier.GoString.{GoString, str, contains, has_byte}
use pod_proxier.GoString.Number.{format_int}
use pod_proxier.Haproxy.Handle.{HaproxyHandle, cat}

-- net.JoinHostPort
unfoldable pub join_host_port : GoString → GoString → GoString
unfolding has_byte
join_host_port host port =
    if has_byte host b':'
    then cat (str "[" ∷ host ∷ str "]:" ∷ port ∷ [])
    else cat (host ∷ str ":" ∷ port ∷ [])

-- How a dial ends: a connection, no connection and no error, an OpError with the text of its
-- cause, or an error of another type.
pub data Dialed : Type 0 where
  connected absent : Dialed
  op_error : GoString → Dialed
  other_error : Dialed

-- A method call on a nil *OpError panics.
pub data Availability : Type 0 where
  status : Bool → Availability
  panicked : Availability

unfoldable pub check_port_is_available :
    (GoString → GoString → Dialed) → HaproxyHandle → GoString → ℤ → Availability
unfolding join_host_port contains
check_port_is_available dial h protocol port =
    elim (dial protocol (join_host_port h.local_addr (format_int port))) [
      | connected ↦ status false
      | absent ↦ status false
      | op_error e ↦ status (contains e (str "refused"))
      | other_error ↦ panicked
    ]

-- A sum of a value and an error.
pub data Addr : Type 0 where
  address : GoString → Addr
  no_address : GoString → Addr

-- The first address with an IPv4 form.
unfoldable pub first_ipv4 : List (Option GoString) → Option GoString
first_ipv4 [] = none
first_ipv4 (none ∷ addrs) = first_ipv4 addrs
first_ipv4 (some a ∷ addrs) = some a

abbrev found_addr : GoString → Option GoString → Addr
found_addr dev none =
    no_address (cat (str "interface " ∷ dev ∷ str " don't have an ipv4 address" ∷ []))
found_addr dev (some a) = address a

-- The interface's addresses, each with its IPv4 form if it has one, or the error of the lookup.
pub data Addrs : Type 0 where
  addrs_of : List (Option GoString) → Addrs
  no_addrs : GoString → Addrs

unfoldable pub get_local_addr : (GoString → Addrs) → GoString → Addr
unfolding first_ipv4
get_local_addr interface_addrs dev = elim (interface_addrs dev) [
  | no_addrs e ↦ no_address e
  | addrs_of addrs ↦ found_addr dev (first_ipv4 addrs)
]

-- The loop over the processes, each with its name if it can be read.
unfoldable pub any_process_named : List (Option GoString) → GoString → Bool
unfolding contains
any_process_named [] process_name = false
any_process_named (none ∷ ps) process_name = false
any_process_named (some n ∷ ps) process_name =
    if contains n process_name then true else any_process_named ps process_name

unfoldable pub get_process_by_name : Option (List (Option GoString)) → GoString → Bool
unfolding any_process_named
get_process_by_name none process_name = false
get_process_by_name (some ps) process_name = any_process_named ps process_name

-- EnsureHaproxy
unfoldable pub ensure_haproxy : HaproxyHandle → Bool
ensure_haproxy h = true

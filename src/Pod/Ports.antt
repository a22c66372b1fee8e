-- ===== src/Pod/Ports.antt =====
-- Which port of a Pod CreateMapping chooses, and for how long the mapping stands.
use pod_proxier.Base.{◌≡◌, refl, sym, ◌∙◌, List, [], ◌∷◌, ◌++◌, map, arith, if◌then◌else◌, keep}
use pod_proxier.Base.Int.{ℤ}
use pod_proxier.GoString.{GoString, ◌==◌}
use pod_proxier.Pod.State.{ContainerPort}
use pod_proxier.Pod.Mapping.{port_in_container, port_in_containers}

-- The ports of the given name, in order.
abbrev pub named : GoString → List ContainerPort → List ℤ
named name ps = map (λ p. p.container_port) (keep (λ p. p.name == name) ps)

abbrev pub all_ports : List (List ContainerPort) → List ContainerPort
all_ports [] = []
all_ports (c ∷ cs) = c ++ all_ports cs

-- The last element, or the given one.
abbrev pub last_or : ℤ → List ℤ → ℤ
last_or z [] = z
last_or z (p ∷ ps) = last_or p ps

port_in_container-append :
    (name : GoString) (port : ℤ) (ps qs : List ContainerPort)
    → port_in_container name port (ps ++ qs)
      ≡ port_in_container name (port_in_container name port ps) qs
unfolding port_in_container
port_in_container-append name port [] qs = refl
port_in_container-append name port (p ∷ ps) qs =
    port_in_container-append name (if p.name == name then p.container_port else port) ps qs

port_in_container-last_or :
    (name : GoString) (port : ℤ) (ps : List ContainerPort)
    → port_in_container name port ps ≡ last_or port (named name ps)
unfolding port_in_container
port_in_container-last_or name port [] = refl
port_in_container-last_or name port (p ∷ ps) = ground (
  arith,
  port_in_container-last_or name port ps,
  port_in_container-last_or name p.container_port ps,
)

flat :
    (name : GoString) (port : ℤ) (cs : List (List ContainerPort))
    → port_in_containers name port cs ≡ port_in_container name port (all_ports cs)
unfolding port_in_containers port_in_container
flat name port [] = refl
flat name port (c ∷ cs) =
    flat name (port_in_container name port c) cs
    ∙ sym (port_in_container-append name port c (all_ports cs))

-- The search through the containers finds the last port of the name, over all containers.
pub port_in_containers-last_or :
    (name : GoString) (port : ℤ) (cs : List (List ContainerPort))
    → port_in_containers name port cs ≡ last_or port (named name (all_ports cs))
port_in_containers-last_or name port cs =
    flat name port cs ∙ port_in_container-last_or name port (all_ports cs)

-- ===== src/Proxy/Port.antt =====
-- The port that a probe asks for.
use starknet_operators.Prelude.{
  arith, ◌≡◌, ◌≢◌, refl, String, List, [], ◌∷◌, ◌++◌, All, eq_iff, ◌==◌, if◌then◌else◌,
}
use starknet_operators.Prelude.Decimal.{itoa}
use starknet_operators.Prog.{ret}
use starknet_operators.Kubernetes.Meta.{object_key}
use starknet_operators.Kubernetes.Core.{Pod, Container, ContainerPort}
use starknet_operators.Proxy.{port_named, probe}

-- The number of a named port is that of the first port with the name, whatever ports come after
-- it.
pub port_named-append :
    (before after : List ContainerPort) (port : ContainerPort)
    → All (λ (q : ContainerPort). q.name ≢ port.name) before
    → port_named (before ++ port ∷ after) port.name ≡ port.container_port
unfolding port_named
port_named-append [] after port h = ground (arith, eq_iff port.name port.name)
port_named-append (q ∷ before) after port h =
    ground (arith, eq_iff q.name port.name, port_named-append before after port h.1)

-- Without a port of that name the number is 0.
port_named-absent :
    (ports : List ContainerPort) (name : String)
    → All (λ (q : ContainerPort). q.name ≢ name) ports
    → port_named ports name ≡ 0
unfolding port_named
port_named-absent [] name h = refl
port_named-absent (q ∷ ports) name h =
    ground (arith, eq_iff q.name name, port_named-absent ports name h.1)

-- If the first container of a pod has ports and none of them is called "management", a probe of
-- the pod is sent to port 0, over https exactly if the protocol of the first port reads "TCP".
pub probe-port_zero :
    (pod : Pod) (path : String) (c : Container) (cs : List Container) (port : ContainerPort)
    (ports : List ContainerPort)
    → pod.spec.containers ≡ c ∷ cs
    → c.ports ≡ port ∷ ports
    → All (λ (q : ContainerPort). q.name ≢ "management") c.ports
    → probe pod path
      ≡ ret (record {
        scheme = if port.protocol == "TCP" then "https" else "http";
        pod = object_key pod.meta;
        port = "0";
        path = path;
      })
unfolding probe itoa
probe-port_zero pod path c cs port ports first some_port none_named =
    rw first (rw (port_named-absent c.ports "management" none_named) (rw some_port refl))

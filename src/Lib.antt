-- ===== src/Lib.antt =====
-- pod-proxier, a proxy that maps ports of Pods and of Services of a Kubernetes cluster to ports of
-- HAProxy, through HAProxy's Data Plane API.
--
-- The parts, and where they are modelled:
--
-- * GoString and its children: Go's strings as lists of bytes, with what the program uses of the
--   packages strings, strconv, fmt and net/url.
-- * Haproxy (haproxy/haproxy.go, haproxy/types.go): the client. Haproxy.Types has the payloads and
--   paths, Haproxy.Response has handleError, Haproxy.Handle has HaproxyHandle, the configuration
--   version (getVersion, getVersionOrTxID) and transactions (StartTransaction, CommitTransaction,
--   DiscardTransaction), Haproxy.Backends and Haproxy.Servers have the operations on backends,
--   frontends, servers and binds, Haproxy.Services has GetServices, Haproxy.Probe the probes of
--   the host. Haproxy.Interface (haproxy/interface.go) is HaproxyInterface. Haproxy.Scope,
--   Haproxy.Errors, Haproxy.Version, Haproxy.Paths and Haproxy.Naming are about what they send and
--   make of answers; Haproxy.Plane states what the Data Plane API promises, as a record of
--   operations and laws, and Haproxy.Writes and Haproxy.Requests are about the client against such
--   an API.
-- * Service (controller/service_controller.go): the V2 controller. Service.State has its state,
--   Service.Ports allocatePort, releasePort and the filters, Service.Proxy createServiceProxy,
--   Service.Mapping processServiceWithTx, removeServiceMappingsWithTx, syncService and
--   ListServiceMappings, Service.Worker the event handlers, processNextWorkItem and runWorker,
--   Service.Launch RunServiceController and Run. Service.Step is the controller as a state
--   machine, and Service.Reach relates the two; Service.Consistency, Service.Invariants,
--   Service.Safety, Service.Release, Service.Removal, Service.Resync, Service.Outcome and
--   Service.Frontends are about its states, Service.Listing about what it lists, Service.Frame,
--   Service.Trace and Service.Conflict about what it sends, Service.Batch, Service.Turns,
--   Service.Failure, Service.Commit and Service.Discard about the queue and the transaction;
--   Service.Route, Service.Quiet, Service.Atomic and Service.Lockstep relate the controller to an
--   API that keeps its promises, Service.Drain and Service.Stuck to what a work queue promises,
--   and Service.Running takes Run for steps of the state machine.
-- * Pod (controller/pod_controller.go, constant.go, event.go): the V1 controller. Pod.State has
--   its configuration, Pod.Proxy changeProxy, createProxy, DefaultMapping and the start of Run,
--   Pod.Mapping QueryPodExists, CreateMapping and pop, Pod.Launch RunController, Run and
--   RunAsyncProcess. Pod.Startup, Pod.Ports and Pod.Scheduling are about the start, the choice of
--   a port and what a mapping has done, Pod.Target and Pod.Single about the servers that an API
--   which keeps them holds after a change.
-- * Kube (controller/pod_controller.go, controller/service_controller.go): what RunController and
--   RunServiceController take from client-go, and how they get at a client of the cluster.
-- * Server (main.go, server/cmd.go, server/api.go, server/v1.go, server/router.go): Server.Options
--   has the options and Validate, Server.Process main, the command and Run, Server.Router the
--   routes and the mapping handlers with a controller that may be nil, Server.Answer the errors
--   and answers, Server.V1 the handlers; Server.Validation, Server.Limits, Server.Created,
--   Server.Started, Server.Deployed, Server.Unserved and Server.Mapped are about them.
--
-- An operation of the client or a controller is an action: a function of the world, which is all
-- that lies outside the process, to a result and a world. What is third-party code is a parameter:
-- the HTTP client with the API behind it and the JSON codec (Haproxy.Api), the work queue, the
-- cache, the key functions and the clock (Service.Cluster, Pod.State.PodCluster), the clients and
-- informers of the cluster (Kube), cobra's parsing (Server.Process.Parsed), gin's server, paths and
-- binding of requests (Server.Router.Gin), the dialling and the interfaces and processes of the
-- host. A parameter may answer anything, so what other goroutines do to the queue between two calls
-- is covered. The mutexes are no state: the code between a Lock and its Unlock is one action.
--
-- Numbers: an `int` or `int64` is an integer, wrapped to 64 bits where the program multiplies and
-- where it takes 1 from the size of a batch; the ports of the V2 range are naturals, since Validate
-- lets only 1024..65535 through. A map is a list of entries of distinct keys, and its range order
-- is that of the list, which is any. Models of HAProxy's objects keep the fields that the program
-- reads or sets. sort.Slice is stable here. Of the verbs of fmt.Errorf, errorf does not read `*`
-- and argument indexes, and it takes the text for valid UTF-8.
--
-- Bounds and fuel: loops over lists are structural. The scan of allocatePort runs end + 1 - start
-- rounds, which is the number of ports of the range; the collection of a batch runs maxBatchSize -
-- 1 rounds, as in the source. runWorker and pop run until the queue shuts down, and are taken for
-- any number of rounds; Service.Drain is about the number that is enough. wait.Until starts
-- runWorker any number of times. The fuel of the decimal digits and of TrimSpace is the number and
-- the length.
--
-- Not modelled: what the informers do, since they are third-party code, and the interleaving of the
-- goroutines that main starts, each of which is a sequence of its own; PrintFlags, which only logs;
-- types and error values that nothing uses; the chart, manifests and scripts.
pub mod Base
pub mod Kube
pub mod GoString
pub mod Haproxy
pub mod Service
pub mod Pod
pub mod Server
mod Tests

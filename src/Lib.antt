-- ===== src/Lib.antt =====
-- Kosmos v2, a vertical and horizontal autoscaler for Kubernetes, modelled from its Go sources.
--
-- The program is a set of controllers that work on shared objects. The pod-scale controller keeps
-- one PodScale for each pod of a service under a ServiceLevelAgreement. The recommender proposes
-- resources for each pod scale of a node and sends them as a NodeScales message to the contention
-- manager, which divides the node's resources among them and sends them on to the resource
-- updater, which writes pods and pod scales through the API server. The replicas updater changes
-- the number of replicas of an application. The response times come from a proxy beside each pod,
-- through a metrics provider that caches them and averages them over the pods of a service. Every
-- controller takes its keys from a work queue, which hands a key out again after an error.
--
-- Files and the code that they model:
--   Prelude       shared names: tests, lists, integers, results. ℤ is Go's int64 or int32; where the
--                 code may overflow, the wrap-around is written out.
--   Float         IEEE 754 doubles over an unspecified rounding of fractions (`Machine`); `IsIeee`
--                 states what IEEE 754 promises of it. A conversion to an integer that is out of range
--                 is left open, as Go leaves it to the platform.
--   Quantity      k8s.io/apimachinery's resource.Quantity: a record of operations, its documented laws
--                 and an instance in whole thousandths.
--   Api           pkg/apis/systemautoscaler/v1beta1/types.go, and the fields of Kubernetes' objects
--   NodeScales    pkg/podscale-controller/pkg/types/types.go: `contains`, `remove`
--   StateDiff     pkg/podscale-controller/pkg/utils/utils.go: `diff_pods`, `has_container`
--   Contention    pkg/pod-autoscaler/pkg/contention-manager/logic.go: `new_contention_manager`,
--                 `solve`, `process_node`
--   ResourceUpdater
--                 pkg/pod-autoscaler/pkg/pod-resource-updater: `sync_pod` of utils.go, and of
--                 controller.go `atomic_resource_update` and the worker
--   PodScales     pkg/podscale-controller/pkg/controller/sync.go: `new_pod_scale`, `sync_service`,
--                 `handle_service_selector_change`, `sync_service_level_agreement`
--   Recommender   pkg/pod-autoscaler/pkg/recommender: logic.go, and in Loop `recommendContainer` and
--                 `recommendNode` of controller.go
--   Replicas      pkg/pod-replicas-updater/pkg/logic.go: Hpa is HPALogic, Custom is CustomLogic,
--                 Machine the state machine that both share; Controller is `handleSLA` of
--                 controller.go and utils.go, on its own and as a round of the work queue
--   Queue         pkg/queue/queue.go: `process_next_item`, `enqueue`; and the handlers of
--                 pkg/podscale-controller/pkg/controller/handler.go. `IsWorkqueue` and
--                 `IsDraining` state what the rate-limiting queue of client-go promises, the latter
--                 once it is shut down, and Fifo is a queue that keeps both.
--   Metrics       pkg/metrics-exposer/pkg: Client is metrics/client.go, Provider is
--                 provider/provider.go and Update in it provider/sync.go; Proxy is
--                 pkg/http-metrics/main.go, Scrape the way from the proxy to the provider, and
--                 Getter pkg/pod-autoscaler/pkg/metrics/metrics.go, which reads the provider
--   Pipeline      pkg/pod-autoscaler/main.go: the two channels between the recommender, the contention
--                 manager and the resource updater, and their workers as moves of a system, whose
--                 steps and reachable states are in Steps
--   Examples      concrete inputs
--
-- State is passed explicitly; errors are `none` or a result. Nothing runs on fuel: all loops of the
-- modelled code go over lists, and the number of rounds of a worker is an argument. Listers, the
-- metrics API, the API server, the HTTP client and the JSON decoder are arguments. Calls run one after
-- another, but for the workers of the pipeline, whose moves are interleaved in any order; what a lock
-- is to exclude is not modelled. A worker of the updater handles one pod scale, with its requests to
-- the API server, in one move; the capacity of 10000 messages of the channels and the number of 4
-- workers are those of main.go.
--
-- Not modelled: generated clients, the wiring of processes and informers, logging, the forwarding of
-- HTTP requests, and the controllers' construction.
pub mod Prelude
pub mod Float
pub mod Quantity
pub mod Api
pub mod NodeScales
pub mod StateDiff
pub mod ResourceUpdater
pub mod Replicas
pub mod Contention
pub mod Examples
pub mod Recommender
pub mod PodScales
pub mod Queue
pub mod Metrics
pub mod Pipeline

-- ===== src/Service/Lockstep/Batch.antt =====
-- removeServiceMappingsWithTx, syncService and the loop over a batch in service_controller.go.
use pod_proxier.GoString.{GoString}
use pod_proxier.Service.Cluster.{Cluster}
use pod_proxier.Service.Mapping.{State}

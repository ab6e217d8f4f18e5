-- ===== src/Store/Pod/Objects.antt =====
-- v1.Pod of k8s.io/api, as far as the families of internal/store/pod.go read it. A pointer is none if
-- it is nil, and a map is the list of its entries in the order in which Go visits them.
use kube_state_metrics.Prelude.{Bool, Option, List}
use kube_state_metrics.Prelude.Text.{Bytes}
use kube_state_metrics.Prelude.Assoc.{Map}
use kube_state_metrics.Prelude.Int.{ℤ}
use kube_state_metrics.Api.{OwnerReference}
use kube_state_metrics.Store.Packages.{Packages}

-- v1.ContainerStateTerminated
pub record Terminated : Type 0 where
  pub reason : Bytes
  pub finished_at : ℤ

-- v1.ContainerStatus: a container that waits has the reason, one that runs the time of its start.
pub record ContainerStatus : Type 0 where
  pub name : Bytes
  pub image : Bytes
  pub image_id : Bytes
  pub container_id : Bytes
  pub waiting : Option Bytes
  pub running : Option ℤ
  pub terminated : Option Terminated
  pub last_terminated : Option Terminated
  pub ready : Bool
  pub restart_count : ℤ

-- v1.PodCondition
pub record PodCondition : Type 0 where
  pub type : Bytes
  pub status : Bytes
  pub last_transition_time : ℤ

-- v1.Container
pub record Container (pk : Packages) : Type 0 where
  pub name : Bytes
  pub requests : Map pk.Quantity
  pub limits : Map pk.Quantity

-- v1.PersistentVolumeClaimVolumeSource
pub record ClaimSource : Type 0 where
  pub claim_name : Bytes
  pub read_only : Bool

-- v1.Volume
pub record Volume : Type 0 where
  pub name : Bytes
  pub persistent_volume_claim : Option ClaimSource

-- v1.Pod: a nil overhead is empty, and the deletion time is none if it is nil or zero.
pub record Pod (pk : Packages) : Type 0 where
  pub namespace : Bytes
  pub name : Bytes
  pub uid : Bytes
  pub labels : Map Bytes
  pub owner_references : List OwnerReference
  pub creation_timestamp : Option ℤ
  pub deletion_timestamp : Option ℤ
  pub node_name : Bytes
  pub priority_class_name : Bytes
  pub restart_policy : Bytes
  pub containers : List (Container pk)
  pub init_containers : List (Container pk)
  pub volumes : List Volume
  pub overhead : Map pk.Quantity
  pub host_ip : Bytes
  pub pod_ip : Bytes
  pub start_time : Option ℤ
  pub phase : Bytes
  pub reason : Bytes
  pub conditions : List PodCondition
  pub container_statuses : List ContainerStatus
  pub init_container_statuses : List ContainerStatus

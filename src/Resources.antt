-- ===== src/Resources.antt =====
-- The resources of a workspace (api/workspaces/v1/workspaceclass_types.go), their merge
-- (internal/controller/workspaces/merge.go, mergeResources), and the GPU request that they make
-- (internal/controller/workspaces/workspacedeployment_controller.go). `Q` stands for Kubernetes'
-- `resource.Quantity`. An unset pointer or a nil map is `none`; counts are int32 and not negative.
pub mod Laws
use exalsius_operator.Gpu.{default_options, build_selector}
use exalsius_operator.Kube.{Labels}
use exalsius_operator.Prelude.{ℕ, ◌*◌, Option, none, some, [], Text, or_else}

pub record ResourceRequirements (Q : Type 0) : Type 0 where
  pub cpu : Option Q
  pub memory : Option Q
  pub storage : Option Q
  pub gpu_count : Option ℕ
  pub gpu_vendor : Option Text
  pub gpu_type : Option Text
  pub gpu_node_selector : Option Labels

pub record WorkspaceResourceSpec (Q : Type 0) : Type 0 where
  pub replicas : Option ℕ
  pub per_replica : ResourceRequirements Q

module _ {Q : Type 0} where
  -- The fields that the user set win. A class never gives a GPU type or a node selector.
  unfoldable pub override : ResourceRequirements Q → ResourceRequirements Q → ResourceRequirements Q
  override d u = record {
    cpu = or_else u.cpu d.cpu;
    memory = or_else u.memory d.memory;
    storage = or_else u.storage d.storage;
    gpu_count = or_else u.gpu_count d.gpu_count;
    gpu_vendor = or_else u.gpu_vendor d.gpu_vendor;
    gpu_type = or_else u.gpu_type d.gpu_type;
    gpu_node_selector = or_else u.gpu_node_selector d.gpu_node_selector;
  }

  -- mergeResources: the class's defaults without the GPU targeting fields, then the overrides.
  unfoldable pub merge_resources :
      WorkspaceResourceSpec Q → Option (WorkspaceResourceSpec Q) → WorkspaceResourceSpec Q
  unfolding override
  merge_resources class_defaults user_overrides =
      let result : WorkspaceResourceSpec Q = record class_defaults {
        per_replica = record (class_defaults.per_replica) {
          gpu_type = none;
          gpu_node_selector = none;
        };
      } in
      elim user_overrides [
        | none ↦ result
        | some u ↦ record {
          replicas = or_else u.replicas result.replicas;
          per_replica = override result.per_replica u.per_replica;
        }
      ]

  -- gpuModelOf
  unfoldable pub gpu_model_of : WorkspaceResourceSpec Q → Text
  gpu_model_of r = elim r.per_replica.gpu_type [ none ↦ [] | some t ↦ t ]

  -- gpuSelectorOf
  unfoldable pub gpu_selector_of : WorkspaceResourceSpec Q → Labels
  unfolding gpu_model_of
  gpu_selector_of r =
      build_selector (gpu_model_of r)
        (elim r.per_replica.gpu_node_selector [ none ↦ [] | some m ↦ m ]) default_options

  -- gpuDemand: an int64 product of two int32 values
  unfoldable pub gpu_demand : WorkspaceResourceSpec Q → ℕ
  gpu_demand r =
      elim r.replicas [ none ↦ 1 | some n ↦ n ]
      * (elim r.per_replica.gpu_count [ none ↦ 0 | some n ↦ n ])

  -- effectiveGPUSelector: of the stamped resources if there are any, else of the spec's
  unfoldable pub effective_gpu_selector :
      Option (WorkspaceResourceSpec Q) → Option (WorkspaceResourceSpec Q) → Labels
  effective_gpu_selector spec_resources resolved_resources =
      elim (or_else resolved_resources spec_resources) [ none ↦ [] | some r ↦ gpu_selector_of r ]

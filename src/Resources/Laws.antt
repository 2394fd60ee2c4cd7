-- ===== src/Resources/Laws.antt =====
-- What the merge of the resources keeps, and what the GPU request reads from it.
use exalsius_operator.Gpu.{build_selector}
use exalsius_operator.Prelude.{
  ℕ, ◌^◌, ◌<◌, ◌≡◌, refl, Option, none, some, arith, is_empty, merge, ◌*◌,
}
use exalsius_operator.Resources.{
  WorkspaceResourceSpec, merge_resources, gpu_selector_of, gpu_demand, effective_gpu_selector,
}

mul_bound : (n g b : ℕ) → n < b → g < b → n * g < b * b
mul_bound n g b h k = grind arith

module _ {Q : Type 0} where
  -- Merging again with what was resolved changes nothing.
  merge_resources_idem :
      (d : WorkspaceResourceSpec Q) (u : Option (WorkspaceResourceSpec Q))
      → merge_resources d (some (merge_resources d u)) ≡ merge_resources d u
  unfolding merge_resources
  merge_resources_idem d u = ground arith

  -- The class has no say in which GPU is targeted: the selector of the merged resources is that of
  -- the user's, and empty where the user gives none. So the selector that a waiting workspace
  -- stamped on its status and the one that its spec gives are the same.
  pub gpu_selector-merge_resources :
      (d : WorkspaceResourceSpec Q) (u : Option (WorkspaceResourceSpec Q))
      → gpu_selector_of (merge_resources d u) ≡ effective_gpu_selector u none
  unfolding merge_resources gpu_selector_of effective_gpu_selector build_selector merge is_empty
  gpu_selector-merge_resources d none = refl
  gpu_selector-merge_resources d (some u) = ground arith

  pub effective_gpu_selector_stamped :
      (d : WorkspaceResourceSpec Q) (u : Option (WorkspaceResourceSpec Q))
      → effective_gpu_selector u (some (merge_resources d u)) ≡ effective_gpu_selector u none
  unfolding effective_gpu_selector
  effective_gpu_selector_stamped d u = gpu_selector-merge_resources d u

  -- The demand of two int32 counts stays below 2 ^ 62, so that the int64 product does not wrap.
  pub gpu_demand_bound :
      (r : WorkspaceResourceSpec Q) (n g : ℕ)
      → r.replicas ≡ some n
      → r.per_replica.gpu_count ≡ some g
      → n < 2 ^ 31
      → g < 2 ^ 31
      → gpu_demand r < 2 ^ 62
  unfolding gpu_demand
  gpu_demand_bound r n g hn hg bn bg = rw (hn, hg) (mul_bound n g (2 ^ 31) bn bg)

-- ===== src/Examples/Classes.antt =====
-- The class controller on one class.
use exalsius_operator.Class.{
  Class, Template, ClassStatus, Problem, validate_injection_paths, evaluate, wanted_status,
  reconcile_class,
}
use exalsius_operator.Inject.{
  ResourceField, ResourceInjectionMap, replicas, cpu, memory, storage, gpu_count, gpu_vendor,
  gpu_type, resource_fields,
}
use exalsius_operator.Class.Validity.{IsUsable, evaluate-IsUsable, reconcile_class_settles}
use exalsius_operator.Kube.{found}
use exalsius_operator.Prelude.{◌≡◌, refl, ◌↔◌, true, false, none, some, [], ◌∷◌, Memᴰ, Text, bytes}

abbrev cpu_path : ResourceInjectionMap
cpu_path cpu = bytes "worker.cpu" ∷ []
cpu_path _ = []

abbrev notebook_class : Class
notebook_class = record {
  name = bytes "notebook";
  template_name = bytes "notebook";
  template_namespace = [];
  resource_injection = none;
  generation = 2;
  status = record { valid = false; validation_error = []; observed_generation = 1 };
}

abbrev good_template : Template
good_template = record { valid = true; validation_error = [] }

abbrev good_status : ClassStatus
good_status = record { valid = true; validation_error = []; observed_generation = 2 }

abbrev no_text : Problem → Text
no_text p = []

every_field : (f : ResourceField) → Memᴰ f resource_fields
every_field replicas = Memᴰ.head refl
every_field cpu = Memᴰ.tail (Memᴰ.head refl)
every_field memory = Memᴰ.tail (Memᴰ.tail (Memᴰ.head refl))
every_field storage = Memᴰ.tail (Memᴰ.tail (Memᴰ.tail (Memᴰ.head refl)))
every_field gpu_count = Memᴰ.tail (Memᴰ.tail (Memᴰ.tail (Memᴰ.tail (Memᴰ.head refl))))
every_field gpu_vendor = Memᴰ.tail (Memᴰ.tail (Memᴰ.tail (Memᴰ.tail (Memᴰ.tail (Memᴰ.head refl)))))
every_field gpu_type =
    Memᴰ.tail (Memᴰ.tail (Memᴰ.tail (Memᴰ.tail (Memᴰ.tail (Memᴰ.tail (Memᴰ.head refl))))))

abbrev injecting_class : Class
injecting_class = record notebook_class { resource_injection = some cpu_path }

evaluate-IsUsable_example :
    ((evaluate no_text resource_fields (found good_template) injecting_class).0 ≡ true)
    ↔ IsUsable (found good_template) injecting_class
evaluate-IsUsable_example =
    evaluate-IsUsable no_text resource_fields (found good_template) injecting_class every_field

reconcile_class_settles_example :
    reconcile_class no_text resource_fields
      (found good_template)
      (record notebook_class { status = good_status })
    ≡ none
unfolding reconcile_class wanted_status evaluate validate_injection_paths
reconcile_class_settles_example =
    reconcile_class_settles no_text resource_fields resource_fields (found good_template)
      notebook_class good_status tt refl

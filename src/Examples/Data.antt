-- ===== src/Examples/Data.antt =====
-- A machine whose floats are exact, and small objects of the API.
use kosmos_v.Prelude.{ℕ, suc, ◌+◌, ◌-◌, ◌*◌, ◌^◌, ◌≡◌, String, some, [], ◌∷◌, arith}
use kosmos_v.Prelude.Int.{pos}
use kosmos_v.Float.{Machine}
use kosmos_v.Float.Order.{◌≼◌, ratio, IsIeee}
use kosmos_v.Quantity.Milli.{IsMilli}
use kosmos_v.Quantity.Thousandths.{
  Thousandths, thousandths, thousandths_quantities, Thousandths-IsDecimal,
}
use kosmos_v.Api.{
  ObjectMeta, ResourceList, resources, Container, guaranteed, Pod, PodScale, ServiceLevelAgreement,
  fixed_gain_control,
}
use kosmos_v.Contention.{ContentionManager}

abbrev pub exact_machine : Machine
exact_machine = record { round_off = λ x. x; root = λ x. x; wild = λ half f. pos 0 }

exact_close : (n e : ℕ) → ratio n e ≼ ratio (n * (2 ^ 53 + 1)) (suc e * 2 ^ 53 - 1)
exact_close n e =
    let dens : suc (suc e * 2 ^ 53 - 1) ≡ suc e * 2 ^ 53 = omega arith in rw dens (omega arith)

pub exact_machine-IsIeee : IsIeee exact_machine
exact_machine-IsIeee = record {
  mono = λ a b h. h;
  exact_above = λ z h. omega arith;
  exact_below = λ z h. omega arith;
  power_above = λ k h. omega arith;
  close_above = λ n e h. exact_close n e;
}

pub Thousandths-IsMilli : (a : Thousandths) → IsMilli Thousandths-IsDecimal a
Thousandths-IsMilli a = Thousandths-IsDecimal.amount-new_milli_quantity a.count

abbrev pub amounts : ℕ → ℕ → ResourceList Thousandths
amounts cpu memory = resources (thousandths (pos cpu)) (thousandths (pos memory))

abbrev pub meta_of : String → ObjectMeta
meta_of name = record {
  name = name;
  namespace = "default";
  uid = "1";
  labels = [];
  owner_references = [];
}

-- The pod scale of a pod, with the same capped and actual resources.
abbrev pub scale_of : String → ℕ → ℕ → PodScale Thousandths
scale_of name cpu memory = record {
  meta = meta_of name;
  spec = record {
    namespace = "default";
    sla = "sla";
    pod = name;
    service = "web";
    container = "http";
    desired_resources = amounts cpu memory;
  };
  status = record { capped_resources = amounts cpu memory; actual_resources = amounts cpu memory };
}

abbrev pub container_of : String → ℕ → ℕ → Container Thousandths
container_of name cpu memory = record {
  name = name;
  resources = record { requests = amounts cpu memory; limits = amounts cpu memory };
}

abbrev pub pod_of : String → Pod Thousandths
pod_of name = record {
  meta = meta_of name;
  node_name = "node";
  containers = container_of "sidecar" 100 100 ∷ container_of "http" 200 200 ∷ [];
  qos_class = guaranteed;
}

-- Three pod scales that ask for 1800 thousandths of the 1000 that there are.
abbrev pub busy_manager : ContentionManager Thousandths
busy_manager = record {
  cpu_capacity = thousandths (pos 1000);
  memory_capacity = thousandths (pos 4000);
  pod_scales = scale_of "a" 700 500 ∷ scale_of "b" 800 500 ∷ scale_of "c" 300 500 ∷ [];
}

-- An agreement on 500 ms with 3 to 7 replicas, or other limits.
abbrev pub agreement : ℕ → ℕ → ℕ → ServiceLevelAgreement Thousandths
agreement target lo hi = record {
  meta = meta_of "sla";
  spec = record {
    metric = record { response_time = thousandths (pos target) };
    recommender_logic = fixed_gain_control;
    default_resources = amounts 100 100;
    min_resources = some (amounts 50 50);
    max_resources = some (amounts 1000 1000);
    min_replicas = pos lo;
    max_replicas = pos hi;
    service = record { match_labels = ("app", "web") ∷ []; container = "http" };
  };
}

-- ===== src/Examples/Tracking.antt =====
-- The theorems on the pod-scale controller at concrete inputs.
use kosmos_v.Prelude.{
  Bool, true, ◌&&◌, not, str_eq, str_eq_iff, arith, String, ◌≡◌, refl, false, none, some, List, [],
  ◌∷◌,
}
use kosmos_v.Prelude.Tests.{if◌then◌else◌}
use kosmos_v.Prelude.Lists.{All, any, keep}
use kosmos_v.StateDiff.{has_container, contains_service}
use kosmos_v.PodScales.Deletion.{IsHealthy}
use kosmos_v.PodScales.Cleanup.{handle_service_selector_change-Cleaned}
use kosmos_v.PodScales.Settled.{sync_service-Settled}
use kosmos_v.PodScales.Errors.{sync_all_panics}
use kosmos_v.Prelude.Results.{ok, err}
use kosmos_v.Quantity.Thousandths.{Thousandths}
use kosmos_v.Api.{KubeService, PodScale, Pod}
use kosmos_v.PodScales.{
  handle_service_selector_change, PodScaleServer, Listers, sync_service, new_pod_scale, sync_all,
  panicked,
}
use kosmos_v.PodScales.Writes.{sync_service-keeps}
use kosmos_v.Examples.Data.{meta_of, scale_of, pod_of, agreement}

-- A server whose state is the pod scales that it was asked to create, and that deletes nothing.
abbrev recorder : PodScaleServer (List (PodScale Thousandths)) String Thousandths
recorder = record {
  create = λ namespace scale s. (ok scale, scale ∷ s);
  delete = λ namespace name s. (err "not found", s);
  update_service = λ namespace service s. (ok service, s);
  is_already_exists = λ e. false;
}

abbrev web : KubeService
web = record { meta = meta_of "web"; selector = ("app", "web") ∷ [] }

abbrev web_pods : List (Pod Thousandths)
web_pods = pod_of "a" ∷ pod_of "b" ∷ []

abbrev web_scales : List (PodScale Thousandths)
web_scales = scale_of "b" 100 100 ∷ scale_of "c" 100 100 ∷ []

abbrev web_listers : Listers Thousandths
web_listers = record {
  list_pods = λ selector. some web_pods;
  list_scales = λ selector. some web_scales;
  list_services = λ namespace selector. some (web ∷ []);
}

-- All pod scales that were created are for the container of the agreement.
abbrev AllHttp : List (PodScale Thousandths) → Type 0
AllHttp s = All (λ x. x.spec.container ≡ "http") s

sync_service-keeps_example :
    let (failure, s') =
      sync_service recorder web_listers (λ a b. b) "default" web (agreement 500 3 7) [] in
    (failure ≡ none) × AllHttp s'
unfolding new_pod_scale
sync_service-keeps_example =
    sync_service-keeps recorder web_listers (λ a b. b) "default" (agreement 500 3 7) web web_pods
      web_scales AllHttp [] refl refl (λ pod s g c absent h. (refl, h)) (λ scale s gone h. h) tt

-- A server whose state is the names of its pod scales.
abbrev named_server : PodScaleServer (List String) String Thousandths
named_server = record {
  create = λ namespace scale s. (ok scale, scale.meta.name ∷ s);
  delete = λ namespace name s.
      if any (str_eq name) s
      then (ok tt, keep (λ x. not (str_eq x name)) s)
      else (err "not found", s);
  update_service = λ namespace service s. (ok service, s);
  is_already_exists = λ e. false;
}

any-keep_names :
    (name other : String) (s : List String)
    → any (str_eq other) (keep (λ x. not (str_eq x name)) s)
      ≡ (any (str_eq other) s && not (str_eq other name))
any-keep_names name other [] = refl
any-keep_names name other (x ∷ s) = ground (
  arith,
  any-keep_names name other s,
  str_eq_iff x name,
  str_eq_iff other name,
  str_eq_iff other x,
)

named_server-IsHealthy : IsHealthy named_server web_listers (λ a b. b) "default"
named_server-IsHealthy = record {
  exists = λ s name. any (str_eq name) s;
  create_answers = λ scale s. refl;
  create_adds = λ scale s name. refl;
  delete_answers = λ name s here. ground (arith, here);
  delete_removes = λ name s other here. ground (arith, here, any-keep_names name other s);
  names_differ = λ a b. refl;
}

sync_service-Settled_example :
    any
      (str_eq "a")
      (sync_service named_server web_listers
        (λ a b. b)
        "default"
        web
        (agreement 500 3 7)
        ("b" ∷ "c" ∷ [])).1
    ≡ true
unfolding has_container named_server-IsHealthy
sync_service-Settled_example =
    sync_service-Settled named_server web_listers (λ a b. b) "default" named_server-IsHealthy
      (agreement 500 3 7) web web_pods web_scales ("b" ∷ "c" ∷ []) refl refl
      (refl, refl, (refl, refl, tt)) (λ n. refl) "a"

abbrev db : KubeService
db = record { meta = meta_of "db"; selector = ("app", "db") ∷ [] }

-- A service with a label.
abbrev labelled_db : KubeService
labelled_db = record db { meta = record (meta_of "db") { labels = ("app", "db") ∷ [] } }

abbrev same_name : KubeService → KubeService → Bool
same_name a b = str_eq a.meta.name b.meta.name

-- Of the two services one is still desired.
handle_service_selector_change-Cleaned_example :
    any (str_eq "c") (
      handle_service_selector_change named_server web_listers
        (λ a b. b)
        same_name
        (db ∷ web ∷ [])
        (db ∷ [])
        "default"
        ("b" ∷ "c" ∷ "x" ∷ []))
    ≡ false
unfolding contains_service named_server-IsHealthy
handle_service_selector_change-Cleaned_example =
    handle_service_selector_change-Cleaned named_server web_listers (λ a b. b) "default"
      named_server-IsHealthy same_name (db ∷ []) (λ service. web_scales) (λ service. refl)
      (db ∷ web ∷ []) ("b" ∷ "c" ∷ "x" ∷ []) (refl, refl, (refl, refl, tt))
      (λ n m. ground (arith, m)) "c"

sync_all_panics_example :
    (sync_all recorder web_listers
      (λ a b. b)
      same_name
      "default"
      (agreement 500 3 7)
      (labelled_db ∷ web ∷ [])
      []).0
    ≡ panicked
sync_all_panics_example =
    sync_all_panics recorder web_listers (λ a b. b) same_name "default" (agreement 500 3 7)
      (labelled_db ∷ web ∷ []) [] (λ service s. refl)

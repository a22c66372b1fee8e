-- ===== src/Tests/Turns.antt =====
-- Turns of the worker against a Data Plane API that keeps its promises, and a queue that drains.
use pod_proxier.Base.{
  ℕ, suc, ◌≤◌, ◌≡◌, refl, ap, subst, ◌∙◌, sym, true, Option, none, some, List, [], ◌∷◌, ◌++◌,
  length, arith,
}
use pod_proxier.GoString.{GoString, str}
use pod_proxier.Service.Mapping.{backend_name, frontend_name, bind_name}
use pod_proxier.Service.Proxy.{create_service_proxy}
use pod_proxier.Service.Cluster.{Cluster, found}
use pod_proxier.Service.Route.{IsRoute, Made}
use pod_proxier.Service.Route.Chain.{create_service_proxy-IsRoute}
use pod_proxier.Service.Atomic.{IsApart, IsAtomic}
use pod_proxier.Service.Atomic.Turn.{process_next_work_item-IsAtomic}
use pod_proxier.Haproxy.Handle.{start_transaction}
use pod_proxier.Service.Drain.{Loop, IsDraining, run_worker-Loop}
use pod_proxier.Service.Worker.{run_worker, process_next_work_item}
use pod_proxier.Tests.Fixtures.{cluster_with, web, debug_port, fresh, busy, Outside}
use pod_proxier.Tests.Plane.{Site, site, site_plane, site_plain}

abbrev open_site : Site
open_site = record { live = []; log = []; waiting = str "default/web" ∷ []; time = 100 }

create_service_proxy-IsRoute_example :
    Made site site_plane
      (str "t1")
      (IsRoute site fresh
        (str "t1")
        web
        debug_port
        9000
        (backend_name web debug_port)
        (frontend_name web 9000)
        (bind_name web debug_port)
        true)
      3
      open_site
      (create_service_proxy site fresh
        (str "t1")
        web
        debug_port
        9000
        (backend_name web debug_port)
        (frontend_name web 9000)
        (bind_name web debug_port)
        true
        open_site)
create_service_proxy-IsRoute_example =
    create_service_proxy-IsRoute site site_plane site_plain fresh (str "t1") (λ e. cc) web
      debug_port 9000 (backend_name web debug_port) (frontend_name web 9000)
      (bind_name web debug_port) true open_site

abbrev site_get : Site → Option GoString × Site
site_get w = elim w.waiting [
  | [] ↦ (none, w)
  | key ∷ keys ↦ (some key, record w { waiting = keys })
]

abbrev site_cluster : Cluster
site_cluster = record {
  api = site;
  now = λ w. (w.time, record w { time = suc w.time });
  queue_get = site_get;
  queue_len = λ w. (length w.waiting, w);
  queue_add = λ key w. (tt, record w { waiting = w.waiting ++ key ∷ [] });
  queue_add_rate_limited = λ key w. (tt, record w { waiting = w.waiting ++ key ∷ [] });
  queue_forget = λ key w. (tt, w);
  queue_done = λ key w. (tt, w);
  get_by_key = λ key w. (found web, w);
  split_key = (cluster_with 201).split_key;
}

get_untouched :
    (keys : List GoString) (w : Site)
    → w.waiting ≡ keys
    → (site_plane.live (site_get w).1 ≡ site_plane.live w)
      × ((tx_id : GoString) → site_plane.pending tx_id (site_get w).1 ≡ site_plane.pending tx_id w)
unfolding site_plane
get_untouched [] w q = rw q (refl, λ tx_id. refl)
get_untouched (key ∷ keys) w q = rw q (refl, λ tx_id. refl)

site_apart : IsApart site_cluster site_plane
unfolding site_plane
site_apart = record {
  clock = λ w. (refl, λ tx_id. refl);
  gets = λ w. get_untouched w.waiting w refl;
  measures = λ w. (refl, λ tx_id. refl);
  requeues = λ key w. (refl, λ tx_id. refl);
  forgets = λ key w. (refl, λ tx_id. refl);
  finishes = λ key w. (refl, λ tx_id. refl);
  caches = λ key w. (refl, λ tx_id. refl);
}

process_next_work_item-IsAtomic_example :
    IsAtomic site_cluster site_plane fresh.handler open_site
      (process_next_work_item site_cluster (fresh, open_site)).1.1
process_next_work_item-IsAtomic_example =
    process_next_work_item-IsAtomic site_cluster site_plane site_apart (fresh, open_site)

abbrev taken_site : Site
taken_site = record open_site { waiting = [] }

abbrev begun_site : Site
begun_site = (start_transaction site fresh.handler taken_site).1

abbrev left : Outside → ℕ
left w = length w.waiting

taken_none : (w : Outside) → w.waiting ≡ [] → ((cluster_with 201).queue_get w).0 ≡ none
taken_none w q = rw q refl

none_≢_some : (key : GoString) → ◌≡◌ {A = Option GoString} none (some key) → ⊥
none_≢_some key q = cc

takes_one :
    (keys : List GoString) (w : Outside) (key : GoString)
    → w.waiting ≡ keys
    → ((cluster_with 201).queue_get w).0 ≡ some key
    → suc (left ((cluster_with 201).queue_get w).1) ≤ left w
takes_one [] w key q taken = absurd (none_≢_some key (sym (taken_none w q) ∙ taken))
takes_one (first ∷ keys) w key q taken = rw q (omega arith)

get_left :
    (keys : List GoString) (w : Outside)
    → w.waiting ≡ keys
    → left ((cluster_with 201).queue_get w).1 ≤ left w
get_left [] w q = rw q (omega arith)
get_left (key ∷ keys) w q = rw q (omega arith)

-- What is added to this queue is dropped.
draining : IsDraining (cluster_with 201) left
draining = record {
  takes = λ w w' key taken.
      subst (λ v. suc (left v) ≤ left w) (ap (λ r. r.1) taken)
        (takes_one w.waiting w key refl (ap (λ r. r.0) taken));
  gets = λ w. get_left w.waiting w refl;
  measures = λ w. omega arith;
  requeues = λ key w. omega arith;
  forgets = λ key w. omega arith;
  finishes = λ key w. omega arith;
  caches = λ key w. omega arith;
  clock = λ w. omega arith;
  sends = λ r w. omega arith;
}

run_worker-Loop_example :
    Loop (cluster_with 201) (fresh, busy) (run_worker (cluster_with 201) 3 (fresh, busy))
run_worker-Loop_example =
    run_worker-Loop (cluster_with 201) left draining 3 (fresh, busy) (omega arith)

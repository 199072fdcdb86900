-- ===== src/LeaderElector/Tests.antt =====
-- A cluster whose master does not answer, and is replaced by the pod `pod-1`.
use common_data_layer.Prelude.{refl, sym, String, List, [], ◌∷◌, inr}
use common_data_layer.Exec.{ok, err, ok-injective}
use common_data_layer.LeaderElector.{
  LeaderElector, World, delete_each, remove_master_instance, promote_slave_to_master, round,
  elect_leader,
}
use common_data_layer.LeaderElector.Masters.{without, IsCluster, AtMostOne, elect_leader-AtMostOne}

abbrev world : World (List String)
world = record {
  list = λ labels k. (ok k, k);
  delete = λ n k. (ok tt, without n k);
  patch_master = λ n k. (ok tt, n ∷ without n k);
  heartbeat = λ addr k. (err "unavailable", k);
  promote_to_master = λ addr k. (ok "pod-1", k);
}

abbrev elector : LeaderElector
elector = record {
  master_addr = "registry-master";
  slave_addr = "registry";
  name = "registry";
  port = "50101";
}

cluster : IsCluster world elector
cluster = record {
  masters = λ k. k;
  heartbeat_ok = λ addr k. refl;
  list_ok = λ k pods h. (sym (ok-injective h), refl);
  delete_ok = λ n k h. refl;
  promote_ok = λ addr k. refl;
  patch_ok = λ n k h. refl;
}

elect_leader-AtMostOne_example :
    AtMostOne (cluster.masters (elect_leader world elector 1 ("pod-0" ∷ [])).1)
unfolding elect_leader round remove_master_instance delete_each promote_slave_to_master cluster
elect_leader-AtMostOne_example =
    elect_leader-AtMostOne world elector cluster 1 ("pod-0" ∷ []) refl (inr ("pod-0", refl))

-- ===== src/LeaderElector.antt =====
-- The election of the registry's master, crates/leader-elector/src/main.rs. The Kubernetes client, and
-- the calls of the registry that `heartbeat` and `promote_to_master` of crates/schema-registry/src/lib.rs
-- make, are parameters over a state of the cluster.
pub mod Masters
mod Tests
use Prim.Native.String.{◌++◌ as str_append}
use common_data_layer.Prelude.{ℕ, zero, suc, String, List, [], ◌∷◌}
use common_data_layer.Exec.{Result, ok, err, Exec, pure, ◌>>=◌, ◌>>◌}

-- The addresses, the name of the application and the text of the port.
pub record LeaderElector : Type 0 where
  pub master_addr : String
  pub slave_addr : String
  pub name : String
  pub port : String

pub record World (K : Type 0) : Type 0 where
  -- The names of the pods with these labels, `delete` without a grace period, and the `patch` that
  -- labels a pod with the role of a master
  pub list : String → Exec K String (List String)
  pub delete : String → Exec K String (Unit {0})
  pub patch_master : String → Exec K String (Unit {0})
  pub heartbeat : String → Exec K String (Unit {0})
  -- The name of the pod that was promoted
  pub promote_to_master : String → Exec K String String

module _ {K : Type 0} (w : World K) (e : LeaderElector) where
  abbrev pub at_port : String → String
  at_port addr = str_append addr (str_append ":" e.port)

  abbrev pub schema_heartbeat : String → Exec K String (Unit {0})
  schema_heartbeat addr = w.heartbeat (at_port addr)

  abbrev pub schema_promotion : String → Exec K String String
  schema_promotion addr = w.promote_to_master (at_port addr)

  abbrev pub master_labels : String
  master_labels = str_append "app=" (str_append e.name ",role=master")

  unfoldable pub delete_each : List String → Exec K String (Unit {0})
  delete_each [] = pure tt
  delete_each (pod_name ∷ pods) = do w.delete pod_name; delete_each pods

  unfoldable pub remove_master_instance : Exec K String (Unit {0})
  remove_master_instance = do pods ← w.list master_labels; delete_each pods

  -- A promotion that fails is logged and forgotten.
  abbrev pub promoted : Result String String → Exec K String (Unit {0})
  promoted (ok pod_name) = w.patch_master pod_name
  promoted (err reason) = pure tt

  unfoldable pub promote_slave_to_master : Exec K String (Unit {0})
  promote_slave_to_master k =
      let (promotion, k') = schema_promotion e.slave_addr k in promoted promotion k'

  abbrev pub elect : Result String (Unit {0}) → Exec K String (Unit {0})
  elect (ok u) = pure tt
  elect (err reason) = do remove_master_instance; promote_slave_to_master

  -- The body of the loop, after its delay.
  unfoldable pub round : Exec K String (Unit {0})
  round k = let (heartbeat, k') = schema_heartbeat e.master_addr k in elect heartbeat k'

  -- So many rounds of the loop, which ends only with an error of the cluster.
  unfoldable pub elect_leader : ℕ → Exec K String (Unit {0})
  elect_leader zero = pure tt
  elect_leader (suc n) = do round; elect_leader n

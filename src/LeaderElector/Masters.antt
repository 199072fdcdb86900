-- ===== src/LeaderElector/Masters.antt =====
-- How many masters crates/leader-elector/src/main.rs leaves in the cluster.
use common_data_layer.Prelude.{
  ℕ, zero, suc, String, ◌≡◌, refl, ap, ◌∙◌, ◌⊎◌, inl, inr, List, [], ◌∷◌, All, Contains, str_eq,
  str_eq_iff, Bool-cases, if◌then◌else◌,
}
use common_data_layer.Exec.{Result, ok, err, continue-ok}
use common_data_layer.LeaderElector.{
  LeaderElector, World, delete_each, remove_master_instance, promote_slave_to_master, promoted,
  elect, round, elect_leader, schema_heartbeat, schema_promotion, master_labels,
}

abbrev pub without : String → List String → List String
without n [] = []
without n (m ∷ ms) = let rest = without n ms in if str_eq n m then rest else m ∷ rest

remove_all : List String → List String → List String
remove_all [] ms = ms
remove_all (n ∷ ns) ms = remove_all ns (without n ms)

Contains-without :
    (n : String) (ns ms : List String)
    → All (λ m. Contains m (n ∷ ns)) ms
    → All (λ m. Contains m ns) (without n ms)
Contains-without n ns [] a = tt
Contains-without n ns (m ∷ ms) a = elim (Bool-cases (str_eq n m)) [
  | inl h ↦ rw h (Contains-without n ns ms a.1)
  | inr h ↦ elim a.0 [
    | inl e ↦ absurd (cc (h, (str_eq_iff n m).1 e))
    | inr c ↦ rw h (c, Contains-without n ns ms a.1)
  ]
]

remove_all-empty : (ns ms : List String) → All (λ m. Contains m ns) ms → remove_all ns ms ≡ []
unfolding remove_all
remove_all-empty [] [] a = refl
remove_all-empty [] (m ∷ ms) a = absurd a.0
remove_all-empty (n ∷ ns) ms a = remove_all-empty ns (without n ms) (Contains-without n ns ms a)

All-later :
    (n : String) (ns ms : List String)
    → All (λ m. Contains m ns) ms
    → All (λ m. Contains m (n ∷ ns)) ms
All-later n ns [] a = tt
All-later n ns (m ∷ ms) a = (inr a.0, All-later n ns ms a.1)

All-self : (ms : List String) → All (λ m. Contains m ms) ms
All-self [] = tt
All-self (m ∷ ms) = (inl refl, All-later m ms ms (All-self ms))

-- What the cluster does: which pods are masters, and how the calls change that.
pub record IsCluster {K : Type 0} (w : World K) (e : LeaderElector) : Type 0 where
  pub masters : K → List String
  pub heartbeat_ok : (addr : String) (k : K) → masters (w.heartbeat addr k).1 ≡ masters k
  pub list_ok :
      (k : K) (pods : List String)
      → (w.list (master_labels w e) k).0 ≡ ok pods
      → (pods ≡ masters k) × (masters (w.list (master_labels w e) k).1 ≡ masters k)
  pub delete_ok :
      (n : String) (k : K)
      → (w.delete n k).0 ≡ ok tt
      → masters (w.delete n k).1 ≡ without n (masters k)
  pub promote_ok : (addr : String) (k : K) → masters (w.promote_to_master addr k).1 ≡ masters k
  pub patch_ok :
      (n : String) (k : K)
      → (w.patch_master n k).0 ≡ ok tt
      → masters (w.patch_master n k).1 ≡ n ∷ without n (masters k)

abbrev pub AtMostOne : List String → Type 0
AtMostOne ms = (ms ≡ []) ⊎ ((n : String) × (ms ≡ n ∷ []))

module _ {K : Type 0} (w : World K) (e : LeaderElector) (c : IsCluster w e) where
  open c use {masters}

  masters-delete_each :
      (ns : List String) (k : K)
      → (delete_each w e ns k).0 ≡ ok tt
      → masters (delete_each w e ns k).1 ≡ remove_all ns (masters k)
  unfolding delete_each remove_all
  masters-delete_each [] k h = refl
  masters-delete_each (n ∷ ns) k h =
      let s = continue-ok (w.delete n k).0 (λ u. delete_each w e ns) (w.delete n k).1 tt h in
      rw s.1
        (masters-delete_each ns (w.delete n k).1 s.2 ∙ ap (remove_all ns) (c.delete_ok n k s.1))

  masters-remove :
      (k : K)
      → (remove_master_instance w e k).0 ≡ ok tt
      → masters (remove_master_instance w e k).1 ≡ []
  unfolding remove_master_instance
  masters-remove k h =
      let listed = w.list (master_labels w e) k in
      let s = continue-ok listed.0 (delete_each w e) listed.1 tt h in
      let l = c.list_ok k s.0 s.1 in
      rw s.1 (
        masters-delete_each s.0 listed.1 s.2
        ∙ rw (l.0, l.1) (remove_all-empty (masters k) (masters k) (All-self (masters k))))

  masters-promoted :
      (promotion : Result String String) (k : K)
      → masters k ≡ []
      → (promoted w e promotion k).0 ≡ ok tt
      → AtMostOne (masters (promoted w e promotion k).1)
  masters-promoted (ok n) k none h = inr (n, c.patch_ok n k h ∙ ap (λ ms. n ∷ without n ms) none)
  masters-promoted (err reason) k none h = inl none

  masters-promote :
      (k : K)
      → masters k ≡ []
      → (promote_slave_to_master w e k).0 ≡ ok tt
      → AtMostOne (masters (promote_slave_to_master w e k).1)
  unfolding promote_slave_to_master
  masters-promote k none h =
      let promotion = schema_promotion w e e.slave_addr k in
      masters-promoted promotion.0 promotion.1 (c.promote_ok _ k ∙ none) h

  masters-elect :
      (heartbeat : Result String (Unit {0})) (k : K)
      → (elect w e heartbeat k).0 ≡ ok tt
      → AtMostOne (masters k)
      → AtMostOne (masters (elect w e heartbeat k).1)
  masters-elect (ok u) k h one = one
  masters-elect (err reason) k h one =
      let removed = remove_master_instance w e k in
      let s = continue-ok removed.0 (λ u. promote_slave_to_master w e) removed.1 tt h in
      rw s.1 (masters-promote removed.1 (masters-remove k s.1) s.2)

  masters-round :
      (k : K)
      → (round w e k).0 ≡ ok tt
      → AtMostOne (masters k)
      → AtMostOne (masters (round w e k).1)
  unfolding round
  masters-round k h one =
      let heartbeat = schema_heartbeat w e e.master_addr k in
      masters-elect heartbeat.0 heartbeat.1 h (rw (c.heartbeat_ok _ k) one)

  -- Over any number of rounds that the loop gets through, a cluster with at most one master keeps at
  -- most one.
  pub elect_leader-AtMostOne :
      (n : ℕ) (k : K)
      → (elect_leader w e n k).0 ≡ ok tt
      → AtMostOne (masters k)
      → AtMostOne (masters (elect_leader w e n k).1)
  unfolding elect_leader
  elect_leader-AtMostOne zero k h one = one
  elect_leader-AtMostOne (suc n) k h one =
      let r = round w e k in
      let s = continue-ok r.0 (λ u. elect_leader w e n) r.1 tt h in
      rw s.1 (elect_leader-AtMostOne n r.1 s.2 (masters-round k s.1 one))

-- ===== src/Worker/Openshift/Laws.antt =====
-- Which workloads the worker restarts, and which pods it deletes.
use mathlib.Core.List.{Mem, mem-cons}
use mathlib.Core.Logic.Or
use automated_actions.Prelude.{
  String, ◌≡◌, ◌≢◌, ◌↔◌, ◌⊎◌, refl, sym, ap, ◌∙◌, Bool, true, false, Option, none, some, List, [],
  ◌∷◌, ◌==◌, eq_iff, Bool-cases, inl, inr, any, get_or,
}
use automated_actions.Errors.{http, raised, pod_deletion_not_supported}
use automated_actions.Exec.{ok, err, ok-ne-err}
use automated_actions.Api.Openshift.{RestartKind, kind_text, read_kind}
use automated_actions.Worker.Openshift.{
  Pod, KubeClient, is_rolling, is_supported, has_proper_owner, is_supported_owner, delete_pod,
  delete_pod_from_replicated_resource, restart_workload,
}

clash : {x : Bool} → x ≡ true → x ≡ false → ⊥
clash h e = cc

Kind-cases :
    (s : String)
    → ((kind : RestartKind) × (s ≡ kind_text kind))
      ⊎ ((read_kind s
            ≡ err (http 422 "Input should be 'Pod', 'Deployment', 'DaemonSet' or 'StatefulSet'" []))
          × (is_supported s ≡ false))
unfolding read_kind is_supported is_rolling kind_text
Kind-cases s = elim (Bool-cases (s == "Pod")) [
  | inl e ↦ inl (RestartKind.pod, (eq_iff _ _).0 e)
  | inr p ↦ elim (Bool-cases (s == "Deployment")) [
    | inl e ↦ inl (RestartKind.deployment, (eq_iff _ _).0 e)
    | inr d ↦ elim (Bool-cases (s == "DaemonSet")) [
      | inl e ↦ inl (RestartKind.daemonset, (eq_iff _ _).0 e)
      | inr ds ↦ elim (Bool-cases (s == "StatefulSet")) [
        | inl e ↦ inl (RestartKind.statefulset, (eq_iff _ _).0 e)
        | inr ss ↦ inr (rw (p, d, ds, ss) (refl, refl))
      ]
    ]
  ]
]

read_kind-kind_text : (kind : RestartKind) → read_kind (kind_text kind) ≡ ok kind
unfolding read_kind kind_text
read_kind-kind_text RestartKind.pod = refl
read_kind-kind_text RestartKind.deployment = refl
read_kind-kind_text RestartKind.daemonset = refl
read_kind-kind_text RestartKind.statefulset = refl

is_supported-kind_text : (kind : RestartKind) → is_supported (kind_text kind) ≡ true
unfolding is_supported is_rolling kind_text
is_supported-kind_text RestartKind.pod = refl
is_supported-kind_text RestartKind.deployment = refl
is_supported-kind_text RestartKind.daemonset = refl
is_supported-kind_text RestartKind.statefulset = refl

-- The API accepts exactly the kinds that the worker can restart.
pub is_supported_iff :
    (s : String) → (is_supported s ≡ true) ↔ ((kind : RestartKind) × (read_kind s ≡ ok kind))
is_supported_iff s = elim (Kind-cases s) [
  | inl (kind, e) ↦ (
    λ h. (kind, ap read_kind e ∙ read_kind-kind_text kind),
    λ h. ap is_supported e ∙ is_supported-kind_text kind,
  )
  | inr (refused, unsupported) ↦
      (λ h. absurd (clash h unsupported), λ h. absurd (ok-ne-err (sym h.1 ∙ refused)))
]

any-false :
    {A : Type 0} (f : A → Bool) (l : List A) → ((a : A) → Mem a l → f a ≡ false) → any f l ≡ false
any-false f [] h = refl
any-false f (a ∷ l) h =
    rw (any, h a (mem-cons.1 (Or.inl refl))) (any-false f l (λ b m. h b (mem-cons.1 (Or.inr m))))

is_false : {b : Bool} → (b ≡ true → ⊥) → b ≡ false
is_false {b} h = elim (Bool-cases b) [ inl e ↦ absurd (h e) | inr e ↦ e ]

has_no_proper_owner :
    (pod : Pod)
    → ((kind : Option String)
        → Mem kind (get_or pod.owner_references [])
        → (kind ≢ some "ReplicaSet") × (kind ≢ some "StatefulSet"))
    → has_proper_owner pod ≡ false
unfolding has_proper_owner is_supported_owner
has_no_proper_owner pod h = any-false _ _ (λ kind m. unsupported kind (h kind m).0 (h kind m).1)
  where
    unsupported :
        (kind : Option String)
        → kind ≢ some "ReplicaSet"
        → kind ≢ some "StatefulSet"
        → is_supported_owner kind ≡ false
    unsupported none h k = refl
    unsupported (some kind) h k =
        rw (is_false (λ e. h (ap some ((eq_iff kind "ReplicaSet").0 e))))
          (is_false (λ e. k (ap some ((eq_iff kind "StatefulSet").0 e))))

module _ (client : KubeClient) (namespace name : String) (s s' s'' : client.Cluster)
    (pod : Pod) where
  -- A pod that belongs to neither a ReplicaSet nor a StatefulSet is not deleted: the restart
  -- fails, and leaves the cluster as it was after the pod was read.
  pub restart_workload-orphan :
      client.find_api "v1" "Pod" s ≡ (ok tt, s')
      → client.get_pod namespace name s' ≡ (ok pod, s'')
      → ((kind : Option String)
          → Mem kind (get_or pod.owner_references [])
          → (kind ≢ some "ReplicaSet") × (kind ≢ some "StatefulSet"))
      → ((text : String) × ((restart_workload client namespace "Pod" name s).0
            ≡ err (raised pod_deletion_not_supported text)))
        × ((restart_workload client namespace "Pod" name s).1 ≡ s'')
  unfolding restart_workload delete_pod_from_replicated_resource delete_pod
  restart_workload-orphan found read orphan =
      rw found (rw read (rw (has_no_proper_owner pod orphan) ((_, refl), refl)))

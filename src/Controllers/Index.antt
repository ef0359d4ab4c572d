-- ===== src/Controllers/Index.antt =====
-- Under which UIDs the pod controller finds Endpoints, and which requests reach the loop.
use spire_controller_manager.Prelude.{
  ℕ, not, Str, str_eq, Bool, true, false, ◌&&◌, ◌||◌, List, [], ◌∷◌, ◌++◌, Option, none, some, any,
  ◌≡◌, refl, ap, Bool-cases, inl, inr, arith,
}
use spire_controller_manager.Reconciler.{new_trigger_channel, reconciling, waiting, Loop}
use spire_controller_manager.SpireEntry.Pods.{is_ignored}
use spire_controller_manager.Controllers.{
  Request, pod, endpoints, handle, TargetRef, Subset, is_pod, target_uids, pod_uids,
}

any-append :
    {A : Type 0} (p : A → Bool) (xs ys : List A) → any p (xs ++ ys) ≡ (any p xs || any p ys)
unfolding any
any-append p [] ys = refl
any-append p (x ∷ xs) ys = ground (arith, any-append p xs ys)

-- an address of the pod with this UID
targets : Str → Option TargetRef → Bool
unfolding is_pod
targets u none = false
targets u (some t) = is_pod t && str_eq u t.uid

any-target_uids :
    (u : Str) (ts : List (Option TargetRef)) → any (str_eq u) (target_uids ts) ≡ any (targets u) ts
unfolding any target_uids targets
any-target_uids u [] = refl
any-target_uids u (none ∷ ts) = any-target_uids u ts
any-target_uids u (some t ∷ ts) = elim (Bool-cases (is_pod t)) [
  | inl y ↦ rw y (ap (λ b. str_eq u t.uid || b) (any-target_uids u ts))
  | inr n ↦ rw n (any-target_uids u ts)
]

-- Endpoints are found under the UID of a pod exactly if one of the addresses of one of the subsets,
-- ready or not, is of the pod.
any-pod_uids :
    (u : Str) (ss : List Subset)
    → any (str_eq u) (pod_uids ss)
      ≡ any (λ s. any (targets u) s.addresses || any (targets u) s.not_ready_addresses) ss
unfolding any pod_uids
any-pod_uids u [] = refl
any-pod_uids u (s ∷ ss) = ground (
  arith,
  any-append (str_eq u) (target_uids s.addresses)
      (target_uids s.not_ready_addresses ++ pod_uids ss),
  any-append (str_eq u) (target_uids s.not_ready_addresses) (pod_uids ss),
  any-target_uids u s.addresses,
  any-target_uids u s.not_ready_addresses,
  any-pod_uids u ss,
)

abbrev pub busy : ℕ → Loop
busy n = record { phase = reconciling; passes = n; channel = new_trigger_channel }

abbrev pub at_rest : ℕ → Loop
at_rest n = record { phase = waiting; passes = n; channel = new_trigger_channel }

module _ {R : Type 0} (matches : R → Str → Bool) (ignored : List R) where
  pub handle_all : List Request → Loop → Loop
  unfolding handle
  handle_all [] l = l
  handle_all (r ∷ rs) l = handle_all rs (handle matches ignored r l)

  -- the requests that trigger the loop
  pub concerns : Request → Bool
  unfolding is_ignored
  concerns (pod namespace) = not (is_ignored matches ignored namespace)
  concerns (endpoints namespace) = not (is_ignored matches ignored namespace)
  concerns _ = true

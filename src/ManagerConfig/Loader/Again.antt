-- ===== src/ManagerConfig/Loader/Again.antt =====
-- What api/v1alpha1/controllermanagerconfig_loader.go does to options that are set already.
use spire_controller_manager.Prelude.{
  Str, Bool, true, false, Option, none, some, [], ◌∷◌, ◌≡◌, refl, inl, inr, Option-cases,
}
use native.Mathlib.Omega.{arith}
use mathlib.Core.Path.{subst}
use spire_controller_manager.Prelude.Assoc.{Assoc}
use spire_controller_manager.Prelude.Int.{ℤ}
use spire_controller_manager.Prelude.Results.{ok, >>=-ok, ok-injective}
use spire_controller_manager.ManagerConfig.{ControllerManagerConfigurationSpec}
use spire_controller_manager.ManagerConfig.Loader.{
  Loading, Options, text_or, flag_or, pointer_or, duration_or, timeout_or, map_or, namespaces_or,
  leader_election_from, controller_from, merge_options, set_leader_election_config,
  add_options_from_config_spec, CacheConfig,
}

text_or-again : (o c : Str) → text_or (text_or o c) c ≡ text_or o c
unfolding text_or
text_or-again [] [] = refl
text_or-again [] (a ∷ c) = refl
text_or-again (b ∷ o) c = refl

flag_or-again : (o : Bool) (c : Option Bool) → flag_or (flag_or o c) c ≡ flag_or o c
unfolding flag_or
flag_or-again true c = refl
flag_or-again false none = refl
flag_or-again false (some true) = refl
flag_or-again false (some false) = refl

pointer_or-again : (o c : Option ℤ) → pointer_or (pointer_or o c) c ≡ pointer_or o c
unfolding pointer_or
pointer_or-again none none = refl
pointer_or-again none (some d) = refl
pointer_or-again (some d) c = refl

duration_or-again : (o : Option ℤ) (c : ℤ) → duration_or (duration_or o c) c ≡ duration_or o c
unfolding duration_or
duration_or-again none c = ground arith
duration_or-again (some d) c = refl

timeout_or-again : (o : ℤ) (c : Option ℤ) → timeout_or (timeout_or o c) c ≡ timeout_or o c
unfolding timeout_or
timeout_or-again o none = refl
timeout_or-again o (some c) = ground arith

map_or-again : (o c : Assoc ℤ) → map_or (map_or o c) c ≡ map_or o c
unfolding map_or
map_or-again [] [] = refl
map_or-again [] (e ∷ c) = refl
map_or-again (e ∷ o) c = refl

module _ (ld : Loading) where
  namespaces_or-again :
      (o : Assoc (CacheConfig ld)) (c : ControllerManagerConfigurationSpec)
      (m : Assoc (CacheConfig ld))
      → namespaces_or ld o c ≡ ok m
      → namespaces_or ld m c ≡ ok m
  unfolding namespaces_or
  namespaces_or-again [] c [] h = h
  namespaces_or-again (e ∷ o) c [] h = cc
  namespaces_or-again o c (e ∷ m) h = refl

  merge_options-again :
      (o : Options ld) (c : ControllerManagerConfigurationSpec) (m : Assoc (CacheConfig ld))
      → merge_options ld (merge_options ld o c m) c m ≡ merge_options ld o c m
  unfolding merge_options set_leader_election_config leader_election_from controller_from
  merge_options-again o c m = elim (Option-cases c.leader_election) [
    | inl l ↦ elim (Option-cases c.controller) [
      | inl k ↦ simp (l, k, text_or-again, pointer_or-again, timeout_or-again, map_or-again)
      | inr (_, k) ↦ simp (l, k, text_or-again, pointer_or-again, timeout_or-again, map_or-again)
    ]
    | inr (_, l) ↦ elim (Option-cases c.controller) [
      | inl k ↦ simp (l, k, text_or-again, flag_or-again, pointer_or-again, duration_or-again)
      | inr (_, k) ↦ simp (
        l, k, text_or-again, flag_or-again, pointer_or-again, duration_or-again, timeout_or-again,
        map_or-again,
      )
    ]
  ]

  pub merge_options-namespaces :
      (o : Options ld) (c : ControllerManagerConfigurationSpec) (m : Assoc (CacheConfig ld))
      → (merge_options ld o c m).default_namespaces ≡ m
  unfolding merge_options controller_from
  merge_options-namespaces o c m = elim (Option-cases c.controller) [
    | inl k ↦ rw k refl
    | inr (_, k) ↦ rw k refl
  ]

  add_merged :
      (o : Options ld) (c : ControllerManagerConfigurationSpec) (m : Assoc (CacheConfig ld))
      → namespaces_or ld m c ≡ ok m
      → add_options_from_config_spec ld (merge_options ld o c m) c ≡ ok (merge_options ld o c m)
  unfolding add_options_from_config_spec
  add_merged o c m e = rw (merge_options-namespaces o c m, e, merge_options-again o c m) refl

  -- adding the options again to the result of a successful addition
  pub add_options_from_config_spec-again :
      (o : Options ld) (c : ControllerManagerConfigurationSpec) (o' : Options ld)
      → add_options_from_config_spec ld o c ≡ ok o'
      → add_options_from_config_spec ld o' c ≡ ok o'
  unfolding add_options_from_config_spec
  add_options_from_config_spec-again o c o' h =
      let (m, e, f) = >>=-ok (namespaces_or ld o.default_namespaces c) _ h in
      subst (λ x. add_options_from_config_spec ld x c ≡ ok x) (ok-injective f)
        (add_merged o c m (namespaces_or-again o.default_namespaces c m e))

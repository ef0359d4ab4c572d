-- ===== src/SpireEntry/Pods/Fallback.antt =====
-- Fallback ClusterSPIFFEIDs: no pod gets an entry of one where another ClusterSPIFFEID gave it one.
use spire_controller_manager.Prelude.{
  ℕ, Str, str_eq, str_eq_iff, Bool, true, false, not, ◌&&◌, List, [], ◌∷◌, Option, none, some, any,
  ◌≡◌, refl, sym, ◌∙◌, ap, inl, inr, Bool-cases, All, head?, arith,
}
use mathlib.Core.Path.{subst}
use spire_controller_manager.Prelude.Assoc.{Assoc}
use spire_controller_manager.Prelude.Sort.{sort, WeakOrder, IsSorted, sort-IsSorted, sort-All}
use spire_controller_manager.Spiffe.{Spiffe}
use spire_controller_manager.SpireApi.Types.{Entry, Selector}
use spire_controller_manager.SpireEntry.Config.{ReconcilerConfig}
use spire_controller_manager.SpireEntry.Kube.{Kube, KubeClient, ClusterSpiffeId}
use spire_controller_manager.SpireEntry.Preference.{ByRef, static_entry, spiffe_id}
use spire_controller_manager.SpireEntry.Render.{
  ParsedClusterSpiffeIdSpec, parse_cluster_spiffe_id_spec,
}
use spire_controller_manager.SpireEntry.RenderCache.{Lru, render_pod_entry}
use spire_controller_manager.SpireEntry.RenderCache.Uncached.{
  pod_selector, render_pod_entry-uncached,
}
use spire_controller_manager.SpireEntry.State.{EntriesState}
use spire_controller_manager.SpireEntry.Pods.{
  Pass, fallback_last, declare_pod, add_pod, add_each, add_spiffe_ids,
}
use spire_controller_manager.SpireEntry.Pods.Declared.{EveryDeclared, add_declared-every, every_map}
use spire_controller_manager.SpireEntry.Pods.Served.{
  pod_selector-injective, and_eq_false, and_eq_true, IsStatic, IsStatic-First, First, Served,
  First-Served, First-more,
}
use spire_controller_manager.SpireEntry.Pods.Walk.{Holds, KeptBy, add_each-Holds, add_parsed-Holds}

module _ {sp : Spiffe} {k : Kube} {W C R : Type 0} (config : ReconcilerConfig sp)
    (kube : KubeClient k W) (lru : Lru sp C) (parent_template : k.Template) (hash : Str → Str)
    (spec_hash_of : ParsedClusterSpiffeIdSpec sp k → Option Str) (matches : R → Str → Bool)
    (ignored : List R) (is_fallback : ℕ → Bool) where
  -- the ClusterSPIFFEID stands at a position of its kind, and the position tells its spec
  abbrev pub IsAt : ByRef → Bool → Type 0
  IsAt (static_entry i) b = ⊥
  IsAt (spiffe_id i) b = is_fallback i ≡ b

  -- what holds of the entries, the pods applied and the cache before the fallbacks, and behind them
  Before : EntriesState sp → List Str → Option C → Type 0
  Before es applied cache =
      EveryDeclared (λ d. First is_fallback applied d.by.ref (head? d.entry.selectors)) es
      × (cache ≡ none)

  Behind : EntriesState sp → List Str → Option C → Type 0
  Behind es applied cache =
      EveryDeclared (λ d. Served is_fallback applied d.by.ref (head? d.entry.selectors)) es
      × (cache ≡ none)

  new-First :
      (r : ByRef) (s : Option Selector) (uid : Str) (applied : List Str)
      → IsAt r false
      → s ≡ some (pod_selector uid)
      → First is_fallback (uid ∷ applied) r s
  unfolding First any
  new-First (static_entry i) s uid applied a e = absurd a
  new-First (spiffe_id i) s uid applied a e =
      (a, λ u f. ground (arith, str_eq_iff u uid, pod_selector-injective u uid (sym f ∙ e)))

  new-Served :
      (r : ByRef) (s : Option Selector) (uid : Str) (applied : List Str)
      → IsAt r true
      → s ≡ some (pod_selector uid)
      → any (str_eq uid) applied ≡ false
      → Served is_fallback applied r s
  new-Served (static_entry i) s uid applied a e n = absurd a
  new-Served (spiffe_id i) s uid applied a e n =
      λ u f. ap (λ x. any (str_eq x) applied) (pod_selector-injective u uid (sym f ∙ e)) ∙ rw a n

  declare_pod-Before :
      (o : Option (Entry sp)) (c : ClusterSpiffeId k) (pod : k.Pod) (p : Pass sp C W)
      → IsAt c.object.ref false
      → c.spec.fallback ≡ false
      → ((e : Entry sp) → o ≡ some e → head? e.selectors ≡ some (pod_selector (k.pod_uid pod)))
      → Before p.entries p.applied p.cache
      → Holds config kube lru parent_template hash spec_hash_of matches ignored Before
          (declare_pod config kube lru parent_template hash spec_hash_of matches ignored o c pod p)
  unfolding Holds declare_pod Before
  declare_pod-Before none c pod p a f s b = b
  declare_pod-Before (some e) c pod p a f s b = rw f (
    add_declared-every
        (λ d. First is_fallback (k.pod_uid pod ∷ p.applied) d.by.ref (head? d.entry.selectors)) hash
        e c.object p.entries
        (new-First c.object.ref (head? e.selectors) (k.pod_uid pod) p.applied a (s e refl))
        (every_map
          (λ d h.
            First-more is_fallback (k.pod_uid pod) p.applied d.by.ref (head? d.entry.selectors) h)
          p.entries b.0),
    b.1,
  )

  declare_pod-Behind :
      (o : Option (Entry sp)) (c : ClusterSpiffeId k) (pod : k.Pod) (p : Pass sp C W)
      → IsAt c.object.ref true
      → c.spec.fallback ≡ true
      → ((e : Entry sp) → o ≡ some e → head? e.selectors ≡ some (pod_selector (k.pod_uid pod)))
      → any (str_eq (k.pod_uid pod)) p.applied ≡ false
      → Behind p.entries p.applied p.cache
      → Holds config kube lru parent_template hash spec_hash_of matches ignored Behind
          (declare_pod config kube lru parent_template hash spec_hash_of matches ignored o c pod p)
  unfolding Holds declare_pod Behind
  declare_pod-Behind none c pod p a f s n b = b
  declare_pod-Behind (some e) c pod p a f s n b = rw f (
    add_declared-every (λ d. Served is_fallback p.applied d.by.ref (head? d.entry.selectors)) hash e
        c.object p.entries
        (new-Served c.object.ref (head? e.selectors) (k.pod_uid pod) p.applied a (s e refl) n) b.0,
    b.1,
  )

  add_pod-Before :
      (c : ClusterSpiffeId k)
      → IsAt c.object.ref false
      → c.spec.fallback ≡ false
      → KeptBy config kube lru parent_template hash spec_hash_of matches ignored Before c
  unfolding add_pod Holds Before
  add_pod-Before c a f spec h nodes pod p b =
      let (e, cache, w) =
        render_pod_entry config kube lru parent_template spec pod h nodes p.cache p.world in
      let (off, s) =
        render_pod_entry-uncached config kube lru parent_template spec pod h nodes p.cache p.world
          b.1 in
      let declared =
        declare_pod-Before e c pod (record p { cache = cache; world = w }) a f s (b.0, off) in
      rw (and_eq_false (any (str_eq (k.pod_uid pod)) p.applied) c.spec.fallback f) declared

  add_pod-Behind :
      (c : ClusterSpiffeId k)
      → IsAt c.object.ref true
      → c.spec.fallback ≡ true
      → KeptBy config kube lru parent_template hash spec_hash_of matches ignored Behind c
  unfolding add_pod Holds Behind
  add_pod-Behind c a f spec h nodes pod p b =
      let (e, cache, w) =
        render_pod_entry config kube lru parent_template spec pod h nodes p.cache p.world in
      let (off, s) =
        render_pod_entry-uncached config kube lru parent_template spec pod h nodes p.cache p.world
          b.1 in
      elim (Bool-cases (any (str_eq (k.pod_uid pod)) p.applied)) [
        | inl y ↦ rw (and_eq_true (any (str_eq (k.pod_uid pod)) p.applied) c.spec.fallback y f) b
        | inr n ↦
            rw n (
              declare_pod-Behind e c pod (record p { cache = cache; world = w }) a f s n (b.0, off))
      ]

  fallbacks_keep :
      (cs : List (ClusterSpiffeId k))
      → All (λ c. IsAt c.object.ref c.spec.fallback) cs
      → All (λ c. c.spec.fallback ≡ true) cs
      → All (KeptBy config kube lru parent_template hash spec_hash_of matches ignored Behind) cs
  fallbacks_keep [] a f = tt
  fallbacks_keep (c ∷ cs) a f =
      (add_pod-Behind c (subst (IsAt c.object.ref) f.0 a.0) f.0, fallbacks_keep cs a.1 f.1)

  behind_fallback :
      (c : ClusterSpiffeId k) (cs : List (ClusterSpiffeId k))
      → c.spec.fallback ≡ true
      → All (λ y. (not y.spec.fallback && c.spec.fallback) ≡ false) cs
      → All (λ y. y.spec.fallback ≡ true) cs
  behind_fallback c [] f a = tt
  behind_fallback c (y ∷ cs) f a = (ground (arith, f, a.0), behind_fallback c cs f a.1)

  Before-Behind :
      (p : Pass sp C W)
      → Holds config kube lru parent_template hash spec_hash_of matches ignored Before p
      → Holds config kube lru parent_template hash spec_hash_of matches ignored Behind p
  unfolding Holds Before Behind
  Before-Behind p b = (
    every_map (λ d h. First-Served is_fallback p.applied d.by.ref (head? d.entry.selectors) h)
        p.entries b.0,
    b.1,
  )

  -- a list in which the fallbacks stand last
  add_sorted-Behind :
      (cs : List (ClusterSpiffeId k)) (nodes : Assoc k.Node) (p : Pass sp C W)
      → IsSorted (λ x y. not x.spec.fallback && y.spec.fallback) cs
      → All (λ c. IsAt c.object.ref c.spec.fallback) cs
      → Holds config kube lru parent_template hash spec_hash_of matches ignored Before p
      → Holds config kube lru parent_template hash spec_hash_of matches ignored Behind
          (add_each config kube lru parent_template hash spec_hash_of matches ignored cs nodes p)
  unfolding add_each
  add_sorted-Behind [] nodes p s a b = Before-Behind p b
  add_sorted-Behind (c ∷ cs) nodes p s a b = elim (Bool-cases c.spec.fallback) [
    | inl y ↦
        add_each-Holds config kube lru parent_template hash spec_hash_of matches ignored Behind
          (c ∷ cs) nodes p (fallbacks_keep (c ∷ cs) a (y, behind_fallback c cs y s.0))
          (Before-Behind p b)
    | inr n ↦ add_sorted-Behind cs nodes _ s.1 a.1 (
        add_parsed-Holds config kube lru parent_template hash spec_hash_of matches ignored Before c
          (add_pod-Before c (subst (IsAt c.object.ref) n a.0) n) nodes
          (parse_cluster_spiffe_id_spec c.spec) p b)
  ]

  fallback_order : WeakOrder {A = ClusterSpiffeId k} (λ x y. not x.spec.fallback && y.spec.fallback)
  fallback_order = record {
    asym = λ x y h. ground (arith, h);
    negtrans = λ x y z g h. ground (arith, g, h);
  }

  -- Once every ClusterSPIFFEID has been applied, an entry that one of them declared for a pod is of a
  -- fallback exactly if no other kind was applied to the pod: so no pod has an entry of a fallback
  -- and one of another ClusterSPIFFEID. The render cache is off, the positions of the resources tell
  -- which are fallbacks, and only static entries were declared before.
  pub add_spiffe_ids-Served :
      (cs : List (ClusterSpiffeId k)) (nodes : Assoc k.Node) (p : Pass sp C W)
      → All (λ c. IsAt c.object.ref c.spec.fallback) cs
      → EveryDeclared (λ d. IsStatic d.by.ref) p.entries
      → p.cache ≡ none
      → let q =
          add_spiffe_ids config kube lru parent_template hash spec_hash_of matches ignored cs nodes
            p in
        EveryDeclared
          (λ d. Served is_fallback q.applied d.by.ref (head? d.entry.selectors))
          q.entries
  unfolding add_spiffe_ids fallback_last Holds Before Behind
  add_spiffe_ids-Served cs nodes p a s off =
      (add_sorted-Behind (sort (λ x y. not x.spec.fallback && y.spec.fallback) cs) nodes
        (record p { applied = [] }) (sort-IsSorted fallback_order cs)
        (sort-All (λ c. IsAt c.object.ref c.spec.fallback) _ cs a)
        (
          every_map (λ d h. IsStatic-First is_fallback d.by.ref (head? d.entry.selectors) h)
              p.entries s,
          off,
        )).0

-- ===== src/SpireEntry/Reconcile.antt =====
-- reconcile of pkg/spireentry/reconciler.go: one pass, from the lists of resources to the calls of
-- the server and the updates of the statuses.
use spire_controller_manager.Prelude.{
  ℕ, suc, ◌*◌, ◌^◌, Str, Bool, not, ◌&&◌, ◌==◌, bool_eq, List, [], ◌∷◌, ◌++◌, Option, none, some,
  map, keep, is_empty, if◌then◌else◌,
}
use spire_controller_manager.Prelude.Assoc.{Assoc}
use spire_controller_manager.Prelude.Int.{ℤ, pos, ltb_ℤ, ◌+ℤ◌}
use spire_controller_manager.Spiffe.{Spiffe}
use spire_controller_manager.SpireApi.Types.{Entry, FieldSet}
use spire_controller_manager.SpireEntry.Config.{ReconcilerConfig}
use spire_controller_manager.SpireEntry.Kube.{Kube, KubeClient, ClusterStaticEntry, ClusterSpiffeId}
use spire_controller_manager.SpireEntry.Client.{EntryClient}
use spire_controller_manager.SpireEntry.Preference.{ByRef, static_entry, spiffe_id}
use spire_controller_manager.SpireEntry.Partition.{reconcile_class}
use spire_controller_manager.SpireEntry.ListCache
use spire_controller_manager.SpireEntry.ListCache.{values}
use spire_controller_manager.SpireEntry.Listing.{EntryReconciler, entry_list_hints, list_entries}
use spire_controller_manager.SpireEntry.Status.{
  Statuses, initial, ClusterStaticEntryStatus, ClusterSpiffeIdStats,
}
use spire_controller_manager.SpireEntry.State.{EntriesState, add_all_current}
use spire_controller_manager.SpireEntry.Plan.{Plan, empty_plan, plan_all}
use spire_controller_manager.SpireEntry.Apply.{
  Applied, create_entries, update_entries, delete_entries,
}
use spire_controller_manager.SpireEntry.Render.{ParsedClusterSpiffeIdSpec}
use spire_controller_manager.SpireEntry.RenderCache.{Lru, build_node_map}
use spire_controller_manager.SpireEntry.Pods.{
  Pass, fallback_last, add_static_entries, add_spiffe_ids,
}

-- the readings of the clock in one pass
pub record Times : Type 0 where
  pub at_start : ℤ
  pub at_unsupported : ℤ
  pub at_fresh : ℤ
  pub at_replace : ℤ

-- The reconciler, its render cache, and how many UUIDs have been drawn.
pub record Reconciler (sp : Spiffe) (C : Type 0) : Type 0 where
  pub base : EntryReconciler sp
  pub render_cache : Option C
  pub drawn : ℕ

position : ByRef → ℕ
position (static_entry i) = i
position (spiffe_id i) = i

-- The operator == on the two statuses.
static_status_eq : ClusterStaticEntryStatus → ClusterStaticEntryStatus → Bool
static_status_eq s t =
    bool_eq s.rendered t.rendered && bool_eq s.masked t.masked && bool_eq s.set t.set

stats_eq : ClusterSpiffeIdStats → ClusterSpiffeIdStats → Bool
stats_eq s t =
    s.namespaces_selected == t.namespaces_selected
    && s.namespaces_ignored == t.namespaces_ignored
    && s.pods_selected == t.pods_selected
    && s.pod_entry_render_failures == t.pod_entry_render_failures
    && s.entries_masked == t.entries_masked
    && s.entries_to_set == t.entries_to_set
    && s.entry_failures == t.entry_failures

-- out = append(out, &ClusterStaticEntry{…}): a resource's reference is its position in the list
number_static : ℕ → List ClusterStaticEntry → List ClusterStaticEntry
number_static i [] = []
number_static i (c ∷ cs) =
    record c { object = record c.object { ref = static_entry i } } ∷ number_static (suc i) cs

number_spiffe_ids : {k : Kube} → ℕ → List (ClusterSpiffeId k) → List (ClusterSpiffeId k)
number_spiffe_ids i [] = []
number_spiffe_ids i (c ∷ cs) =
    record c { object = record c.object { ref = spiffe_id i } } ∷ number_spiffe_ids (suc i) cs

-- `range_entries` and `range_states` are the orders in which the two maps are walked; `has_client`
-- says that K8sClient is not nil.
module _ {sp : Spiffe} {k : Kube} {W C R : Type 0} (config : ReconcilerConfig sp)
    (client : EntryClient sp W) (kube : KubeClient k W) (lru : Lru sp C)
    (parent_template : k.Template) (hash : Str → Str)
    (spec_hash_of : ParsedClusterSpiffeIdSpec sp k → Option Str) (matches : R → Str → Bool)
    (ignored : List R) (range_entries : Assoc (Entry sp) → Assoc (Entry sp))
    (range_states : EntriesState sp → EntriesState sp) (uuid : ℕ → Str) (has_client : Bool) where
  filter_static : Option (List ClusterStaticEntry) × W → Option (List ClusterStaticEntry) × W
  unfolding number_static reconcile_class
  filter_static (none, w) = (none, w)
  filter_static (some cs, w) =
      (some (number_static 0 (keep (λ c. reconcile_class config c.spec.class_name) cs)), w)

  list_static : W → Option (List ClusterStaticEntry) × W
  unfolding filter_static
  list_static w = filter_static (kube.list_cluster_static_entries w)

  filter_spiffe_ids : Option (List (ClusterSpiffeId k)) × W → Option (List (ClusterSpiffeId k)) × W
  unfolding number_spiffe_ids reconcile_class
  filter_spiffe_ids (none, w) = (none, w)
  filter_spiffe_ids (some cs, w) =
      (some (number_spiffe_ids 0 (keep (λ c. reconcile_class config c.spec.class_name) cs)), w)

  list_spiffe_ids : W → Option (List (ClusterSpiffeId k)) × W
  unfolding filter_spiffe_ids
  list_spiffe_ids w = filter_spiffe_ids (kube.list_cluster_spiffe_ids w)

  set_unsupported_fields : ℤ → Option FieldSet → EntryReconciler sp → EntryReconciler sp
  set_unsupported_fields now none r = r
  set_unsupported_fields now (some fields) r = record r {
    unsupported_fields = fields;
    next_get_unsupported_fields = now +ℤ pos (600 * 10 ^ 9);
  }

  -- recalculateUnsupportFields, without its log
  recalculate_unsupport_fields : ℤ → EntryReconciler sp → W → EntryReconciler sp × W
  unfolding set_unsupported_fields
  recalculate_unsupport_fields now r w =
      let (reply, w') =
        client.get_unsupported_fields (sp.td_name config.trust_domain) config.entry_id_prefix w in
      (set_unsupported_fields now reply r, w')

  refresh_unsupported : Times → EntryReconciler sp → W → EntryReconciler sp × W
  unfolding recalculate_unsupport_fields
  refresh_unsupported t r w =
      if◌then◌else◌ {A = EntryReconciler sp × W} (ltb_ℤ r.next_get_unsupported_fields t.at_start)
        (recalculate_unsupport_fields t.at_unsupported r w) (r, w)

  -- len(toDelete) > 0, then create, then update
  apply_deletes : List (Entry sp) → Applied sp × W → Applied sp × W
  unfolding delete_entries
  apply_deletes [] (a, w) = (a, w)
  apply_deletes (e ∷ es) (a, w) = delete_entries client (e ∷ es) a w

  apply_creates : Plan sp → Applied sp × W → Applied sp × W
  unfolding create_entries
  apply_creates p (a, w) =
      if◌then◌else◌ {A = Applied sp × W} (is_empty p.to_create) (a, w)
        (create_entries client p.to_create a w)

  apply_updates : Plan sp → Applied sp × W → Applied sp × W
  unfolding update_entries
  apply_updates p (a, w) =
      if◌then◌else◌ {A = Applied sp × W} (is_empty p.to_update) (a, w)
        (update_entries client p.to_update a w)

  apply_plan : List (Entry sp) → Plan sp → Option (ListCache.EntryListCache sp) → W → Applied sp × W
  unfolding apply_deletes apply_creates apply_updates
  apply_plan delete_only p cache w = apply_updates p (
      apply_creates p (
        apply_deletes (p.to_delete ++ delete_only)
          (record { cache = cache; statuses = p.statuses }, w)))

  update_static_statuses : ℕ → List ClusterStaticEntry → Statuses → W → W
  unfolding static_status_eq
  update_static_statuses i [] h w = w
  update_static_statuses i (c ∷ cs) h w =
      let w' =
        if not (static_status_eq c.status (h.static_entries i)) && has_client
        then kube.update_static_entry i (h.static_entries i) w
        else w in
      update_static_statuses (suc i) cs h w'

  -- over the list as the fallback sort has left it
  update_spiffe_id_statuses : List (ClusterSpiffeId k) → Statuses → W → W
  unfolding stats_eq position
  update_spiffe_id_statuses [] h w = w
  update_spiffe_id_statuses (c ∷ cs) h w =
      let i = position c.object.ref in
      let w' =
        if not (stats_eq c.status (h.spiffe_ids i))
        then kube.update_spiffe_id i (h.spiffe_ids i) w
        else w in
      update_spiffe_id_statuses cs h w'

  -- the part behind the listing of the nodes
  finish :
      List ClusterStaticEntry
      → List (ClusterSpiffeId k)
      → List (Entry sp)
      → Pass sp C W
      → Reconciler sp C
      → Reconciler sp C × W
  unfolding apply_plan update_static_statuses update_spiffe_id_statuses plan_all fallback_last
  finish statics spiffe_ids delete_only pass r =
      let p =
        plan_all config.entry_id_prefix r.base.unsupported_fields uuid
          (values (range_states pass.entries)) (empty_plan pass.statuses r.drawn) in
      let (a, w) = apply_plan delete_only p r.base.entry_cache pass.world in
      (
        record {
          base = record r.base { entry_cache = a.cache };
          render_cache = pass.cache;
          drawn = p.drawn;
        },
        update_spiffe_id_statuses (fallback_last spiffe_ids) a.statuses
            (update_static_statuses 0 statics a.statuses w),
      )

  with_nodes :
      List ClusterStaticEntry
      → List (ClusterSpiffeId k)
      → List (Entry sp)
      → Option (List k.Node)
      → Pass sp C W
      → Reconciler sp C
      → Reconciler sp C × W
  unfolding finish add_spiffe_ids build_node_map
  with_nodes statics spiffe_ids delete_only none pass r = (r, pass.world)
  with_nodes statics spiffe_ids delete_only (some nodes) pass r =
      finish statics spiffe_ids delete_only
        (add_spiffe_ids config kube lru parent_template hash spec_hash_of matches ignored spiffe_ids
          (build_node_map k nodes []) pass)
        r

  -- from the current entries on
  with_current :
      List ClusterStaticEntry
      → List (ClusterSpiffeId k)
      → List (Entry sp)
      → List (Entry sp)
      → Reconciler sp C
      → W
      → Reconciler sp C × W
  unfolding with_nodes add_static_entries add_all_current
  with_current statics spiffe_ids current delete_only r w =
      let (es, h) = add_static_entries hash statics (add_all_current hash current [], initial) in
      let pass : Pass sp C W = record {
        entries = es;
        statuses = h;
        cache = r.render_cache;
        applied = [];
        world = w;
      } in
      if◌then◌else◌ {A = Reconciler sp C × W} config.reconcile.cluster_spiffe_ids
        (let (nodes, w') = kube.list_nodes w in
          with_nodes statics spiffe_ids delete_only nodes (record pass { world = w' }) r)
        (finish statics spiffe_ids delete_only pass r)

  with_listed :
      List ClusterStaticEntry
      → List (ClusterSpiffeId k)
      → Option (List (Entry sp) × List (Entry sp)) × EntryReconciler sp × W
      → Reconciler sp C
      → Reconciler sp C × W
  unfolding with_current
  with_listed statics spiffe_ids (none, b, w) r = (record r { base = b }, w)
  with_listed statics spiffe_ids (some (current, delete_only), b, w) r =
      with_current statics spiffe_ids current delete_only (record r { base = b }) w

  with_spiffe_ids :
      Times
      → List ClusterStaticEntry
      → Option (List (ClusterSpiffeId k)) × W
      → Reconciler sp C
      → Reconciler sp C × W
  unfolding with_listed list_entries entry_list_hints
  with_spiffe_ids t statics (none, w) r = (r, w)
  with_spiffe_ids t statics (some spiffe_ids, w) r =
      let hints =
        entry_list_hints config.enable_entry_list_hint_filter (map (λ c. c.spec.hint) spiffe_ids)
          (map (λ c. c.spec.hint) statics) in
      with_listed statics spiffe_ids
        (list_entries config client range_entries t.at_fresh t.at_replace hints r.base w) r

  with_statics :
      Times → Option (List ClusterStaticEntry) × W → Reconciler sp C → Reconciler sp C × W
  unfolding with_spiffe_ids list_spiffe_ids
  with_statics t (none, w) r = (r, w)
  with_statics t (some statics, w) r =
      with_spiffe_ids t statics
        (if config.reconcile.cluster_spiffe_ids then list_spiffe_ids w else (some [], w)) r

  unfoldable pub reconcile : Times → Reconciler sp C → W → Reconciler sp C × W
  unfolding with_statics refresh_unsupported list_static
  reconcile t r w =
      let (b, w') = refresh_unsupported t r.base w in
      with_statics t
        (if config.reconcile.cluster_static_entries then list_static w' else (some [], w'))
        (record r { base = b })

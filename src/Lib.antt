-- ===== src/Lib.antt =====
-- Verification library of the SPIRE controller manager.
--
-- The program keeps the registration entries and the federation relationships of a SPIRE server in
-- step with resources of a Kubernetes cluster. Two reconcilers run pass after pass; each pass lists
-- what is declared and what the server has, and creates, updates and deletes the difference.
--
-- - SpireEntry: pkg/spireentry. `SpireEntry.Reconcile.reconcile` is entryReconciler.reconcile, and
--   its children are the parts that it is composed of: Listing (listEntries, entryListHints) over
--   ListCache (entry_list_cache.go) and Partition (shouldProcessOrDeleteEntryID, splitEntries);
--   State (entriesState) keyed by Key (makeEntryKey); Pods (addClusterStaticEntryEntriesState and
--   addClusterSPIFFEIDEntriesState; proofs in Walk, Declared, Served and Fallback) over Render
--   (entries.go) and RenderCache (renderPodEntry; its laws in Laws, proofs in Soundness and
--   Uncached); Plan (the loop over the state map; proofs in Surplus, Carried and Convergence) over
--   Preference (objectCmp), Fields (getOutdatedEntryFields) and JoinToken; Apply (createEntries,
--   updateEntries, deleteEntries) over Status (by.go). Kube and Client hold the calls of Kubernetes
--   and of the server.
-- - SpireApi: pkg/spireapi. Types and Convert (types.go), Batch (batch.go), Clients (entryapi.go),
--   TrustDomains (trustdomainapi.go), Bundles (bundleapi.go and the bundles of types.go), Svids
--   (svidapi.go), Connection (client.go).
-- - SpireFederationRelationship: pkg/spirefederationrelationship and the parser of
--   api/v1alpha1/clusterfederatedtrustdomain_webhook.go. Planned has lemmas on the three lists of a
--   plan, Refinement the specification of a pass by the server it leaves.
-- - Reconciler: pkg/reconciler, one call of Run, which both reconcilers run in, as a machine over
--   events, with its channel of triggers.
-- - Cmd: cmd/main.go. `Cmd.Parse.parse_config` is parseConfig, over ClusterDomain
--   (parseClusterDomainCNAME), Logger (setLogger) and Defaults; `Cmd.Run.main` is main, with run and
--   staticRun as the calls that they make in order, the outside's reply to each, and what is deferred.
-- - ManagerConfig: api/v1alpha1/controllermanagerconfig_types.go and, in Loader,
--   controllermanagerconfig_loader.go.
-- - WebhookManager: pkg/webhookmanager. Minting and Expiry (mintX509SVIDIfNeeded), Names
--   (webhookDNSNames), Bundle (refreshBundle, updateWebhookConfigIfNeeded, Init), Backoff (backoff.go)
--   and Loop (Start, over the events that its select receives).
-- - Controllers: internal/controller, whose handlers trigger the machine of Reconciler, and the index
--   of Endpoints. Manifests: api/v1alpha1/clusterstaticentry_loader.go and
--   clusterfederatedtrustdomain_loader.go.
-- - Spiffe: the operations of go-spiffe that the program calls, and their documented laws.
-- - Prelude: texts as lists of bytes, signed integers over the native numbers, association lists for
--   maps, sorting; Examples: the theorems at concrete inputs.
--
-- State is passed explicitly: a function takes and returns the reconciler, the statuses (a heap
-- indexed by the position of a resource, since declared entries point to their resources) and W,
-- the state of everything outside. An error is `none`, or in Cmd, ManagerConfig, Manifests,
-- Connection and Svids a constructor of an error type (Prelude.Results); the messages are not modelled.
-- What is not part of the repository is an argument: SPIFFE IDs, templates, label selectors, URLs,
-- the LRU cache, hashes, UUIDs, the order in which Go walks a map, the clients of gRPC and
-- Kubernetes. int64 and int32 wrap where the code converts; the counters of statuses are not
-- bounded.
--
-- Fuel: `run_batch` has a round for each element, and each round takes one element at least;
-- `list_pages` counts pages, and fails without fuel.
--
-- Not modelled: what is logged and the counters of Prometheus; the arguments that cmd/main.go hands
-- to the reconcilers and controllers, and the registrations with the manager; pkg/k8sapi, whose
-- calls are arguments; the admission webhooks, which call the modelled parsers.
pub mod Prelude
pub mod Cmd
pub mod ManagerConfig
pub mod Reconciler
pub mod Spiffe
pub mod SpireApi
pub mod SpireEntry
pub mod SpireFederationRelationship
pub mod Controllers
pub mod Manifests
pub mod WebhookManager
pub mod Examples

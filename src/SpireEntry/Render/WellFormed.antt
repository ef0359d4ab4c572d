-- ===== src/SpireEntry/Render/WellFormed.antt =====
-- What rendering gives: selectors that read back, DNS names that stand once, and entries of the
-- manager's own trust domain.
use mathlib.Core.Path.{subst}
use spire_controller_manager.Prelude.{
  Str, str_eq, str_eq_iff, cut_byte, contains_byte, true, false, List, [], ◌∷◌, ◌++◌, Option, none,
  some, any, is_empty, head?, codes, ◌||◌, >>=-some, some-injective, traverse, ◌≡◌, ◌↔◌, refl, ap,
  sym, ◌∙◌, arith, Bool-cases, Option-cases, inl, inr,
}
use spire_controller_manager.Spiffe.{Spiffe}
use spire_controller_manager.SpireApi.Types.{Entry, Selector}
use spire_controller_manager.SpireEntry.Config.{ReconcilerConfig}
use spire_controller_manager.SpireEntry.Kube.{Kube, Endpoints}
use spire_controller_manager.SpireEntry.Render.{
  parse_selector, render_selector, append_item, render_template, append_if_not_exists,
  render_dns_names, render_entry, render_spiffe_id, ParsedClusterSpiffeIdSpec,
  dns_names_from_endpoints,
}

-- the text of a selector: its type, a colon, its value
pub selector_text : Selector → Str
selector_text s = s.type ++ 58 ∷ s.value

-- neither part is empty, and the type has no colon
abbrev pub IsSelector : Selector → Type 0
IsSelector s =
    (is_empty s.type ≡ false) × (is_empty s.value ≡ false) × (contains_byte 58 s.type ≡ false)

cut-text : (t v : Str) → contains_byte 58 t ≡ false → cut_byte 58 (t ++ 58 ∷ v) ≡ some (t, v)
unfolding cut_byte contains_byte
cut-text [] v h = refl
cut-text (c ∷ t) v h = ground (arith, cut-text t v)

-- the text from which a cut was made
Uncut : Option (Str × Str) → Str → Type 0
Uncut none s = Unit
Uncut (some (t, v)) s = (s ≡ t ++ 58 ∷ v) × (contains_byte 58 t ≡ false)

cut-Uncut : (s : Str) → Uncut (cut_byte 58 s) s
unfolding cut_byte contains_byte Uncut
cut-Uncut [] = tt
cut-Uncut (c ∷ s) = elim (Option-cases (cut_byte 58 s)) [
  | inl e ↦ ground arith
  | inr (p, e) ↦ ground (arith, subst (λ o. Uncut o s) e (cut-Uncut s))
]

parse_text : (s : Selector) → IsSelector s → parse_selector (selector_text s) ≡ some s
unfolding parse_selector selector_text
parse_text s h = rw (cut-text s.type s.value h.2, h.0, h.1) refl

text_parse :
    (s : Str) (x : Selector) → parse_selector s ≡ some x → (s ≡ selector_text x) × IsSelector x
unfolding parse_selector selector_text Uncut
text_parse s x h = elim (Option-cases (cut_byte 58 s)) [
  | inl e ↦ ground (arith, e)
  | inr (p, e) ↦ ground (arith, e, subst (λ o. Uncut o s) e (cut-Uncut s))
]

-- A text parses to a selector exactly where it is the selector's type, a colon and its value,
-- neither of them empty and the type without a colon.
pub parse_selector_iff :
    (s : Str) (x : Selector) → (parse_selector s ≡ some x) ↔ ((s ≡ selector_text x) × IsSelector x)
parse_selector_iff s x = (text_parse s x, λ h. rw h.0 (parse_text x h.1))

-- no text stands twice
abbrev pub Distinct : List Str → Type 0
Distinct [] = Unit
Distinct (x ∷ xs) = (any (str_eq x) xs ≡ false) × Distinct xs

-- the set has the elements of the list
abbrev IsSetOf : List Str → List Str → Type 0
IsSetOf set slice = (x : Str) → any (str_eq x) set ≡ any (str_eq x) slice

any-snoc : (x y : Str) (xs : List Str) → any (str_eq x) (xs ++ y ∷ []) ≡ any (str_eq x) (y ∷ xs)
unfolding any
any-snoc x y [] = refl
any-snoc x y (z ∷ xs) = ground (arith, any-snoc x y xs)

Distinct-snoc :
    (x : Str) (xs : List Str) → any (str_eq x) xs ≡ false → Distinct xs → Distinct (xs ++ x ∷ [])
unfolding any
Distinct-snoc x [] h d = (refl, tt)
Distinct-snoc x (y ∷ xs) h d = (
  any-snoc y x xs ∙ ground (arith, d.0, h, str_eq_iff x y, str_eq_iff y x),
  Distinct-snoc x xs (ground (arith, h)) d.1,
)

-- what appendIfNotExists keeps: a list of distinct texts, and the set of them
abbrev Kept : List Str × List Str → Type 0
Kept p = Distinct p.0 × IsSetOf p.1 p.0

append_item-Kept : (x : Str) (p : List Str × List Str) → Kept p → Kept (append_item x p)
unfolding append_item any
append_item-Kept x (slice, set) k = elim (Bool-cases (any (str_eq x) set)) [
  | inl y ↦ rw y k
  | inr n ↦ rw n (
    Distinct-snoc x slice (sym (k.1 x) ∙ n) k.0,
    λ y. ap (λ b. str_eq y x || b) (k.1 y) ∙ sym (any-snoc y x slice),
  )
]

append-Kept :
    (slice set xs : List Str) → Kept (slice, set) → Kept (append_if_not_exists slice set xs)
unfolding append_if_not_exists
append-Kept slice set [] k = k
append-Kept slice set (x ∷ xs) k =
    append-Kept (append_item x (slice, set)).0 (append_item x (slice, set)).1 xs
      (append_item-Kept x (slice, set) k)

module _ {sp : Spiffe} (k : Kube) (config : ReconcilerConfig sp)
    (parent_template : k.Template) where
  names-Kept :
      (ts : List k.Template) (names set : List Str) (node : k.Node) (pod : Option k.Pod)
      (out : List Str × List Str)
      → Kept (names, set)
      → render_dns_names k config parent_template names set ts node pod ≡ some out
      → Kept out
  unfolding render_dns_names
  names-Kept [] names set node pod out kept h = subst Kept (some-injective h) kept
  names-Kept (t ∷ ts) names set node pod out kept h =
      let (name, e, rest) = >>=-some (render_template k config parent_template t node pod) _ h in
      names-Kept ts _ _ node pod out (append-Kept names set (name ∷ []) kept) rest

  -- no ID yet, in the trust domain, on the pod, no DNS name twice
  abbrev pub IsPodEntry : k.Pod → Entry sp → Type 0
  IsPodEntry pod e =
      (e.id ≡ [])
      × (sp.td_eq (sp.id_trust_domain e.spiffe_id) config.trust_domain ≡ true)
      × (sp.td_eq (sp.id_trust_domain e.parent_id) config.trust_domain ≡ true)
      × (head? e.selectors
          ≡ some (record { type = codes "k8s"; value = codes "pod-uid:" ++ k.pod_uid pod }))
      × Distinct e.dns_names

  id-trust_domain :
      (t : k.Template) (node : k.Node) (pod : Option k.Pod) (id : sp.SpiffeId)
      → render_spiffe_id k config parent_template t node pod ≡ some id
      → sp.td_eq (sp.id_trust_domain id) config.trust_domain ≡ true
  unfolding render_spiffe_id
  id-trust_domain t node pod id h = ground arith

  -- What renderPodEntry returns for a pod has no ID yet, a SPIFFE ID and a parent ID of the manager's
  -- trust domain, the UID of the pod as its first selector, and no DNS name twice.
  pub render_entry-IsPodEntry :
      (spec : ParsedClusterSpiffeIdSpec sp k) (node : k.Node) (pod : k.Pod)
      (endpoints : List Endpoints) (e : Entry sp)
      → render_entry k config parent_template spec node pod endpoints ≡ some e
      → IsPodEntry pod e
  unfolding render_entry
  render_entry-IsPodEntry spec node pod endpoints e h =
      let (parent_id, hp, h1) =
        >>=-some (render_spiffe_id k config parent_template parent_template node none) _ h in
      let (spiffe_id, hs, h2) =
        >>=-some (render_spiffe_id k config parent_template spec.spiffe_id_template node (some pod))
          _ h1 in
      let (dns, hd, h3) =
        >>=-some
          (render_dns_names k config parent_template [] [] spec.dns_name_templates node (some pod))
          _ h2 in
      let (selectors, hw, h4) =
        >>=-some
          (traverse (λ t. render_selector k config parent_template t node (some pod))
            spec.workload_selector_templates)
          _ h3 in
      subst (IsPodEntry pod) (some-injective h4) (
        refl,
        id-trust_domain spec.spiffe_id_template node (some pod) spiffe_id hs,
        id-trust_domain parent_template node none parent_id hp,
        refl,
        (append-Kept dns.0 dns.1 (dns_names_from_endpoints endpoints config.cluster_domain)
            (names-Kept spec.dns_name_templates [] [] node (some pod) dns (tt, λ x. refl) hd)).0,
      )

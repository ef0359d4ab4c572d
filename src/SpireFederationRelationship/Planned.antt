-- ===== src/SpireFederationRelationship/Planned.antt =====
-- What a pass plans for one trust domain: the three lists of calls, looked up by trust domain.
use spire_controller_manager.Prelude.{
  Bool, true, false, ◌&&◌, not, List, [], ◌∷◌, Option, none, some, if◌then◌else◌, ◌≡◌, ◌⊎◌, inl,
  inr, refl, ap, sym, ◌∙◌, arith, any, map, ◌||◌, Bool-cases, Option-cases,
}
use spire_controller_manager.Spiffe.{Spiffe, SpiffeLaws}
use spire_controller_manager.SpireApi.Types.{FederationRelationship, relationship_equal}
use spire_controller_manager.SpireFederationRelationship.{
  find, put, put_all, put_new, keep_first, unless_found, if_changed, to_delete, to_create,
  to_update,
}
use spire_controller_manager.SpireFederationRelationship.Agreement.{find-put}

-- what a creation of the first leaves where the second is there: AlreadyExists
abbrev pub created {ℓ} : {A : Type ℓ} → Option A → Option A → Option A
created new none = new
created new (some old) = some old

-- what an update to the first leaves where the second is there: NotFound if nothing is
abbrev pub updated {ℓ} : {A : Type ℓ} → Option A → Option A → Option A
updated new none = none
updated none (some old) = some old
updated (some new) (some old) = some new

pub created-none {ℓ} : {A : Type ℓ} (old : Option A) → created none old ≡ old
created-none none = refl
created-none (some old) = refl

pub updated-none {ℓ} : {A : Type ℓ} (old : Option A) → updated none old ≡ old
updated-none none = refl
updated-none (some old) = refl

pub call_congr {ℓ} :
    {A : Type ℓ} (call : Option A → Option A → Option A) {a b c d : Option A}
    → a ≡ b
    → c ≡ d
    → call a c ≡ call b d
call_congr call {b = b} {c = c} e f = ap (λ x. call x c) e ∙ ap (call b) f

abbrev pub is_some {ℓ} : {A : Type ℓ} → Option A → Bool
is_some none = false
is_some (some a) = true

module _ {sp : Spiffe} {B : Type 0} where
  -- a map that is keyed by trust domains
  abbrev pub IsMap : List (FederationRelationship sp B) → Type 0
  IsMap [] = Unit
  IsMap (fr ∷ m) = (find fr.trust_domain m ≡ none) × IsMap m

  -- the server has what is declared, or a relationship that is Equal to it, or neither has any
  abbrev pub Agrees :
      Option (FederationRelationship sp B) → Option (FederationRelationship sp B) → Type 0
  Agrees none o = o ≡ none
  Agrees (some d) o =
      (g : FederationRelationship sp B) × (o ≡ some g)
      × ((g ≡ d) ⊎ (relationship_equal sp g d ≡ true))

  -- a relationship that differs from the one of the server
  unfoldable pub changed : Option (FederationRelationship sp B) → FederationRelationship sp B → Bool
  changed none fr = false
  changed (some g) fr = not (relationship_equal sp g fr)

  -- what an update of the one trust domain sends
  unfoldable pub changed_one :
      Option (FederationRelationship sp B)
      → Option (FederationRelationship sp B)
      → Option (FederationRelationship sp B)
  unfolding changed
  changed_one o none = none
  changed_one o (some d) = if changed o d then some d else none

  -- what is left of a trust domain of which the server had o, and d is declared
  unfoldable pub outcome :
      Option (FederationRelationship sp B)
      → Option (FederationRelationship sp B)
      → Option (FederationRelationship sp B)
  unfolding changed_one
  outcome o d =
      updated (changed_one o d)
        (created (if is_some o then none else d) (if is_some o && not (is_some d) then none else o))

  pub outcome-Agrees : (o d : Option (FederationRelationship sp B)) → Agrees d (outcome o d)
  unfolding outcome changed changed_one
  outcome-Agrees none none = refl
  outcome-Agrees none (some d) = (d, refl, inl refl)
  outcome-Agrees (some g) none = refl
  outcome-Agrees (some g) (some d) = elim (Bool-cases (relationship_equal sp g d)) [
    | inl y ↦ rw y (g, refl, inr y)
    | inr n ↦ rw n (d, refl, inl refl)
  ]

  module _ (laws : SpiffeLaws sp) where
    put-IsMap :
        (fr : FederationRelationship sp B) (m : List (FederationRelationship sp B))
        → IsMap m
        → IsMap (put fr m)
    unfolding put find
    put-IsMap fr [] h = (refl, tt)
    put-IsMap fr (g ∷ m) h = elim (Bool-cases (sp.td_eq g.trust_domain fr.trust_domain)) [
      | inl y ↦ rw y (ap (λ t. find t m) (sym ((laws.td_eq_iff _ _).0 y)) ∙ h.0, h.1)
      | inr n ↦ rw n (
        find-put laws g.trust_domain fr m
            ∙ ground (
              arith,
              laws.td_eq_iff fr.trust_domain g.trust_domain,
              laws.td_eq_iff g.trust_domain fr.trust_domain,
              h.0,
              n,
            ),
        put-IsMap fr m h.1,
      )
    ]

    find-same :
        (m : List (FederationRelationship sp B)) (t u : sp.TrustDomain)
        → sp.td_eq t u ≡ true
        → find t m ≡ find u m
    find-same m t u e = ap (λ x. find x m) ((laws.td_eq_iff t u).0 e)

    any-unless_found :
        (td : sp.TrustDomain) (o : Option (FederationRelationship sp B))
        (fr : FederationRelationship sp B) (rest : List (FederationRelationship sp B))
        → any (λ t. sp.td_eq t td) (map (λ fr. fr.trust_domain) (unless_found o fr rest)) ≡ (
            (not (is_some o) && sp.td_eq fr.trust_domain td)
            || any (λ t. sp.td_eq t td) (map (λ fr. fr.trust_domain) rest))
    unfolding any unless_found
    any-unless_found td none fr rest = refl
    any-unless_found td (some g) fr rest = refl

    find-unless_found :
        (td : sp.TrustDomain) (o : Option (FederationRelationship sp B))
        (fr : FederationRelationship sp B) (rest : List (FederationRelationship sp B))
        → find td (unless_found o fr rest)
          ≡ (if not (is_some o) && sp.td_eq fr.trust_domain td then some fr else find td rest)
    unfolding find unless_found
    find-unless_found td none fr rest = refl
    find-unless_found td (some g) fr rest = refl

    find-if_changed :
        (td : sp.TrustDomain) (o : Option (FederationRelationship sp B))
        (fr : FederationRelationship sp B) (rest : List (FederationRelationship sp B))
        → find td (if_changed o fr rest)
          ≡ (if changed o fr && sp.td_eq fr.trust_domain td then some fr else find td rest)
    unfolding find if_changed changed
    find-if_changed td none fr rest = refl
    find-if_changed td (some g) fr rest = ground arith

    pub any_deleted :
        (td : sp.TrustDomain) (xs declared : List (FederationRelationship sp B))
        → any (λ t. sp.td_eq t td) (map (λ fr. fr.trust_domain) (to_delete xs declared))
          ≡ (is_some (find td xs) && not (is_some (find td declared)))
    unfolding to_delete find any
    any_deleted td [] declared = refl
    any_deleted td (fr ∷ xs) declared =
        any-unless_found td (find fr.trust_domain declared) fr (to_delete xs declared)
        ∙ ground (arith, any_deleted td xs declared, find-same declared fr.trust_domain td)

    pub find-to_create :
        (td : sp.TrustDomain) (current ys : List (FederationRelationship sp B))
        → find td (to_create current ys) ≡ (if is_some (find td current) then none else find td ys)
    unfolding to_create find
    find-to_create td current [] = ground arith
    find-to_create td current (fr ∷ ys) =
        find-unless_found td (find fr.trust_domain current) fr (to_create current ys)
        ∙ ground (arith, find-to_create td current ys, find-same current fr.trust_domain td)

    updated_head :
        (td : sp.TrustDomain) (current ys : List (FederationRelationship sp B))
        (fr : FederationRelationship sp B)
        → find fr.trust_domain ys ≡ none
        → find td (to_update current ys) ≡ changed_one (find td current) (find td ys)
        → (sp.td_eq fr.trust_domain td ≡ true) ⊎ (sp.td_eq fr.trust_domain td ≡ false)
        → (if changed (find fr.trust_domain current) fr && sp.td_eq fr.trust_domain td
            then some fr
            else find td (to_update current ys))
          ≡ changed_one (find td current) (find td (fr ∷ ys))
    unfolding find changed_one
    updated_head td current ys fr alone rest (inl y) = ground (
      arith,
      y,
      rest ∙ ap (changed_one (find td current)) (sym (find-same ys fr.trust_domain td y) ∙ alone),
      find-same current fr.trust_domain td y,
    )
    updated_head td current ys fr alone rest (inr n) = ground (arith, n, rest)

    pub find-to_update :
        (td : sp.TrustDomain) (current ys : List (FederationRelationship sp B))
        → IsMap ys
        → find td (to_update current ys) ≡ changed_one (find td current) (find td ys)
    unfolding to_update changed_one
    find-to_update td current [] h = refl
    find-to_update td current (fr ∷ ys) h =
        find-if_changed td (find fr.trust_domain current) fr (to_update current ys)
        ∙ updated_head td current ys fr h.0 (find-to_update td current ys h.1) (Bool-cases _)

    pub put_all-IsMap :
        (frs m : List (FederationRelationship sp B)) → IsMap m → IsMap (put_all frs m)
    unfolding put_all
    put_all-IsMap [] m h = h
    put_all-IsMap (fr ∷ frs) m h = put_all-IsMap frs (put fr m) (put-IsMap fr m h)

    pub keep_first-IsMap :
        (o : Option (FederationRelationship sp B)) (m : List (FederationRelationship sp B))
        → IsMap m
        → IsMap (keep_first o m)
    unfolding keep_first put_new
    keep_first-IsMap none m h = h
    keep_first-IsMap (some fr) m h = elim (Option-cases (find fr.trust_domain m)) [
      | inl e ↦ rw e (put-IsMap fr m h)
      | inr (g, e) ↦ rw e h
    ]

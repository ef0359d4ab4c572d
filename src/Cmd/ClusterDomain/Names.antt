-- ===== src/Cmd/ClusterDomain/Names.antt =====
-- Which names parseClusterDomainCNAME of cmd/main.go takes.
use spire_controller_manager.Prelude.{
  ℕ, Str, codes, str_eq, str_eq→eq, str_eq_refl, has_prefix, has_prefix-append, length,
  length-append, drop, ◌++◌, [], ◌∷◌, true, false, ◌≡◌, ◌≢◌, ◌↔◌, ◌⊎◌, refl, sym, ◌∙◌, ap, inl, inr,
  Bool-cases, arith,
}
use spire_controller_manager.Prelude.Results.{ok, fail_if-ok, ok-injective}
use spire_controller_manager.Cmd.ClusterDomain.{
  ends_with_dot, trim_prefix, trim_dot, required_domain, domain_behind, parse_cluster_domain_cname,
  k8s_default_service,
}

behind_prefix : (p s : Str) → has_prefix p s ≡ true → s ≡ p ++ drop (length p) s
unfolding has_prefix
behind_prefix [] s h = refl
behind_prefix (a ∷ p) [] h = cc
behind_prefix (a ∷ p) (b ∷ s) h = ground (arith, behind_prefix p s)

drop-append : (p s : Str) → drop (length p) (p ++ s) ≡ s
drop-append [] s = refl
drop-append (a ∷ p) s = drop-append p s

trim_prefix-append : (p s : Str) → trim_prefix (p ++ s) p ≡ s
unfolding trim_prefix
trim_prefix-append p s = rw (has_prefix-append p s) (drop-append p s)

trim_dot-append : (s : Str) → trim_dot (s ++ codes ".") ≡ s
unfolding trim_dot
trim_dot-append [] = refl
trim_dot-append (a ∷ []) = refl
trim_dot-append (a ∷ b ∷ s) = ap (◌∷◌ a) (trim_dot-append (b ∷ s))

trim_dot_undotted : (s : Str) → ends_with_dot s ≡ false → trim_dot s ≡ s
unfolding trim_dot ends_with_dot
trim_dot_undotted [] h = refl
trim_dot_undotted (a ∷ []) h = ground arith
trim_dot_undotted (a ∷ b ∷ s) h = ap (◌∷◌ a) (trim_dot_undotted (b ∷ s) h)

trim_dot_dotted : (s : Str) → ends_with_dot s ≡ true → s ≡ trim_dot s ++ codes "."
unfolding trim_dot ends_with_dot
trim_dot_dotted [] h = cc
trim_dot_dotted (a ∷ []) h = ground arith
trim_dot_dotted (a ∷ b ∷ s) h = ap (◌∷◌ a) (trim_dot_dotted (b ∷ s) h)

append_longer : (a : ℕ) (p s : Str) → str_eq s (a ∷ p ++ s) ≡ false
append_longer a p s = elim (Bool-cases (str_eq s (a ∷ p ++ s))) [
  | inl e ↦ absurd (omega (arith, ap length (str_eq→eq s (a ∷ p ++ s) e), length-append p s))
  | inr e ↦ e
]

-- the domain behind the prefix, with or without a dot behind it
abbrev pub IsBehind : Str → Str → Str → Type 0
IsBehind p cname d =
    ((cname ≡ p ++ d) × (ends_with_dot d ≡ false)) ⊎ (cname ≡ p ++ (d ++ codes "."))

required_domain-ok : (s d : Str) → required_domain s ≡ ok d → (s ≡ d) × (d ≢ [])
unfolding required_domain
required_domain-ok [] d h = cc
required_domain-ok (a ∷ s) d h = (ok-injective h, λ e. cc (ok-injective h))

required_nonempty : (d : Str) → d ≢ [] → required_domain d ≡ ok d
unfolding required_domain
required_nonempty [] h = absurd (h refl)
required_nonempty (a ∷ s) h = refl

trim_prefix_found : (p s : Str) → has_prefix p s ≡ true → s ≡ p ++ trim_prefix s p
unfolding trim_prefix
trim_prefix_found p s h = rw h (behind_prefix p s h)

trim_prefix_missing : (p s : Str) → has_prefix p s ≡ false → trim_prefix s p ≡ s
unfolding trim_prefix
trim_prefix_missing p s h = rw h refl

trimmed-IsBehind : (p cname t d : Str) → cname ≡ p ++ t → trim_dot t ≡ d → IsBehind p cname d
trimmed-IsBehind p cname t d e f = elim (Bool-cases (ends_with_dot t)) [
  | inl y ↦ inr (e ∙ ap (◌++◌ p) (trim_dot_dotted t y ∙ ap (λ x. x ++ codes ".") f))
  | inr n ↦
      let same : t ≡ d = sym (trim_dot_undotted t n) ∙ f in
      inl (e ∙ ap (◌++◌ p) same, ap ends_with_dot (sym same) ∙ n)
]

domain_behind-IsBehind :
    (p cname d : Str) → domain_behind p cname ≡ ok d → (d ≢ []) × IsBehind p cname d
unfolding domain_behind
domain_behind-IsBehind p cname d h =
    let (differs, h) = fail_if-ok (str_eq (trim_prefix cname p) cname) _ h in
    let (e, n) = required_domain-ok (trim_dot (trim_prefix cname p)) d h in
    elim (Bool-cases (has_prefix p cname)) [
      | inl y ↦
          (n, trimmed-IsBehind p cname (trim_prefix cname p) d (trim_prefix_found p cname y) e)
      | inr m ↦ absurd (cc (differs, trim_prefix_missing p cname m, str_eq_refl cname))
    ]

IsBehind-domain_behind :
    (a : ℕ) (p cname d : Str)
    → d ≢ []
    → IsBehind (a ∷ p) cname d
    → domain_behind (a ∷ p) cname ≡ ok d
unfolding domain_behind
IsBehind-domain_behind a p cname d n (inl (e, f)) =
    rw (e, trim_prefix-append (a ∷ p) d, append_longer a p d, trim_dot_undotted d f)
      (required_nonempty d n)
IsBehind-domain_behind a p cname d n (inr e) =
    rw
      (
        e,
        trim_prefix-append (a ∷ p) (d ++ codes "."),
        append_longer a p (d ++ codes "."),
        trim_dot-append d,
      )
      (required_nonempty d n)

-- The name gives the cluster domain d exactly where d is not empty and the name is the default
-- service, a dot and d, with a dot behind it or not; without one, d itself does not end with a dot.
pub parse_cluster_domain_cname_iff :
    (cname d : Str)
    → (parse_cluster_domain_cname cname ≡ ok d)
      ↔ ((d ≢ []) × IsBehind (k8s_default_service ++ codes ".") cname d)
unfolding parse_cluster_domain_cname
parse_cluster_domain_cname_iff cname d = (
  domain_behind-IsBehind (k8s_default_service ++ codes ".") cname d,
  λ h. IsBehind-domain_behind _ _ cname d (h.0) (h.1),
)

-- ===== src/WebhookManager/Names.antt =====
-- pkg/webhookmanager/manager.go: the DNS names of the webhook's services.
use spire_controller_manager.Prelude.{
  Str, codes, str_eq, str_lt, is_empty, uniq, ◌++◌, ◌&&◌, ◌||◌, Bool, true, false, Option, none,
  some, List, [], ◌∷◌, if◌then◌else◌,
}
use spire_controller_manager.Prelude.Sort.{sort}
use spire_controller_manager.WebhookManager.{ServiceReference, WebhookConfig}

unfoldable pub service_dns_name : Option ServiceReference → Option Str
service_dns_name none = none
service_dns_name (some s) =
    if is_empty s.namespace || is_empty s.name
    then none
    else some (s.name ++ (codes "." ++ (s.namespace ++ codes ".svc")))

-- if dnsName, ok := serviceDNSName(...); ok { ... }
cons_name : Option Str → List Str → List Str
cons_name none names = names
cons_name (some n) names = n ∷ names

module _ {Rest : Type 0} where
  unfoldable pub service_names : WebhookConfig Rest → List Str
  unfolding service_dns_name cons_name
  service_names [] = []
  service_names (h ∷ hs) = cons_name (service_dns_name h.service) (service_names hs)

  -- `walk` is the order in which Go walks the set
  unfoldable pub webhook_dns_names : (List Str → List Str) → WebhookConfig Rest → List Str
  unfolding service_names sort uniq
  webhook_dns_names walk c = sort str_lt (walk (uniq (service_names c)))

unfoldable pub dns_names_equal : List Str → List Str → Bool
dns_names_equal [] [] = true
dns_names_equal (a ∷ xs) (b ∷ bs) = str_eq a b && dns_names_equal xs bs
dns_names_equal _ _ = false

-- ===== src/Examples/Fixtures.antt =====
-- SPIFFE IDs as pairs of a trust domain and a path, and a few entries.
use spire_controller_manager.Prelude.{
  Str, codes, str_eq, str_eq_iff, str_lt, cut_byte, drop, true, false, ◌&&◌, [], ◌∷◌, ◌++◌, none,
  some, is_empty, refl, arith, ◌>>=◌, if◌then◌else◌,
}
use spire_controller_manager.Prelude.Int.{pos}
use spire_controller_manager.Spiffe.{Spiffe, SpiffeLaws}
use spire_controller_manager.SpireApi.Types.{Entry, Selector}
use spire_controller_manager.SpireEntry.Config.{ReconcilerConfig}
use spire_controller_manager.SpireEntry.Preference.{ByObject, DeclaredEntry, ByRef, spiffe_id}
use spire_controller_manager.SpireEntry.Preference.Order.{IsTimely}

abbrev pub plain : Spiffe
plain = record {
  SpiffeId = Str × Str;
  TrustDomain = Str;
  id_string = λ i. codes "spiffe://" ++ (i.0 ++ i.1);
  id_path = λ i. i.1;
  id_trust_domain = λ i. i.0;
  id_eq = λ i j. str_eq i.0 j.0 && str_eq i.1 j.1;
  td_eq = str_eq;
  td_name = λ t. t;
  td_is_zero = is_empty;
  td_lt = str_lt;
  id_from_string = λ s. cut_byte 47 (drop 9 s) >>= λ p. some (p.0, 47 ∷ p.1);
  id_from_path = λ t p. if is_empty t then none else some (t, p);
  td_from_string = λ s. if is_empty s then none else some s;
}

pub plain_laws : SpiffeLaws plain
plain_laws = record {
  id_eq_iff = λ a b. ground (arith, str_eq_iff a.0 b.0, str_eq_iff a.1 b.1);
  td_eq_iff = str_eq_iff;
  td_lt_names = λ a b. refl;
  td_name_injective = λ a b e. e;
  td_from_name = λ a n. rw n refl;
  id_from_parts = λ a n. rw n refl;
}

abbrev pub selector : Selector
selector = record { type = codes "k8s"; value = codes "ns:a" }

abbrev pub other_selector : Selector
other_selector = record { type = codes "k8s"; value = codes "sa:b" }

abbrev pub entry : Str → Entry plain
entry id = record {
  id = id;
  spiffe_id = (codes "example.org", codes "/a");
  parent_id = (codes "example.org", codes "/node");
  selectors = selector ∷ other_selector ∷ [];
  x509_svid_ttl = pos 3000000000;
  jwt_svid_ttl = pos 0;
  federates_with = codes "b.org" ∷ codes "c.org" ∷ [];
  admin = false;
  downstream = false;
  dns_names = codes "a" ∷ codes "b" ∷ [];
  hint = codes "hint";
  store_svid = false;
}

abbrev pub object : ByRef → ByObject
object r = record { ref = r; uid = codes "uid"; creation_nano = pos 5; deletion_nano = none }

abbrev pub declared : ByRef → DeclaredEntry plain
declared r = record { entry = entry []; by = object r }

-- an older object
abbrev pub older : ByObject
older = record { ref = spiffe_id 1; uid = codes "uie"; creation_nano = pos 4; deletion_nano = none }

abbrev pub config : ReconcilerConfig plain
config = record {
  trust_domain = codes "example.org";
  cluster_name = codes "demo";
  cluster_domain = codes "cluster.local";
  class_name = [];
  watch_classless = true;
  reconcile = record {
    cluster_spiffe_ids = true;
    cluster_federated_trust_domains = true;
    cluster_static_entries = true;
  };
  entry_id_prefix = codes "m.";
  entry_id_prefix_cleanup = some (codes "old.");
  enable_entry_list_hint_filter = false;
}

pub object-IsTimely : (r : ByRef) → IsTimely (pos 0) (object r)
object-IsTimely r = record { created = (omega arith, omega arith); deleted = tt }

pub older-IsTimely : IsTimely (pos 0) older
older-IsTimely = record { created = (omega arith, omega arith); deleted = tt }

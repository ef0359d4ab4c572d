-- ===== src/SpireEntry/Preference/Order.antt =====
-- The order of preference is the documented one, as long as differences of timestamps fit an int64.
use spire_controller_manager.Prelude.{
  is_empty, ◌+◌, ◌<◌, ◌^◌, Str, str_lt, str_lt_asym, str_lt_negtrans, Bool, true, false, List, [],
  ◌∷◌, Option, none, some, if◌then◌else◌, ◌≡◌, ◌↔◌, refl, Perm, arith, All, ◌⊎◌, inl, inr,
}
use spire_controller_manager.Prelude.Sort.{
  insert, sort, IsSorted, WeakOrder, sort-IsSorted, sort-perm, sort-congr, sort-All,
}
use spire_controller_manager.Prelude.Int.{
  ℤ, pos, negsuc, ◌-ℤ◌, ltb_ℤ, to_int64, to_int64_id, pos_part, neg_part, ◌≤ℤ◌, ltb_ℤ-sub,
  ltb_ℤ-sub_pos,
}
use spire_controller_manager.Spiffe.{Spiffe}
use spire_controller_manager.SpireEntry.Preference.{
  ByObject, DeclaredEntry, object_cmp, object_less, sort_declared, deletion_cmp, uid_cmp,
}

-- A time in the 2^63 nanoseconds from `start` on.
abbrev pub InWindow : ℤ → ℤ → Type 0
InWindow start x =
    (start ≤ℤ x) × (pos_part x + neg_part start < pos_part start + neg_part x + 2 ^ 63)

abbrev InWindow? : ℤ → Option ℤ → Type 0
InWindow? start none = Unit
InWindow? start (some x) = InWindow start x

-- The timestamps of an object lie in one window of some 292 years.
pub record IsTimely (start : ℤ) (b : ByObject) : Type 0 where
  pub created : InWindow start b.creation_nano
  pub deleted : InWindow? start b.deletion_nano

diff_exact : (start x y : ℤ) → InWindow start x → InWindow start y → to_int64 (x -ℤ y) ≡ x -ℤ y
unfolding ◌-ℤ◌
diff_exact start x y hx hy = to_int64_id (x -ℤ y) (ground arith)

-- the order without the conversions
deletion_before : Option ℤ → Option ℤ → Bool → Bool
deletion_before none none rest = rest
deletion_before (some x) none rest = false
deletion_before none (some y) rest = true
deletion_before (some x) (some y) rest =
    if ltb_ℤ x y then false else if ltb_ℤ y x then true else rest

before : ByObject → ByObject → Bool
unfolding deletion_before
before a b =
    if ltb_ℤ a.creation_nano b.creation_nano
    then true
    else if ltb_ℤ b.creation_nano a.creation_nano
    then false
    else deletion_before a.deletion_nano b.deletion_nano (str_lt a.uid b.uid)

deletion_less :
    (start : ℤ) (x y : Option ℤ) (a b : Str)
    → InWindow? start x
    → InWindow? start y
    → ltb_ℤ (deletion_cmp x y (uid_cmp a b)) (pos 0) ≡ deletion_before x y (str_lt a b)
unfolding deletion_cmp uid_cmp deletion_before
deletion_less start none none a b hx hy = ground arith
deletion_less start (some x) none a b hx hy = refl
deletion_less start none (some y) a b hx hy = refl
deletion_less start (some x) (some y) a b hx hy =
    rw (diff_exact start x y hx hy) (ground (arith, ltb_ℤ-sub x y, ltb_ℤ-sub_pos x y))

less-eq-before :
    (start : ℤ) (a b : ByObject)
    → IsTimely start a
    → IsTimely start b
    → object_less a b ≡ before a b
unfolding object_less object_cmp before
less-eq-before start a b ha hb =
    rw (diff_exact start a.creation_nano b.creation_nano ha.created hb.created) (
      ground (
        arith,
        ltb_ℤ-sub a.creation_nano b.creation_nano,
        ltb_ℤ-sub_pos a.creation_nano b.creation_nano,
        deletion_less start a.deletion_nano b.deletion_nano a.uid b.uid ha.deleted hb.deleted,
      ))

deletion_before-asym :
    (x y : Option ℤ) (a b : Str)
    → deletion_before x y (str_lt a b) ≡ true
    → deletion_before y x (str_lt b a) ≡ false
unfolding deletion_before
deletion_before-asym none none a b h = str_lt_asym a b h
deletion_before-asym (some x) none a b h = ground arith
deletion_before-asym none (some y) a b h = refl
deletion_before-asym (some x) (some y) a b h = ground (arith, str_lt_asym a b)

deletion_before-negtrans :
    (x y z : Option ℤ) (a b c : Str)
    → deletion_before x y (str_lt a b) ≡ false
    → deletion_before y z (str_lt b c) ≡ false
    → deletion_before x z (str_lt a c) ≡ false
unfolding deletion_before
deletion_before-negtrans none none none a b c h k = str_lt_negtrans a b c h k
deletion_before-negtrans none none (some z) a b c h k = ground arith
deletion_before-negtrans none (some y) z a b c h k = ground arith
deletion_before-negtrans (some x) none none a b c h k = refl
deletion_before-negtrans (some x) none (some z) a b c h k = ground arith
deletion_before-negtrans (some x) (some y) none a b c h k = refl
deletion_before-negtrans (some x) (some y) (some z) a b c h k =
    ground (arith, str_lt_negtrans a b c)

before-asym : (a b : ByObject) → before a b ≡ true → before b a ≡ false
unfolding before
before-asym a b h = ground (arith, deletion_before-asym a.deletion_nano b.deletion_nano a.uid b.uid)

before-negtrans : (a b c : ByObject) → before a b ≡ false → before b c ≡ false → before a c ≡ false
unfolding before
before-negtrans a b c h k = ground (
  arith,
  deletion_before-negtrans a.deletion_nano b.deletion_nano c.deletion_nano a.uid b.uid c.uid,
)

module _ {sp : Spiffe} where
  before_order : WeakOrder {A = DeclaredEntry sp} (λ d e. before d.by e.by)
  before_order = record {
    asym = λ d e. before-asym d.by e.by;
    negtrans = λ d e f. before-negtrans d.by e.by f.by;
  }

  abbrev pub AllTimely : ℤ → List (DeclaredEntry sp) → Type 0
  AllTimely start = All (λ d. IsTimely start d.by)

  sort_declared-eq :
      (start : ℤ) (ds : List (DeclaredEntry sp))
      → AllTimely start ds
      → sort_declared ds ≡ sort (λ d e. before d.by e.by) ds
  unfolding sort_declared
  sort_declared-eq start ds h =
      sort-congr {P = λ d. IsTimely start d.by} (λ d e. less-eq-before start d.by e.by) ds h

  -- sorting loses and invents no declared entry
  pub sort_declared-perm : (ds : List (DeclaredEntry sp)) → Perm (sort_declared ds) ds
  unfolding sort_declared
  sort_declared-perm ds = sort-perm _ ds

  sort_declared-All :
      (start : ℤ) (ds : List (DeclaredEntry sp))
      → AllTimely start ds
      → AllTimely start (sort_declared ds)
  unfolding sort_declared
  sort_declared-All start ds h = sort-All (λ d. IsTimely start d.by) _ ds h

  sort_declared-IsSorted :
      (start : ℤ) (ds : List (DeclaredEntry sp))
      → AllTimely start ds
      → IsSorted (λ (x y : DeclaredEntry sp). before x.by y.by) (sort_declared ds)
  sort_declared-IsSorted start ds h =
      rw (sort_declared-eq start ds h) (sort-IsSorted before_order ds)

  no_better :
      (start : ℤ) (h : ByObject) (rest : List (DeclaredEntry sp))
      → IsTimely start h
      → AllTimely start rest
      → All (λ d. before d.by h ≡ false) rest
      → All (λ d. pos 0 ≤ℤ object_cmp d.by h) rest
  unfolding object_less
  no_better start h [] th tr a = tt
  no_better start h (d ∷ ds) th tr a =
      (ground (arith, less-eq-before start d.by h tr.0 th), no_better start h ds th tr.1 a.1)

  -- The declared entry that stands first after the sort is preferred: the list is a permutation of
  -- what was declared, and against no other entry does objectCmp put the first one second. All
  -- timestamps lie in one window of 2^63 nanoseconds.
  pub sort_declared-first :
      (start : ℤ) (ds : List (DeclaredEntry sp)) (d : DeclaredEntry sp)
      (rest : List (DeclaredEntry sp))
      → AllTimely start ds
      → sort_declared ds ≡ d ∷ rest
      → Perm (d ∷ rest) ds × All (λ e. pos 0 ≤ℤ object_cmp e.by d.by) rest
  sort_declared-first start ds d rest t e =
      (rw e at (sort_declared-perm ds), no_better start d.by rest timely.0 timely.1 sorted.0)
    where
      timely : AllTimely start (d ∷ rest)
      timely = rw e at (sort_declared-All start ds t)

      sorted : IsSorted (λ (x y : DeclaredEntry sp). before x.by y.by) (d ∷ rest)
      sorted = rw e at (sort_declared-IsSorted start ds t)

-- x is the deletion time of the preferred object: it has none, or a later one.
abbrev DeletedLater : Option ℤ → Option ℤ → Type 0
DeletedLater none (some y) = Unit
DeletedLater (some x) (some y) = ltb_ℤ y x ≡ true
DeletedLater _ none = ⊥

-- The preferred object is older; or as old and, where the other is being deleted, not being deleted
-- or deleted later; or the same in both and of the smaller UID.
abbrev pub IsPreferred : ByObject → ByObject → Type 0
IsPreferred a b =
    (ltb_ℤ a.creation_nano b.creation_nano ≡ true)
    ⊎ ((a.creation_nano ≡ b.creation_nano)
        × (DeletedLater a.deletion_nano b.deletion_nano
            ⊎ ((a.deletion_nano ≡ b.deletion_nano) × (str_lt a.uid b.uid ≡ true))))

ltb_ℤ-eq : (x y : ℤ) → ltb_ℤ x y ≡ false → ltb_ℤ y x ≡ false → x ≡ y
ltb_ℤ-eq (pos a) (pos b) h k = ground arith
ltb_ℤ-eq (negsuc a) (negsuc b) h k = ground arith
ltb_ℤ-eq (pos a) (negsuc b) h k = ground arith
ltb_ℤ-eq (negsuc a) (pos b) h k = ground arith

deletion_before→ :
    (x y : Option ℤ) (r : Bool)
    → deletion_before x y r ≡ true
    → DeletedLater x y ⊎ ((x ≡ y) × (r ≡ true))
unfolding deletion_before
deletion_before→ none none r h = inr (refl, h)
deletion_before→ none (some y) r h = inl tt
deletion_before→ (some x) none r h = cc
deletion_before→ (some x) (some y) r h = ground (arith, ltb_ℤ-eq x y)

before→IsPreferred : (a b : ByObject) → before a b ≡ true → IsPreferred a b
unfolding before
before→IsPreferred a b h = ground (
  arith,
  ltb_ℤ-eq a.creation_nano b.creation_nano,
  deletion_before→ a.deletion_nano b.deletion_nano (str_lt a.uid b.uid),
)

IsPreferred→before : (a b : ByObject) → IsPreferred a b → before a b ≡ true
unfolding before deletion_before
IsPreferred→before a b h = ground arith

-- objectCmp is negative exactly where the first object is preferred, if all timestamps lie in one
-- window of 2^63 nanoseconds.
pub object_cmp_iff :
    (start : ℤ) (a b : ByObject)
    → IsTimely start a
    → IsTimely start b
    → (ltb_ℤ (object_cmp a b) (pos 0) ≡ true) ↔ IsPreferred a b
unfolding object_less
object_cmp_iff start a b ta tb =
    rw (less-eq-before start a b ta tb) (before→IsPreferred a b, IsPreferred→before a b)

module _ {sp : Spiffe} where
  -- sorting keeps an empty list empty and no other
  pub is_empty-sort_declared :
      (ds : List (DeclaredEntry sp)) → is_empty (sort_declared ds) ≡ is_empty ds
  unfolding sort_declared
  is_empty-sort_declared [] = refl
  is_empty-sort_declared (d ∷ ds) = is_empty-insert d (sort_declared ds)
    where
      is_empty-insert :
          (d : DeclaredEntry sp) (es : List (DeclaredEntry sp))
          → is_empty (insert (λ x y. object_less x.by y.by) d es) ≡ false
      is_empty-insert d [] = refl
      is_empty-insert d (e ∷ es) = ground arith

  -- what holds of all that is declared holds of the sorted list
  pub sort_declared-keeps :
      (P : DeclaredEntry sp → Type 0) (ds : List (DeclaredEntry sp))
      → All P ds
      → All P (sort_declared ds)
  unfolding sort_declared
  sort_declared-keeps P ds h = sort-All P _ ds h

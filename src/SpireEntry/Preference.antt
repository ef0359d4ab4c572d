-- ===== src/SpireEntry/Preference.antt =====
-- The objects that declare entries (by.go), the order of preference between them (objectCmp) and
-- the sort by it. A byObject is the metadata that the order reads and a reference to the resource
-- whose next status it updates.
pub mod Order
use spire_controller_manager.Prelude.{ℕ, Str, str_lt, Bool, List, Option, none, some, if◌then◌else◌}
use spire_controller_manager.Prelude.Sort.{sort}
use spire_controller_manager.Prelude.Int.{ℤ, pos, negsuc, ◌-ℤ◌, ltb_ℤ, to_int64}
use spire_controller_manager.Spiffe.{Spiffe}
use spire_controller_manager.SpireApi.Types.{Entry}

-- The two implementations of byObject, as positions in the lists that the reconciler holds.
pub data ByRef : Type 0 where
  static_entry : ℕ → ByRef
  spiffe_id : ℕ → ByRef

-- GetUID, and the UnixNano of GetCreationTimestamp and of GetDeletionTimestamp.
pub record ByObject : Type 0 where
  pub ref : ByRef
  pub uid : Str
  pub creation_nano : ℤ
  pub deletion_nano : Option ℤ

pub record DeclaredEntry (sp : Spiffe) : Type 0 where
  pub entry : Entry sp
  pub by : ByObject

uid_cmp : Str → Str → ℤ
uid_cmp a b = if str_lt a b then negsuc 0 else if str_lt b a then pos 1 else pos 0

-- the switch over the deletion timestamps; `rest` is the code behind it
deletion_cmp : Option ℤ → Option ℤ → ℤ → ℤ
deletion_cmp none none rest = rest
deletion_cmp (some x) none rest = pos 1
deletion_cmp none (some y) rest = negsuc 0
deletion_cmp (some x) (some y) rest =
    let diff = to_int64 (x -ℤ y) in
    if ltb_ℤ diff (pos 0) then pos 1 else if ltb_ℤ (pos 0) diff then negsuc 0 else rest

unfoldable pub object_cmp : ByObject → ByObject → ℤ
unfolding deletion_cmp uid_cmp
object_cmp a b =
    let diff = to_int64 (a.creation_nano -ℤ b.creation_nano) in
    if ltb_ℤ diff (pos 0)
    then negsuc 0
    else if ltb_ℤ (pos 0) diff
    then pos 1
    else deletion_cmp a.deletion_nano b.deletion_nano (uid_cmp a.uid b.uid)

-- the function that sort.Slice is given
object_less : ByObject → ByObject → Bool
object_less a b = ltb_ℤ (object_cmp a b) (pos 0)

unfoldable pub sort_declared : {sp : Spiffe} → List (DeclaredEntry sp) → List (DeclaredEntry sp)
unfolding sort object_less
sort_declared = sort (λ d e. object_less d.by e.by)

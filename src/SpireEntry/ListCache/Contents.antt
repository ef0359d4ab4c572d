-- ===== src/SpireEntry/ListCache/Contents.antt =====
-- What the mirror of the entries holds.
use mathlib.Core.List.{Permᴰ}
use mathlib.Core.List.Perm
use mathlib.Core.Logic.{∥∥₁_map}
use spire_controller_manager.Prelude.{
  Str, str_eq, str_eq_refl, true, false, List, [], ◌∷◌, ◌++◌, ◌≡◌, refl, ap, sym, ◌∙◌, arith, Perm,
  All, append-nil, append_assoc,
}
use spire_controller_manager.Prelude.Assoc.{Assoc, insert}
use spire_controller_manager.Prelude.Int.{ℤ, ltb_ℤ, ◌+ℤ◌}
use spire_controller_manager.Spiffe.{Spiffe}
use spire_controller_manager.SpireApi.Types.{Entry}
use spire_controller_manager.SpireEntry.Partition.Ownership.{DistinctIds}
use spire_controller_manager.SpireEntry.ListCache.{
  EntryListCache, fresh, snapshot, replace, values, store_all,
}

module _ {sp : Spiffe} where
  keyed : List (Entry sp) → Assoc (Entry sp)
  keyed [] = []
  keyed (e ∷ es) = (e.id, e) ∷ keyed es

  insert_new :
      (es : List (Entry sp)) (e : Entry sp)
      → All (λ f. str_eq f.id e.id ≡ false) es
      → insert e.id e (keyed es) ≡ keyed (es ++ e ∷ [])
  unfolding insert keyed
  insert_new [] e h = refl
  insert_new (f ∷ es) e h = ground (arith, insert_new es e h.1)

  apart_of :
      (acc es : List (Entry sp)) (e : Entry sp)
      → DistinctIds (acc ++ e ∷ es)
      → All (λ f. str_eq f.id e.id ≡ false) acc
  apart_of [] es e d = tt
  apart_of (f ∷ acc) es e d = (middle acc es f e d.0, apart_of acc es e d.1)
    where
      middle :
          (acc es : List (Entry sp)) (f e : Entry sp)
          → All (λ g. str_eq f.id g.id ≡ false) (acc ++ e ∷ es)
          → str_eq f.id e.id ≡ false
      middle [] es f e a = a.0
      middle (g ∷ acc) es f e a = middle acc es f e a.1

  store_all-keyed :
      (es acc : List (Entry sp))
      → DistinctIds (acc ++ es)
      → store_all es (keyed acc) ≡ keyed (acc ++ es)
  unfolding store_all
  store_all-keyed [] acc d = ap keyed (sym (append-nil acc))
  store_all-keyed (e ∷ es) acc d =
      rw (insert_new acc e (apart_of acc es e d))
        (store_all-keyed es (acc ++ e ∷ []) (rw append_assoc d) ∙ ap keyed (append_assoc acc _ es))

  values-keyed : (es : List (Entry sp)) → values (keyed es) ≡ es
  unfolding values keyed
  values-keyed [] = refl
  values-keyed (e ∷ es) = ap (◌∷◌ e) (values-keyed es)

  values-permᴰ : {m n : Assoc (Entry sp)} → Permᴰ m n → Permᴰ (values m) (values n)
  unfolding values
  values-permᴰ Permᴰ.nil = Permᴰ.nil
  values-permᴰ (Permᴰ.cons e d) = Permᴰ.cons (ap (λ p. p.1) e) (values-permᴰ d)
  values-permᴰ (Permᴰ.swap e f) = Permᴰ.swap (ap (λ p. p.1) e) (ap (λ p. p.1) f)
  values-permᴰ (Permᴰ.trans d e) = Permᴰ.trans (values-permᴰ d) (values-permᴰ e)

  values-perm : {m n : Assoc (Entry sp)} → Perm m n → Perm (values m) (values n)
  values-perm {m} {n} p = ∥∥₁_map {B = Permᴰ (values m) (values n)} p values-permᴰ

  -- Right after a replacement by entries of distinct IDs, the snapshot is a permutation of them,
  -- whatever the order in which the map is walked.
  pub snapshot-replace :
      (range : Assoc (Entry sp) → Assoc (Entry sp))
      → ((m : Assoc (Entry sp)) → Perm (range m) m)
      → (now : ℤ) (key : Str) (es : List (Entry sp)) (c : EntryListCache sp) → DistinctIds es
      → Perm (snapshot range (replace now key es c)) es
  unfolding snapshot replace keyed
  snapshot-replace range perm now key es c d =
      Perm.trans (values-perm (perm (store_all es [])))
        (rw (store_all-keyed es [] d) (rw values-keyed (Perm.refl es)))

  -- what was stored is served for its own hints until the reload is due
  pub fresh-replace :
      (now later : ℤ) (key : Str) (es : List (Entry sp)) (c : EntryListCache sp)
      → ltb_ℤ now (later +ℤ c.reload_after) ≡ true
      → fresh now (replace later key es c) key ≡ true
  unfolding fresh replace
  fresh-replace now later key es c due = rw (str_eq_refl, due)

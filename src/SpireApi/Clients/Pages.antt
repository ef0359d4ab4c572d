-- ===== src/SpireApi/Clients/Pages.antt =====
-- The loop over the pages of a listing.
use spire_controller_manager.Prelude.{
  ℕ, zero, suc, ◌≤◌, ◌<◌, Str, false, List, [], ◌∷◌, ◌++◌, Option, some, length, is_empty, ◌≡◌,
  refl, ap, ◌∙◌, arith, append-nil, append_assoc,
}
use spire_controller_manager.SpireApi.Clients.{Page, list_pages}

module _ {X W : Type 0} (call : Str → W → Option (Page X) × W) where
  -- From a token and a state the server answers with these pages, the last one without a token, and
  -- is left in another state.
  pub data Serves : Str → W → List X → List (List X) → W → Type 0 where
    last :
        {token : Str} {w w' : W} {xs : List X}
        → call token w ≡ (some (xs, []), w')
        → Serves token w xs [] w'
    more :
        {token : Str} {w w' w'' : W} {xs ys : List X} {next : Str} {pages : List (List X)}
        → call token w ≡ (some (xs, next), w')
        → is_empty next ≡ false
        → Serves next w' ys pages w''
        → Serves token w xs (ys ∷ pages) w''

  pub concat : List (List X) → List X
  concat [] = []
  concat (p ∷ ps) = p ++ concat ps

  pages-from :
      (f : ℕ) (token : Str) (acc : List X) (w w' : W) (xs : List X) (pages : List (List X))
      → Serves token w xs pages w'
      → suc (length pages) ≤ f
      → list_pages call f token acc w ≡ (some (acc ++ (xs ++ concat pages)), w')
  unfolding list_pages concat
  pages-from zero token acc w w' xs pages s h = ground arith
  pages-from (suc f) token acc w w' xs [] (last e) h = rw (e, append-nil xs) refl
  pages-from (suc f) token acc w w' xs (ys ∷ pages) (more {w' = w''} {next = next} e n s) h =
      rw (e, n)
        (pages-from f next (acc ++ xs) w'' w' ys pages s (omega (arith, h))
          ∙ ap (λ l. (some l, w')) (append_assoc acc xs _))

  -- With fuel for each page, the loop returns the elements of all pages, in order.
  pub list_pages-all :
      (f : ℕ) (w w' : W) (xs : List X) (pages : List (List X))
      → Serves [] w xs pages w'
      → length pages < f
      → list_pages call f [] [] w ≡ (some (xs ++ concat pages), w')
  list_pages-all f w w' xs pages s h = pages-from f [] [] w w' xs pages s (omega (arith, h))

-- ===== src/Api/Merkle/Levels.antt =====
-- The levels that buildMerkleTree of server/api/handlers.go makes.
use facto.Base.{
  ℕ, zero, suc, ◌+◌, ◌*◌, ◌/◌, ◌<◌, ◌≡◌, refl, List, [], ◌∷◌, ◌++◌, some, arith, ◌∙◌, sym, ap,
  length, append_assoc, append-nil, ap₂, lt→ltb,
}
use facto.Go.Text.{Bytes}
use facto.Go.Sha.{Digest}
use facto.Tree
use facto.Tree.Size
use facto.Api.Merkle.{pad, hash_pair, next_level, build_levels, cons_hash}

pub pad-eq-pad_level : (xs : List Bytes) → 1 < length xs → pad xs ≡ Tree.pad_level xs
unfolding pad Tree.pad_level
pad-eq-pad_level xs l = ground (arith, lt→ltb 1 (length xs) l)

module _ (sha256 : Digest) where
  -- An even level has no hash without a partner.
  pub next_level-even :
      (k : ℕ) (xs : List Bytes)
      → length xs ≡ k * 2
      → next_level sha256 xs ≡ some (Tree.pairs (hash_pair sha256) xs)
  unfolding next_level Tree.pairs
  next_level-even k [] e = refl
  next_level-even k (x ∷ []) e = absurd (omega arith)
  next_level-even zero (x ∷ y ∷ xs) e = absurd (omega arith)
  next_level-even (suc k) (x ∷ y ∷ xs) e =
      ap (cons_hash sha256 (hash_pair sha256 x y)) (next_level-even k xs (omega arith))

  -- The levels above one, up to the root.
  unfoldable pub above : ℕ → List Bytes → List (List Bytes)
  above zero xs = []
  above (suc fuel) [] = []
  above (suc fuel) (x ∷ []) = []
  above (suc fuel) (x ∷ y ∷ xs) =
      let next = Tree.pairs (hash_pair sha256) (Tree.pad_level (x ∷ y ∷ xs)) in
      next ∷ above fuel next

  next_level-pad :
      (xs : List Bytes)
      → 1 < length xs
      → next_level sha256 (pad xs) ≡ some (Tree.pairs (hash_pair sha256) (Tree.pad_level xs))
  next_level-pad xs l =
      rw (pad-eq-pad_level xs l)
        (next_level-even ((length xs + 1) / 2) (Tree.pad_level xs) (Size.length-pad_level xs l))

  -- The loop appends the levels above, and ends at the root.
  pub build_levels-lem :
      (fuel : ℕ) (xs : List Bytes) (levels : List (List Bytes)) (r : Bytes)
      → Tree.root (hash_pair sha256) fuel xs ≡ some r
      → build_levels sha256 fuel xs levels ≡ some (levels ++ above fuel xs, r)
  unfolding build_levels Tree.root above
  build_levels-lem zero xs levels r e = absurd (cc e)
  build_levels-lem (suc fuel) [] levels r e = absurd (cc e)
  build_levels-lem (suc fuel) (x ∷ []) levels r e =
      ap₂ (λ l h. some (l, h)) (sym (append-nil levels)) (cc e)
  build_levels-lem (suc fuel) (x ∷ y ∷ xs) levels r e =
      let next = Tree.pairs (hash_pair sha256) (Tree.pad_level (x ∷ y ∷ xs)) in
      rw (next_level-pad (x ∷ y ∷ xs) (omega arith), build_levels)
        (build_levels-lem fuel next (levels ++ next ∷ []) r e
          ∙ ap (λ l. some (l, r)) (append_assoc levels (next ∷ []) (above fuel next)))

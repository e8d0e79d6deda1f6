-- ===== src/Api/Merkle/Correct.antt =====
-- The evidence package's Merkle tree of server/api/handlers.go against the processor's VerifyProof and
-- its root.
use facto.Base.{
  ℕ, zero, suc, ◌+◌, ◌-◌, ◌*◌, ◌/◌, ◌%◌, ◌<◌, ◌≡◌, refl, List, [], ◌∷◌, ◌++◌, some, arith, ◌∙◌, sym,
  ap, ap₂, true, false, length, get_elem?, get_elem?-lt, get_elem?-some_lt, ==_iff, ==_ne, ◌==◌,
  Bool-cases, lt→ltb, eq_bytes, eq_bytes_refl, inl, inr, map,
}
use facto.Base.Int.{pos}
use facto.Go.Text.{Bytes, codes}
use facto.Go.Sha.{Digest}
use facto.Tree
use facto.Tree.Size
use facto.Processor.Merkle
use facto.Processor.Merkle.Correct.{get_elem?-pad_level, root_hash-build_merkle_tree}
use facto.Api.Merkle.{
  MerkleTree, ProofElement, pad, hash_pair, element_at, proof_from, get_proof, build_merkle_tree,
  finish,
}
use facto.Api.Merkle.Levels.{pad-eq-pad_level, above, build_levels-lem}

-- An element as VerifyProof of the processor reads it.
abbrev pub to_processor : ProofElement → Merkle.ProofElement
to_processor e = record { hash = e.hash; position = e.position }

abbrev double : ℕ → ℕ
double zero = 0
double (suc j) = suc (suc (double j))

double-half : (j i : ℕ) → i ≡ j * 2 → i ≡ double j
double-half zero i e = omega arith
double-half (suc j) i e = omega (arith, double-half j (j * 2) refl)

module _ (sha256 : Digest) where
  get_elem?-pairs :
      (xs : List Bytes) (j : ℕ) (a b : Bytes)
      → get_elem? xs (double j) ≡ some a
      → get_elem? xs (suc (double j)) ≡ some b
      → get_elem? (Tree.pairs (hash_pair sha256) xs) j ≡ some (hash_pair sha256 a b)
  unfolding Tree.pairs
  get_elem?-pairs [] j a b e f = absurd (cc e)
  get_elem?-pairs (x ∷ []) zero a b e f = absurd (cc f)
  get_elem?-pairs (x ∷ []) (suc j) a b e f = absurd (cc e)
  get_elem?-pairs (x ∷ y ∷ xs) zero a b e f = cc
  get_elem?-pairs (x ∷ y ∷ xs) (suc j) a b e f = get_elem?-pairs xs j a b e f

  abbrev folded : Bytes → List ProofElement → Bytes
  folded leaf es = Merkle.fold_proof sha256 leaf (map to_processor es)

  element_right :
      (nodes : List Bytes) (i : ℕ) (leaf b : Bytes) (rest : List ProofElement)
      → get_elem? nodes i ≡ some b
      → folded leaf (element_at nodes i (codes "right") ++ rest)
        ≡ folded (hash_pair sha256 leaf b) rest
  unfolding element_at Merkle.fold_proof Merkle.fold_element hash_pair Merkle.hash_pair eq_bytes
  element_right nodes i leaf b rest e = rw (e, element_at)

  element_left :
      (nodes : List Bytes) (i : ℕ) (leaf a : Bytes) (rest : List ProofElement)
      → get_elem? nodes i ≡ some a
      → folded leaf (element_at nodes i (codes "left") ++ rest)
        ≡ folded (hash_pair sha256 a leaf) rest
  unfolding element_at Merkle.fold_proof Merkle.fold_element hash_pair Merkle.hash_pair eq_bytes
  element_left nodes i leaf a rest e = rw (e, element_at)

  -- One round of getProof: a node of the next level, to which the element leads.
  record Climbs (xs : List Bytes) (i : ℕ) (leaf : Bytes) (levels : List (List Bytes)) : Type 0 where
    up : Bytes
    there : get_elem? (Tree.pairs (hash_pair sha256) (Tree.pad_level xs)) (i / 2) ≡ some up
    folds : folded leaf (proof_from (xs ∷ levels) i) ≡ folded up (proof_from levels (i / 2))

  module _ (xs next : List Bytes) (levels : List (List Bytes)) (i : ℕ) (leaf : Bytes) where
    proof_from-even :
        (i % 2 == 0) ≡ true
        → proof_from (xs ∷ next ∷ levels) i
          ≡ element_at (pad xs) (i + 1) (codes "right") ++ proof_from (next ∷ levels) (i / 2)
    unfolding proof_from
    proof_from-even t = rw t

    proof_from-odd :
        (i % 2 == 0) ≡ false
        → proof_from (xs ∷ next ∷ levels) i
          ≡ element_at (pad xs) (i - 1) (codes "left") ++ proof_from (next ∷ levels) (i / 2)
    unfolding proof_from
    proof_from-odd t = rw t

    module _ (l : 1 < length xs) (e : get_elem? xs i ≡ some leaf) where
      padded : get_elem? (Tree.pad_level xs) i ≡ some leaf
      padded = get_elem?-pad_level xs i leaf e

      padded_even : length (Tree.pad_level xs) ≡ (length xs + 1) / 2 * 2
      padded_even = Size.length-pad_level xs l

      Climbs-even : (i % 2 == 0) ≡ true → Climbs xs i leaf (next ∷ levels)
      Climbs-even t =
          let at : i ≡ double (i / 2) =
            double-half (i / 2) i (omega (arith, (==_iff (i % 2) 0).0 t)) in
          let in_range = get_elem?-some_lt xs i leaf e in
          let (b, f) =
            get_elem?-lt (Tree.pad_level xs) (suc i)
              (omega (arith, padded_even, (==_iff (i % 2) 0).0 t, in_range)) in
          let same : get_elem? (pad xs) (i + 1) ≡ some b =
            ap₂ get_elem? (pad-eq-pad_level xs l) (omega arith) ∙ f in
          record {
            up = hash_pair sha256 leaf b;
            there =
                get_elem?-pairs (Tree.pad_level xs) (i / 2) leaf b
                  (ap (get_elem? (Tree.pad_level xs)) (sym at) ∙ padded)
                  (ap (λ k. get_elem? (Tree.pad_level xs) (suc k)) (sym at) ∙ f);
            folds =
                ap (folded leaf) (proof_from-even t)
                ∙ element_right (pad xs) (i + 1) leaf b (proof_from (next ∷ levels) (i / 2)) same;
          }

      Climbs-odd : (i % 2 == 0) ≡ false → Climbs xs i leaf (next ∷ levels)
      Climbs-odd t =
          let odd : i ≡ suc (i / 2 * 2) = omega (arith, ==_ne (i % 2) 0 t) in
          let at : i - 1 ≡ double (i / 2) = double-half (i / 2) (i - 1) (omega (arith, odd)) in
          let in_range = get_elem?-some_lt xs i leaf e in
          let (a, f) =
            get_elem?-lt (Tree.pad_level xs) (i - 1) (omega (arith, padded_even, in_range)) in
          let same : get_elem? (pad xs) (i - 1) ≡ some a =
            ap (λ l. get_elem? l (i - 1)) (pad-eq-pad_level xs l) ∙ f in
          record {
            up = hash_pair sha256 a leaf;
            there =
                get_elem?-pairs (Tree.pad_level xs) (i / 2) a leaf
                  (ap (get_elem? (Tree.pad_level xs)) (sym at) ∙ f)
                  (ap (get_elem? (Tree.pad_level xs)) (omega (arith, at, odd)) ∙ padded);
            folds =
                ap (folded leaf) (proof_from-odd t)
                ∙ element_left (pad xs) (i - 1) leaf a (proof_from (next ∷ levels) (i / 2)) same;
          }

      climbs : Climbs xs i leaf (next ∷ levels)
      climbs = elim (Bool-cases (i % 2 == 0)) [ inl t ↦ Climbs-even t | inr t ↦ Climbs-odd t ]

  folded_top : (leaf x : Bytes) (i : ℕ) → folded leaf (proof_from ((x ∷ []) ∷ []) i) ≡ leaf
  unfolding proof_from Merkle.fold_proof
  folded_top leaf x i = refl

  -- Folding the elements for a hash of a level gives the root above it.
  proof_from-root :
      (fuel : ℕ) (xs : List Bytes) (i : ℕ) (leaf r : Bytes)
      → get_elem? xs i ≡ some leaf
      → Tree.root (hash_pair sha256) fuel xs ≡ some r
      → folded leaf (proof_from (xs ∷ above sha256 fuel xs) i) ≡ r
  unfolding above Tree.root
  proof_from-root zero xs i leaf r e f = absurd (cc f)
  proof_from-root (suc fuel) [] i leaf r e f = absurd (cc e)
  proof_from-root (suc fuel) (x ∷ []) zero leaf r e f = folded_top leaf x 0 ∙ cc
  proof_from-root (suc fuel) (x ∷ []) (suc i) leaf r e f = absurd (cc e)
  proof_from-root (suc fuel) (x ∷ y ∷ xs) i leaf r e f =
      let next = Tree.pairs (hash_pair sha256) (Tree.pad_level (x ∷ y ∷ xs)) in
      let c = climbs (x ∷ y ∷ xs) next (above sha256 fuel next) i leaf (omega arith) e in
      c.folds ∙ proof_from-root fuel next (i / 2) c.up r c.there f

  built :
      (x : Bytes) (xs : List Bytes) (r : Bytes)
      → Tree.root (hash_pair sha256) (suc (length xs)) (x ∷ xs) ≡ some r
      → build_merkle_tree sha256 (x ∷ xs)
        ≡ some (record {
          root = r;
          leaves = x ∷ xs;
          levels = (x ∷ xs) ∷ above sha256 (suc (length xs)) (x ∷ xs);
        })
  unfolding build_merkle_tree
  built x xs r e =
      ap (finish sha256 (x ∷ xs))
        (build_levels-lem sha256 (suc (length xs)) (x ∷ xs) ((x ∷ xs) ∷ []) r e)

  get_proof-in_range :
      (t : MerkleTree) (i : ℕ) → i < length t.leaves → get_proof t (pos i) ≡ proof_from t.levels i
  unfolding get_proof
  get_proof-in_range t i l = rw (lt→ltb i (length t.leaves) l)

  -- buildMerkleTree returns a tree for any hashes, and the elements that getProof gives for the index
  -- of one of them are a proof that the processor's VerifyProof accepts against the tree's root.
  pub verify_proof-package_proof :
      (x : Bytes) (xs : List Bytes) (i : ℕ) (leaf : Bytes)
      → get_elem? (x ∷ xs) i ≡ some leaf
      → (t : MerkleTree) × (build_merkle_tree sha256 (x ∷ xs) ≡ some t)
        × (Merkle.verify_proof sha256 leaf (map to_processor (get_proof t (pos i))) t.root ≡ true)
  unfolding Merkle.verify_proof
  verify_proof-package_proof x xs i leaf e =
      let fuel = suc (length xs) in
      let (r, f) = Size.root_total (hash_pair sha256) fuel (x ∷ xs) (omega arith) (omega arith) in
      let t : MerkleTree = record {
        root = r;
        leaves = x ∷ xs;
        levels = (x ∷ xs) ∷ above sha256 fuel (x ∷ xs);
      } in
      (
        t,
        built x xs r f,
        rw (get_proof-in_range t i (get_elem?-some_lt (x ∷ xs) i leaf e))
            (rw (proof_from-root fuel (x ∷ xs) i leaf r e f) (eq_bytes_refl r)),
      )

  -- For two events or more, the root of the evidence package is the root that the processor stores for
  -- the same hashes.
  pub package_root-eq-processor_root :
      (x y : Bytes) (xs : List Bytes)
      → (t : MerkleTree) × (p : Merkle.MerkleTree) × (h : Merkle.Heap) × (build_merkle_tree sha256
            (x ∷ y ∷ xs)
          ≡ some t)
        × (Merkle.build_merkle_tree sha256 (x ∷ y ∷ xs) ≡ some (p, h))
        × (t.root ≡ Merkle.root_hash h p)
  unfolding hash_pair Merkle.hash_pair
  package_root-eq-processor_root x y xs =
      let all = x ∷ y ∷ xs in
      let (p, h, made, found) =
        root_hash-build_merkle_tree sha256 x (y ∷ xs) (suc (length all)) (omega arith) in
      let f =
        Size.root-agree (hash_pair sha256) (length all) (suc (length all)) all _ (omega arith)
          (omega arith) found in
      (_, p, h, built x (y ∷ xs) (Merkle.root_hash h p) f, made, refl)

  root-one : (x : Bytes) → Tree.root (hash_pair sha256) 1 (x ∷ []) ≡ some x
  unfolding Tree.root
  root-one x = refl

  root-pair :
      (x : Bytes)
      → Tree.root (Merkle.hash_pair sha256) 3 (x ∷ x ∷ []) ≡ some (Merkle.hash_pair sha256 x x)
  unfolding Tree.root Tree.pad_level Tree.pairs
  root-pair x = refl

  -- For a single event the two roots differ in form: the package's is the hash itself, and the
  -- processor's combines the hash with itself.
  pub single_event_roots :
      (x : Bytes)
      → (t : MerkleTree) × (p : Merkle.MerkleTree) × (h : Merkle.Heap) × (build_merkle_tree sha256
            (x ∷ [])
          ≡ some t)
        × (Merkle.build_merkle_tree sha256 (x ∷ []) ≡ some (p, h))
        × (t.root ≡ x)
        × (Merkle.root_hash h p ≡ Merkle.hash_pair sha256 x x)
  single_event_roots x =
      let (p, h, made, found) = root_hash-build_merkle_tree sha256 x [] 3 (omega arith) in
      (_, p, h, built x [] x (root-one x), made, refl, cc (found, root-pair x))

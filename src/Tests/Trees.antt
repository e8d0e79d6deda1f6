-- ===== src/Tests/Trees.antt =====
-- Runs of the Merkle trees of server/processor/merkle.go and server/api/handlers.go.
use facto.Base.{
  ℕ, ◌≡◌, ◌≢◌, refl, arith, List, [], ◌∷◌, ◌++◌, map, some, none, true, get_elem?, length,
}
use facto.Base.Int.{pos}
use facto.Go.Text.{Bytes, codes}
use facto.Go.Hex
use facto.Tree
use facto.Processor.Merkle
use facto.Processor.Merkle.Whole.{leaf_hashes}
use facto.Processor.Merkle.Correct.{verify_proof-get_proof, root_hash-build_merkle_tree}
use facto.Api.Merkle as Package
use facto.Api.Merkle.Correct.{to_processor, verify_proof-package_proof, single_event_roots}
use facto.Tests.Data.{toy}

abbrev ab : Bytes
ab = codes "ab"

abbrev cd : Bytes
cd = codes "cd"

abbrev ef : Bytes
ef = codes "ef"

verify_proof-get_proof_example :
    (t : Merkle.MerkleTree) × (h : Merkle.Heap) × (proof : List Merkle.ProofElement)
    × (Merkle.build_merkle_tree toy (ab ∷ cd ∷ ef ∷ []) ≡ some (t, h))
    × (Merkle.get_proof h t (pos 2) ≡ some proof)
    × (Merkle.verify_proof toy ef proof (Merkle.root_hash h t) ≡ true)
verify_proof-get_proof_example = verify_proof-get_proof toy ab (cd ∷ ef ∷ []) 2 ef refl

root_hash-build_merkle_tree_example :
    (t : Merkle.MerkleTree) × (h : Merkle.Heap) × (Merkle.build_merkle_tree toy (ab ∷ cd ∷ ef ∷ [])
      ≡ some (t, h))
    × (Tree.root (Merkle.hash_pair toy) 4 (leaf_hashes (ab ∷ cd ∷ ef ∷ []))
        ≡ some (Merkle.root_hash h t))
root_hash-build_merkle_tree_example =
    root_hash-build_merkle_tree toy ab (cd ∷ ef ∷ []) 4 (omega arith)

abbrev digest_hash : Bytes
digest_hash = Hex.encode (toy.sum [])

abbrev one_element : List Merkle.ProofElement
one_element = record { hash = digest_hash; position = codes "left" } ∷ []

abbrev reached : Bytes
reached = Hex.encode (toy.sum (Hex.decode digest_hash ++ Hex.decode digest_hash))

verify_proof-package_proof_example :
    (t : Package.MerkleTree) × (Package.build_merkle_tree toy (ab ∷ cd ∷ ef ∷ []) ≡ some t)
    × (Merkle.verify_proof toy ef (map to_processor (Package.get_proof t (pos 2))) t.root ≡ true)
verify_proof-package_proof_example = verify_proof-package_proof toy ab (cd ∷ ef ∷ []) 2 ef refl

single_event_roots_example :
    (t : Package.MerkleTree) × (p : Merkle.MerkleTree) × (h : Merkle.Heap)
    × (Package.build_merkle_tree toy (ab ∷ []) ≡ some t)
    × (Merkle.build_merkle_tree toy (ab ∷ []) ≡ some (p, h))
    × (t.root ≡ ab)
    × (Merkle.root_hash h p ≡ Merkle.hash_pair toy ab ab)
single_event_roots_example = single_event_roots toy ab

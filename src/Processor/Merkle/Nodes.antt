-- ===== src/Processor/Merkle/Nodes.antt =====
-- How alloc, hashPair and the links of server/processor/merkle.go change the heap.
use facto.Base.{
  suc, ◌≤◌, ◌<◌, ◌≡◌, ◌≢◌, refl, ◌⊎◌, none, some, List, [], ◌∷◌, arith, All, ◌∙◌, All-map_imp, map,
  ap₂,
}
use facto.Go.Text.{Bytes}
use facto.Go.Sha.{Digest}
use facto.Processor.Merkle.{Ptr, MerkleNode, Heap, alloc, hash_pair, join}

abbrev pub In : Ptr → List Ptr → Type 0
In p [] = ⊥
In p (x ∷ xs) = (p ≡ x) ⊎ In p xs

-- The nodes of `h` keep their hashes in `h'`.
pub record Extends (h h' : Heap) : Type 0 where
  pub grows : h.next ≤ h'.next
  pub keeps : (p : Ptr) → p < h.next → (h'.cell p).hash ≡ (h.cell p).hash

pub Extends-refl : (h : Heap) → Extends h h
Extends-refl h = record { grows = omega arith; keeps = λ p l. refl }

pub Extends-trans : {a b c : Heap} → Extends a b → Extends b c → Extends a c
Extends-trans {a} {b} {c} x y = record {
  grows = omega arith;
  keeps = λ p l. y.keeps p (omega (arith, x.grows)) ∙ x.keeps p l;
}

abbrev pub AreIn : Heap → List Ptr → Type 0
AreIn h = All (λ p. p < h.next)

pub Extends-AreIn : {h h' : Heap} (ps : List Ptr) → Extends h h' → AreIn h ps → AreIn h' ps
Extends-AreIn {h} {h'} ps e =
    All-map_imp (λ p. p < h.next) (λ p. p < h'.next) (λ p l. omega (arith, e.grows)) ps

abbrev pub hashes : Heap → List Ptr → List Bytes
hashes h = map (λ p. (h.cell p).hash)

pub hashes-Extends :
    {h h' : Heap} (ps : List Ptr) → Extends h h' → AreIn h ps → hashes h' ps ≡ hashes h ps
hashes-Extends [] e i = refl
hashes-Extends (p ∷ ps) e i = ap₂ ◌∷◌ (e.keeps p i.0) (hashes-Extends ps e i.1)

pub alloc-Extends : (n : MerkleNode) (h : Heap) → Extends h (alloc n h).1
unfolding alloc
alloc-Extends n h = record { grows = omega arith; keeps = λ p l. ground arith }

module _ (sha256 : Digest) where
  module _ (l r : Ptr) (h : Heap) (hl : l < h.next) (hr : r < h.next) where
    abbrev joined : Heap
    joined = (join sha256 l r h).1

    pub join-Extends : Extends h joined
    unfolding join
    join-Extends = record { grows = ground arith; keeps = λ p x. ground arith }

    pub join_next : (joined.next ≡ suc h.next) × ((join sha256 l r h).0 ≡ h.next)
    unfolding join
    join_next = (refl, refl)

    -- The new parent.
    pub join_parent :
        ((joined.cell h.next).left ≡ some l)
        × ((joined.cell h.next).right ≡ some r)
        × ((joined.cell h.next).parent ≡ none)
        × ((joined.cell h.next).hash ≡ hash_pair sha256 (h.cell l).hash (h.cell r).hash)
    unfolding join
    join_parent = (ground arith, ground arith, ground arith, ground arith)

    -- The nodes that were there keep their children.
    pub join_children :
        (p : Ptr)
        → p < h.next
        → ((joined.cell p).left ≡ (h.cell p).left) × ((joined.cell p).right ≡ (h.cell p).right)
    unfolding join
    join_children p x = (ground arith, ground arith)

    -- The two children point at the new parent, and no other node is given another parent.
    pub join_links :
        (p : Ptr)
        → p < h.next
        → ((p ≡ l) × ((joined.cell p).parent ≡ some h.next))
          ⊎ ((p ≡ r) × ((joined.cell p).parent ≡ some h.next))
          ⊎ ((p ≢ l) × (p ≢ r) × ((joined.cell p).parent ≡ (h.cell p).parent))
    unfolding join
    join_links p x = grind arith

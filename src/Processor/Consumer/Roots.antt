-- ===== src/Processor/Consumer/Roots.antt =====
-- The Merkle roots that flush of server/processor/consumer.go stores, and the size of the batches.
use facto.Base.{
  ℕ, ◌<◌, ◌≡◌, refl, sym, ap, subst, inl, inr, List, [], ◌∷◌, Option, none, some, All, All-append,
  true, false, Bool, arith, length, length-map, leb, leb→gt, if◌then◌else◌,
}
use facto.Go.Text.{Bytes}
use facto.Go.Sha.{Digest}
use facto.Go.Library.{Codec}
use facto.Processor.Event.{FactoEvent}
use facto.Processor.Merkle
use facto.Processor.Storage.Batch.{
  Error, Database, MerkleRow, RootOutcome, stored, not_stored, insert_root, store_merkle_root,
}
use facto.Processor.Storage.Complete.{store_batch-Stored}
use facto.Processor.Consumer.{
  Consumer, Msg, Environment, Input, Exit, event_hashes, finish_batch, after_store, count_tree,
  reject, accept, select_loop, new_consumer, handle_message, handle_decoded, flush,
}
use facto.Processor.Consumer.Flush.{flush-some}
use facto.Processor.Consumer.Loop.{Kept, select_loop-Kept}

module _ (sha256 : Digest) where
  -- The row's root is that of the tree built from the row's hashes, which are as many as it counts.
  pub record IsRootOf (r : MerkleRow) : Type 0 where
    pub tree : Merkle.MerkleTree
    pub heap : Merkle.Heap
    pub built : Merkle.build_merkle_tree sha256 r.event_hashes ≡ some (tree, heap)
    pub root_is : r.root_hash ≡ Merkle.root_hash heap tree
    pub counted : r.event_count ≡ length r.event_hashes

  abbrev pub HasRoots : List Msg → Consumer → Type 0
  HasRoots received c = All IsRootOf c.db.merkle_roots

  insert_root-IsRootOf :
      (o : RootOutcome) (row : MerkleRow) (db : Database)
      → IsRootOf row
      → All IsRootOf db.merkle_roots
      → All IsRootOf (insert_root o row db).0.merkle_roots
  insert_root-IsRootOf stored row db r h = All-append IsRootOf db.merkle_roots (row ∷ []) h (r, tt)
  insert_root-IsRootOf (not_stored e true) row db r h =
      All-append IsRootOf db.merkle_roots (row ∷ []) h (r, tt)
  insert_root-IsRootOf (not_stored e false) row db r h = h

  module _ (env : Environment) (c : Consumer) (tree : Merkle.MerkleTree) (heap : Merkle.Heap) where
    after_store-HasRoots :
        (db : Database) (err : Option Error)
        → Merkle.build_merkle_tree sha256 (event_hashes c.events) ≡ some (tree, heap)
        → All IsRootOf db.merkle_roots
        → All IsRootOf
            (finish_batch
              (length c.events)
              (after_store env (Merkle.root_hash heap tree) db err (count_tree c))).db.merkle_roots
    unfolding finish_batch after_store store_merkle_root
    after_store-HasRoots db (some e) b h = h
    after_store-HasRoots db none b h =
        insert_root-IsRootOf env.root_outcome _ db
          (record {
            tree = tree;
            heap = heap;
            built = b;
            root_is = refl;
            counted = sym (length-map (λ (e : FactoEvent). e.proof.event_hash) c.events);
          })
          h

  module _ (codec : Codec) (unmarshal : Bytes → Option FactoEvent) where
    HasRoots-Kept : Kept sha256 codec unmarshal HasRoots
    unfolding reject accept
    HasRoots-Kept = record {
      on_flush = λ received env c c' x h.
          subst (λ d. All IsRootOf d.db.merkle_roots) (sym x.result)
            (after_store-HasRoots env c x.tree x.heap x.db x.err x.built (
              let s =
                store_batch-Stored codec env.now c.events c.db env.schedule x.db x.err x.stored in
              rw s.roots_kept h));
      on_reject = λ received m c d h. h;
      on_accept = λ received m e c d h. h;
    }

    -- If the roots that the database holds at the start are the roots of their hashes, then so are all
    -- that it holds after any inputs, each with the number of its hashes.
    pub merkle_roots-IsRootOf :
        (batch_size : ℕ) (db : Database) (inputs : List Input) (c : Consumer) (e : Exit)
        → All IsRootOf db.merkle_roots
        → select_loop sha256 codec unmarshal inputs (new_consumer batch_size db) ≡ some (c, e)
        → All IsRootOf c.db.merkle_roots
    unfolding new_consumer
    merkle_roots-IsRootOf batch_size db inputs c e h f =
        select_loop-Kept sha256 codec unmarshal HasRoots HasRoots-Kept [] inputs
          (new_consumer batch_size db) c e h f

    after_store-size :
        (env : Environment) (root : Bytes) (db : Database) (err : Option Error) (c : Consumer)
        → let c' = finish_batch (length c.events) (after_store env root db err (count_tree c)) in
          (c'.batch_size ≡ c.batch_size) × (length c'.events ≡ 0)
    unfolding finish_batch after_store
    after_store-size env root db none c = (refl, refl)
    after_store-size env root db (some e) c = (refl, refl)

    pub flush-size :
        (env : Environment) (c c' : Consumer)
        → flush sha256 codec env c ≡ some c'
        → (c'.batch_size ≡ c.batch_size) × (length c'.events ≡ 0)
    flush-size env c c' f = elim (flush-some sha256 codec env c c' f) [
      | inl (none_there, same) ↦ rw same (refl, ap length none_there)
      | inr x ↦ rw x.result (after_store-size env (Merkle.root_hash x.heap x.tree) x.db x.err c)
    ]

    module _ (env : Environment) (msg : Msg) (c' : Consumer) where
      flush_if-size :
          (b : Bool) (d : Consumer)
          → leb d.batch_size (length d.events) ≡ b
          → (if b then flush sha256 codec env d else some d) ≡ some c'
          → 0 < d.batch_size
          → (c'.batch_size ≡ d.batch_size) × (length c'.events < c'.batch_size)
      flush_if-size true d t f pos = omega (arith, flush-size env d c' f)
      flush_if-size false d t f pos =
          let e : d ≡ c' = cc f in
          subst {A = Consumer}
            (λ (x : Consumer). (x.batch_size ≡ d.batch_size) × (length x.events < x.batch_size)) e
            (refl, leb→gt d.batch_size (length d.events) t)

      handle_decoded-size :
          (c : Consumer) (o : Option FactoEvent)
          → 0 < c.batch_size
          → length c.events < c.batch_size
          → handle_decoded sha256 codec unmarshal env msg c o ≡ some c'
          → (c'.batch_size ≡ c.batch_size) × (length c'.events < c'.batch_size)
      unfolding reject accept
      handle_decoded-size c none pos l f =
          let e : reject msg c ≡ c' = cc f in
          subst {A = Consumer}
            (λ (x : Consumer). (x.batch_size ≡ c.batch_size) × (length x.events < x.batch_size)) e
            (refl, l)
      handle_decoded-size c (some e) pos l f = flush_if-size _ (accept msg e c) refl f pos

      -- A message leaves fewer events in the buffer than the batch size, if it found fewer there and the
      -- batch size is positive. The batch size stays.
      pub handle_message_bound :
          (c : Consumer)
          → 0 < c.batch_size
          → length c.events < c.batch_size
          → handle_message sha256 codec unmarshal env msg c ≡ some c'
          → (c'.batch_size ≡ c.batch_size) × (length c'.events < c'.batch_size)
      unfolding handle_message
      handle_message_bound c pos l f = handle_decoded-size c (unmarshal msg.payload) pos l f

-- ===== src/Processor/Consumer/Flush.antt =====
-- One call of flush of server/processor/consumer.go, in terms of the calls that it makes.
use facto.Base.{
  ◌+◌, ◌/◌, ◌≤◌, ◌≡◌, refl, ◌⊎◌, inl, inr, List, [], ◌∷◌, Option, none, some, true, false, arith,
  ◌∙◌, ap, length, ◌==◌, ==_iff, ==_ne, Bool-cases, ◌≢◌,
}
use facto.Go.Sha.{Digest}
use facto.Go.Library.{Codec}
use facto.Processor.Event.{FactoEvent}
use facto.Processor.Merkle
use facto.Processor.Merkle.Whole.{build_merkle_tree-IsTree}
use facto.Processor.Storage.Batch.{Error, Database, store_batch}
use facto.Processor.Storage.Returns.{
  events_turns, by_facto_id_turns, by_session_turns, store_batch_returns,
}
use facto.Processor.Consumer.{
  Consumer, Environment, event_hashes, flush, flush_built, flush_stored, finish_batch, after_store,
  count_tree,
}

length-zero {ℓ} : {A : Type ℓ} (xs : List A) → length xs ≡ 0 → xs ≡ []
length-zero [] e = refl
length-zero (x ∷ xs) e = absurd (omega arith)

module _ (sha256 : Digest) (codec : Codec) where
  -- A flush of a buffer that is not empty.
  pub record Flushed (env : Environment) (c c' : Consumer) : Type 0 where
    pub tree : Merkle.MerkleTree
    pub heap : Merkle.Heap
    pub db : Database
    pub err : Option Error
    pub built : Merkle.build_merkle_tree sha256 (event_hashes c.events) ≡ some (tree, heap)
    pub stored : store_batch codec env.schedule env.now c.events c.db ≡ some (db, err)
    pub result :
        c'
        ≡ finish_batch
            (length c.events)
            (after_store env (Merkle.root_hash heap tree) db err (count_tree c))

  flush_stored-some :
      (env : Environment) (c c' : Consumer) (tree : Merkle.MerkleTree) (heap : Merkle.Heap)
      → Merkle.build_merkle_tree sha256 (event_hashes c.events) ≡ some (tree, heap)
      → (o : Option (Database × Option Error))
      → store_batch codec env.schedule env.now c.events c.db ≡ o
      → flush_stored sha256 codec env (Merkle.root_hash heap tree) c o ≡ some c'
      → Flushed env c c'
  flush_stored-some env c c' tree heap b none s h = absurd (cc h)
  flush_stored-some env c c' tree heap b (some (db, err)) s h = record {
    tree = tree;
    heap = heap;
    db = db;
    err = err;
    built = b;
    stored = s;
    result = cc h;
  }

  flush_built-some :
      (env : Environment) (c c' : Consumer) (o : Option (Merkle.MerkleTree × Merkle.Heap))
      → Merkle.build_merkle_tree sha256 (event_hashes c.events) ≡ o
      → flush_built sha256 codec env c o ≡ some c'
      → Flushed env c c'
  flush_built-some env c c' none b h = absurd (cc h)
  flush_built-some env c c' (some (tree, heap)) b h =
      flush_stored-some env c c' tree heap b _ refl h

  pub flush-some :
      (env : Environment) (c c' : Consumer)
      → flush sha256 codec env c ≡ some c'
      → ((c.events ≡ []) × (c' ≡ c)) ⊎ Flushed env c c'
  unfolding flush
  flush-some env c c' h = elim (Bool-cases (length c.events == 0)) [
    | inl t ↦ inl (length-zero c.events ((==_iff _ 0).0 t), cc (rw t at h))
    | inr t ↦ inr (flush_built-some env c c' _ refl (rw t at h))
  ]

  flush-empty :
      (env : Environment) (c : Consumer)
      → (length c.events == 0) ≡ true
      → flush sha256 codec env c ≡ some c
  unfolding flush
  flush-empty env c t = rw t

  flush-nonempty :
      (env : Environment) (c : Consumer)
      → (length c.events == 0) ≡ false
      → flush sha256 codec env c
        ≡ flush_built sha256 codec env c (Merkle.build_merkle_tree sha256 (event_hashes c.events))
  unfolding flush
  flush-nonempty env c t = rw t

  built_of :
      (es : List FactoEvent)
      → length es ≢ 0
      → (tree : Merkle.MerkleTree) × (heap : Merkle.Heap) × (Merkle.build_merkle_tree sha256
            (event_hashes es)
          ≡ some (tree, heap))
  built_of [] h = absurd (h refl)
  built_of (e ∷ es) h =
      let (tree, heap, b, _) =
        build_merkle_tree-IsTree sha256 e.proof.event_hash (event_hashes es) in
      (tree, heap, b)

  -- A flush returns when its schedule gives each of the three goroutines of StoreBatch a turn for every
  -- 50 events, and then no event is buffered.
  pub flush_returns :
      (env : Environment) (c : Consumer)
      → (length c.events + 49) / 50 ≤ events_turns env.schedule
      → (length c.events + 49) / 50 ≤ by_facto_id_turns env.schedule
      → (length c.events + 49) / 50 ≤ by_session_turns env.schedule
      → (c' : Consumer) × (flush sha256 codec env c ≡ some c') × (c'.events ≡ [])
  unfolding finish_batch
  flush_returns env c x y z = elim (Bool-cases (length c.events == 0)) [
    | inl t ↦ (c, flush-empty env c t, length-zero c.events ((==_iff _ 0).0 t))
    | inr t ↦
        let (tree, heap, b) = built_of c.events (==_ne _ 0 t) in
        let (db, err, s, _) = store_batch_returns codec env.schedule env.now c.events c.db x y z in
        (
          finish_batch (length c.events)
              (after_store env (Merkle.root_hash heap tree) db err (count_tree c)),
          flush-nonempty env c t
              ∙ ap (flush_built sha256 codec env c) b
              ∙ ap (flush_stored sha256 codec env (Merkle.root_hash heap tree) c) s,
          refl,
        )
  ]

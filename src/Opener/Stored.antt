-- ===== src/Opener/Stored.antt =====
-- contracts/registrar-opener/src/batch.rs: what the loops of a batch do to it and to its stored names.
use tla_contracts.Prelude.{ℕ, ◌≡◌, true, false, List, [], ◌∷◌, ok, arith}
use tla_contracts.Prelude.IdSet
use tla_contracts.Prelude.IdSet.{IdSet}
use tla_contracts.Near.{AccountId, Env}
use tla_contracts.Opener.Types.{Batch, Host}
use tla_contracts.Opener.Batches.{add_all, take_all, forget_all, with_name, one_fewer, count_freed}

-- The terms that the admin approves with a batch.
pub record SameTerms (b c : Batch) : Type 0 where
  pub approved : c.approved ≡ b.approved
  pub digest : c.digest ≡ b.digest
  pub count : c.count ≡ b.count
  pub global_code : c.global_code ≡ b.global_code
  pub init_args : c.init_args ≡ b.init_args
  pub funding : c.funding ≡ b.funding

module _ (host : Host) (env : Env) where
  pub take_all-SameTerms :
      (names : List AccountId) (batch : Batch) (stored : IdSet) (taken : Batch × IdSet)
      → take_all host env names batch stored ≡ ok taken
      → SameTerms batch taken.0
  unfolding take_all
  take_all-SameTerms [] batch stored taken h = ground arith
  take_all-SameTerms (name ∷ names) batch stored taken h =
      ground (
        arith,
        take_all-SameTerms names (one_fewer host env batch) (IdSet.remove stored name) taken,
      )

  -- Taking names out adds none.
  pub take_all-contains :
      (names : List AccountId) (batch : Batch) (stored : IdSet) (taken : Batch × IdSet)
      (x : AccountId)
      → take_all host env names batch stored ≡ ok taken
      → IdSet.contains stored x ≡ false
      → IdSet.contains taken.1 x ≡ false
  unfolding take_all
  take_all-contains [] batch stored taken x h k = ground arith
  take_all-contains (name ∷ names) batch stored taken x h k = ground (
    arith,
    take_all-contains names (one_fewer host env batch) (IdSet.remove stored name) taken x,
    IdSet.contains-remove stored name x,
  )

  -- A name that is taken out is gone.
  pub take_all-drops :
      (names : List AccountId) (batch : Batch) (stored : IdSet) (taken : Batch × IdSet)
      (x : AccountId)
      → take_all host env names batch stored ≡ ok taken
      → IdSet.contains names x ≡ true
      → IdSet.contains taken.1 x ≡ false
  unfolding take_all IdSet.contains
  take_all-drops [] batch stored taken x h k = ground arith
  take_all-drops (name ∷ names) batch stored taken x h k = ground (
    arith,
    take_all-drops names (one_fewer host env batch) (IdSet.remove stored name) taken x,
    take_all-contains names (one_fewer host env batch) (IdSet.remove stored name) taken x,
    IdSet.contains-remove stored name x,
  )

  -- Only a name that is stored can be taken out.
  pub take_all-holds :
      (names : List AccountId) (batch : Batch) (stored : IdSet) (taken : Batch × IdSet)
      (x : AccountId)
      → take_all host env names batch stored ≡ ok taken
      → IdSet.contains names x ≡ true
      → IdSet.contains stored x ≡ true
  unfolding take_all IdSet.contains
  take_all-holds [] batch stored taken x h k = ground arith
  take_all-holds (name ∷ names) batch stored taken x h k = ground (
    arith,
    take_all-holds names (one_fewer host env batch) (IdSet.remove stored name) taken x,
    IdSet.contains-remove stored name x,
  )

  pub forget_all-contains :
      (names : List AccountId) (stored : IdSet) (freed : ℕ) (x : AccountId)
      → IdSet.contains stored x ≡ false
      → IdSet.contains (forget_all host env names stored freed).1 x ≡ false
  unfolding forget_all
  forget_all-contains [] stored freed x k = k
  forget_all-contains (name ∷ names) stored freed x k = ground (
    arith,
    forget_all-contains names (IdSet.remove stored name) (count_freed host env stored name freed) x,
    IdSet.contains-remove stored name x,
  )

  -- Adding names leaves the code, the arguments and the funding of a batch, and its approval.
  pub add_all-funding :
      (names : List AccountId) (batch : Batch) (stored : IdSet) (added : Batch × IdSet)
      → add_all host env names batch stored ≡ ok added
      → (added.0.funding ≡ batch.funding) × (added.0.approved ≡ batch.approved)
  unfolding add_all
  add_all-funding [] batch stored added h = ground arith
  add_all-funding (name ∷ names) batch stored added h = ground (
    arith,
    add_all-funding names (with_name host env batch name) (IdSet.insert stored name) added,
  )

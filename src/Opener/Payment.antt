-- ===== src/Opener/Payment.antt =====
-- contracts/registrar-opener/src/batch.rs, names.rs: which accounts a call opens, and what it pays.
use tla_contracts.Prelude.{
  ℕ, ◌≡◌, ◌+◌, ◌*◌, ◌≤◌, ◌<◌, true, false, some, List, [], ◌∷◌, refl, length, ok, arith, u128_max,
  Result-cases, Option-cases, inl, inr, map, ap, ◌∙◌,
}
use tla_contracts.Prelude.IdSet
use tla_contracts.Prelude.IdSet.{IdSet}
use tla_contracts.Prelude.IdMap
use tla_contracts.Prelude.Codes.{has_code}
use tla_contracts.Near.{AccountId, Env}
use tla_contracts.Opener.Types.{
  Batch, RegistrarOpener, Host, Promise, Effect, Opening, Outcome, names_of,
}
use tla_contracts.Opener.Names.{assert_top_level, assert_openable, min_tla_len, max_tla_len}
use tla_contracts.Opener.Batches.{open_names, open_all, take_all}
use tla_contracts.Opener.Stored.{take_all-holds}

-- A collected list that lost nothing names each id once.
collect-length : (xs : List ℕ) → length (IdSet.collect xs) ≤ length xs
unfolding IdSet.collect IdSet.insert
collect-length [] = ground arith
collect-length (x ∷ xs) = ground (arith, collect-length xs)

collect-IsNodup : (xs : List ℕ) → length (IdSet.collect xs) ≡ length xs → IdSet.IsNodup xs
unfolding IdSet.collect IdSet.insert
collect-IsNodup [] h = tt
collect-IsNodup (x ∷ xs) h =
    ground (arith, collect-length xs, collect-IsNodup xs, IdSet.contains-collect xs x)

-- The accounts that the effects open, and what they are funded with together.
abbrev pub openings : List Effect → List Opening
openings [] = []
openings (Effect.send (Promise.open_account opening batch_id) ∷ rest) = opening ∷ openings rest
openings (_ ∷ rest) = openings rest

abbrev pub paid_out : List Opening → ℕ
paid_out [] = 0
paid_out (opening ∷ rest) = opening.funding + paid_out rest

-- A name of three to sixty-four bytes without a dot that is no implicit account.
pub record IsTopLevel (host : Host) (env : Env) (name : AccountId) : Type 0 where
  pub dotless : has_code (env.as_str name) b'.' ≡ false
  pub long : min_tla_len ≤ length (env.as_str name)
  pub short : length (env.as_str name) ≤ max_tla_len
  pub named : host.is_implicit name ≡ false

abbrev pub AreTopLevel : Host → Env → List AccountId → Type 0
AreTopLevel host env [] = Unit
AreTopLevel host env (name ∷ names) = IsTopLevel host env name × AreTopLevel host env names

-- The names are stored for the batch.
abbrev pub AreStored : IdSet → List AccountId → Type 0
AreStored stored [] = Unit
AreStored stored (name ∷ names) = (IdSet.contains stored name ≡ true) × AreStored stored names

abbrev pub opening_of : Batch → AccountId → Opening
opening_of batch name = record {
  name = name;
  funding = batch.funding;
  global_code = batch.global_code;
  init_args = batch.init_args;
}

module _ (host : Host) (env : Env) where
  assert_top_level-AreTopLevel :
      (names : List AccountId)
      → assert_top_level host env names ≡ ok tt
      → AreTopLevel host env names
  unfolding assert_top_level
  assert_top_level-AreTopLevel [] h = tt
  assert_top_level-AreTopLevel (name ∷ names) h = ground (arith, assert_top_level-AreTopLevel names)

  openings-open_all :
      (b : ℕ) (batch : Batch) (names : List AccountId)
      → openings (open_all host env b batch names) ≡ map (opening_of batch) names
  unfolding open_all
  openings-open_all b batch [] = refl
  openings-open_all b batch (name ∷ names) =
      ap (λ rest. opening_of batch name ∷ rest) (openings-open_all b batch names)

  paid_out-map :
      (batch : Batch) (names : List AccountId)
      → paid_out (map (opening_of batch) names) ≡ batch.funding * length names
  paid_out-map batch [] = ground arith
  paid_out-map batch (name ∷ names) = grind (arith, paid_out-map batch names)

  take_all-AreStored :
      (names : List AccountId) (batch : Batch) (stored : IdSet) (taken : Batch × IdSet)
      → take_all host env names batch stored ≡ ok taken
      → AreStored stored names
  unfolding take_all IdSet.contains
  take_all-AreStored names batch stored taken h =
      from names (λ x k. take_all-holds host env names batch stored taken x h k)
    where
      from :
          (xs : List AccountId)
          → ((x : AccountId) → IdSet.contains xs x ≡ true → IdSet.contains stored x ≡ true)
          → AreStored stored xs
      from [] k = tt
      from (x ∷ xs) k = (k x (ground arith), from xs (λ y m. k y (ground arith)))

  -- A call of `open_names` that succeeds, with a deposit below the largest u128, comes from the
  -- operator, opens from an approved batch exactly the accounts asked for, each once, each a top-level
  -- name that is stored for the batch, with the batch's code, arguments and funding, and pays out
  -- exactly the deposit attached.
  pub open_names-Opens :
      (b : ℕ) (names : List AccountId) (s : RegistrarOpener) (done : ℕ × Outcome)
      → env.attached_deposit < u128_max
      → open_names host env b names s ≡ ok done
      → (batch : Batch) × (IdMap.get s.batches b ≡ some batch)
        × (batch.approved ≡ true)
        × (env.predecessor_account_id ≡ s.operator)
        × (openings done.1.effects ≡ map (opening_of batch) names)
        × (paid_out (openings done.1.effects) ≡ env.attached_deposit)
        × IdSet.IsNodup names
        × AreTopLevel host env names
        × AreStored (names_of s b) names
  unfolding open_names assert_openable
  open_names-Opens b names s done small h = elim (Option-cases (IdMap.get s.batches b)) [
    | inl e ↦ absurd (ground (arith, e))
    | inr (batch, e) ↦ elim (Result-cases (take_all host env names batch (names_of s b))) [
      | inl (taken, f) ↦
          let sent = ap openings (effects batch taken e f) ∙ openings-open_all b batch names in
          (
            batch,
            e,
            ground (arith, e, f),
            ground (arith, e, f),
            sent,
            ap paid_out sent ∙ paid_out-map batch names ∙ ground (arith, e, f),
            collect-IsNodup names (ground (arith, e, f)),
            assert_top_level-AreTopLevel names (ground (arith, e, f)),
            take_all-AreStored names batch (names_of s b) taken f,
          )
      | inr (y, f) ↦ absurd (ground (arith, e, f))
    ]
  ]
    where
      effects :
          (batch : Batch) (taken : Batch × IdSet)
          → IdMap.get s.batches b ≡ some batch
          → take_all host env names batch (names_of s b) ≡ ok taken
          → done.1.effects ≡ open_all host env b batch names
      effects batch taken e f = ground (arith, e, f)

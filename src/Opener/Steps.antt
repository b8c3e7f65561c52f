-- ===== src/Opener/Steps.antt =====
-- contracts/registrar-opener/src/batch.rs, admin.rs: what a call does to the batch of an id.
use tla_contracts.Prelude.{
  ℕ, ◌≡◌, ◌<◌, ◌≤◌, true, Option, none, some, List, [], ◌∷◌, ◌==◌, if◌then◌else◌, ok, arith,
  Result-cases, Option-cases, inl, inr, sat_add, u32_max,
}
use tla_contracts.Prelude.IdSet
use tla_contracts.Prelude.IdMap
use tla_contracts.Prelude.IdSet.{IdSet}
use tla_contracts.Near.{AccountId, CryptoHash, Env}
use tla_contracts.Opener.Types.{Batch, RegistrarOpener, Host, names_of}
use tla_contracts.Opener.Names.{fold_digest}
use tla_contracts.Opener.Batches.{
  create_batch, draft, with_name, add_names, discard_batch, forget_names, open_names,
  on_name_opened, put_back, add_all, take_all,
}
use tla_contracts.Opener.Admin.{
  approve_batch, change_operator, change_admin, accept_admin, cancel_nomination, create_account,
  on_account_created, upgrade, on_upgraded, migrate,
}
use tla_contracts.Opener.Stored.{SameTerms, take_all-SameTerms}
use tla_contracts.Opener.Calls
use tla_contracts.Opener.Calls.{Ensures}

-- The digest after names, in their order.
unfoldable pub fold_names : Host → Env → CryptoHash → List AccountId → CryptoHash
fold_names host env digest [] = digest
fold_names host env digest (name ∷ names) =
    fold_names host env (fold_digest host env digest name) names

-- What adding names makes of a batch.
pub record IsDrafted (host : Host) (env : Env) (names : List AccountId) (batch after : Batch)
    : Type 0 where
  pub approved : after.approved ≡ batch.approved
  pub digest : after.digest ≡ fold_names host env batch.digest names
  pub global_code : after.global_code ≡ batch.global_code
  pub init_args : after.init_args ≡ batch.init_args
  pub funding : after.funding ≡ batch.funding

add_all-IsDrafted :
    (host : Host) (env : Env) (names : List AccountId) (batch : Batch) (stored : IdSet)
    (added : Batch × IdSet)
    → add_all host env names batch stored ≡ ok added
    → IsDrafted host env names batch added.0
unfolding add_all fold_names
add_all-IsDrafted host env [] batch stored added h = ground arith
add_all-IsDrafted host env (name ∷ names) batch stored added h = ground (
  arith,
  add_all-IsDrafted host env names (with_name host env batch name) (IdSet.insert stored name) added,
)

-- The names that a call, if it succeeds, adds to the batch.
abbrev pub added_by : ℕ → Calls.Call → List AccountId
added_by b (Calls.add k names) = if k == b then names else []
added_by b call = []

-- A batch may go, and does not come back under its id. While it is there it keeps its code, arguments
-- and funding, its digest takes in the names added, and once approved it takes none.
abbrev pub Becomes : Host → Env → List AccountId → Option Batch → Option Batch → Type 0
Becomes host env names none after = after ≡ none
Becomes host env names (some batch) none = Unit
Becomes host env names (some batch) (some after) =
    (after.digest ≡ fold_names host env batch.digest names)
    × (after.global_code ≡ batch.global_code)
    × (after.init_args ≡ batch.init_args)
    × (after.funding ≡ batch.funding)
    × (batch.approved ≡ true → SameTerms batch after)

pub record Change (host : Host) (env : Env) (call : Calls.Call) (b : ℕ) (s t : RegistrarOpener)
    : Type 0 where
  pub issued : s.next_batch_id ≤ t.next_batch_id
  pub batch :
      b < s.next_batch_id
      → Becomes host env (added_by b call) (IdMap.get s.batches b) (IdMap.get t.batches b)

module _ (host : Host) (env : Env) (b : ℕ) (s : RegistrarOpener) where
  create-Change :
      (code : AccountId) (args : List ℕ) (funding : ℕ)
      → Ensures
          (Change host env (Calls.create code args funding) b s)
          (Calls.run_call host env (Calls.create code args funding) s)
  unfolding fold_names Calls.run_call create_batch
  create-Change code args funding =
      ground
        (arith, IdMap.get-insert s.batches s.next_batch_id b (draft host env code args funding))

  discard-Change :
      (k : ℕ)
      → Ensures
          (Change host env (Calls.discard k) b s)
          (Calls.run_call host env (Calls.discard k) s)
  unfolding fold_names Calls.run_call discard_batch
  discard-Change k = ground (arith, IdMap.get-remove s.batches k b)

  forget-Change :
      (k : ℕ) (names : List AccountId)
      → Ensures
          (Change host env (Calls.forget k names) b s)
          (Calls.run_call host env (Calls.forget k names) s)
  unfolding fold_names Calls.run_call forget_names
  forget-Change k names = ground arith

  add-Change :
      (k : ℕ) (names : List AccountId)
      → Ensures
          (Change host env (Calls.add k names) b s)
          (Calls.run_call host env (Calls.add k names) s)
  unfolding fold_names Calls.run_call add_names
  add-Change k names = elim (Option-cases (IdMap.get s.batches k)) [
    | inl e ↦ ground (arith, e)
    | inr (batch, e) ↦ elim (Result-cases (add_all host env names batch (names_of s k))) [
      | inl (added, f) ↦ ground (
        arith,
        e,
        f,
        IdMap.get-insert s.batches k b added.0,
        add_all-IsDrafted host env names batch (names_of s k) added f,
      )
      | inr (y, f) ↦ ground (arith, e, f)
    ]
  ]

  open-Change :
      (k : ℕ) (names : List AccountId)
      → Ensures
          (Change host env (Calls.open_batch k names) b s)
          (Calls.run_call host env (Calls.open_batch k names) s)
  unfolding fold_names Calls.run_call open_names
  open-Change k names = elim (Option-cases (IdMap.get s.batches k)) [
    | inl e ↦ ground (arith, e)
    | inr (batch, e) ↦ elim (Result-cases (take_all host env names batch (names_of s k))) [
      | inl (taken, f) ↦ ground (
        arith,
        e,
        f,
        IdMap.get-insert s.batches k b taken.0,
        take_all-SameTerms host env names batch (names_of s k) taken f,
      )
      | inr (y, f) ↦ ground (arith, e, f)
    ]
  ]

  approve-Change :
      (k : ℕ) (digest : ℕ)
      → Ensures
          (Change host env (Calls.approve k digest) b s)
          (Calls.run_call host env (Calls.approve k digest) s)
  unfolding fold_names Calls.run_call approve_batch
  approve-Change k digest = elim (Option-cases (IdMap.get s.batches k)) [
    | inl e ↦ ground (arith, e)
    | inr (batch, e) ↦
        ground (arith, e, IdMap.get-insert s.batches k b (record batch { approved = true }))
  ]

  name_opened-Change :
      (k : ℕ) (y : AccountId)
      → Ensures
          (Change host env (Calls.name_opened k y) b s)
          (Calls.run_call host env (Calls.name_opened k y) s)
  unfolding fold_names Calls.run_call on_name_opened put_back
  name_opened-Change k y = elim (Option-cases (IdMap.get s.batches k)) [
    | inl e ↦ ground (arith, e)
    | inr (batch, e) ↦ ground (
      arith,
      e,
      IdMap.get-insert s.batches k b
          (record batch { remaining = sat_add u32_max batch.remaining 1 }),
    )
  ]

module _ (host : Host) (b : ℕ) where
  pub run_call-Change :
      (env : Env) (call : Calls.Call) (s : RegistrarOpener)
      → Ensures (Change host env call b s) (Calls.run_call host env call s)
  unfolding fold_names Calls.run_call change_operator change_admin accept_admin cancel_nomination
      create_account on_account_created upgrade on_upgraded migrate
  run_call-Change env (Calls.create code args funding) s =
      create-Change host env b s code args funding
  run_call-Change env (Calls.add k names) s = add-Change host env b s k names
  run_call-Change env (Calls.discard k) s = discard-Change host env b s k
  run_call-Change env (Calls.forget k names) s = forget-Change host env b s k names
  run_call-Change env (Calls.open_batch k names) s = open-Change host env b s k names
  run_call-Change env (Calls.name_opened k y) s = name_opened-Change host env b s k y
  run_call-Change env (Calls.approve k digest) s = approve-Change host env b s k digest
  run_call-Change env (Calls.set_operator operator) s = ground arith
  run_call-Change env (Calls.nominate admin) s = ground arith
  run_call-Change env Calls.accept s = ground arith
  run_call-Change env Calls.cancel s = ground arith
  run_call-Change env (Calls.create_alone name code args) s = ground arith
  run_call-Change env (Calls.account_created name) s = ground arith
  run_call-Change env (Calls.upgrade_to code) s = ground arith
  run_call-Change env (Calls.was_upgraded hash) s = ground arith
  run_call-Change env Calls.migrate_state s = ground arith

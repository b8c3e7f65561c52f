-- ===== src/Opener/Invariant.antt =====
-- contracts/registrar-opener/src: what holds of an opener from `new` on, kept by every call.
use tla_contracts.Prelude.{
  ℕ, ◌≡◌, ◌≢◌, ◌≤◌, Bool, true, Option, none, some, List, [], ◌∷◌, ok, arith, Result-cases,
  Option-cases, inl, inr, sat_add, u32_max,
}
use tla_contracts.Prelude.IdSet
use tla_contracts.Prelude.IdMap
use tla_contracts.Near.{AccountId, Env}
use tla_contracts.Opener.Types.{Batch, RegistrarOpener, Host, Outcome, names_of, min_funding}
use tla_contracts.Opener.Batches.{
  create_batch, draft, add_names, discard_batch, forget_names, open_names, on_name_opened, put_back,
  add_all, take_all, forget_all,
}
use tla_contracts.Opener.Admin.{
  approve_batch, change_operator, change_admin, accept_admin, cancel_nomination, create_account,
  on_account_created, upgrade, on_upgraded, migrate, new,
}
use tla_contracts.Opener.Stored.{add_all-funding, take_all-SameTerms}
use tla_contracts.Opener.Calls
use tla_contracts.Opener.Calls.{Ensures}

-- The nominated admin is neither the operator nor the account.
abbrev pub IsNominee : AccountId → AccountId → Option AccountId → Type 0
IsNominee self operator none = Unit
IsNominee self operator (some nominee) = (nominee ≢ operator) × (nominee ≢ self)

-- A name of the batch is funded above the floor of an account's storage.
abbrev pub IsFunded : Option Batch → Type 0
IsFunded none = Unit
IsFunded (some batch) = min_funding ≤ batch.funding

-- The roles are apart, the batch of the id `b` is funded, and an id that was not issued yet has
-- neither a batch nor stored names.
pub record IsSound (self : AccountId) (b : ℕ) (s : RegistrarOpener) : Type 0 where
  pub apart : s.admin ≢ s.operator
  pub admin : s.admin ≢ self
  pub operator : s.operator ≢ self
  pub nominee : IsNominee self s.operator s.pending_admin
  pub bound : s.next_batch_id ≤ u32_max
  pub funded : IsFunded (IdMap.get s.batches b)
  pub fresh : s.next_batch_id ≤ b → (IdMap.get s.batches b ≡ none) × (names_of s b ≡ [])

abbrev pub IsConsistent : AccountId → RegistrarOpener → Type 0
IsConsistent self s = (b : ℕ) → IsSound self b s

module _ (host : Host) (env : Env) (self : AccountId) (here : env.current_account_id ≡ self) (b : ℕ)
    (s : RegistrarOpener) where
  create-IsSound :
      (code : AccountId) (args : List ℕ) (funding : ℕ)
      → IsSound self b s
      → Ensures (IsSound self b) (Calls.run_call host env (Calls.create code args funding) s)
  unfolding Calls.run_call create_batch names_of
  create-IsSound code args funding sound =
      ground
        (arith, IdMap.get-insert s.batches s.next_batch_id b (draft host env code args funding))

  discard-IsSound :
      (k : ℕ)
      → IsSound self b s
      → Ensures (IsSound self b) (Calls.run_call host env (Calls.discard k) s)
  unfolding Calls.run_call discard_batch names_of
  discard-IsSound k sound = ground (arith, IdMap.get-remove s.batches k b)

  forget-IsSound :
      (k : ℕ) (names : List AccountId)
      → IsSound self b s
      → Ensures (IsSound self b) (Calls.run_call host env (Calls.forget k names) s)
  unfolding Calls.run_call forget_names names_of
  forget-IsSound k names sound =
      ground
        (arith, IdMap.get-insert s.batch_names k b (forget_all host env names (names_of s k) 0).1)

  add-IsSound :
      (k : ℕ) (names : List AccountId)
      → IsSound self b s
      → Ensures (IsSound self b) (Calls.run_call host env (Calls.add k names) s)
  unfolding Calls.run_call add_names names_of
  add-IsSound k names sound = elim (Option-cases (IdMap.get s.batches k)) [
    | inl e ↦ ground (arith, e)
    | inr (batch, e) ↦ elim (Result-cases (add_all host env names batch (names_of s k))) [
      | inl (added, f) ↦ ground (
        arith,
        e,
        f,
        IdMap.get-insert s.batches k b added.0,
        IdMap.get-insert s.batch_names k b added.1,
        add_all-funding host env names batch (names_of s k) added f,
      )
      | inr (y, f) ↦ ground (arith, e, f)
    ]
  ]

  open-IsSound :
      (k : ℕ) (names : List AccountId)
      → IsSound self b s
      → Ensures (IsSound self b) (Calls.run_call host env (Calls.open_batch k names) s)
  unfolding Calls.run_call open_names names_of
  open-IsSound k names sound = elim (Option-cases (IdMap.get s.batches k)) [
    | inl e ↦ ground (arith, e)
    | inr (batch, e) ↦ elim (Result-cases (take_all host env names batch (names_of s k))) [
      | inl (taken, f) ↦ ground (
        arith,
        e,
        f,
        IdMap.get-insert s.batches k b taken.0,
        IdMap.get-insert s.batch_names k b taken.1,
        (take_all-SameTerms host env names batch (names_of s k) taken f).funding,
      )
      | inr (y, f) ↦ ground (arith, e, f)
    ]
  ]

  approve-IsSound :
      (k : ℕ) (digest : ℕ)
      → IsSound self b s
      → Ensures (IsSound self b) (Calls.run_call host env (Calls.approve k digest) s)
  unfolding Calls.run_call approve_batch names_of
  approve-IsSound k digest sound = elim (Option-cases (IdMap.get s.batches k)) [
    | inl e ↦ ground (arith, e)
    | inr (batch, e) ↦
        ground (arith, e, IdMap.get-insert s.batches k b (record batch { approved = true }))
  ]

  name_opened-IsSound :
      (k : ℕ) (y : AccountId)
      → IsSound self b s
      → Ensures (IsSound self b) (Calls.run_call host env (Calls.name_opened k y) s)
  unfolding Calls.run_call on_name_opened put_back names_of
  name_opened-IsSound k y sound = elim (Option-cases (IdMap.get s.batches k)) [
    | inl e ↦ ground (arith, e)
    | inr (batch, e) ↦ ground (
      arith,
      e,
      IdMap.get-insert s.batches k b
          (record batch { remaining = sat_add u32_max batch.remaining 1 }),
      IdMap.get-insert s.batch_names k b (IdSet.insert (names_of s k) y),
    )
  ]

-- The receipts run on this account.
abbrev pub AreHere : AccountId → List Calls.Receipt → Type 0
AreHere self [] = Unit
AreHere self ((env, call) ∷ rs) = (env.current_account_id ≡ self) × AreHere self rs

module _ (host : Host) (self : AccountId) (b : ℕ) where
  run_call-IsSound :
      (env : Env) (call : Calls.Call) (s : RegistrarOpener)
      → env.current_account_id ≡ self
      → IsSound self b s
      → Ensures (IsSound self b) (Calls.run_call host env call s)
  unfolding Calls.run_call change_operator change_admin accept_admin cancel_nomination
      create_account on_account_created upgrade on_upgraded migrate names_of
  run_call-IsSound env (Calls.create code args funding) s here sound =
      create-IsSound host env self here b s code args funding sound
  run_call-IsSound env (Calls.add k names) s here sound =
      add-IsSound host env self here b s k names sound
  run_call-IsSound env (Calls.discard k) s here sound =
      discard-IsSound host env self here b s k sound
  run_call-IsSound env (Calls.forget k names) s here sound =
      forget-IsSound host env self here b s k names sound
  run_call-IsSound env (Calls.open_batch k names) s here sound =
      open-IsSound host env self here b s k names sound
  run_call-IsSound env (Calls.name_opened k y) s here sound =
      name_opened-IsSound host env self here b s k y sound
  run_call-IsSound env (Calls.approve k digest) s here sound =
      approve-IsSound host env self here b s k digest sound
  run_call-IsSound env (Calls.set_operator operator) s here sound = ground arith
  run_call-IsSound env (Calls.nominate admin) s here sound = ground arith
  run_call-IsSound env Calls.accept s here sound = ground arith
  run_call-IsSound env Calls.cancel s here sound = ground arith
  run_call-IsSound env (Calls.create_alone name code args) s here sound = ground arith
  run_call-IsSound env (Calls.account_created name) s here sound = ground arith
  run_call-IsSound env (Calls.upgrade_to code) s here sound = ground arith
  run_call-IsSound env (Calls.was_upgraded hash) s here sound = ground arith
  run_call-IsSound env Calls.migrate_state s here sound = ground arith

  receive_all-IsSound :
      (rs : List Calls.Receipt) (s : RegistrarOpener)
      → AreHere self rs
      → IsSound self b s
      → IsSound self b (Calls.receive_all host s rs)
  unfolding Calls.receive_all Calls.receive
  receive_all-IsSound [] s here sound = sound
  receive_all-IsSound ((env, call) ∷ rs) s here sound =
      receive_all-IsSound rs (Calls.receive host s (env, call)) here.1
        (ground (arith, run_call-IsSound env call s here.0 sound))

-- A consistent opener stays so, whatever receipts run on it: the operator is neither the admin nor the
-- nominee, none of the three is this account itself, every batch funds its names above the floor, and a
-- batch id not yet issued has neither a batch nor stored names.
pub receive_all-IsConsistent :
    (host : Host) (self : AccountId) (rs : List Calls.Receipt) (s : RegistrarOpener)
    → AreHere self rs
    → IsConsistent self s
    → IsConsistent self (Calls.receive_all host s rs)
receive_all-IsConsistent host self rs s here sound b =
    receive_all-IsSound host self b rs s here (sound b)

-- An opener that `new` sets up is consistent.
pub new-IsConsistent :
    (env : Env) (installed : Bool) (admin operator : AccountId) (done : Outcome)
    → new env installed admin operator ≡ ok done
    → IsConsistent env.current_account_id done.state
unfolding new names_of IdMap.get
new-IsConsistent env installed admin operator done h b = ground arith

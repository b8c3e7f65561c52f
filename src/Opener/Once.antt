-- ===== src/Opener/Once.antt =====
-- contracts/registrar-opener/src/batch.rs: no name of a batch is opened twice.
use tla_contracts.Prelude.{
  ℕ, ◌≡◌, ◌≢◌, ◌<◌, true, false, Option, none, some, List, [], ◌∷◌, ok, arith, ◌⊎◌, sat_add,
  u32_max, Result-cases, Option-cases, inl, inr,
}
use tla_contracts.Prelude.IdSet
use tla_contracts.Prelude.IdMap
use tla_contracts.Near.{AccountId, Env}
use tla_contracts.Opener.Types.{Batch, RegistrarOpener, Host, Outcome, names_of}
use tla_contracts.Opener.Batches.{
  create_batch, draft, add_names, discard_batch, forget_names, open_names, on_name_opened, put_back,
  add_all, take_all, forget_all,
}
use tla_contracts.Opener.Admin.{
  approve_batch, change_operator, change_admin, accept_admin, cancel_nomination, create_account,
  on_account_created, upgrade, on_upgraded, migrate,
}
use tla_contracts.Opener.Stored.{
  take_all-contains, take_all-drops, take_all-holds, forget_all-contains, take_all-SameTerms,
}
use tla_contracts.Opener.Calls
use tla_contracts.Opener.Calls.{Ensures}

-- No name can be added to the batch any more: it is approved, or gone.
abbrev pub IsClosed : Option Batch → Type 0
IsClosed none = Unit
IsClosed (some batch) = batch.approved ≡ true

-- The name has left a batch that takes no more names.
pub record IsSpent (b : ℕ) (x : AccountId) (s : RegistrarOpener) : Type 0 where
  pub issued : b < s.next_batch_id
  pub closed : IsClosed (IdMap.get s.batches b)
  pub out : IdSet.contains (names_of s b) x ≡ false

module _ (host : Host) (env : Env) (b : ℕ) (x : AccountId) (s : RegistrarOpener) where
  create-IsSpent :
      (code : AccountId) (args : List ℕ) (funding : ℕ)
      → IsSpent b x s
      → Ensures (IsSpent b x) (Calls.run_call host env (Calls.create code args funding) s)
  unfolding Calls.run_call create_batch names_of
  create-IsSpent code args funding spent =
      ground
        (arith, IdMap.get-insert s.batches s.next_batch_id b (draft host env code args funding))

  discard-IsSpent :
      (k : ℕ) → IsSpent b x s → Ensures (IsSpent b x) (Calls.run_call host env (Calls.discard k) s)
  unfolding Calls.run_call discard_batch names_of
  discard-IsSpent k spent = ground (arith, IdMap.get-remove s.batches k b)

  forget-IsSpent :
      (k : ℕ) (names : List AccountId)
      → IsSpent b x s
      → Ensures (IsSpent b x) (Calls.run_call host env (Calls.forget k names) s)
  unfolding Calls.run_call forget_names names_of
  forget-IsSpent k names spent = ground (
    arith,
    IdMap.get-insert s.batch_names k b (forget_all host env names (names_of s k) 0).1,
    forget_all-contains host env names (names_of s k) 0 x,
  )

  add-IsSpent :
      (k : ℕ) (names : List AccountId)
      → IsSpent b x s
      → Ensures (IsSpent b x) (Calls.run_call host env (Calls.add k names) s)
  unfolding Calls.run_call add_names names_of
  add-IsSpent k names spent = elim (Option-cases (IdMap.get s.batches k)) [
    | inl e ↦ ground (arith, e)
    | inr (batch, e) ↦ elim (Result-cases (add_all host env names batch (names_of s k))) [
      | inl (added, f) ↦ ground (
        arith,
        e,
        f,
        IdMap.get-insert s.batches k b added.0,
        IdMap.get-insert s.batch_names k b added.1,
      )
      | inr (y, f) ↦ ground (arith, e, f)
    ]
  ]

  open-IsSpent :
      (k : ℕ) (names : List AccountId)
      → IsSpent b x s
      → Ensures (IsSpent b x) (Calls.run_call host env (Calls.open_batch k names) s)
  unfolding Calls.run_call open_names names_of
  open-IsSpent k names spent = elim (Option-cases (IdMap.get s.batches k)) [
    | inl e ↦ ground (arith, e)
    | inr (batch, e) ↦ elim (Result-cases (take_all host env names batch (names_of s k))) [
      | inl (taken, f) ↦ ground (
        arith,
        e,
        f,
        IdMap.get-insert s.batches k b taken.0,
        IdMap.get-insert s.batch_names k b taken.1,
        take_all-contains host env names batch (names_of s k) taken x f,
        (take_all-SameTerms host env names batch (names_of s k) taken f).approved,
      )
      | inr (y, f) ↦ ground (arith, e, f)
    ]
  ]

  approve-IsSpent :
      (k : ℕ) (digest : ℕ)
      → IsSpent b x s
      → Ensures (IsSpent b x) (Calls.run_call host env (Calls.approve k digest) s)
  unfolding Calls.run_call approve_batch names_of
  approve-IsSpent k digest spent = elim (Option-cases (IdMap.get s.batches k)) [
    | inl e ↦ ground (arith, e)
    | inr (batch, e) ↦
        ground (arith, e, IdMap.get-insert s.batches k b (record batch { approved = true }))
  ]

  name_opened-IsSpent :
      (k : ℕ) (y : AccountId)
      → (k ≢ b) ⊎ (y ≢ x)
      → IsSpent b x s
      → Ensures (IsSpent b x) (Calls.run_call host env (Calls.name_opened k y) s)
  unfolding Calls.run_call on_name_opened put_back names_of
  name_opened-IsSpent k y other spent = elim (Option-cases (IdMap.get s.batches k)) [
    | inl e ↦ ground (arith, e)
    | inr (batch, e) ↦ ground (
      arith,
      e,
      IdMap.get-insert s.batches k b
          (record batch { remaining = sat_add u32_max batch.remaining 1 }),
      IdMap.get-insert s.batch_names k b (IdSet.insert (names_of s k) y),
      IdSet.contains-insert (names_of s k) y x,
    )
  ]

-- The receipt is not the callback that puts the name back into the batch.
abbrev pub IsOther : ℕ → AccountId → Calls.Call → Type 0
IsOther b x (Calls.name_opened k y) = (k ≢ b) ⊎ (y ≢ x)
IsOther b x call = Unit

abbrev pub AreOther : ℕ → AccountId → List Calls.Receipt → Type 0
AreOther b x [] = Unit
AreOther b x ((env, call) ∷ rs) = IsOther b x call × AreOther b x rs

module _ (host : Host) (b : ℕ) (x : AccountId) where
  run_call-IsSpent :
      (env : Env) (call : Calls.Call) (s : RegistrarOpener)
      → IsOther b x call
      → IsSpent b x s
      → Ensures (IsSpent b x) (Calls.run_call host env call s)
  unfolding Calls.run_call change_operator change_admin accept_admin cancel_nomination
      create_account on_account_created upgrade on_upgraded migrate names_of
  run_call-IsSpent env (Calls.create code args funding) s o spent =
      create-IsSpent host env b x s code args funding spent
  run_call-IsSpent env (Calls.add k names) s o spent = add-IsSpent host env b x s k names spent
  run_call-IsSpent env (Calls.discard k) s o spent = discard-IsSpent host env b x s k spent
  run_call-IsSpent env (Calls.forget k names) s o spent =
      forget-IsSpent host env b x s k names spent
  run_call-IsSpent env (Calls.open_batch k names) s o spent =
      open-IsSpent host env b x s k names spent
  run_call-IsSpent env (Calls.name_opened k y) s o spent =
      name_opened-IsSpent host env b x s k y o spent
  run_call-IsSpent env (Calls.approve k digest) s o spent =
      approve-IsSpent host env b x s k digest spent
  run_call-IsSpent env (Calls.set_operator operator) s o spent = ground arith
  run_call-IsSpent env (Calls.nominate admin) s o spent = ground arith
  run_call-IsSpent env Calls.accept s o spent = ground arith
  run_call-IsSpent env Calls.cancel s o spent = ground arith
  run_call-IsSpent env (Calls.create_alone name code args) s o spent = ground arith
  run_call-IsSpent env (Calls.account_created name) s o spent = ground arith
  run_call-IsSpent env (Calls.upgrade_to code) s o spent = ground arith
  run_call-IsSpent env (Calls.was_upgraded hash) s o spent = ground arith
  run_call-IsSpent env Calls.migrate_state s o spent = ground arith

  receive_all-IsSpent :
      (rs : List Calls.Receipt) (s : RegistrarOpener)
      → AreOther b x rs
      → IsSpent b x s
      → IsSpent b x (Calls.receive_all host s rs)
  unfolding Calls.receive_all Calls.receive
  receive_all-IsSpent [] s o spent = spent
  receive_all-IsSpent ((env, call) ∷ rs) s o spent =
      receive_all-IsSpent rs (Calls.receive host s (env, call)) o.1
        (ground (arith, run_call-IsSpent env call s o.0 spent))

  -- An opened name is spent in the state that the call leaves.
  open_names-IsSpent :
      (env : Env) (names : List AccountId) (s : RegistrarOpener) (done : ℕ × Outcome)
      → b < s.next_batch_id
      → IdSet.contains names x ≡ true
      → open_names host env b names s ≡ ok done
      → IsSpent b x done.1.state
  unfolding open_names names_of
  open_names-IsSpent env names s done issued k h = elim (Option-cases (IdMap.get s.batches b)) [
    | inl e ↦ absurd (ground (arith, e))
    | inr (batch, e) ↦ elim (Result-cases (take_all host env names batch (names_of s b))) [
      | inl (taken, f) ↦ ground (
        arith,
        e,
        f,
        IdMap.get-insert s.batches b b taken.0,
        IdMap.get-insert s.batch_names b b taken.1,
        take_all-drops host env names batch (names_of s b) taken x f k,
        (take_all-SameTerms host env names batch (names_of s b) taken f).approved,
      )
      | inr (y, f) ↦ absurd (ground (arith, e, f))
    ]
  ]

  -- A spent name is refused.
  refused :
      (env : Env) (names : List AccountId) (s : RegistrarOpener) (done : ℕ × Outcome)
      → IsSpent b x s
      → IdSet.contains names x ≡ true
      → open_names host env b names s ≢ ok done
  unfolding open_names
  refused env names s done spent k h = elim (Option-cases (IdMap.get s.batches b)) [
    | inl e ↦ ground (arith, e)
    | inr (batch, e) ↦ elim (Result-cases (take_all host env names batch (names_of s b))) [
      | inl (taken, f) ↦
          ground (arith, take_all-holds host env names batch (names_of s b) taken x f k, spent.out)
      | inr (y, f) ↦ ground (arith, e, f)
    ]
  ]

  -- A name that a batch has sent out to be opened is not opened from that batch again, whatever
  -- receipts come between, unless the callback for that very name and batch is among them; here the
  -- batch's id is one that the opener has issued.
  pub open_names_once :
      (env later : Env) (names again : List AccountId) (s : RegistrarOpener)
      (done twice : ℕ × Outcome) (rs : List Calls.Receipt)
      → b < s.next_batch_id
      → open_names host env b names s ≡ ok done
      → IdSet.contains names x ≡ true
      → AreOther b x rs
      → IdSet.contains again x ≡ true
      → open_names host later b again (Calls.receive_all host done.1.state rs) ≢ ok twice
  open_names_once env later names again s done twice rs issued h k other k' =
      refused later again (Calls.receive_all host done.1.state rs) twice
        (receive_all-IsSpent rs done.1.state other (open_names-IsSpent env names s done issued k h))
        k'

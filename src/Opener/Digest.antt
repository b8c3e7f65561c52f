-- ===== src/Opener/Digest.antt =====
-- contracts/registrar-opener/src/batch.rs, names.rs: what the digest of a batch stands for.
use tla_contracts.Prelude.{
  ℕ, ◌≡◌, ◌<◌, refl, ap, sym, subst, ◌∙◌, Option, none, some, List, [], ◌∷◌, ◌++◌, ok, err, arith,
}
use tla_contracts.Prelude.IdMap
use tla_contracts.Near.{AccountId, CryptoHash, Bytes, Env}
use tla_contracts.Opener.Types.{Batch, RegistrarOpener, Host, Outcome}
use tla_contracts.Opener.Names.{fold_digest, seed_digest}
use tla_contracts.Opener.Batches.{create_batch, draft}
use tla_contracts.Opener.Calls
use tla_contracts.Opener.Steps.{fold_names, added_by, run_call-Change}

-- The receipts run on the host of `env`: the same digest, and the same text of every account id.
abbrev pub IsOnHost : Env → Calls.Receipt → Type 0
IsOnHost env (later, call) = (later.sha256 ≡ env.sha256) × (later.as_str ≡ env.as_str)

abbrev pub AreOnHost : Env → List Calls.Receipt → Type 0
AreOnHost env [] = Unit
AreOnHost env (r ∷ rs) = IsOnHost env r × AreOnHost env rs

-- The batch is gone, or has this digest, code, arguments and funding.
abbrev pub IsDraftOf : CryptoHash → AccountId → Bytes → ℕ → Option Batch → Type 0
IsDraftOf digest code args funding none = Unit
IsDraftOf digest code args funding (some batch) =
    (batch.digest ≡ digest)
    × (batch.global_code ≡ code)
    × (batch.init_args ≡ args)
    × (batch.funding ≡ funding)

module _ (host : Host) (env : Env) (b : ℕ) where
  -- The names that one receipt adds to the batch, and those that a sequence adds, in their order.
  abbrev pub added_in : RegistrarOpener → Calls.Receipt → List AccountId
  added_in s (later, call) = elim (Calls.run_call host later call s) [
    | ok done ↦ added_by b call
    | err _ ↦ []
  ]

  unfoldable pub added_names : RegistrarOpener → List Calls.Receipt → List AccountId
  unfolding Calls.receive
  added_names s [] = []
  added_names s (r ∷ rs) = added_in s r ++ added_names (Calls.receive host s r) rs

  fold_names-append :
      (digest : CryptoHash) (xs ys : List AccountId)
      → fold_names host env digest (xs ++ ys)
        ≡ fold_names host env (fold_names host env digest xs) ys
  unfolding fold_names
  fold_names-append digest [] ys = refl
  fold_names-append digest (x ∷ xs) ys = fold_names-append (fold_digest host env digest x) xs ys

  fold_names-host :
      (later : Env) (digest : CryptoHash) (xs : List AccountId)
      → later.sha256 ≡ env.sha256
      → later.as_str ≡ env.as_str
      → fold_names host later digest xs ≡ fold_names host env digest xs
  unfolding fold_names fold_digest
  fold_names-host later digest [] p q = refl
  fold_names-host later digest (x ∷ xs) p q =
      fold_names-host later (fold_digest host later digest x) xs p q
      ∙ ap (λ d. fold_names host env d xs) (rw (p, q) refl)

  record Traces (digest : CryptoHash) (code : AccountId) (args : Bytes) (funding : ℕ)
      (s : RegistrarOpener) : Type 0 where
    pub issued : b < s.next_batch_id
    pub draft : IsDraftOf digest code args funding (IdMap.get s.batches b)

  module _ (code : AccountId) (args : Bytes) (funding : ℕ) where
    receive-Traces :
        (later : Env) (call : Calls.Call) (digest : CryptoHash) (s : RegistrarOpener)
        → IsOnHost env (later, call)
        → Traces digest code args funding s
        → Traces
            (fold_names host env digest (added_in s (later, call)))
            code
            args
            funding
            (Calls.receive host s (later, call))
    unfolding Calls.receive fold_names
    receive-Traces later call digest s on traces = ground (
      arith,
      run_call-Change host b later call s,
      fold_names-host later digest (added_by b call) on.0 on.1,
    )

    receive_all-Traces :
        (rs : List Calls.Receipt) (digest : CryptoHash) (s : RegistrarOpener)
        → AreOnHost env rs
        → Traces digest code args funding s
        → Traces
            (fold_names host env digest (added_names s rs))
            code
            args
            funding
            (Calls.receive_all host s rs)
    unfolding Calls.receive_all added_names fold_names
    receive_all-Traces [] digest s on traces = traces
    receive_all-Traces ((later, call) ∷ rs) digest s on traces =
        subst
          (λ d.
            Traces d code args funding
              (Calls.receive_all host (Calls.receive host s (later, call)) rs))
          (sym (
            fold_names-append digest (added_in s (later, call))
              (added_names (Calls.receive host s (later, call)) rs)))
          (receive_all-Traces rs (fold_names host env digest (added_in s (later, call)))
            (Calls.receive host s (later, call)) on.1
            (receive-Traces later call digest s on.0 traces))

-- From the call that drafts a batch on, whatever receipts follow on the same host, the batch is gone or
-- its digest is that of its code, arguments and funding with all the names that the calls since then
-- added to it, in their order, and the code, arguments and funding are those of the draft.
pub create_batch-IsDraftOf :
    (host : Host) (env : Env) (code : AccountId) (args : Bytes) (funding : ℕ) (s : RegistrarOpener)
    (done : ℕ × Outcome) (rs : List Calls.Receipt)
    → create_batch host env code args funding s ≡ ok done
    → AreOnHost env rs
    → IsDraftOf
        (fold_names host env
          (seed_digest host env code args funding)
          (added_names host env done.0 done.1.state rs))
        code
        args
        funding
        (IdMap.get (Calls.receive_all host done.1.state rs).batches done.0)
unfolding create_batch
create_batch-IsDraftOf host env code args funding s done rs h on =
    (receive_all-Traces host env done.0 code args funding rs
      (seed_digest host env code args funding) done.1.state on
      (ground (
        arith,
        h,
        IdMap.get-insert s.batches s.next_batch_id done.0 (draft host env code args funding),
      ))).draft

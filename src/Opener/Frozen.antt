-- ===== src/Opener/Frozen.antt =====
-- contracts/registrar-opener/src/batch.rs, admin.rs: what the admin approves is what is opened.
use tla_contracts.Prelude.{
  ℕ, ◌≡◌, ◌<◌, true, Option, none, some, List, [], ◌∷◌, ok, arith, Option-cases, inl, inr,
}
use tla_contracts.Prelude.IdMap
use tla_contracts.Near.{Env}
use tla_contracts.Opener.Types.{Batch, RegistrarOpener, Host, Outcome}
use tla_contracts.Opener.Admin.{approve_batch}
use tla_contracts.Opener.Stored.{SameTerms}
use tla_contracts.Opener.Calls
use tla_contracts.Opener.Steps.{run_call-Change}

-- The batch is gone, or approved and on the same terms as `held`.
abbrev pub IsUnedited : Batch → Option Batch → Type 0
IsUnedited held none = Unit
IsUnedited held (some batch) = (batch.approved ≡ true) × SameTerms held batch

record Stands (held : Batch) (b : ℕ) (s : RegistrarOpener) : Type 0 where
  pub issued : b < s.next_batch_id
  pub unedited : IsUnedited held (IdMap.get s.batches b)

module _ (host : Host) (held : Batch) (b : ℕ) where
  receive-Stands :
      (env : Env) (call : Calls.Call) (s : RegistrarOpener)
      → Stands held b s
      → Stands held b (Calls.receive host s (env, call))
  unfolding Calls.receive
  receive-Stands env call s stands = ground (arith, run_call-Change host b env call s)

  receive_all-Stands :
      (rs : List Calls.Receipt) (s : RegistrarOpener)
      → Stands held b s
      → Stands held b (Calls.receive_all host s rs)
  unfolding Calls.receive_all
  receive_all-Stands [] s stands = stands
  receive_all-Stands ((env, call) ∷ rs) s stands =
      receive_all-Stands rs (Calls.receive host s (env, call)) (receive-Stands env call s stands)

-- A batch that the admin approves has the digest that the admin named, and whatever receipts follow it
-- stays approved with the same digest, count, code, arguments and funding until it is discarded; its id,
-- one that the opener has issued, is never drafted again.
pub approve_batch_stands :
    (host : Host) (env : Env) (b digest : ℕ) (s : RegistrarOpener) (done : Outcome)
    (rs : List Calls.Receipt)
    → b < s.next_batch_id
    → approve_batch env b digest s ≡ ok done
    → (batch : Batch) × (IdMap.get s.batches b ≡ some batch)
      × (batch.digest ≡ digest)
      × IsUnedited
          (record batch { approved = true })
          (IdMap.get (Calls.receive_all host done.state rs).batches b)
unfolding approve_batch
approve_batch_stands host env b digest s done rs issued h =
    elim (Option-cases (IdMap.get s.batches b)) [
      | inl e ↦ absurd (ground (arith, e))
      | inr (batch, e) ↦
          let held = record batch { approved = true } in
          (
            batch,
            e,
            ground (arith, e),
            (receive_all-Stands host held b rs done.state
                (ground (arith, e, IdMap.get-insert s.batches b b held))).unedited,
          )
    ]

-- ===== src/Extension/Offices.antt =====
-- contracts/hos-extension/src/lib.rs: the council and the treasury, as offices with a two-step
-- succession.
use tla_contracts.Prelude.{
  ℕ, ◌≡◌, ◌<◌, List, [], ◌∷◌, sat_add, u64_max, arith, Result-cases, inl, inr, refl, none,
}
use tla_contracts.Near.{AccountId, Env}
use tla_contracts.Succession.{
  Office, Moves, AreWithin, AreTimed, stay, go, Shape, Move-Shape, holder_stays,
}
use tla_contracts.Extension.Types.{HosExtension, upgrade_delay_ns}
use tla_contracts.Extension.Council.{
  approve_council_rotation, cancel_council_rotation, commit_council_rotation,
  approve_treasury_rotation, cancel_treasury_rotation, commit_treasury_rotation, pause, unpause,
  add_admin, remove_admin,
}
use tla_contracts.Extension.Upgrade.{
  approve_upgrade, upgrade, seal, after_seal, skim, after_skim, migrate,
}
use tla_contracts.Extension.Lease.{
  push_lease, retract_lease, set_payout, migrate_wallet, migrate_wallets,
}
use tla_contracts.Extension.Rotation.{
  force_transfer, re_rent, after_re_rent, after_force_swap, after_recovery_reset,
  retry_recovery_reset,
}
use tla_contracts.Extension.Sweep.{
  sweep_near, after_near_sweep, sweep_ft, retry_sweep, after_payout_for_sweep,
  after_balance_for_sweep, after_storage_for_sweep, after_sweep_settled,
}
use tla_contracts.Extension.Calls
use tla_contracts.Extension.Calls.{Ensures}

abbrev pub council_office : HosExtension → Office
council_office x = record {
  holder = x.council;
  nominee = x.pending_council;
  named_at = x.pending_council_at;
}

abbrev pub treasury_office : HosExtension → Office
treasury_office x = record {
  holder = x.treasury;
  nominee = x.pending_treasury;
  named_at = x.pending_treasury_at;
}

-- The council appoints to both offices.
abbrev Shapes : Env → HosExtension → HosExtension → Type 0
Shapes env x s =
    Shape upgrade_delay_ns x.council env (council_office x) (council_office s)
    × Shape upgrade_delay_ns x.council env (treasury_office x) (treasury_office s)

run_call-Shapes :
    (env : Env) (call : Calls.Call) (x : HosExtension)
    → Ensures (Shapes env x) (Calls.run_call env call x)
unfolding Calls.run_call approve_council_rotation cancel_council_rotation commit_council_rotation
    approve_treasury_rotation cancel_treasury_rotation commit_treasury_rotation pause unpause
    add_admin remove_admin approve_upgrade upgrade seal after_seal skim after_skim migrate
    push_lease retract_lease set_payout migrate_wallet migrate_wallets force_transfer re_rent
    after_re_rent after_force_swap after_recovery_reset retry_recovery_reset sweep_near
    after_near_sweep sweep_ft retry_sweep after_payout_for_sweep after_balance_for_sweep
    after_storage_for_sweep after_sweep_settled
run_call-Shapes env (Calls.name_council account) x = ground arith
run_call-Shapes env call x = ground arith

receive-Shapes :
    (env : Env) (call : Calls.Call) (x : HosExtension) → Shapes env x (Calls.receive x (env, call))
unfolding Calls.receive
receive-Shapes env call x = elim (Result-cases (Calls.run_call env call x)) [
  | inl (done, e) ↦ rw (e, Calls.receive) (rw e at (run_call-Shapes env call x))
  | inr (y, e) ↦ rw (e, Calls.receive) (inl refl, inl refl)
]

-- Who appoints when each receipt comes, which is the council of the time, and the receipt's environment.
unfoldable pub calls_of : HosExtension → List Calls.Receipt → List (AccountId × Env)
calls_of x [] = []
calls_of x ((env, call) ∷ rs) = (x.council, env) ∷ calls_of (Calls.receive x (env, call)) rs

-- Whatever receipts reach the extension, its council and its treasury are offices with a succession in
-- two steps: with each receipt, only its caller can act, and only if it is the council that the extension
-- has then, when it names another account that is not the extension, or withdraws it, or if it is the
-- account that was named, which takes the office no sooner than 48 hours after it was named.
pub receive_all-Moves :
    (rs : List Calls.Receipt) (x : HosExtension)
    → Moves upgrade_delay_ns
        (calls_of x rs)
        (council_office x)
        (council_office (Calls.receive_all x rs))
      × Moves upgrade_delay_ns
          (calls_of x rs)
          (treasury_office x)
          (treasury_office (Calls.receive_all x rs))
unfolding Calls.receive_all calls_of
receive_all-Moves [] x = (stay, stay)
receive_all-Moves ((env, call) ∷ rs) x =
    let shapes = receive-Shapes env call x in
    let next = Calls.receive x (env, call) in
    let (ms, ns) = receive_all-Moves rs next in
    (
      go
          (Move-Shape upgrade_delay_ns x.council env (council_office x) (council_office next)
            shapes.0)
          ms,
      go
          (Move-Shape upgrade_delay_ns x.council env (treasury_office x) (treasury_office next)
            shapes.1)
          ns,
    )

module _ (lo hi : ℕ) where
  calls_of-AreTimed :
      (rs : List Calls.Receipt) (x : HosExtension)
      → AreWithin lo hi rs
      → AreTimed lo hi (calls_of x rs)
  unfolding calls_of
  calls_of-AreTimed [] x within = tt
  calls_of-AreTimed ((env, call) ∷ rs) x within =
      (within.0, within.1, calls_of-AreTimed rs (Calls.receive x (env, call)) within.2)

  -- While nobody is named for either office, the council and the treasury stay what they are for 48
  -- hours, whatever receipts come.
  pub offices_stay :
      (rs : List Calls.Receipt) (x : HosExtension)
      → AreWithin lo hi rs
      → hi < sat_add u64_max lo upgrade_delay_ns
      → x.pending_council_at ≡ none
      → x.pending_treasury_at ≡ none
      → ((Calls.receive_all x rs).council ≡ x.council)
        × ((Calls.receive_all x rs).treasury ≡ x.treasury)
  offices_stay rs x within soon quiet quiet' =
      let late = Calls.receive_all x rs in
      let timed = calls_of-AreTimed rs x within in
      let ms = receive_all-Moves rs x in
      (
        holder_stays upgrade_delay_ns lo hi soon (council_office x) (council_office late)
            (calls_of x rs) timed quiet ms.0,
        holder_stays upgrade_delay_ns lo hi soon (treasury_office x) (treasury_office late)
            (calls_of x rs) timed quiet' ms.1,
      )

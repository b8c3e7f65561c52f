-- ===== src/Succession.antt =====
-- The two-step succession to an office, as several contracts implement it: whoever appoints names a
-- successor, and the successor takes the office by its own call once a delay has passed. What a contract
-- promises about its council or treasury is stated against this.
use tla_contracts.Prelude.{
  ℕ, ◌≡◌, ◌≢◌, ◌≤◌, ◌<◌, ◌⊎◌, inl, inr, Option, none, some, List, [], ◌∷◌, sat_add, u64_max, arith,
  refl, Option-cases,
}
use tla_contracts.Near.{AccountId, Env}

pub record Office : Type 0 where
  pub holder : AccountId
  pub nominee : Option AccountId
  pub named_at : Option ℕ

-- A nominee is neither the holder nor the contract itself.
abbrev pub IsEligible : AccountId → AccountId → Option AccountId → Type 0
IsEligible self holder none = ⊥
IsEligible self holder (some next) = (next ≢ holder) × (next ≢ self)

-- The delay since the nomination has passed.
abbrev pub IsDue : ℕ → ℕ → Option ℕ → Type 0
IsDue delay now none = ⊥
IsDue delay now (some since) = sat_add u64_max since delay ≤ now

-- What one call may do to the office; `appointer` names the successor.
pub data Move (delay : ℕ) (appointer : AccountId) (env : Env) (o p : Office) : Type 0 where
  rest : p ≡ o → Move delay appointer env o p
  name :
      env.predecessor_account_id ≡ appointer
      → IsEligible env.current_account_id o.holder p.nominee
      → p.holder ≡ o.holder
      → p.named_at ≡ some env.block_timestamp
      → Move delay appointer env o p
  withdraw :
      env.predecessor_account_id ≡ appointer
      → o.nominee ≢ none
      → p ≡ record { holder = o.holder; nominee = none; named_at = none }
      → Move delay appointer env o p
  take :
      o.nominee ≡ some env.predecessor_account_id
      → IsDue delay env.block_timestamp o.named_at
      → p ≡ record { holder = env.predecessor_account_id; nominee = none; named_at = none }
      → Move delay appointer env o p

-- The same as a sum, which the implementations prove.
abbrev pub Shape : ℕ → AccountId → Env → Office → Office → Type 0
Shape delay appointer env o p =
    (p ≡ o)
    ⊎ ((env.predecessor_account_id ≡ appointer)
        × IsEligible env.current_account_id o.holder p.nominee
        × (p.holder ≡ o.holder)
        × (p.named_at ≡ some env.block_timestamp))
    ⊎ ((env.predecessor_account_id ≡ appointer)
        × (o.nominee ≢ none)
        × (p ≡ record { holder = o.holder; nominee = none; named_at = none }))
    ⊎ ((o.nominee ≡ some env.predecessor_account_id)
        × IsDue delay env.block_timestamp o.named_at
        × (p ≡ record { holder = env.predecessor_account_id; nominee = none; named_at = none }))

pub Move-Shape :
    (delay : ℕ) (appointer : AccountId) (env : Env) (o p : Office)
    → Shape delay appointer env o p
    → Move delay appointer env o p
Move-Shape delay appointer env o p (inl e) = rest e
Move-Shape delay appointer env o p (inr (inl (a, b, c, d))) = name a b c d
Move-Shape delay appointer env o p (inr (inr (inl (a, b, c)))) = withdraw a b c
Move-Shape delay appointer env o p (inr (inr (inr (a, b, c)))) = take a b c

-- The receipts run between two times.
abbrev pub AreWithin : {C : Type 0} → ℕ → ℕ → List (Env × C) → Type 0
AreWithin lo hi [] = Unit
AreWithin lo hi ((env, call) ∷ rs) =
    (lo ≤ env.block_timestamp) × (env.block_timestamp ≤ hi) × AreWithin lo hi rs

-- An office at which a sequence of calls arrives. Of each call the list has who appoints at the time and
-- the receipt's environment.
pub data Moves (delay : ℕ) : List (AccountId × Env) → Office → Office → Type 0 where
  stay : {o : Office} → Moves delay [] o o
  go :
      {o p q : Office} {appointer : AccountId} {env : Env} {calls : List (AccountId × Env)}
      → Move delay appointer env o p
      → Moves delay calls p q
      → Moves delay ((appointer, env) ∷ calls) o q

-- The calls were made between two times.
abbrev pub AreTimed : ℕ → ℕ → List (AccountId × Env) → Type 0
AreTimed lo hi [] = Unit
AreTimed lo hi ((appointer, env) ∷ calls) =
    (lo ≤ env.block_timestamp) × (env.block_timestamp ≤ hi) × AreTimed lo hi calls

-- A nomination that was made at the time or later.
abbrev IsNamedSince : ℕ → Option ℕ → Type 0
IsNamedSince lo none = Unit
IsNamedSince lo (some since) = lo ≤ since

abbrev IsQuiet : ℕ → AccountId → Office → Type 0
IsQuiet lo holder o = (o.holder ≡ holder) × IsNamedSince lo o.named_at

module _ (delay lo hi : ℕ) (soon : hi < sat_add u64_max lo delay) where
  Move-IsQuiet :
      (holder appointer : AccountId) (env : Env) (o p : Office)
      → lo ≤ env.block_timestamp
      → env.block_timestamp ≤ hi
      → Move delay appointer env o p
      → IsQuiet lo holder o
      → IsQuiet lo holder p
  Move-IsQuiet holder appointer env o p a b (rest e) q = ground arith
  Move-IsQuiet holder appointer env o p a b (name f g h e) q = ground arith
  Move-IsQuiet holder appointer env o p a b (withdraw f g e) q = ground arith
  Move-IsQuiet holder appointer env o p a b (take f g e) q = elim (Option-cases o.named_at) [
    | inl k ↦ absurd (ground (arith, k))
    | inr (since, k) ↦ absurd (ground (arith, k))
  ]

  Moves-IsQuiet :
      (holder : AccountId) {o p : Office} {calls : List (AccountId × Env)}
      → AreTimed lo hi calls
      → Moves delay calls o p
      → IsQuiet lo holder o
      → IsQuiet lo holder p
  Moves-IsQuiet holder within stay q = q
  Moves-IsQuiet holder within (go {o = o} {p = p} {appointer = a} {env = env} m ms) q =
      Moves-IsQuiet holder within.2 ms (Move-IsQuiet holder a env o p within.0 within.1 m q)

  -- An office for which nobody is named keeps its holder until the delay has passed.
  pub holder_stays :
      (o p : Office) (calls : List (AccountId × Env))
      → AreTimed lo hi calls
      → o.named_at ≡ none
      → Moves delay calls o p
      → p.holder ≡ o.holder
  holder_stays o p calls within e ms = (Moves-IsQuiet o.holder within ms (refl, ground arith)).0

-- ===== src/Recovery/Messages.antt =====
-- contracts/mpc-recovery/src/proof.rs: what a signature of one of the contract's messages says.
use tla_contracts.Prelude.{
  ℕ, ◌≡◌, ◌<◌, ◌^◌, ◌∙◌, sym, refl, Bool, true, false, [], ◌∷◌, ◌++◌, length, arith,
}
use tla_contracts.Prelude.Wire.{
  push_str, to_le_bytes, length-to_le_bytes, to_le_bytes_injective, append_cancel_right,
  cons_cancel, push_str_cancel,
}
use tla_contracts.Near.{AccountId, Bytes}
use tla_contracts.Recovery.Types.{Keys, PublicKey}
use tla_contracts.Recovery.Proofs.{
  flag_byte, message_core, request_message, verdict_message, name_request_message,
  name_recovery_message,
}

-- The statements that are signed, with what each is about.
pub data Statement : Type 0 where
  request : AccountId → PublicKey → ℕ → Statement
  verdict : AccountId → PublicKey → ℕ → Bool → Statement
  name_request : AccountId → Bytes → AccountId → ℕ → Statement
  name_recovery : AccountId → Bytes → AccountId → AccountId → ℕ → ℕ → Statement

-- The rounds and deadlines fit in 64 bits, and the length of a name in 32.
abbrev pub FitsWire : Statement → Type 0
FitsWire (request account new_owner round) = round < 2 ^ 64
FitsWire (verdict account new_owner round approve) = round < 2 ^ 64
FitsWire (name_request tla_id name new_owner round) = (length name < 2 ^ 32) × (round < 2 ^ 64)
FitsWire (name_recovery tla_id name new_owner expected_owner deadline round) =
    (length name < 2 ^ 32) × (deadline < 2 ^ 64) × (round < 2 ^ 64)

-- The bytes of an account id and of a key are its own, and an account id is short.
module _ (keys : Keys) (as_str : AccountId → Bytes)
    (as_str_injective : (a b : AccountId) → as_str a ≡ as_str b → a ≡ b)
    (as_str-length : (a : AccountId) → length (as_str a) < 2 ^ 32)
    (as_bytes_injective : (a b : PublicKey) → keys.as_bytes a ≡ keys.as_bytes b → a ≡ b) where
  unfoldable pub message_of : AccountId → Statement → Bytes
  message_of contract (request account new_owner round) =
      request_message keys as_str contract account new_owner round
  message_of contract (verdict account new_owner round approve) =
      verdict_message keys as_str contract account new_owner round approve
  message_of contract (name_request tla_id name new_owner round) =
      name_request_message keys as_str contract tla_id name new_owner round
  message_of contract (name_recovery tla_id name new_owner expected_owner deadline round) =
      name_recovery_message keys as_str contract tla_id name new_owner expected_owner deadline round

  push_id_cancel :
      (a b : AccountId) {x y : Bytes}
      → push_str (as_str a) ++ x ≡ push_str (as_str b) ++ y
      → (a ≡ b) × (x ≡ y)
  push_id_cancel a b e =
      let h = push_str_cancel (as_str a) (as_str b) (as_str-length a) (as_str-length b) e in
      (as_str_injective a b h.0, h.1)

  -- A word of 64 bits, at the end.
  word_cancel :
      (a b : ℕ)
      → a < 2 ^ 64
      → b < 2 ^ 64
      → {x y : Bytes} → x ++ to_le_bytes 8 a ≡ y ++ to_le_bytes 8 b
      → (x ≡ y) × (a ≡ b)
  word_cancel a b p q {x} {y} e =
      let h =
        append_cancel_right x y (to_le_bytes 8 a) (to_le_bytes 8 b)
          (length-to_le_bytes 8 a ∙ sym (length-to_le_bytes 8 b)) e in
      (h.0, to_le_bytes_injective 8 a b (omega arith) (omega arith) h.1)

  -- Two words, where nothing stands in front.
  words_cancel :
      (a b c d : ℕ)
      → a < 2 ^ 64
      → b < 2 ^ 64
      → c < 2 ^ 64
      → d < 2 ^ 64
      → to_le_bytes 8 a ++ to_le_bytes 8 c ≡ to_le_bytes 8 b ++ to_le_bytes 8 d
      → (a ≡ b) × (c ≡ d)
  words_cancel a b c d p q r s e =
      let h = word_cancel c d r s e in
      (to_le_bytes_injective 8 a b (omega arith) (omega arith) h.0, h.1)

  message_core_injective :
      {m n : ℕ} {c d a b : AccountId} {k l : PublicKey} (r s : ℕ)
      → r < 2 ^ 64
      → s < 2 ^ 64
      → message_core keys as_str m c a k r ≡ message_core keys as_str n d b l s
      → (m ≡ n) × (c ≡ d) × (a ≡ b) × (k ≡ l) × (r ≡ s)
  unfolding message_core
  message_core_injective {m} {n} {c} {d} {a} {b} {k} {l} r s p q e =
      let g = cons_cancel e in
      let h = push_id_cancel c d g.1 in
      let i = push_id_cancel a b h.1 in
      let j = word_cancel r s p q i.1 in (g.0, h.0, i.0, as_bytes_injective k l j.0, j.1)

  flag_byte_injective : (a b : Bool) → flag_byte a ≡ flag_byte b → a ≡ b
  flag_byte_injective true true e = refl
  flag_byte_injective true false e = absurd (omega arith)
  flag_byte_injective false true e = absurd (omega arith)
  flag_byte_injective false false e = refl

  -- A message says of what contract it is, what is stated and of what round: a signature of it stands
  -- for no other statement, of the same kind or another, and for no other contract. Account ids and
  -- keys are assumed to be determined by their bytes.
  pub message_of_injective :
      (c d : AccountId) (s t : Statement)
      → FitsWire s
      → FitsWire t
      → message_of c s ≡ message_of d t
      → (c ≡ d) × (s ≡ t)
  unfolding message_core message_of request_message verdict_message name_request_message
      name_recovery_message
  message_of_injective c d (request a k r) (request b l s) p q e =
      let h = message_core_injective r s p q e in ground (arith, h)
  message_of_injective c d (verdict a k r u) (verdict b l s v) p q e =
      let g =
        append_cancel_right (message_core keys as_str 2 c a k r)
          (message_core keys as_str 2 d b l s) (flag_byte u ∷ []) (flag_byte v ∷ []) refl e in
      let h = message_core_injective r s p q g.0 in
      let i = flag_byte_injective u v (cons_cancel g.1).0 in ground (arith, h, i)
  message_of_injective c d (name_request a n o r) (name_request b m u s) p q e =
      let g = push_id_cancel c d (cons_cancel e).1 in
      let h = push_id_cancel a b g.1 in
      let i = push_str_cancel n m p.0 q.0 h.1 in
      let j = push_id_cancel o u i.1 in
      let k = to_le_bytes_injective 8 r s (omega arith) (omega arith) j.1 in
      ground (arith, g, h, i, j, k)
  message_of_injective c d (name_recovery a n o w x r) (name_recovery b m u v y s) p q e =
      let g = push_id_cancel c d (cons_cancel e).1 in
      let h = push_id_cancel a b g.1 in
      let i = push_str_cancel n m p.0 q.0 h.1 in
      let j = push_id_cancel o u i.1 in
      let k = push_id_cancel w v j.1 in
      let l = words_cancel x y r s p.1 q.1 p.2 q.2 k.1 in ground (arith, g, h, i, j, k, l)
  message_of_injective c d s t p q e = absurd (ground arith)

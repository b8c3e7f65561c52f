-- ===== src/Recovery/Tx.antt =====
-- contracts/mpc-recovery/src/tx.rs: the transaction that adds a key, and the hex of its digest.
use tla_contracts.Prelude.{ℕ, zero, suc, ◌/◌, ◌%◌, List, [], ◌∷◌, ◌++◌}
use tla_contracts.Prelude.Wire.{to_le_bytes, push_str}
use tla_contracts.Near.{AccountId, Bytes}
use tla_contracts.Recovery.Types.{Keys, PublicKey}

abbrev action_add_key : ℕ
action_add_key = 5

abbrev permission_full_access : ℕ
permission_full_access = 1

-- `write_str` writes what `push_str` does.
unfoldable pub add_key_tx :
    Keys → (AccountId → Bytes) → AccountId → PublicKey → ℕ → Bytes → PublicKey → Bytes
unfolding push_str to_le_bytes
add_key_tx keys as_str account signing_key nonce block_hash new_key =
    push_str (as_str account)
    ++ (keys.as_bytes signing_key
        ++ (to_le_bytes 8 nonce
            ++ (push_str (as_str account)
                ++ (block_hash
                    ++ (to_le_bytes 4 1
                        ++ (action_add_key
                            ∷ (keys.as_bytes new_key
                                ++ (to_le_bytes 8 0 ++ (permission_full_access ∷ [])))))))))

-- "0123456789abcdef"
abbrev pub hex_digits : List ℕ
hex_digits =
    b'0' ∷ b'1' ∷ b'2' ∷ b'3' ∷ b'4' ∷ b'5' ∷ b'6' ∷ b'7' ∷ b'8' ∷ b'9' ∷ b'a' ∷ b'b' ∷ b'c' ∷ b'd'
    ∷ b'e' ∷ b'f' ∷ []

-- The table at an index, which is below 16 for half a byte; 0 past the end.
unfoldable pub digit_at : List ℕ → ℕ → ℕ
digit_at [] n = 0
digit_at (d ∷ ds) zero = d
digit_at (d ∷ ds) (suc n) = digit_at ds n

unfoldable pub to_hex : Bytes → Bytes
unfolding digit_at
to_hex [] = []
to_hex (byte ∷ bytes) =
    digit_at hex_digits (byte / 16) ∷ digit_at hex_digits (byte % 16) ∷ to_hex bytes

-- ===== src/Records/Commands.antt =====
-- The body of a trim command gives back its sequence number.
use s2_sdk_go.Prelude.{ℕ, ◌+◌, ◌*◌, ◌^◌, ◌<◌, ◌≡◌, List, [], ◌∷◌, Option, arith}
use s2_sdk_go.Records.{big_endian, new_trim_command_record}

-- The number that bytes stand for, the highest first.
pub from_big_endian : ℕ → List ℕ → ℕ
from_big_endian acc [] = acc
from_big_endian acc (b ∷ bs) = from_big_endian (acc * 256 + b) bs

-- The body of a trim command, read as a number with the highest byte first, is the sequence
-- number, if that fits 64 bits.
pub trim_seq_num :
    (n : ℕ) (timestamp : Option ℕ)
    → n < 2 ^ 64
    → from_big_endian 0 (new_trim_command_record n timestamp).body ≡ n
unfolding from_big_endian new_trim_command_record big_endian
trim_seq_num n timestamp h = omega arith

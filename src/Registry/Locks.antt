-- ===== src/Registry/Locks.antt =====
-- `lockShard`: the mutex of a key, by the FNV-1a hash of its bytes in 64 bits.
use signalg.Base.{ℕ, ◌*◌, ◌%◌, ◌^◌, ◌<◌, [], ◌∷◌, Bytes, bit_xor, arith}

abbrev pub shard_num_large : ℕ
shard_num_large = 256

abbrev offset64 : ℕ
offset64 = 14695981039346656037

abbrev prime64 : ℕ
prime64 = 1099511628211

fnv : ℕ → Bytes → ℕ
fnv hash [] = hash
fnv hash (b ∷ bs) = fnv (bit_xor hash b * prime64 % 2 ^ 64) bs

unfoldable pub lock_shard : Bytes → ℕ
unfolding fnv
lock_shard key = fnv offset64 key % shard_num_large

-- Every key has one of the registry's 256 mutexes.
pub lock_shard-lt : (key : Bytes) → lock_shard key < shard_num_large
unfolding lock_shard
lock_shard-lt key = omega arith

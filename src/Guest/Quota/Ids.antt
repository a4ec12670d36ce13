-- ===== src/Guest/Quota/Ids.antt =====
-- The project ids of src/quota.rs.
use Prim.Native.Nat.{bit_xor, max}
use fastenv.Base.{ℕ, ◌*◌, ◌%◌, ◌^◌, ◌<◌, ◌≤◌, Text, List, [], ◌∷◌, arith}
use fastenv.Guest.Quota.{fnv1a, bytes, alloc_project_id}

fnv1a-bound : (hash : ℕ) (bs : List ℕ) → hash < 2 ^ 32 → fnv1a hash bs < 2 ^ 32
unfolding fnv1a
fnv1a-bound hash [] h = h
fnv1a-bound hash (b ∷ bs) h = fnv1a-bound (bit_xor hash b * 16777619 % 2 ^ 32) bs (omega arith)

max_between : (n : ℕ) → n < 2 ^ 32 → (2 ≤ max n 2) × (max n 2 < 2 ^ 32)
max_between n h = omega arith

-- The project id of every key is at least 2 and fits into 32 bits.
pub alloc_project_id-bounds :
    (fork_key : Text) → (2 ≤ alloc_project_id fork_key) × (alloc_project_id fork_key < 2 ^ 32)
unfolding alloc_project_id
alloc_project_id-bounds fork_key =
    max_between (fnv1a 2166136261 (bytes fork_key))
      (fnv1a-bound 2166136261 (bytes fork_key) (omega arith))

-- ===== src/Types/Base36.antt =====
-- scheduler/internal/types/ids.go: `encodeBase36` and `GenerateSandboxID`. An int64 is its word
-- modulo 2^64; a word from 2^63 on is negative.
pub mod Laws
pub mod Collisions
use k8s_sched_demo.Base.{
  ℕ, zero, suc, ◌+◌, ◌*◌, ◌/◌, ◌%◌, ◌^◌, ◌<◌, ◌≤◌, ◌≡◌, refl, Bool, true, false, ◌&&◌, List, [],
  ◌∷◌, ◌++◌, reverse, arith, Text, codes, ltb, ◌==◌, if◌then◌else◌, length, take,
}
use k8s_sched_demo.Types.Ids.{SandboxId}

-- s[i], with 0 out of range, where Go panics; the code indexes with a remainder by 36.
abbrev pub byte_at : Text → ℕ → ℕ
byte_at [] i = 0
byte_at (c ∷ s) zero = c
byte_at (c ∷ s) (suc i) = byte_at s i

abbrev pub charset : Text
charset = codes "0123456789abcdefghijklmnopqrstuvwxyz"

-- n > 0 on an int64.
abbrev pub is_positive : ℕ → Bool
is_positive n = ltb 0 n && ltb n (2 ^ 63)

-- `for n > 0 { result.WriteByte(charset[n%36]); n /= 36 }`, least digit first.
unfoldable pub digits_loop : ℕ → ℕ → Text → Text
digits_loop zero n result = result
digits_loop (suc fuel) n result =
    let rest = digits_loop fuel (n / 36) (result ++ byte_at charset (n % 36) ∷ []) in
    if is_positive n then rest else result

-- 36^13 is above 2^63, so 13 rounds are enough.
unfoldable pub encode_base36 : ℕ → Text
encode_base36 n = if n == 0 then codes "0" else reverse (digits_loop 13 n [])

-- `nanos` is time.Now().UnixNano(), `random` the first byte of a new UUID.
unfoldable pub generate_sandbox_id : ℕ → ℕ → SandboxId
generate_sandbox_id nanos random =
    let random_num = (nanos + random) % 2 ^ 64 in
    let id = encode_base36 random_num in if ltb 20 (length id) then take 20 id else id

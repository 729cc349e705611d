-- ===== src/Arena.antt =====
-- arena/arena.h: an arena that reserves an address range, commits it by chunks and hands out
-- aligned blocks. `size_t` is 64 bits wide. An arena's bytes are a function of the offset from
-- `memory`; `arena_push_struct` and `arena_push_array` are `push` at the size of the type.
pub mod Push
pub mod Blocks
pub mod Copy
mod Tests
use bite_bit_bitten.Common.{
  ℕ, zero, suc, ◌+◌, ◌-◌, ◌*◌, ◌/◌, ◌^◌, bit_and, u64, Option, List, [], ◌∷◌, ◌++◌, ltb, leb, ◌==◌,
  ◌&&◌, if◌then◌else◌, length,
}
use bite_bit_bitten.Common.Outcome.{Outcome, ok, fault, out_of_fuel, ◌>>=◌}

-- `none` is the NULL of a failed reservation.
pub record Arena : Type 0 where
  pub memory : Option ℕ
  pub used : ℕ
  pub commited : ℕ
  pub reserved : ℕ
  pub bytes : ℕ → ℕ

-- COMMIT_CHUNK, KB(64)
abbrev pub commit_chunk : ℕ
commit_chunk = 64 * 1024

-- `mmap` is the system's: it gives the address of a range of that size, or none. Fresh pages of an
-- anonymous mapping read as 0.
pub arena_create : (ℕ → Option ℕ) → ℕ → Arena
arena_create mmap reserve_size = record {
  memory = mmap reserve_size;
  used = 0;
  commited = 0;
  reserved = reserve_size;
  bytes = λ i. 0;
}

-- `(~a->used + 1) & (align - 1)` at `align` 16
abbrev pub padding : ℕ → ℕ
padding used = bit_and (u64 (2 ^ 64 - 1 - used + 1)) (16 - 1)

-- The `while` of a push: commit a chunk more until `need` is committed. A failed assertion is a
-- fault.
pub commit : ℕ → ℕ → Arena → Outcome Arena
commit zero need a = out_of_fuel
commit (suc fuel) need a =
    let new_commit = u64 (a.commited + commit_chunk) in
    let more = commit fuel need (record a { commited = new_commit }) in
    if ltb a.commited need then (if leb new_commit a.reserved then more else fault) else ok a

-- Each round but the last commits a chunk of the reserved range.
abbrev pub commit_fuel : Arena → ℕ
commit_fuel a = a.reserved / commit_chunk + 2

-- The offset of the block, and the arena after it.
pub arena_push : Arena → ℕ → Outcome (ℕ × Arena)
unfolding commit
arena_push a size =
    let total = u64 (size + padding a.used) in
    commit (commit_fuel a) (u64 (a.used + total)) a >>= λ b.
    ok (b.used + padding a.used, record b { used = u64 (b.used + total) })

-- `memset(ptr, 0, size)`
pub memset_zero : (ℕ → ℕ) → ℕ → ℕ → (ℕ → ℕ)
memset_zero m p size i = if leb p i && ltb i (p + size) then 0 else m i

pub arena_push_zero : Arena → ℕ → Outcome (ℕ × Arena)
unfolding arena_push memset_zero
arena_push_zero a size =
    let total = u64 (size + padding a.used) in
    commit (commit_fuel a) (u64 (a.used + total)) a >>= λ b.
    let ptr = b.used + padding a.used in
    ok (ptr, record b { bytes = memset_zero b.bytes ptr size; used = u64 (b.used + total) })

pub arena_rewind : Arena → Arena
arena_rewind a = record a { used = 0 }

-- `madvise(…, MADV_DONTNEED)`: the committed pages read as 0 from here on.
pub arena_reset : Arena → Arena
unfolding memset_zero
arena_reset a = record a { bytes = memset_zero a.bytes 0 a.commited; used = 0; commited = 0 }

-- `memcpy(ptr, src, n)`, of bytes outside of the arena
pub memcpy : (ℕ → ℕ) → ℕ → List ℕ → (ℕ → ℕ)
memcpy m p [] i = m i
memcpy m p (x ∷ xs) i = if i == p then x else memcpy m (p + 1) xs i

-- The list is `cstr[0..n)`.
pub arena_push_strn : Arena → List ℕ → Outcome (ℕ × Arena)
unfolding memcpy
arena_push_strn a src = arena_push a (length src + 1) >>= λ (ptr, b).
    let copied = memcpy b.bytes ptr src in
    ok (ptr, record b { bytes = memcpy copied (ptr + length src) (0 ∷ []) })

-- The list is the C string without its NUL, which is copied with it.
pub arena_push_str : Arena → List ℕ → Outcome (ℕ × Arena)
unfolding memcpy
arena_push_str a cstr = arena_push a (length cstr + 1) >>= λ (ptr, b).
    ok (ptr, record b { bytes = memcpy b.bytes ptr (cstr ++ (0 ∷ [])) })

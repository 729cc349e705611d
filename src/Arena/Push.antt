-- ===== src/Arena/Push.antt =====
-- What a push does to the bounds of an arena.
use bite_bit_bitten.Common.{
  ℕ, zero, suc, ◌+◌, ◌-◌, ◌*◌, ◌/◌, ◌%◌, ◌^◌, ◌≤◌, ◌<◌, ◌≡◌, Option, arith, ltb, leb, if◌then◌else◌,
  u64,
}
use bite_bit_bitten.Common.Bits.{bit_and_mask}
use bite_bit_bitten.Common.Outcome.{Outcome, ok, fault, ◌>>=◌}
use bite_bit_bitten.Arena.{
  Arena, commit_chunk, arena_create, padding, commit, commit_fuel, arena_push, arena_push_zero,
  arena_rewind, memset_zero, arena_reset,
}

-- The bounds of an arena; a range of more than half the address space is never reserved.
pub record IsValid (a : Arena) : Type 0 where
  pub in_commited : a.used ≤ a.commited
  pub in_reserved : a.commited ≤ a.reserved
  pub whole_chunks : a.commited % commit_chunk ≡ 0
  pub representable : a.reserved < 2 ^ 62

-- the next multiple of 16
abbrev pub align_up : ℕ → ℕ
align_up n = (n + 15) / 16 * 16

-- the next multiple of the commit chunk
abbrev pub chunk_up : ℕ → ℕ
chunk_up n = (n + (commit_chunk - 1)) / commit_chunk * commit_chunk

pub padding_lem : (used : ℕ) → used < 2 ^ 62 → used + padding used ≡ align_up used
padding_lem used h = omega (arith, bit_and_mask 4 (u64 (2 ^ 64 - 1 - used + 1)))

-- Outcome of the loop: enough is committed already, or all up to the next chunk is, or the
-- assertion fails.
abbrev pub commited_for : ℕ → Arena → Outcome Arena
commited_for need a =
    if ltb a.commited need
    then (if leb (chunk_up need) a.reserved
        then ok (record a { commited = chunk_up need })
        else fault)
    else ok a

commit_lem :
    (fuel need : ℕ) (a : Arena)
    → a.commited ≤ a.reserved
    → a.commited % commit_chunk ≡ 0
    → a.reserved < 2 ^ 62
    → (a.reserved - a.commited) / commit_chunk + 1 < fuel
    → commit fuel need a ≡ commited_for need a
unfolding commit
commit_lem zero need a p q r h = absurd (omega arith)
commit_lem (suc fuel) need a p q r h =
    ground (arith, commit_lem fuel need (record a { commited = u64 (a.commited + commit_chunk) }))

-- The committed size when all up to `end` is.
abbrev pub commited_up_to : ℕ → ℕ → ℕ
commited_up_to end commited = if ltb commited end then chunk_up end else commited

-- In an arena whose used bytes are in the committed ones and those in the reserved ones, by whole chunks
-- of a range that `size_t` can count, a push of less than 2 ^ 62 bytes gives the next offset that is a
-- multiple of 16, commits more memory only when the block
-- ends beyond what is committed, and then up to the next chunk, and fails its assertion exactly
-- when that chunk is beyond the reserved range.
pub arena_push_lem :
    (a : Arena) (size : ℕ)
    → IsValid a
    → size < 2 ^ 62
    → let ptr = align_up a.used in
      let end = ptr + size in
      let commited = commited_up_to end a.commited in
      arena_push a size ≡ (
        if leb commited a.reserved
        then ok (ptr, record a { commited = commited; used = end })
        else fault)
unfolding arena_push
arena_push_lem a size v small =
    let start = padding_lem a.used (omega arith) in
    let total : u64 (size + padding a.used) ≡ size + padding a.used = omega arith in
    let need : u64 (a.used + (size + padding a.used)) ≡ align_up a.used + size = omega arith in
    rw (total, need)
      (rw
        (commit_lem (commit_fuel a) (align_up a.used + size) a v.in_reserved v.whole_chunks
          v.representable (omega arith))
        (ground arith))

-- What a caller may rely on after a push of `size` bytes that gave offset `ptr`.
pub record Pushed (a : Arena) (size ptr : ℕ) (b : Arena) : Type 0 where
  pub valid : IsValid b
  pub aligned : ptr % 16 ≡ 0
  pub above : a.used ≤ ptr
  pub exact : b.used ≡ ptr + size
  pub grows : a.commited ≤ b.commited
  pub same_reserved : b.reserved ≡ a.reserved
  pub same_bytes : b.bytes ≡ a.bytes

-- After a push that returns, the block is aligned, lies above all that was used before and inside of
-- the committed memory, and the bounds of the arena hold again.
pub arena_push-Pushed :
    {a b : Arena} {ptr : ℕ} (size : ℕ)
    → IsValid a
    → size < 2 ^ 62
    → arena_push a size ≡ ok (ptr, b)
    → Pushed a size ptr b
arena_push-Pushed {a} size v small e = ground (arith, arena_push_lem a size v small)

-- `arena_push_zero` is `arena_push` with the bytes of the block cleared.
pub arena_push_zero_lem :
    (a : Arena) (size : ℕ)
    → arena_push_zero a size ≡ (
        arena_push a size >>= λ (ptr, b).
        ok (ptr, record b { bytes = memset_zero b.bytes ptr size }))
unfolding arena_push_zero arena_push
arena_push_zero_lem a size = ground arith

-- The other operations keep the bounds, and a rewound or reset arena hands out offset 0 again.
pub arena_rewind-IsValid : {a : Arena} → IsValid a → IsValid (arena_rewind a)
unfolding arena_rewind
arena_rewind-IsValid v = omega arith

pub arena_reset-IsValid : {a : Arena} → IsValid a → IsValid (arena_reset a)
unfolding arena_reset
arena_reset-IsValid v = omega arith

pub arena_create-IsValid :
    (mmap : ℕ → Option ℕ) (size : ℕ) → size < 2 ^ 62 → IsValid (arena_create mmap size)
unfolding arena_create
arena_create-IsValid mmap size h = omega arith

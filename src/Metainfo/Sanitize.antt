-- ===== src/Metainfo/Sanitize.antt =====
-- `sanitize_file_BEN_string` of parser/parser.c with its table. It works on the buffer in place and
-- narrows the slice; `none` beside the buffer is its `false`.
use bite_bit_bitten.Common.{
  ℕ, zero, suc, ◌+◌, ◌-◌, ◌^◌, Bool, true, ◌&&◌, ◌||◌, Option, none, some, List, ltb, leb, ◌==◌,
  if◌then◌else◌, get_elem?, set, u32,
}
use bite_bit_bitten.Common.Outcome.{of_option, Outcome, ok, ◌>>=◌}
use bite_bit_bitten.Bencode.{BenString}

-- the table as it is initialised
abbrev pub reserved_table : ℕ → Bool
reserved_table b =
    b == b'<'
    || b == b'>'
    || b == b':'
    || b == b'"'
    || b == b'/'
    || b == 92
    || b == b'|'
    || b == b'?'
    || b == b'*'

abbrev pub init_reserved_table : (ℕ → Bool) → (ℕ → Bool)
init_reserved_table table b = if ltb b 32 then true else table b

-- what `init_CL_session` leaves
abbrev pub reserved : ℕ → Bool
reserved = init_reserved_table reserved_table

-- The first loop, with `n` bytes left from `p` on.
unfoldable pub replace_reserved : (ℕ → Bool) → List ℕ → ℕ → ℕ → Outcome (List ℕ)
replace_reserved table buffer p zero = ok buffer
replace_reserved table buffer p (suc n) = of_option (get_elem? buffer p) >>= λ b.
    replace_reserved table (if table b then set buffer p b'_' else buffer) (p + 1) n

-- `while (start_pos < length && path->data[start_pos] == ' ') start_pos++`
unfoldable pub trim_start : List ℕ → ℕ → ℕ → ℕ → Outcome ℕ
trim_start buffer p zero start_pos = ok start_pos
trim_start buffer p (suc n) start_pos =
    let more = trim_start buffer (p + 1) n (start_pos + 1) in
    of_option (get_elem? buffer p) >>= λ b. if b == b' ' then more else ok start_pos

-- The loop from the end, with `n` bytes from `p` on: how many are kept.
unfoldable pub trim_end : List ℕ → ℕ → ℕ → Outcome ℕ
trim_end buffer p zero = ok 0
trim_end buffer p (suc n) =
    let more = trim_end buffer p n in
    of_option (get_elem? buffer (p + n)) >>= λ b.
    if b == b' ' || b == b'.' then more else ok (suc n)

abbrev pub narrow : List ℕ → ℕ → ℕ → List ℕ × Option BenString
narrow buffer start kept =
    (buffer, if kept == 0 then none else some (record { start = start; length = kept }))

-- Positions are `int`s, so the loops see the low 32 bits of the length; where these stand for a
-- negative number no loop runs and the length becomes that number as a `size_t`.
unfoldable pub sanitize_file_ben_string :
    (ℕ → Bool) → List ℕ → BenString → Outcome (List ℕ × Option BenString)
sanitize_file_ben_string table buffer path =
    let n = u32 path.length in
    if path.length == 0
    then ok (buffer, none)
    else of_option (get_elem? buffer path.start) >>= λ first.
        if first == b'.' && path.length == 1
        then ok (buffer, none)
        else if leb (2 ^ 31) n
        then ok (buffer, some (record path { length = n + (2 ^ 64 - 2 ^ 32) }))
        else replace_reserved table buffer path.start n >>= λ buffer'.
            trim_start buffer' path.start n 0 >>= λ start_pos.
            trim_end buffer' (path.start + start_pos) (n - start_pos) >>= λ kept.
            ok (narrow buffer' (path.start + start_pos) kept)

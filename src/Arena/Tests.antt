-- ===== src/Arena/Tests.antt =====
-- Arenas of one chunk.
use bite_bit_bitten.Common.{ℕ, ◌≡◌, refl, some, List, [], ◌∷◌, ◌++◌, map, arith, leb, if◌then◌else◌}
use bite_bit_bitten.Common.Outcome.{ok, fault}
use bite_bit_bitten.Arena.{
  Arena, arena_create, commit, arena_push, arena_push_strn, arena_push_str, memcpy,
}
use bite_bit_bitten.Arena.Push.{IsValid, commited_up_to, arena_create-IsValid, arena_push_lem}
use bite_bit_bitten.Arena.Blocks.{push_all, Stacked, push_all_lem}

abbrev fresh : Arena
fresh = arena_create (λ n. some 4096) 65536

fresh-IsValid : IsValid fresh
fresh-IsValid = arena_create-IsValid (λ n. some 4096) 65536 (omega arith)

arena_push_lem_example : arena_push fresh 100 ≡ (
    if leb (commited_up_to 100 0) 65536
    then ok (0, record fresh { commited = commited_up_to 100 0; used = 100 })
    else fault)
unfolding arena_create
arena_push_lem_example = arena_push_lem fresh 100 fresh-IsValid (omega arith)

pushed : arena_push fresh 100 ≡ ok (0, record fresh { commited = 65536; used = 100 })
unfolding arena_push commit arena_create
pushed = refl

two_blocks :
    push_all fresh (100 ∷ 24 ∷ [])
    ≡ ok ((0, 100) ∷ (112, 24) ∷ [], record fresh { commited = 65536; used = 136 })
unfolding push_all arena_push commit arena_create
two_blocks = refl

push_all_lem_example :
    Stacked 0 65536 ((0, 100) ∷ (112, 24) ∷ [])
    × (map (λ (b : ℕ × ℕ). b.1) ((0, 100) ∷ (112, 24) ∷ []) ≡ (100 ∷ 24 ∷ []))
push_all_lem_example =
    push_all_lem (λ n. some 4096) 65536 (100 ∷ 24 ∷ []) (omega arith) (omega arith) two_blocks

abbrev text : List ℕ
text = b'a' ∷ b'b' ∷ []

abbrev with_strn : Arena
with_strn = record {
  memory = some 4096;
  used = 3;
  commited = 65536;
  reserved = 65536;
  bytes = memcpy (memcpy (λ i. 0) 0 text) 2 (0 ∷ []);
}

stored_strn : arena_push_strn fresh text ≡ ok (0, with_strn)
unfolding arena_push_strn arena_push commit arena_create
stored_strn = refl

abbrev with_str : Arena
with_str = record with_strn { bytes = memcpy (λ i. 0) 0 (text ++ (0 ∷ [])) }

stored_str : arena_push_str fresh text ≡ ok (0, with_str)
unfolding arena_push_str arena_push commit arena_create
stored_str = refl

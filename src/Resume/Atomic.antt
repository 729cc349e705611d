-- ===== src/Resume/Atomic.antt =====
-- Whatever call of the system fails, `create_resume_file` never leaves half a resume file: it writes
-- beside the file that is there, and takes its place in one step.
use bite_bit_bitten.Common.{
  ℕ, ◌+◌, ◌≤◌, ◌<◌, ◌≡◌, refl, sym, ap, ap₂, ◌∙◌, ◌≢◌, ◌⊎◌, inl, inr, Bool, true, false, ◌&&◌, some,
  List, [], ◌∷◌, ◌++◌, append_assoc, arith, le→leb, ==_refl, Bool-cases, length, take,
  length-append, u32, same_list, same_list-eq, same_list_refl, strlen, le_bytes, take_all,
}
use bite_bit_bitten.Common.Outcome.{ok}
use bite_bit_bitten.Resume.{
  Kept, Files, path_in, tmp_name, pig_name, then_write, write_kept, Calls, settle,
  create_resume_file,
}
use bite_bit_bitten.Resume.WriteAll.{write_all_lem}

-- what a complete resume file holds
abbrev pub kept_bytes : Kept → ℕ → List ℕ
kept_bytes torrent len =
    le_bytes (u32 len)
    ++ (take (u32 len) torrent.download_path
        ++ (le_bytes torrent.bitfield_length ++ take torrent.bitfield_length torrent.bitfield))

-- Each `write` takes something.
abbrev pub Takes : (List ℕ → List ℕ → ℕ) → Type 0
Takes write = (f : List ℕ) (b : ℕ) (bs : List ℕ) → 0 < write f (b ∷ bs)

module _ (write : List ℕ → List ℕ → ℕ) (most : (f b : List ℕ) → write f b ≤ length b) where
  then_write_lem :
      (r : Bool × List ℕ) (so_far buf : List ℕ)
      → (r.0 ≡ true → r.1 ≡ so_far)
      → (Takes write → r.0 ≡ true)
      → (next : Bool × List ℕ) × (then_write write r buf ≡ ok next)
        × (next.0 ≡ true → next.1 ≡ so_far ++ buf)
        × (Takes write → next.0 ≡ true)
  then_write_lem (true, file) so_far buf whole takes =
      let w = write_all_lem write most file buf in
      (
        (w.0, file ++ take w.1 buf),
        w.2,
        λ done. ap₂ (λ f b. f ++ b) (whole refl) (take_all w.1 buf (w.3 done)),
        w.4,
      )
  then_write_lem (false, file) so_far buf whole takes =
      ((false, file), refl, λ e. cc, λ t. let no : false ≡ true = takes t in cc)

  write_kept_lem :
      (torrent : Kept) (len : ℕ)
      → strlen torrent.download_path ≡ ok len
      → torrent.bitfield_length ≤ length torrent.bitfield
      → (r : Bool × List ℕ) × (write_kept write torrent ≡ ok r)
        × (r.0 ≡ true → r.1 ≡ kept_bytes torrent len)
        × (Takes write → r.0 ≡ true)
  unfolding write_kept
  write_kept_lem torrent len path bits =
      let path_bytes = take (u32 len) torrent.download_path in
      let count = le_bytes torrent.bitfield_length in
      let bit_bytes = take torrent.bitfield_length torrent.bitfield in
      let a = then_write_lem (true, []) [] (le_bytes (u32 len)) (λ e. refl) (λ t. refl) in
      let b = then_write_lem a.0 (le_bytes (u32 len)) path_bytes a.2 a.3 in
      let c = then_write_lem b.0 (le_bytes (u32 len) ++ path_bytes) count b.2 b.3 in
      let d = then_write_lem c.0 ((le_bytes (u32 len) ++ path_bytes) ++ count) bit_bytes c.2 c.3 in
      (
        d.0,
        rw (path, a.1, b.1, c.1, le→leb torrent.bitfield_length (length torrent.bitfield) bits) d.1,
        λ done.
            d.2 done
            ∙ append_assoc (le_bytes (u32 len) ++ path_bytes) count bit_bytes
            ∙ append_assoc (le_bytes (u32 len)) path_bytes (count ++ bit_bytes),
        d.3,
      )

different : (p q : List ℕ) → p ≢ q → same_list p q ≡ false
different p q apart = elim (Bool-cases (same_list p q)) [
  | inl same ↦ absurd (apart (same_list-eq p q same))
  | inr other ↦ other
]

different_endings :
    (xs : List ℕ)
    → same_list (xs ++ b'.' ∷ b'p' ∷ b'i' ∷ b'g' ∷ []) (xs ++ b'.' ∷ b't' ∷ b'm' ∷ b'p' ∷ [])
      ≡ false
different_endings [] = refl
different_endings (x ∷ xs) = rw (==_refl x) (different_endings xs)

path_in_lem :
    (dir name ending : List ℕ)
    → length dir + length name + length ending < 1023
    → path_in dir name ending ≡ (dir ++ b'/' ∷ name) ++ ending
path_in_lem dir name ending short =
    let all : length (dir ++ b'/' ∷ (name ++ ending)) ≤ 1023 =
      omega (arith, length-append dir (b'/' ∷ (name ++ ending)), length-append name ending) in
    take_all 1023 (dir ++ b'/' ∷ (name ++ ending)) all ∙ sym (append_assoc dir (b'/' ∷ name) ending)

-- When both names fit, they are two.
pub names_apart :
    (dir name : List ℕ)
    → length dir + length name < 1019
    → same_list (pig_name dir name) (tmp_name dir name) ≡ false
names_apart dir name short =
    rw
      (
        path_in_lem dir name (b'.' ∷ b'p' ∷ b'i' ∷ b'g' ∷ []) (omega arith),
        path_in_lem dir name (b'.' ∷ b't' ∷ b'm' ∷ b'p' ∷ []) (omega arith),
      )
      (different_endings (dir ++ b'/' ∷ name))

settle_lem :
    (calls : Calls) (tmp pig : List ℕ) (r : Bool × List ℕ) (files : Files) (whole : List ℕ)
    → same_list pig tmp ≡ false
    → (r.0 ≡ true → r.1 ≡ whole)
    → ((settle calls tmp pig r files).1 pig ≡ files pig)
      ⊎ ((settle calls tmp pig r files).1 pig ≡ some whole)
unfolding settle
settle_lem calls tmp pig (done, bytes) files whole apart complete =
    elim (Bool-cases (done && calls.syncs && calls.renames)) [
      | inl moved ↦
          let all : done ≡ true = ground (arith, moved) in
          inr (rw (moved, same_list_refl pig, same_list_refl tmp) (ap some (complete all)))
      | inr kept ↦ inl (rw (kept, apart) refl)
    ]

settle-true :
    (calls : Calls) (tmp pig : List ℕ) (r : Bool × List ℕ) (files : Files) (whole : List ℕ)
    → (r.0 ≡ true → r.1 ≡ whole)
    → (settle calls tmp pig r files).0 ≡ true
    → (settle calls tmp pig r files).1 pig ≡ some whole
unfolding settle
settle-true calls tmp pig (done, bytes) files whole complete =
    elim (Bool-cases (done && calls.syncs && calls.renames)) [
      | inl moved ↦
          let all : done ≡ true = ground (arith, moved) in
          λ e. rw (moved, same_list_refl pig, same_list_refl tmp) (ap some (complete all))
      | inr kept ↦ λ e. let no : false ≡ true = rw kept at e in cc
    ]

settle-others :
    (calls : Calls) (tmp pig : List ℕ) (r : Bool × List ℕ) (files : Files) (other : List ℕ)
    → same_list other tmp ≡ false
    → same_list other pig ≡ false
    → (settle calls tmp pig r files).1 other ≡ files other
unfolding settle
settle-others calls tmp pig (done, bytes) files other no_tmp no_pig =
    elim (Bool-cases (done && calls.syncs && calls.renames)) [
      | inl moved ↦ rw (moved, no_pig, no_tmp) refl
      | inr kept ↦ rw (kept, no_tmp) refl
    ]

-- The path is a C string, the bitfield has the bytes that its length says, and the names of the two
-- files fit into their buffers. Then `create_resume_file` ends without a fault, however much each
-- `write` takes and whichever calls fail: the resume file is as it was or is complete, it is complete
-- when the answer is true, and no file changes but it and the one beside it.
pub create_resume_file_lem :
    (write : List ℕ → List ℕ → ℕ) (calls : Calls) (torrent : Kept) (dir : List ℕ) (files : Files)
    (len : ℕ)
    → ((f b : List ℕ) → write f b ≤ length b)
    → strlen torrent.download_path ≡ ok len
    → torrent.bitfield_length ≤ length torrent.bitfield
    → length dir + length torrent.name < 1019
    → (done : Bool) × (after : Files) × (create_resume_file write calls torrent dir files
        ≡ ok (done, after))
      × ((after (pig_name dir torrent.name) ≡ files (pig_name dir torrent.name))
          ⊎ (after (pig_name dir torrent.name) ≡ some (kept_bytes torrent len)))
      × (done ≡ true → after (pig_name dir torrent.name) ≡ some (kept_bytes torrent len))
      × ((other : List ℕ)
          → other ≢ tmp_name dir torrent.name
          → other ≢ pig_name dir torrent.name
          → after other ≡ files other)
unfolding create_resume_file
create_resume_file_lem write calls torrent dir files len most path bits short =
    let tmp = tmp_name dir torrent.name in
    let pig = pig_name dir torrent.name in
    let kept = write_kept_lem write most torrent len path bits in
    let whole = kept_bytes torrent len in
    elim (Bool-cases calls.creates) [
      | inl opened ↦ (
        (settle calls tmp pig kept.0 files).0,
        (settle calls tmp pig kept.0 files).1,
        rw (path, opened, kept.1) refl,
        settle_lem calls tmp pig kept.0 files whole (names_apart dir torrent.name short) kept.2,
        settle-true calls tmp pig kept.0 files whole kept.2,
        λ other a b.
            settle-others calls tmp pig kept.0 files other (different other tmp a)
              (different other pig b),
      )
      | inr closed ↦ (
        false,
        files,
        rw (path, closed) refl,
        inl refl,
        λ e. let no : false ≡ true = e in cc,
        λ other a b. refl,
      )
    ]

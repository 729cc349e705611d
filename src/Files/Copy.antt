-- ===== src/Files/Copy.antt =====
-- `copy_torrent_file` of files/file_interactions.c copies, or says that it did not.
use bite_bit_bitten.Common.{
  ℕ, zero, suc, ◌≤◌, ◌≡◌, refl, sym, ap, ◌∙◌, inl, inr, Bool, true, false, none, some, List, [],
  ◌∷◌, ◌++◌, append_assoc, append-nil, arith, ◌==◌, ==_iff, Bool-cases, length, take, drop,
  length-drop, take-append-drop, take_all, same_list, same_list_refl,
}
use bite_bit_bitten.Common.Outcome.{ok, ◌>>=◌}
use bite_bit_bitten.Resume.{Files, put}
use bite_bit_bitten.Files.{copy_loop, copy_content, copy_opened, copy_torrent_file}

module _ (fwrite : List ℕ → List ℕ → ℕ) (fclose : List ℕ → ℕ) where
  copy_loop_lem :
      (fuel : ℕ) (source written : List ℕ)
      → length source ≤ fuel
      → (done : Bool) × (copy : List ℕ) × (copy_loop fwrite fclose fuel source written
          ≡ ok (done, copy))
        × (done ≡ true → copy ≡ written ++ source)
        × (((w : List ℕ) (chunk : List ℕ) → fwrite w chunk ≡ length chunk) → done ≡ true)
  unfolding copy_loop
  copy_loop_lem fuel [] written h =
      (true, written, refl, λ e. sym (append-nil written), λ full. refl)
  copy_loop_lem zero (b ∷ source) written h = absurd (omega arith)
  copy_loop_lem (suc fuel) (b ∷ source) written h =
      let chunk = take 65536 (b ∷ source) in
      let behind = drop 65536 (b ∷ source) in
      let short : length behind ≤ fuel = omega (arith, length-drop 65536 (b ∷ source)) in
      let rest = copy_loop_lem fuel behind (written ++ chunk) short in
      elim (Bool-cases (fwrite written chunk == length chunk)) [
        | inl all ↦ (
          rest.0,
          rest.1,
          rw all rest.2,
          λ e.
              rest.3 e
              ∙ append_assoc written chunk behind
              ∙ ap (λ l. written ++ l) (take-append-drop 65536 (b ∷ source)),
          rest.4,
        )
        | inr part ↦ (
          false,
          written ++ take (fwrite written chunk) chunk,
          rw part refl,
          λ e. cc,
          λ full.
              let all = (==_iff (fwrite written chunk) (length chunk)).1 (full written chunk) in
              let wrong : true ≡ false = sym all ∙ part in cc,
        )
      ]

-- A copy of a file to another path, which can be read to its end, comes to an end however much each
-- `fwrite` takes: when the answer is true the other path holds the first bytes of the source, as many
-- as closing the file leaves there, and so all of them when closing leaves all; if the other path can
-- be written and every `fwrite` takes all, the answer is true, whatever closing leaves; and every path
-- but the copy's keeps what it has.
pub copy_torrent_file_lem :
    (fwrite : List ℕ → List ℕ → ℕ) (fclose : List ℕ → ℕ) (dest_opens : Bool)
    (source dest bytes : List ℕ) (files : Files)
    → files source ≡ some bytes
    → same_list source dest ≡ false
    → (done : Bool) × (after : Files) × (copy_torrent_file fwrite fclose none dest_opens source dest
          files
        ≡ ok (done, after))
      × (done ≡ true → after dest ≡ some (take (fclose bytes) bytes))
      × (done ≡ true → length bytes ≤ fclose bytes → after dest ≡ some bytes)
      × (dest_opens ≡ true
          → ((w : List ℕ) (chunk : List ℕ) → fwrite w chunk ≡ length chunk)
          → done ≡ true)
      × ((other : List ℕ) → same_list other dest ≡ false → after other ≡ files other)
unfolding copy_torrent_file copy_opened copy_content
copy_torrent_file_lem fwrite fclose false source dest bytes files there differ =
    (false, files, rw there refl, λ e. cc, λ e. cc, λ e. cc, λ other apart. refl)
copy_torrent_file_lem fwrite fclose true source dest bytes files there differ =
    let r = copy_loop_lem fwrite fclose (length bytes) bytes [] (omega arith) in
    let opened : Files = put files dest (some []) in
    let after : Files = put opened dest (some (take (fclose r.1) r.1)) in
    let still : opened source ≡ some bytes = rw differ there in
    let held : r.0 ≡ true → after dest ≡ some (take (fclose bytes) bytes) =
      λ e. rw (same_list_refl dest) (ap (λ l. some (take (fclose l) l)) (r.3 e)) in
    (
      r.0,
      after,
      ap (λ o. copy_opened fwrite fclose none true source dest o files) there
          ∙ ap (λ o. copy_content fwrite fclose none dest o opened) still
          ∙ ap (λ o. o >>= λ c. ok (c.0, put opened dest (some (take (fclose c.1) c.1)))) r.2,
      held,
      λ e whole. held e ∙ ap some (take_all (fclose bytes) bytes whole),
      λ e full. r.4 full,
      λ other apart. rw apart refl,
    )

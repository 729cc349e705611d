-- ===== src/Files.antt =====
-- files/file_interactions.c: the reading of a torrent file, its copy, and the directories and files of a
-- download. What the system answers is a parameter.
pub mod Copy
mod Tests
use bite_bit_bitten.Common.{
  ℕ, zero, suc, Bool, true, false, ◌&&◌, not, Option, none, some, List, [], ◌∷◌, ◌++◌, ◌==◌,
  if◌then◌else◌, length, take, drop,
}
use bite_bit_bitten.Common.Outcome.{Outcome, ok, out_of_fuel, ◌>>=◌}
use bite_bit_bitten.Strings.{contains_suffix}
use bite_bit_bitten.Resume.{Files, put}

-- ".torrent"
abbrev pub torrent_suffix : List ℕ
torrent_suffix = b'.' ∷ b't' ∷ b'o' ∷ b'r' ∷ b'r' ∷ b'e' ∷ b'n' ∷ b't' ∷ []

-- Of a file that opens, `content` has the size that `ftell` says and the bytes that `fread` gives.
abbrev pub read_content : Option (ℕ × List ℕ) → Option (List ℕ)
read_content none = none
read_content (some (size, bytes)) = if length bytes == size then some bytes else none

unfoldable pub read_ben_file : (List ℕ → Option (ℕ × List ℕ)) → List ℕ → Option (List ℕ)
unfolding contains_suffix
read_ben_file content file_path =
    if not (contains_suffix file_path torrent_suffix)
    then none
    else read_content (content file_path)

-- `fwrite` is the system's: how many bytes it takes, of a file that holds so much already and a
-- chunk. So is `fclose`: how many of the bytes that were taken are in the file once it is closed. What
-- the call answers is not looked at.
module _ (fwrite : List ℕ → List ℕ → ℕ) (fclose : List ℕ → ℕ) where
  -- The loop over the chunks of 65536 bytes: whether all was written, and the copy.
  unfoldable pub copy_loop : ℕ → List ℕ → List ℕ → Outcome (Bool × List ℕ)
  copy_loop fuel [] written = ok (true, written)
  copy_loop zero (b ∷ source) written = out_of_fuel
  copy_loop (suc fuel) (b ∷ source) written =
      let chunk = take 65536 (b ∷ source) in
      let n = fwrite written chunk in
      let rest = copy_loop fuel (drop 65536 (b ∷ source)) (written ++ chunk) in
      if n == length chunk then rest else ok (false, written ++ take n chunk)

  abbrev pub closed : List ℕ → List ℕ
  closed written = take (fclose written) written

  -- With the copy open, and so empty: the copying from what the source now is, of which a read
  -- fails at `error`, if at all.
  unfoldable pub copy_content : Option ℕ → List ℕ → Option (List ℕ) → Files → Outcome (Bool × Files)
  unfolding copy_loop
  copy_content error dest none files = ok (false, files)
  copy_content none dest (some bytes) files =
      copy_loop (length bytes) bytes [] >>= λ r. ok (r.0, put files dest (some (closed r.1)))
  copy_content (some place) dest (some bytes) files =
      copy_loop (length bytes) (take place bytes) [] >>= λ r.
      ok (false, put files dest (if r.0 then none else some (closed r.1)))

  -- `dest_opens` says that the copy can be written.
  unfoldable pub copy_opened :
      Option ℕ → Bool → List ℕ → List ℕ → Option (List ℕ) → Files → Outcome (Bool × Files)
  unfolding copy_content
  copy_opened error dest_opens source dest none files = ok (false, files)
  copy_opened error false source dest (some bytes) files = ok (false, files)
  copy_opened error true source dest (some bytes) files =
      let opened = put files dest (some []) in copy_content error dest (opened source) opened

  unfoldable pub copy_torrent_file :
      Option ℕ → Bool → List ℕ → List ℕ → Files → Outcome (Bool × Files)
  unfolding copy_opened
  copy_torrent_file error dest_opens source dest files =
      copy_opened error dest_opens source dest (files source) files

-- The paths that `make_dir_recursive` makes, in order: what is before each slash, and the whole.
abbrev pub dir_calls : List ℕ → List ℕ → List (List ℕ)
dir_calls before [] = before ∷ []
dir_calls before (b ∷ path) =
    let more = dir_calls (before ++ b ∷ []) path in
    if b == b'/' && not (length before == 0) then before ∷ more else more

-- `made` is the system's: whether a directory is there after a call for it, when those calls were made
-- before.
abbrev pub make_dirs : (List (List ℕ) → List ℕ → Bool) → List (List ℕ) → List (List ℕ) → Bool
make_dirs made tried [] = true
make_dirs made tried (path ∷ []) = made tried path
make_dirs made tried (path ∷ next ∷ paths) = make_dirs made (tried ++ path ∷ []) (next ∷ paths)

unfoldable pub make_dir_recursive : (List (List ℕ) → List ℕ → Bool) → List ℕ → Bool
make_dir_recursive made path = make_dirs made [] (dir_calls [] path)

-- what is before the last slash
abbrev pub before_last_slash : List ℕ → Option (List ℕ)
before_last_slash [] = none
before_last_slash (b ∷ path) = elim (before_last_slash path) [
  | some dir ↦ some (b ∷ dir)
  | none ↦ (if b == b'/' then some [] else none)
]

-- The directories that a file's path needs, if it has any.
abbrev pub make_parent : (List (List ℕ) → List ℕ → Bool) → Option (List ℕ) → Bool
unfolding make_dir_recursive
make_parent made none = true
make_parent made (some dir) = make_dir_recursive made dir

-- `opens` and `fallocate` are the system's.
unfoldable pub allocate_file :
    (List (List ℕ) → List ℕ → Bool)
    → (List ℕ → Bool)
    → (List ℕ → ℕ → Bool)
    → List ℕ
    → List ℕ
    → ℕ
    → Bool
allocate_file made opens fallocate download_path file_path file_length =
    let path = take 4095 (download_path ++ file_path) in
    make_parent made (before_last_slash path) && (opens path && fallocate path file_length)

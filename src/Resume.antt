-- ===== src/Resume.antt =====
-- resume/resume.c: what is kept of a torrent between two runs. `tmp_name` and `pig_name` are the
-- two paths that `snprintf` makes.
pub mod WriteAll
pub mod Atomic
pub mod ReadBack
pub mod RoundTrip
mod Tests
use bite_bit_bitten.Common.{
  ℕ, zero, suc, ◌-◌, Bool, true, false, ◌&&◌, not, Option, none, some, List, [], ◌∷◌, ◌++◌, leb,
  ◌==◌, if◌then◌else◌, length, take, drop, u32, same_list, strlen, le_bytes, le_word,
}
use bite_bit_bitten.Common.Outcome.{Outcome, ok, fault, out_of_fuel, ◌>>=◌}

-- The fields of `TR_torrent` that a resume file keeps, and the name in its `info`. `download_path`
-- is the buffer that the pointer points at.
pub record Kept : Type 0 where
  pub name : List ℕ
  pub download_path : List ℕ
  pub bitfield_length : ℕ
  pub bitfield : List ℕ

-- The files of the system by their paths.
abbrev pub Files : Type 0
Files = List ℕ → Option (List ℕ)

abbrev pub put : Files → List ℕ → Option (List ℕ) → Files
put files path content other = if same_list other path then content else files other

-- `snprintf` into 1024 bytes, one of them for the end
abbrev pub path_in : List ℕ → List ℕ → List ℕ → List ℕ
path_in dir name ending = take 1023 (dir ++ b'/' ∷ (name ++ ending))

abbrev pub tmp_name : List ℕ → List ℕ → List ℕ
tmp_name dir name = path_in dir name (b'.' ∷ b't' ∷ b'm' ∷ b'p' ∷ [])

abbrev pub pig_name : List ℕ → List ℕ → List ℕ
pig_name dir name = path_in dir name (b'.' ∷ b'p' ∷ b'i' ∷ b'g' ∷ [])

-- `write` is the system's: how many bytes it takes, of a file that holds so much already and a
-- buffer, 0 for an error.
module _ (write : List ℕ → List ℕ → ℕ) where
  -- The loop: whether all was written, and the file after it.
  unfoldable pub write_loop : ℕ → List ℕ → List ℕ → Outcome (Bool × List ℕ)
  write_loop fuel file [] = ok (true, file)
  write_loop zero file (b ∷ buf) = out_of_fuel
  write_loop (suc fuel) file (b ∷ buf) =
      let n = write file (b ∷ buf) in
      let rest = write_loop fuel (file ++ take n (b ∷ buf)) (drop n (b ∷ buf)) in
      if n == 0 then ok (false, file) else rest

  unfoldable pub write_all : List ℕ → List ℕ → Outcome (Bool × List ℕ)
  unfolding write_loop
  write_all file buf = write_loop (length buf) file buf

  -- the next `write_all` of a chain of them
  abbrev pub then_write : Bool × List ℕ → List ℕ → Outcome (Bool × List ℕ)
  then_write (true, file) buf = write_all file buf
  then_write (false, file) buf = ok (false, file)

  -- The four fields, into an empty file. The length of the path is an `uint32_t`.
  unfoldable pub write_kept : Kept → Outcome (Bool × List ℕ)
  write_kept torrent = do
    len ← strlen torrent.download_path
    a ← write_all [] (le_bytes (u32 len))
    b ← then_write a (take (u32 len) torrent.download_path)
    c ← then_write b (le_bytes torrent.bitfield_length)
    let bits = take torrent.bitfield_length torrent.bitfield
    if leb torrent.bitfield_length (length torrent.bitfield)
        then then_write c bits
        else (if c.0 then fault else ok c)

-- Whether the other calls of the system succeed.
pub record Calls : Type 0 where
  pub creates : Bool
  pub syncs : Bool
  pub renames : Bool
  pub opens_dir : Bool
  pub syncs_dir : Bool

-- What follows when the file `tmp` has its content.
unfoldable pub settle : Calls → List ℕ → List ℕ → Bool × List ℕ → Files → Bool × Files
settle calls tmp pig (done, bytes) files =
    let written = put files tmp (some bytes) in
    if not (done && calls.syncs && calls.renames)
    then (false, written)
    else (calls.opens_dir && calls.syncs_dir, put (put written tmp none) pig (written tmp))

unfoldable pub create_resume_file :
    (List ℕ → List ℕ → ℕ) → Calls → Kept → List ℕ → Files → Outcome (Bool × Files)
unfolding settle
create_resume_file write calls torrent dir files =
    let tmp = tmp_name dir torrent.name in
    let pig = pig_name dir torrent.name in
    strlen torrent.download_path >>= λ len.
    if not calls.creates
    then ok (false, files)
    else write_kept write torrent >>= λ r. ok (settle calls tmp pig r files)

-- `read` is the system's: how many bytes it gives, of what the file still holds and the room that
-- there is, 0 at the end and for an error.
module _ (read : List ℕ → ℕ → ℕ) where
  -- The loop: whether all was read, the bytes, and what the file still holds.
  unfoldable pub read_loop : ℕ → List ℕ → ℕ → List ℕ → Outcome (Bool × List ℕ × List ℕ)
  read_loop fuel input zero got = ok (true, got, input)
  read_loop zero input (suc len) got = out_of_fuel
  read_loop (suc fuel) input (suc len) got =
      let n = read input (suc len) in
      let rest = read_loop fuel (drop n input) (suc len - n) (got ++ take n input) in
      if n == 0 then ok (false, got, input) else rest

  -- Into a buffer: whether all was read, the buffer, and what the file still holds.
  unfoldable pub read_all : List ℕ → List ℕ → ℕ → Outcome (Bool × List ℕ × List ℕ)
  unfolding read_loop
  read_all input buf len = read_loop len input len [] >>= λ r.
      if leb (length r.1) (length buf) then ok (r.0, r.1 ++ drop (length r.1) buf, r.2) else fault

  -- The chain of reads, each left out when the one before it failed. `path_len` starts undefined, and
  -- is not looked at before it has been read.
  unfoldable pub read_kept : Kept → List ℕ → Outcome (Bool × Kept)
  unfolding read_all
  read_kept torrent input = do
    (a, len, in₁) ← read_all input (le_bytes 0) 4
    if not a
        then ok (false, torrent)
        else read_all in₁ torrent.download_path (le_word len) >>= λ p.
            let tr₁ = record torrent { download_path = p.1 } in
            if not p.0
            then ok (false, tr₁)
            else read_all p.2 (le_bytes torrent.bitfield_length) 4 >>= λ n.
                let tr₂ = record tr₁ { bitfield_length = le_word n.1 } in
                if not n.0
                then ok (false, tr₂)
                else read_all n.2 torrent.bitfield (le_word n.1) >>= λ b.
                    ok (b.0, record tr₂ { bitfield = b.1 })

unfoldable pub read_resume_file : (List ℕ → ℕ → ℕ) → Kept → Option (List ℕ) → Outcome (Bool × Kept)
unfolding read_kept
read_resume_file read torrent none = ok (false, torrent)
read_resume_file read torrent (some bytes) = read_kept read torrent bytes

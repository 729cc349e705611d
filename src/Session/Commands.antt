-- ===== src/Session/Commands.antt =====
-- The commands of repl/repl.c, and the line that main.c reads for them. A C string is the list of its
-- bytes before the 0.
use bite_bit_bitten.Common.{
  ℕ, zero, suc, ◌+◌, ◌-◌, ◌/◌, ◌^◌, Bool, true, false, ◌||◌, not, Option, none, some, List, [], ◌∷◌,
  ◌++◌, ltb, leb, ◌==◌, if◌then◌else◌, length, get_elem?, get_or, set, take, drop, replicate, u32,
  ℤ, pos, negsuc, same_list,
}
use bite_bit_bitten.Common.Outcome.{of_option, Outcome, ok, failed, fault, out_of_fuel, ◌>>=◌}
use bite_bit_bitten.Bencode.Strtol.{strtol, strtol_digits}
use bite_bit_bitten.Bencode.Parser.{parse_dict}
use bite_bit_bitten.Metainfo.{TrFile}
use bite_bit_bitten.Metainfo.Fields.{as_dict}
use bite_bit_bitten.Metainfo.InfoHash.{get_info_hash}
use bite_bit_bitten.Strings.{skip_spaces, replace_spaces_with}
use bite_bit_bitten.Tracker.{torrent_downloading}
use bite_bit_bitten.Tracker.Url.{found}
use bite_bit_bitten.Files.{read_ben_file, allocate_file}
use bite_bit_bitten.Session.{TrTorrent, ClSession, World}
use bite_bit_bitten.Session.Start.{init_tr_torrent}

abbrev pub is_delimiter : ℕ → Bool
is_delimiter b = b == b' ' || (b == 9 || b == 10)

abbrev pub flush : List ℕ → List (List ℕ) → List (List ℕ)
flush [] tokens = tokens
flush (b ∷ token) tokens = (b ∷ token) ∷ tokens

-- `strtok` over a line, with what it has of the token that it is in
unfoldable pub strtok_all : List ℕ → List ℕ → List (List ℕ)
strtok_all [] token = flush token []
strtok_all (b ∷ line) token =
    let between = flush token (strtok_all line []) in
    let inside = strtok_all line (token ++ b ∷ []) in if is_delimiter b then between else inside

unfoldable pub tokenize : List ℕ → ℕ → List (List ℕ)
unfolding strtok_all
tokenize line max_args = take max_args (strtok_all line [])

-- `memcmp` over twenty bytes. A torrent whose arena was destroyed is read behind its mapping.
unfoldable pub is_duplicate_torrent : List ℕ → List TrTorrent → Outcome Bool
is_duplicate_torrent hash [] = ok false
is_duplicate_torrent hash (torrent ∷ torrents) =
    let rest = is_duplicate_torrent hash torrents in
    if torrent.released then fault else if same_list hash torrent.info_hash then ok true else rest

-- The loop over the files from `i` on: whether all could be allocated.
abbrev pub allocate_files : World → List ℕ → List TrFile → Bool
allocate_files world download_path [] = true
allocate_files world download_path (file ∷ files) =
    let rest = allocate_files world download_path files in
    let done =
      allocate_file world.makes_dir world.opens world.fallocates download_path file.path
        file.length in
    if done then rest else false

-- a call whose NULL ends the command
abbrev pub attempt {ℓ} :
    {A : Type ℓ} → Outcome A → ClSession → (A → Outcome ClSession) → Outcome ClSession
attempt out_of_fuel session next = out_of_fuel
attempt fault session next = fault
attempt failed session next = ok session
attempt (ok a) session next = next a

-- `CMD_add` once the torrent has its place: the counter of its loop is not set and begins with the
-- number that the memory holds, here one that is not negative. A file that cannot be allocated leaves the torrent in the session.
unfoldable pub complete : World → ClSession → List ℕ → TrTorrent → TrTorrent
complete world session path torrent =
    let download_path =
      replace_spaces_with (session.download_folder_path ++ b'/' ∷ torrent.info.name) b'_' in
    let bytes = (torrent.info.pieces_count + 7) / 8 in
    let placed = record torrent { download_path = download_path } in
    if allocate_files world download_path
      (drop world.number (take torrent.info.files_count torrent.info.files))
    then record placed {
      state = torrent_downloading;
      torrent_file_path = session.torrent_dir_path ++ b'/' ∷ path;
      bitfield_length = bytes;
      bitfield = replicate bytes 0;
      requested_pieces = replicate bytes 0;
    }
    else record placed { released = true }

-- The array of the torrents has 128 places.
unfoldable pub add_torrent : World → ClSession → List ℕ → TrTorrent → Outcome ClSession
unfolding complete is_duplicate_torrent
add_torrent world session path torrent =
    is_duplicate_torrent torrent.info_hash session.torrents >>= λ known.
    if known
    then ok session
    else if ltb (length session.torrents) 128
    then ok
        (record session { torrents = session.torrents ++ complete world session path torrent ∷ [] })
    else fault

-- `f` is the fuel of the parser.
unfoldable pub add_file : ℕ → World → ClSession → List ℕ → List ℕ → Outcome ClSession
unfolding add_torrent
add_file f world session path buffer =
    attempt (parse_dict buffer f 0 >>= λ r. as_dict r.0) session (λ pair.
      attempt (init_tr_torrent world buffer pair) session (λ made.
        get_info_hash made.0 f >>= λ hash.
        add_torrent world session path (record made.1 { info_hash = hash })))

unfoldable pub cmd_add : ℕ → World → ClSession → List (List ℕ) → Outcome ClSession
unfolding add_file
cmd_add f world session [] = ok session
cmd_add f world session (command ∷ []) = ok session
cmd_add f world session (command ∷ path ∷ more) =
    attempt (found (read_ben_file world.content path)) session (add_file f world session path)

-- The digits after the white space and the sign are too many for a `long`.
abbrev pub without_sign : List ℕ → List ℕ
without_sign [] = []
without_sign (b ∷ str) = if b == b'-' || b == b'+' then str else b ∷ str

abbrev pub is_out_of_range : Bool → Option (ℕ × ℕ) → Bool
is_out_of_range negative none = false
is_out_of_range negative (some (v, n)) = ltb (if negative then 2 ^ 63 else 2 ^ 63 - 1) v

abbrev pub strtol_overflows : List ℕ → Bool
strtol_overflows str =
    let bytes = skip_spaces str in
    is_out_of_range (get_or bytes 0 0 == b'-') (strtol_digits (without_sign bytes ++ 0 ∷ []) 0 0)

-- a `long` of at least 1, cut down to an `int`
abbrev pub cut_to_int : ℤ → Outcome ℤ
cut_to_int (negsuc n) = failed
cut_to_int (pos n) =
    let word = u32 n in
    if n == 0
    then failed
    else ok (if ltb word (2 ^ 31) then pos word else negsuc (2 ^ 32 - 1 - word))

-- `failed` is the -1.
unfoldable pub id_from_arg : List ℕ → Outcome ℤ
id_from_arg str = elim (strtol (str ++ 0 ∷ [])) [
  | none ↦ fault
  | some (val, end) ↦
      if strtol_overflows str || (end == 0 || not (end == length str))
      then failed
      else cut_to_int val
]

-- The place that an id names: `id - 1`, which is only held against the end of the array.
abbrev pub place_of : ℤ → Outcome ℕ
place_of (pos zero) = fault
place_of (pos (suc n)) = ok n
place_of (negsuc n) = fault

-- A read of the torrent at a place, whose arena may have been destroyed.
abbrev pub read_torrent : ClSession → ℕ → Outcome TrTorrent
read_torrent session place = of_option (get_elem? session.torrents place) >>= λ torrent.
    if torrent.released then fault else ok torrent

abbrev pub read_all_torrents : List TrTorrent → Outcome Bool
read_all_torrents [] = ok true
read_all_torrents (torrent ∷ torrents) =
    let rest = read_all_torrents torrents in if torrent.released then fault else rest

-- the last torrent takes the place of the one that goes
abbrev pub move_last : ℕ → ℕ → List TrTorrent → Option TrTorrent → List TrTorrent
move_last id n torrents none = torrents
move_last id n torrents (some last) = take n (set torrents id last)

abbrev pub delete_at : ℕ → ClSession → ClSession
delete_at id session =
    let n = length session.torrents - 1 in
    record session { torrents = move_last id n session.torrents (get_elem? session.torrents n) }

abbrev pub delete_place : ClSession → ℕ → Outcome ClSession
delete_place session place =
    let gone = read_torrent session place >>= λ torrent. ok (delete_at place session) in
    if leb (length session.torrents) place then ok session else gone

unfoldable pub cmd_delete : ClSession → List (List ℕ) → Outcome ClSession
unfolding id_from_arg
cmd_delete session (command ∷ arg ∷ []) =
    attempt (id_from_arg arg) session (λ id. place_of id >>= λ place. delete_place session place)
cmd_delete session [] = ok session
cmd_delete session (command ∷ []) = ok session
cmd_delete session (command ∷ arg ∷ other ∷ more) = ok session

-- The text of a torrent is read at the same place.
abbrev pub print_place : ClSession → ℕ → Outcome ClSession
print_place session place =
    let printed = read_torrent session place >>= λ torrent. ok session in
    if leb (length session.torrents) place then ok session else printed

unfoldable pub cmd_print : ClSession → List (List ℕ) → Outcome ClSession
unfolding id_from_arg
cmd_print session (command ∷ arg ∷ []) =
    attempt (id_from_arg arg) session (λ id. place_of id >>= print_place session)
cmd_print session [] = ok session
cmd_print session (command ∷ []) = ok session
cmd_print session (command ∷ arg ∷ other ∷ more) = ok session

-- The name of each torrent is read.
unfoldable pub cmd_list : ClSession → List (List ℕ) → Outcome ClSession
cmd_list session [] = read_all_torrents session.torrents >>= λ all. ok session
cmd_list session (command ∷ []) = read_all_torrents session.torrents >>= λ all. ok session
cmd_list session (command ∷ other ∷ more) = ok session

abbrev pub add : List ℕ
add = b'a' ∷ b'd' ∷ b'd' ∷ []

abbrev pub print : List ℕ
print = b'p' ∷ b'r' ∷ b'i' ∷ b'n' ∷ b't' ∷ []

abbrev pub delete : List ℕ
delete = b'd' ∷ b'e' ∷ b'l' ∷ b'e' ∷ b't' ∷ b'e' ∷ []

abbrev pub list : List ℕ
list = b'l' ∷ b'i' ∷ b's' ∷ b't' ∷ []

-- `help` and an unknown command only print.
unfoldable pub dispatch : ℕ → World → ClSession → List (List ℕ) → Outcome ClSession
unfolding cmd_add cmd_delete cmd_print cmd_list
dispatch f world session [] = ok session
dispatch f world session (name ∷ args) =
    if same_list name add
    then cmd_add f world session (name ∷ args)
    else if same_list name print
    then cmd_print session (name ∷ args)
    else if same_list name delete
    then cmd_delete session (name ∷ args)
    else if same_list name list
    then cmd_list session (name ∷ args)
    else ok session

-- "exit"
abbrev pub exit : List ℕ
exit = b'e' ∷ b'x' ∷ b'i' ∷ b't' ∷ []

-- A line of the main loop, without its end: the session after it, and whether the program goes on.
unfoldable pub run_line : ℕ → World → ClSession → List ℕ → Outcome (ClSession × Bool)
unfolding dispatch tokenize
run_line f world session line =
    let run = dispatch f world session (tokenize line 16) >>= λ s. ok (s, true) in
    if length line == 0
    then ok (session, true)
    else if same_list line exit
    then ok (session, false)
    else run

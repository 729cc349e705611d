-- ===== src/Session/Saved.antt =====
-- `init_saved_torrents` and `CMD_add_init` of init/init_session.c: the torrents of a former run.
use bite_bit_bitten.Common.{
  ℕ, true, ◌||◌, not, Option, none, some, List, [], ◌∷◌, ◌++◌, ltb, ◌==◌, if◌then◌else◌, length,
  take, drop, same_list,
}
use bite_bit_bitten.Common.Outcome.{Outcome, ok, fault, ◌>>=◌}
use bite_bit_bitten.Bencode.Parser.{parse_dict}
use bite_bit_bitten.Metainfo.Fields.{as_dict}
use bite_bit_bitten.Metainfo.InfoHash.{get_info_hash}
use bite_bit_bitten.Strings.{replace_spaces_with}
use bite_bit_bitten.Tracker.{torrent_needs_check}
use bite_bit_bitten.Tracker.Url.{found}
use bite_bit_bitten.Files.{read_ben_file}
use bite_bit_bitten.Resume.{path_in}
use bite_bit_bitten.Session.{TrTorrent, ClSession, World}
use bite_bit_bitten.Session.Start.{init_tr_torrent}
use bite_bit_bitten.Session.Commands.{allocate_files, attempt}

-- What a path gives that `arena_push_strf` takes for its format: there are no arguments.
abbrev pub format_path : List ℕ → Outcome (List ℕ)
format_path [] = ok []
format_path (b ∷ []) = if b == b'%' then fault else ok (b ∷ [])
format_path (b ∷ c ∷ path) =
    let here = format_path (c ∷ path) in
    let behind = format_path path in
    if not (b == b'%')
    then (here >>= λ text. ok (b ∷ text))
    else if c == b'%'
    then (behind >>= λ text. ok (b'%' ∷ text))
    else fault

-- `CMD_add_init` once the torrent has its place; the counter of its loop is that of `CMD_add`.
unfoldable pub complete_init : World → ClSession → List ℕ → TrTorrent → Outcome TrTorrent
complete_init world session path torrent =
    let download_path =
      replace_spaces_with (session.download_folder_path ++ b'/' ∷ torrent.info.name) b'_' in
    let placed = record torrent { download_path = download_path } in
    let ready = format_path path >>= λ text.
    ok (record placed { state = torrent_needs_check; torrent_file_path = text }) in
    if allocate_files world download_path
      (drop world.number (take torrent.info.files_count torrent.info.files))
    then ready
    else ok (record placed { released = true })

-- The array of the torrents has 128 places.
unfoldable pub add_saved : World → ClSession → List ℕ → TrTorrent → Outcome ClSession
unfolding complete_init
add_saved world session path torrent =
    let added = complete_init world session path torrent >>= λ made.
    ok (record session { torrents = session.torrents ++ made ∷ [] }) in
    if ltb (length session.torrents) 128 then added else fault

unfoldable pub add_saved_file : ℕ → World → ClSession → List ℕ → List ℕ → Outcome ClSession
unfolding add_saved
add_saved_file f world session path buffer =
    attempt (parse_dict buffer f 0 >>= λ r. as_dict r.0) session (λ pair.
      attempt (init_tr_torrent world buffer pair) session (λ made.
        get_info_hash made.0 f >>= λ hash.
        add_saved world session path (record made.1 { info_hash = hash })))

unfoldable pub cmd_add_init : ℕ → World → ClSession → List ℕ → Outcome ClSession
unfolding add_saved_file
cmd_add_init f world session path =
    attempt (found (read_ben_file world.content path)) session (add_saved_file f world session path)

-- `entries` are the names that `readdir` gives, if the directory opens.
unfoldable pub init_saved : ℕ → World → ClSession → List (List ℕ) → Outcome ClSession
unfolding cmd_add_init
init_saved f world session [] = ok session
init_saved f world session (name ∷ entries) =
    let added = cmd_add_init f world session (path_in session.torrent_dir_path name []) in
    if same_list name (b'.' ∷ []) || same_list name (b'.' ∷ b'.' ∷ [])
    then init_saved f world session entries
    else added >>= λ after. init_saved f world after entries

unfoldable pub init_saved_torrents :
    ℕ → World → ClSession → Option (List (List ℕ)) → Outcome ClSession
unfolding init_saved
init_saved_torrents f world session none = ok session
init_saved_torrents f world session (some entries) = init_saved f world session entries

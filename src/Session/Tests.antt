-- ===== src/Session/Tests.antt =====
-- Runs of the commands.
use bite_bit_bitten.Common.{
  ℕ, zero, suc, ◌≡◌, refl, true, false, none, some, List, [], ◌∷◌, arith, get_elem?, replicate, pos,
  same_list,
}
use bite_bit_bitten.Common.Outcome.{ok, fault}
use bite_bit_bitten.Bencode.Strtol.{strtol, strtol_from, strtol_sign, strtol_digits}
use bite_bit_bitten.Metainfo.{TrInfo}
use bite_bit_bitten.Tracker.{tracker_idle, torrent_downloading}
use bite_bit_bitten.Session.{TrTorrent, ClSession, World}
use bite_bit_bitten.Session.Start.{init_tr_swarm}
use bite_bit_bitten.Session.Commands.{tokenize, id_from_arg, cmd_delete, dispatch, delete}
use bite_bit_bitten.Session.Unique.{Unique, dispatch-Unique}
use bite_bit_bitten.Session.Saved.{format_path}
use bite_bit_bitten.Session.Words.{join, tokenize-join}

abbrev world : World
world = record {
  content = λ path. none;
  makes_dir = λ tried path. true;
  opens = λ path. true;
  fallocates = λ path size. true;
  peers = [];
  tracker = record {
    schema = [];
    host = [];
    path = [];
    port = 0;
    connection_id = 0;
    state = tracker_idle;
    last_announce = 0;
    announce_sent_at = 0;
    interval = pos 0;
    ip = 0;
  };
  number = 0;
}

abbrev info : TrInfo
info = record {
  name = b'a' ∷ [];
  created_by = none;
  comment = none;
  creation_date = pos 0;
  pieces = [];
  pieces_string_length = 0;
  pieces_count = 0;
  total_size = 0;
  trackers = [];
  trackers_count = 0;
  files = [];
  files_count = 0;
  piece_length = 0;
}

abbrev torrent_of : ℕ → TrTorrent
torrent_of h = record {
  state = torrent_downloading;
  info = info;
  info_hash = replicate 20 h;
  tracks = [];
  tracker_count = 0;
  download_path = [];
  torrent_file_path = [];
  downloaded = 0;
  uploaded = 0;
  bitfield = [];
  bitfield_length = 0;
  requested_pieces = [];
  swarm = init_tr_swarm world 0 0;
  released = false;
}

abbrev session_of : List TrTorrent → ClSession
session_of torrents = record {
  download_folder_path = b'/' ∷ b'd' ∷ [];
  torrent_dir_path = b'/' ∷ b't' ∷ [];
  torrents = torrents;
}

abbrev delete_one : List (List ℕ)
delete_one = delete ∷ (b'1' ∷ []) ∷ []

one_gone :
    dispatch 9 world (session_of (torrent_of 1 ∷ torrent_of 2 ∷ [])) delete_one
    ≡ ok (session_of (torrent_of 2 ∷ []))
unfolding dispatch cmd_delete id_from_arg strtol strtol_from strtol_sign strtol_digits
one_gone = refl

-- An id of 2 ^ 32 is cut down to 0, which names the place before the first torrent.
cut_down :
    dispatch 9 world
      (session_of (torrent_of 1 ∷ []))
      (delete ∷ (b'4' ∷ b'2' ∷ b'9' ∷ b'4' ∷ b'9' ∷ b'6' ∷ b'7' ∷ b'2' ∷ b'9' ∷ b'6' ∷ []) ∷ [])
    ≡ fault
unfolding dispatch cmd_delete id_from_arg strtol strtol_from strtol_sign strtol_digits
cut_down = refl

one_place :
    (i j : ℕ) (a b : TrTorrent)
    → get_elem? (torrent_of 1 ∷ []) i ≡ some a
    → get_elem? (torrent_of 1 ∷ []) j ≡ some b
    → same_list a.info_hash b.info_hash ≡ true
    → i ≡ j
one_place zero zero a b at_i at_j equal = refl
one_place zero (suc j) a b at_i at_j equal = cc
one_place (suc i) j a b at_i at_j equal = cc

one_less : dispatch 9 world (session_of (torrent_of 1 ∷ [])) delete_one ≡ ok (session_of [])
unfolding dispatch cmd_delete id_from_arg strtol strtol_from strtol_sign strtol_digits
one_less = refl

dispatch-Unique_example : Unique (session_of [])
dispatch-Unique_example =
    dispatch-Unique 9 world (session_of (torrent_of 1 ∷ [])) (session_of []) delete_one
      (omega arith, one_place) one_less

tokenize-join_example :
    tokenize (join ((b'a' ∷ b'd' ∷ b'd' ∷ []) ∷ (b'f' ∷ []) ∷ [])) 16
    ≡ (b'a' ∷ b'd' ∷ b'd' ∷ []) ∷ (b'f' ∷ []) ∷ []
tokenize-join_example =
    tokenize-join ((b'a' ∷ b'd' ∷ b'd' ∷ []) ∷ (b'f' ∷ []) ∷ []) 16
      ((omega arith, (refl, (refl, (refl, tt)))), ((omega arith, (refl, tt)), tt))

-- a path with a conversion in it
format_run : format_path (b'a' ∷ b'%' ∷ b'%' ∷ b'b' ∷ []) ≡ ok (b'a' ∷ b'%' ∷ b'b' ∷ [])
format_run = refl

format_fault : format_path (b'a' ∷ b'%' ∷ b's' ∷ []) ≡ fault
format_fault = refl

-- ===== src/Session.antt =====
-- The torrents of a session and the commands on them: init/init_session.c and repl/repl.c. `torrents`
-- holds the first `torrents_count` entries of the array, which has 128. The printed text is left out.
pub mod Start
pub mod Commands
pub mod Unique
pub mod Words
pub mod Paths
pub mod Saved
pub mod Former
mod Tests
use bite_bit_bitten.Common.{ℕ, Bool, Option, List}
use bite_bit_bitten.Metainfo.{TrInfo}
use bite_bit_bitten.Swarm.{TrPeer, TrSwarm}
use bite_bit_bitten.Tracker.{NetTracker, TorrentState}

-- `released` says that the arena of the torrent was destroyed while the session still has it.
pub record TrTorrent : Type 0 where
  pub state : TorrentState
  pub info : TrInfo
  pub info_hash : List ℕ
  pub tracks : List NetTracker
  pub tracker_count : ℕ
  pub download_path : List ℕ
  pub torrent_file_path : List ℕ
  pub downloaded : ℕ
  pub uploaded : ℕ
  pub bitfield : List ℕ
  pub bitfield_length : ℕ
  pub requested_pieces : List ℕ
  pub swarm : TrSwarm
  pub released : Bool

pub record ClSession : Type 0 where
  pub download_folder_path : List ℕ
  pub torrent_dir_path : List ℕ
  pub torrents : List TrTorrent

-- What the system and the memory hold when a torrent is added: the size and the bytes of the file at a
-- path, whether a directory is there after a call for it, whether a file opens and has its space, and
-- what the structures of peers and trackers and an unset number begin with.
pub record World : Type 0 where
  pub content : List ℕ → Option (ℕ × List ℕ)
  pub makes_dir : List (List ℕ) → List ℕ → Bool
  pub opens : List ℕ → Bool
  pub fallocates : List ℕ → ℕ → Bool
  pub peers : List TrPeer
  pub tracker : NetTracker
  pub number : ℕ

-- ===== src/Tracker.antt =====
-- The trackers of the torrents: `NET_tracker`, `TR_torrent`, `UDP_request` and `EV_loop` of
-- types/types.h, as far as the announces read or write them. A pointer to a torrent is its place in
-- the session, and a pointer to a tracker that place with the one in `tracks`.
pub mod Udp
pub mod Tick
pub mod Announce
pub mod Table
pub mod Timeout
pub mod Rounds
pub mod Liveness
pub mod Moves
pub mod Restart
pub mod Exchange
pub mod Connect
pub mod Url
pub mod Address
pub mod Percent
mod Tests
use bite_bit_bitten.Common.{ℕ, List, get_elem?, set, ℤ}
use bite_bit_bitten.Common.Outcome.{of_option, Outcome, ok, ◌>>=◌}
use bite_bit_bitten.Swarm.{TrSwarm}

pub data TrackState : Type 0 where
  tracker_not_resolved tracker_resolving tracker_idle tracker_announcing tracker_alive : TrackState
  tracker_failed : TrackState

pub data TorrentState : Type 0 where
  torrent_downloading torrent_needs_check torrent_checking torrent_seeding : TorrentState
  torrent_paused torrent_failed : TorrentState

-- Times are seconds, as `time` gives them.
pub record NetTracker : Type 0 where
  pub schema : List ℕ
  pub host : List ℕ
  pub path : List ℕ
  pub port : ℕ
  pub connection_id : ℕ
  pub state : TrackState
  pub last_announce : ℕ
  pub announce_sent_at : ℕ
  pub interval : ℤ
  pub ip : ℕ

pub record TrTorrent : Type 0 where
  pub state : TorrentState
  pub info_hash : List ℕ
  pub total_size : ℕ
  pub tracks : List NetTracker
  pub tracker_count : ℕ
  pub active_tracker_idx : ℕ
  pub downloaded : ℕ
  pub uploaded : ℕ
  pub swarm : TrSwarm

pub record UdpRequest : Type 0 where
  pub transaction_id : ℕ
  pub sent_at : ℕ
  pub torrent : ℕ
  pub tracker : ℕ

-- what `sendto` is given
pub record Datagram : Type 0 where
  pub ip : ℕ
  pub port : ℕ
  pub bytes : List ℕ

-- what goes to the thread pool: the torrent and the tracker of it
pub data Task : Type 0 where
  resolve_dns http_announce : ℕ → ℕ → Task

-- `sent` holds what left the socket, `tasks` what went to the pool.
pub record EvLoop : Type 0 where
  pub peer_id : List ℕ
  pub torrents : List TrTorrent
  pub udp_requests : List UdpRequest
  pub udp_requests_count : ℕ
  pub sent : List Datagram
  pub tasks : List Task

abbrev pub torrent_at : EvLoop → ℕ → Outcome TrTorrent
torrent_at loop t = of_option (get_elem? loop.torrents t)

abbrev pub put_torrent : EvLoop → ℕ → TrTorrent → EvLoop
put_torrent loop t torrent = record loop { torrents = set loop.torrents t torrent }

abbrev pub put_track : EvLoop → ℕ → TrTorrent → ℕ → NetTracker → EvLoop
put_track loop t torrent k track =
    put_torrent loop t (record torrent { tracks = set torrent.tracks k track })

-- a write through a pointer to a tracker
abbrev pub update_track : EvLoop → ℕ → ℕ → (NetTracker → NetTracker) → Outcome EvLoop
update_track loop t k change = do
  torrent ← torrent_at loop t
  track ← of_option (get_elem? torrent.tracks k)
  ok (put_track loop t torrent k (change track))

-- ===== src/Tracker/Liveness.antt =====
-- Trackers that never answer: the ticks of `ANN_announcer_tick` in announcer/announcer.c come to the
-- end of them.
use bite_bit_bitten.Common.{
  ℕ, suc, ◌+◌, ◌≤◌, ◌<◌, ◌≡◌, ◌⊎◌, Bool, some, length, get_elem?, if◌then◌else◌,
}
use bite_bit_bitten.Common.Outcome.{ok}
use bite_bit_bitten.Tracker.{
  tracker_idle, tracker_failed, torrent_failed, NetTracker, TrTorrent, EvLoop,
}
use bite_bit_bitten.Tracker.Tick.{ann_announcer_tick}
use bite_bit_bitten.Tracker.Rounds.{rounds, IsSilent, Turn, Ended}

-- what a tick comes to
abbrev Ticked : ℕ → ℕ → ℕ → ℕ → EvLoop → Type 0
Ticked m now id t loop =
    (next : EvLoop) × (ann_announcer_tick now id t loop ≡ ok next)
    × (Ended t next ⊎ Turn 7 m (now + 1) t next)

module _ (m now id t : ℕ) (loop : EvLoop) (turn : Turn 8 (suc m) now t loop) where
  abbrev k : ℕ
  k = turn.torrent.active_tracker_idx

-- The track once a lookup has been answered.
abbrev looked_up : Bool × ℕ → NetTracker → NetTracker
looked_up dns track =
    if dns.0
    then record track { ip = dns.1; state = tracker_idle }
    else record track { state = tracker_failed }

-- The torrent fails within so many rounds.
abbrev FailsWithin : (ℕ → ℕ) → (ℕ → Bool × ℕ) → ℕ → ℕ → ℕ → EvLoop → Type 0
FailsWithin random dns bound now t loop =
    (n : ℕ) × (n ≤ bound)
    × (after : EvLoop) × (rounds random dns now t n loop ≡ ok after)
    × (torrent : TrTorrent) × (get_elem? after.torrents t ≡ some torrent)
    × (torrent.state ≡ torrent_failed)

-- The torrent has its turn at a tracker, all from there on are silent, and the table has a place for
-- a request to each of them.
abbrev pub Silent : ℕ → ℕ → EvLoop → TrTorrent → Type 0
Silent now t loop torrent =
    (get_elem? loop.torrents t ≡ some torrent)
    × (torrent.tracker_count ≡ length torrent.tracks)
    × (torrent.active_tracker_idx < torrent.tracker_count)
    × (loop.udp_requests_count + torrent.tracker_count
        ≤ length loop.udp_requests + torrent.active_tracker_idx)
    × ((j : ℕ)
        → torrent.active_tracker_idx ≤ j
        → j < torrent.tracker_count
        → (track : NetTracker) × (get_elem? torrent.tracks j ≡ some track) × IsSilent now track)

-- ===== src/Session/Start.antt =====
-- `init_TR_torrent` and `init_TR_swarm` of init/init_session.c.
use bite_bit_bitten.Common.{
  ℕ, zero, suc, ◌+◌, ◌*◌, ◌/◌, ◌≤◌, ◌<◌, ◌≡◌, refl, ◌≢◌, false, List, [], ◌∷◌, arith, length, take,
  replicate, All, u32,
}
use bite_bit_bitten.Common.Outcome.{Outcome, ok, ◌>>=◌}
use bite_bit_bitten.Bencode.{BenPair}
use bite_bit_bitten.Metainfo.{TrTracker}
use bite_bit_bitten.Metainfo.Build.{ben_pairs_to_tr_info}
use bite_bit_bitten.Metainfo.Layout.{fill_in_calculated_field_in_tr_info}
use bite_bit_bitten.Swarm.{TrSwarm}
use bite_bit_bitten.Swarm.Known.{pool_addresses, WellFormed, Distinct}
use bite_bit_bitten.Tracker.{NetTracker, torrent_downloading}
use bite_bit_bitten.Tracker.Url.{run_of, tracker_string_to_net_tracker}
use bite_bit_bitten.Session.{TrTorrent, World}

-- `piece_length` of the swarm is not set. The product of the second slab is an `uint32_t`.
unfoldable pub init_tr_swarm : World → ℕ → ℕ → TrSwarm
init_tr_swarm world pieces_count piece_length =
    let bytes_count = (pieces_count + 7) / 8 in
    record {
      store = world.peers;
      peer_pool = run_of 0 200;
      pool_count = 0;
      peers = run_of 200 50;
      peers_count = 0;
      bitfield_slab = replicate (50 * bytes_count) 0;
      bytes_count = bytes_count;
      piece_buf_slab = replicate (u32 (50 * piece_length)) 0;
      piece_length = world.number;
    }

-- The loop over the trackers; a malformed one makes the whole torrent fail.
abbrev pub net_trackers : NetTracker → List TrTracker → Outcome (List NetTracker)
net_trackers blank [] = ok []
net_trackers blank (tracker ∷ trackers) = do
  track ← tracker_string_to_net_tracker tracker.announce blank
  tracks ← net_trackers blank trackers
  ok (track ∷ tracks)

-- What `CMD_add` sets afterwards is empty here. The buffer changes where file names are cleaned.
unfoldable pub init_tr_torrent : World → List ℕ → BenPair → Outcome (List ℕ × TrTorrent)
unfolding init_tr_swarm
init_tr_torrent world buffer pair = do
  (buffer', parsed) ← ben_pairs_to_tr_info buffer pair
  let info = fill_in_calculated_field_in_tr_info parsed
  tracks ← net_trackers world.tracker (take info.trackers_count info.trackers)
  ok (
    buffer',
    record {
      state = torrent_downloading;
      info = info;
      info_hash = [];
      tracks = tracks;
      tracker_count = info.trackers_count;
      download_path = [];
      torrent_file_path = [];
      downloaded = 0;
      uploaded = 0;
      bitfield = [];
      bitfield_length = 0;
      requested_pieces = [];
      swarm = init_tr_swarm world info.pieces_count info.piece_length;
      released = false;
    },
  )

run_of-lt : (start n bound : ℕ) → start + n ≤ bound → All (λ q. q < bound) (run_of start n)
run_of-lt start zero bound h = tt
run_of-lt start (suc n) bound h = (omega arith, run_of-lt (start + 1) n bound (omega arith))

run_of-ge : (start n k : ℕ) → k < start → All (λ q. q ≢ k) (run_of start n)
run_of-ge start zero k h = tt
run_of-ge start (suc n) k h = (λ e. omega arith, run_of-ge (start + 1) n k (omega arith))

run_of-Distinct : (start n : ℕ) → Distinct (run_of start n)
run_of-Distinct start zero = tt
run_of-Distinct start (suc n) =
    (run_of-ge (start + 1) n start (omega arith), run_of-Distinct (start + 1) n)

-- The swarm of a new torrent is well-formed and knows no address, whatever the memory of its 250
-- structures holds: what `parse_peers` asks for.
pub init_tr_swarm-WellFormed :
    (world : World) (pieces_count piece_length : ℕ)
    → length world.peers ≡ 250
    → WellFormed (init_tr_swarm world pieces_count piece_length)
      × (pool_addresses (init_tr_swarm world pieces_count piece_length) ≡ [])
unfolding init_tr_swarm
init_tr_swarm-WellFormed world pieces_count piece_length size = (
  (
    refl,
    omega arith,
    run_of-lt 0 200 (length world.peers) (omega (arith, size)),
    run_of-Distinct 0 200,
  ),
  refl,
)

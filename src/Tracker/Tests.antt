-- ===== src/Tracker/Tests.antt =====
-- Runs of the trackers: a torrent with one over UDP and one over HTTP.
use bite_bit_bitten.Common.{
  ℕ, ◌+◌, ◌-◌, ◌≤◌, ◌<◌, ◌≡◌, refl, ◌≢◌, Bool, false, ◌&&◌, ◌==◌, set, some, List, [], ◌∷◌, ◌++◌,
  arith, length, get_elem?, replicate, slice, pos,
}
use bite_bit_bitten.Common.Outcome.{ok, fault}
use bite_bit_bitten.Tracker.{
  tracker_not_resolved, tracker_idle, tracker_announcing, tracker_failed, TorrentState,
  torrent_downloading, torrent_failed, NetTracker, TrTorrent, UdpRequest, EvLoop,
}
use bite_bit_bitten.Tracker.Udp.{udp_readable, announce_message}
use bite_bit_bitten.Tracker.Tick.{udp, http, ann_announcer_tick, cl_client_tick}
use bite_bit_bitten.Swarm.{TrSwarm}
use bite_bit_bitten.Bencode.Tree.{decimal}
use bite_bit_bitten.Tracker.Url.{separator, tracker_string_to_net_tracker, http_url_encode_hash}
use bite_bit_bitten.Tracker.Address.{tracker_string_to_net_tracker_lem}
use bite_bit_bitten.Tracker.Percent.{percent_decode, http_url_encode_hash_lem}
use bite_bit_bitten.Peer.Message.{word_from}
use bite_bit_bitten.Tracker.Announce.{with_active, asked}
use bite_bit_bitten.Tracker.Table.{NotTo}
use bite_bit_bitten.Tracker.Timeout.{ann_announcer_tick-timeout}
use bite_bit_bitten.Tracker.Moves.{Move, ann_announcer_tick-Move}
use bite_bit_bitten.Tracker.Restart.{SetBack, cl_client_tick-restart}
use bite_bit_bitten.Tracker.Exchange.{announce_message-layout}
use bite_bit_bitten.Tracker.Connect.{
  connect_answer, with_connection, announce_request, udp_readable-connect,
}

abbrev swarm : TrSwarm
swarm = record {
  store = [];
  peer_pool = [];
  pool_count = 0;
  peers = [];
  peers_count = 0;
  bitfield_slab = [];
  bytes_count = 0;
  piece_buf_slab = [];
  piece_length = 0;
}

abbrev first : NetTracker
first = record {
  schema = udp;
  host = b'a' ∷ [];
  path = b'/' ∷ [];
  port = 1337;
  connection_id = 0;
  state = tracker_idle;
  last_announce = 0;
  announce_sent_at = 0;
  interval = pos 0;
  ip = 16777226;
}

abbrev second : NetTracker
second = record first { schema = http; port = 80 }

abbrev torrent : TrTorrent
torrent = record {
  state = torrent_downloading;
  info_hash = replicate 20 7;
  total_size = 1000;
  tracks = first ∷ second ∷ [];
  tracker_count = 2;
  active_tracker_idx = 0;
  downloaded = 100;
  uploaded = 10;
  swarm = swarm;
}

abbrev request : UdpRequest
request = record { transaction_id = 99; sent_at = 0; torrent = 0; tracker = 0 }

abbrev loop_of : TrTorrent → ℕ → EvLoop
loop_of tr count = record {
  peer_id = replicate 20 b'x';
  torrents = tr ∷ [];
  udp_requests = replicate 128 request;
  udp_requests_count = count;
  sent = [];
  tasks = [];
}

-- the first tracker was asked at second 100
abbrev waits : TrTorrent
waits = with_active torrent (asked 100 first)

ann_announcer_tick-timeout_example :
    (after : EvLoop) × (ann_announcer_tick 106 5 0 (loop_of waits 1) ≡ ok after)
    × (state : TorrentState) × (after.torrents
        ≡ record waits {
          tracks = set waits.tracks 0 (record (asked 100 first) { state = tracker_failed });
          active_tracker_idx = 1;
          state = state;
        }
          ∷ [])
    × (2 ≤ 1 → state ≡ torrent_failed)
    × (1 < 2 → state ≡ waits.state)
    × (length after.udp_requests ≡ 128)
    × ((j : ℕ) → j < after.udp_requests_count → NotTo 0 0 after.udp_requests j)
    × ((j : ℕ) (request : UdpRequest)
        → j < 1
        → get_elem? (loop_of waits 1).udp_requests j ≡ some request
        → (request.torrent == 0 && request.tracker == 0) ≡ false
        → (j' : ℕ) × (j' < after.udp_requests_count)
          × (get_elem? after.udp_requests j' ≡ some request))
ann_announcer_tick-timeout_example =
    ann_announcer_tick-timeout 106 5 0 (loop_of waits 1) waits (asked 100 first) refl refl refl
      (omega arith) (omega arith)

abbrev random : ℕ → ℕ
random now = now + 17

-- every lookup fails
abbrev no_address : ℕ → Bool × ℕ
no_address now = (false, 0)

-- the second tracker has not been resolved
abbrev unresolved : TrTorrent
unresolved = record torrent { tracks = first ∷ record second { state = tracker_not_resolved } ∷ [] }

ann_announcer_tick-Move_example :
    (after : EvLoop) × (ann_announcer_tick 100 5 0 (loop_of torrent 0) ≡ ok after)
    × (torrent' : TrTorrent) × (track' : NetTracker) × (get_elem? after.torrents 0 ≡ some torrent')
    × (get_elem? torrent'.tracks 0 ≡ some track')
    × Move tracker_idle track'.state
    × ((j : ℕ) → j ≢ 0 → get_elem? torrent'.tracks j ≡ get_elem? torrent.tracks j)
    × ((j : ℕ) → j ≢ 0 → get_elem? after.torrents j ≡ get_elem? (torrent ∷ []) j)
ann_announcer_tick-Move_example =
    ann_announcer_tick-Move 100 5 0 (loop_of torrent 0) torrent first refl refl (omega arith)

abbrev exhausted : TrTorrent
exhausted = record torrent { state = torrent_failed; active_tracker_idx = 2 }

cl_client_tick-restart_example :
    (again : TrTorrent) × (cl_client_tick 200 random (loop_of exhausted 0) ≡ ok (loop_of again 0))
    × (again.state ≡ torrent_downloading)
    × ((j : ℕ) (track : NetTracker)
        → get_elem? torrent.tracks j ≡ some track
        → (track' : NetTracker) × (get_elem? again.tracks j ≡ some track') × SetBack track track')
    × (cl_client_tick 201 random (loop_of again 0) ≡ fault)
cl_client_tick-restart_example =
    cl_client_tick-restart 200 201 random (loop_of exhausted 0) exhausted refl refl refl
      (omega arith)

abbrev message : List ℕ
message = announce_message 42 43 (replicate 20 b'x') torrent first

announce_message-layout_example :
    (length message ≡ 98)
    × (word_from 0 (slice message 0 8) ≡ 0)
    × (word_from 0 (slice message 8 4) ≡ 1)
    × (word_from 0 (slice message 12 4) ≡ 42)
    × (slice message 16 20 ≡ replicate 20 7)
    × (slice message 36 20 ≡ replicate 20 b'x')
    × (word_from 0 (slice message 56 8) ≡ 100)
    × (word_from 0 (slice message 64 8) ≡ 1000 - 100)
    × (word_from 0 (slice message 72 8) ≡ 10)
    × (word_from 0 (slice message 80 4) ≡ 2)
    × (word_from 0 (slice message 96 2) ≡ 6881)
announce_message-layout_example =
    announce_message-layout 42 43 (replicate 20 b'x') torrent first (omega arith) refl refl
      (omega arith) (omega arith) (omega arith) (omega arith)

udp_readable-connect_example :
    (after : EvLoop) × (udp_readable 101 42 43
        (connect_answer 99 123456789012 [])
        (loop_of torrent 1)
      ≡ ok after)
    × (after.sent
        ≡ record {
          ip = 16777226;
          port = 1337;
          bytes =
              announce_message 42 43
                (replicate 20 b'x')
                (with_active torrent (with_connection 123456789012 first))
                (with_connection 123456789012 first);
        }
          ∷ [])
    × (after.udp_requests_count ≡ 1)
    × (get_elem? after.udp_requests 0
        ≡ some (
            announce_request 101 42 43 123456789012 0 [] (loop_of torrent 1) request torrent first))
    × (get_elem? after.torrents 0
        ≡ some (
            with_active torrent (record (with_connection 123456789012 first) {
              state = tracker_announcing;
              announce_sent_at = 101;
            })))
udp_readable-connect_example =
    udp_readable-connect 101 42 43 123456789012 0 [] (loop_of torrent 1) request torrent first refl
      refl (omega arith) (omega arith) refl refl refl (omega arith)

abbrev host : List ℕ
host = b't' ∷ b'.' ∷ b'o' ∷ b'r' ∷ b'g' ∷ []

tracker_string_to_net_tracker_lem_example :
    tracker_string_to_net_tracker
      (udp ++ (separator ++ (host ++ b':' ∷ (decimal 6969 ++ b'/' ∷ b'a' ∷ []))))
      first
    ≡ ok (record first {
      schema = udp;
      host = host;
      port = 6969;
      path = b'/' ∷ b'a' ∷ [];
      state = tracker_not_resolved;
      ip = 0;
    })
tracker_string_to_net_tracker_lem_example =
    tracker_string_to_net_tracker_lem udp host (b'a' ∷ []) 6969 first (omega arith) (omega arith)
      (omega arith)

http_url_encode_hash_lem_example :
    (text : List ℕ) × (http_url_encode_hash (replicate 20 0xAB) ≡ ok (text ++ 0 ∷ []))
    × (length text ≡ 60)
    × (percent_decode text ≡ replicate 20 0xAB)
http_url_encode_hash_lem_example = http_url_encode_hash_lem (replicate 20 0xAB) refl (omega arith)

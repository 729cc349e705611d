-- ===== src/Tracker/Udp.antt =====
-- announcer/udp.c: the two messages to a tracker, the table of the requests that wait for an answer,
-- and the answers. `now` is `time(NULL)`, and the random numbers that a call draws are arguments of it.
use bite_bit_bitten.Common.{
  ℕ, ◌+◌, ◌-◌, ◌/◌, ◌%◌, ◌^◌, Option, none, some, List, [], ◌∷◌, ◌++◌, ltb, leb, ◌==◌,
  if◌then◌else◌, length, get_elem?, set, take, drop, slice, u64, ℤ, pos, negsuc, to_word,
}
use bite_bit_bitten.Common.Outcome.{of_option, Outcome, ok, fault, ◌>>=◌}
use bite_bit_bitten.Swarm.Pool.{parse_peers}
use bite_bit_bitten.Peer.Request.{htonl}
use bite_bit_bitten.Peer.Message.{word_from}
use bite_bit_bitten.Tracker.{
  tracker_idle, tracker_announcing, tracker_alive, tracker_failed, TorrentState,
  torrent_downloading, torrent_seeding, torrent_needs_check, torrent_checking, torrent_paused,
  torrent_failed, NetTracker, TrTorrent, UdpRequest, EvLoop, torrent_at, put_track, put_torrent,
  update_track,
}

-- a 64-bit word in the order of the network
abbrev pub htobe64 : ℕ → List ℕ
htobe64 x = htonl (x / 2 ^ 32) ++ htonl (x % 2 ^ 32)

abbrev pub connect_message : ℕ → List ℕ
connect_message transaction_id = htobe64 0x41727101980 ++ (htonl 0 ++ htonl transaction_id)

abbrev pub udp_sendto : NetTracker → List ℕ → EvLoop → EvLoop
udp_sendto track bytes loop = record loop {
  sent = loop.sent ++ record { ip = track.ip; port = track.port; bytes = bytes } ∷ [];
}

-- An entry behind the last one; the array has no more places than its length.
abbrev pub push_request : EvLoop → UdpRequest → Outcome EvLoop
push_request loop request =
    if ltb loop.udp_requests_count (length loop.udp_requests)
    then ok (record loop {
      udp_requests = set loop.udp_requests loop.udp_requests_count request;
      udp_requests_count = loop.udp_requests_count + 1;
    })
    else fault

unfoldable pub make_udp_connect : ℕ → ℕ → ℕ → EvLoop → Outcome EvLoop
make_udp_connect now transaction_id t loop = do
  torrent ← torrent_at loop t
  let k = torrent.active_tracker_idx
  track ← of_option (get_elem? torrent.tracks k)
  let waiting = put_track loop t torrent k (record track { announce_sent_at = now })
  push_request (udp_sendto track (connect_message transaction_id) waiting)
      (record { transaction_id = transaction_id; sent_at = now; torrent = t; tracker = k })

abbrev pub event : TorrentState → ℕ
event torrent_downloading = 2
event torrent_seeding = 1
event torrent_needs_check = 0
event torrent_checking = 0
event torrent_paused = 0
event torrent_failed = 0

-- the 98 bytes of an announce, to port 6881
abbrev pub announce_message : ℕ → ℕ → List ℕ → TrTorrent → NetTracker → List ℕ
announce_message transaction_id key peer_id torrent track =
    htobe64 track.connection_id
    ++ (htonl 1
        ++ (htonl transaction_id
            ++ (take 20 torrent.info_hash
                ++ (take 20 peer_id
                    ++ (htobe64 torrent.downloaded
                        ++ (htobe64 (u64 (torrent.total_size + 2 ^ 64 - torrent.downloaded))
                            ++ (htobe64 torrent.uploaded
                                ++ (htonl (event torrent.state)
                                    ++ (htonl 0
                                        ++ (htonl key
                                            ++ (htonl (2 ^ 32 - 1)
                                                ++ 6881 / 256 ∷ 6881 % 256 ∷ [])))))))))))

unfoldable pub make_udp_announce : ℕ → ℕ → ℕ → ℕ → EvLoop → Outcome EvLoop
make_udp_announce now transaction_id key t loop = do
  torrent ← torrent_at loop t
  let k = torrent.active_tracker_idx
  track ← of_option (get_elem? torrent.tracks k)
  let bytes = announce_message transaction_id key loop.peer_id torrent track
  push_request (udp_sendto track bytes loop)
      (record { transaction_id = transaction_id; sent_at = now; torrent = t; tracker = k })

-- the place of the first request with this identifier
abbrev pub find_request : ℕ → ℕ → List UdpRequest → Option ℕ
find_request i transaction_id [] = none
find_request i transaction_id (request ∷ requests) =
    let rest = find_request (i + 1) transaction_id requests in
    if request.transaction_id == transaction_id then some i else rest

-- The last request takes the place of one that is done.
abbrev pub remove_request : ℕ → EvLoop → Outcome EvLoop
remove_request i loop =
    of_option (get_elem? loop.udp_requests (loop.udp_requests_count - 1)) >>= λ end.
    ok (record loop {
      udp_requests = set loop.udp_requests i end;
      udp_requests_count = loop.udp_requests_count - 1;
    })

-- an `uint32_t` as an `int`
abbrev pub as_int : ℕ → ℤ
as_int x = if ltb x (2 ^ 31) then pos x else negsuc (2 ^ 32 - 1 - x)

-- the connection is there: the announce goes out
unfoldable pub on_connect : ℕ → ℕ → ℕ → UdpRequest → List ℕ → EvLoop → Outcome EvLoop
unfolding make_udp_announce
on_connect now transaction_id key request bytes loop =
    let connection_id = word_from 0 (slice bytes 8 8) in
    let connected =
      update_track loop request.torrent request.tracker
        (λ track. record track { connection_id = connection_id; state = tracker_idle }) in
    (if leb 16 (length bytes) then connected else fault)
    >>= make_udp_announce now transaction_id key request.torrent
    >>= λ announced.
        update_track announced request.torrent request.tracker
          (λ track. record track { state = tracker_announcing; announce_sent_at = now })

-- the answer to an announce, with the peers from byte 20 on
unfoldable pub on_announce : ℕ → UdpRequest → List ℕ → EvLoop → Outcome EvLoop
unfolding parse_peers
on_announce now request bytes loop =
    let interval = as_int (word_from 0 (slice bytes 8 4)) in
    let answered =
      update_track loop request.torrent request.tracker (λ track. record track {
        state = tracker_alive;
        interval = interval;
        last_announce = now;
      }) in
    (if leb 12 (length bytes) then answered else fault) >>= λ loop'.
    torrent_at loop' request.torrent >>= λ torrent.
    parse_peers (drop 20 bytes)
      (to_word 32
        (if ltb (length bytes) 20 then negsuc (19 - length bytes) else pos (length bytes - 20)))
      torrent.swarm
    >>= λ swarm. ok (put_torrent loop' request.torrent (record torrent { swarm = swarm }))

-- the `switch` on the action of an answer
unfoldable pub answer : ℕ → ℕ → ℕ → ℕ → UdpRequest → List ℕ → EvLoop → Outcome EvLoop
unfolding on_connect on_announce
answer now transaction_id key action request bytes loop =
    if action == 0
    then on_connect now transaction_id key request bytes loop
    else if action == 1
    then on_announce now request bytes loop
    else if action == 3
    then update_track loop request.torrent request.tracker
        (λ track. record track { state = tracker_failed })
    else ok loop

-- `bytes` is what `recvfrom` gives, at most 2048 bytes.
unfoldable pub udp_readable : ℕ → ℕ → ℕ → List ℕ → EvLoop → Outcome EvLoop
unfolding answer
udp_readable now transaction_id key bytes loop =
    let action = word_from 0 (take 4 bytes) in
    let id = word_from 0 (slice bytes 4 4) in
    if ltb (length bytes) 8
    then ok loop
    else elim (find_request 0 id (take loop.udp_requests_count loop.udp_requests)) [
      | none ↦ ok loop
      | some i ↦ of_option (get_elem? loop.udp_requests i) >>= λ request.
          answer now transaction_id key action request bytes loop >>= remove_request i
    ]

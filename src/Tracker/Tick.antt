-- ===== src/Tracker/Tick.antt =====
-- `ANN_announcer_tick`, `ANN_resolve_tracker` and `ANN_make_announce_req` of announcer/announcer.c, `make_HTTP_announce` of announcer/tcp.c,
-- `CL_client_tick` of client/client.c, and the handlers of what the pool answers in threads/tasks.c.
use bite_bit_bitten.Common.{
  ℕ, zero, suc, ◌+◌, ◌-◌, Bool, ◌&&◌, ◌||◌, not, List, [], ◌∷◌, ◌++◌, map, ltb, leb, ◌==◌,
  if◌then◌else◌, length, get_elem?, set, take, drop, ℤ, pos, negsuc, same_list,
}
use bite_bit_bitten.Common.Outcome.{of_option, Outcome, ok, fault, out_of_fuel, ◌>>=◌}
use bite_bit_bitten.Swarm.Pool.{parse_peers}
use bite_bit_bitten.Tracker.{
  TrackState, tracker_not_resolved, tracker_resolving, tracker_idle, tracker_announcing,
  tracker_alive, tracker_failed, TorrentState, torrent_downloading, torrent_seeding,
  torrent_needs_check, torrent_checking, torrent_paused, torrent_failed, NetTracker, TrTorrent,
  UdpRequest, Task, resolve_dns, http_announce, EvLoop, torrent_at, put_torrent, update_track,
}
use bite_bit_bitten.Tracker.Udp.{make_udp_connect}

abbrev pub udp : List ℕ
udp = b'u' ∷ b'd' ∷ b'p' ∷ []

abbrev pub http : List ℕ
http = b'h' ∷ b't' ∷ b't' ∷ b'p' ∷ []

abbrev pub https : List ℕ
https = b'h' ∷ b't' ∷ b't' ∷ b'p' ∷ b's' ∷ []

abbrev pub push_task : EvLoop → Task → EvLoop
push_task loop task = record loop { tasks = loop.tasks ++ task ∷ [] }

abbrev pub ann_resolve_tracker : ℕ → EvLoop → Outcome EvLoop
ann_resolve_tracker t loop =
    torrent_at loop t >>= λ torrent. ok (push_task loop (resolve_dns t torrent.active_tracker_idx))

-- The announce over HTTP is left to the pool.
abbrev pub make_http_announce : ℕ → ℕ → EvLoop → Outcome EvLoop
make_http_announce now t loop = torrent_at loop t >>= λ torrent.
    let k = torrent.active_tracker_idx in
    update_track (push_task loop (http_announce t k)) t k
      (λ track. record track { state = tracker_announcing; announce_sent_at = now })

unfoldable pub ann_make_announce_req : ℕ → ℕ → ℕ → EvLoop → Outcome EvLoop
unfolding make_udp_connect
ann_make_announce_req now transaction_id t loop = do
  torrent ← torrent_at loop t
  let k = torrent.active_tracker_idx
  track ← of_option (get_elem? torrent.tracks k)
  if same_list track.schema https || same_list track.schema http
      then make_http_announce now t loop
      else if same_list track.schema udp
      then make_udp_connect now transaction_id t loop
      else ok loop

-- the announce, and that it is under way
unfoldable pub announce : ℕ → ℕ → ℕ → ℕ → EvLoop → Outcome EvLoop
unfolding ann_make_announce_req
announce now transaction_id t k loop = ann_make_announce_req now transaction_id t loop >>= λ sent.
    update_track sent t k
      (λ track. record track { state = tracker_announcing; announce_sent_at = now })

-- The next tracker, or none.
abbrev pub next_tracker : TrTorrent → TrTorrent
next_tracker torrent =
    let idx = torrent.active_tracker_idx + 1 in
    record torrent {
      active_tracker_idx = idx;
      state = if leb torrent.tracker_count idx then torrent_failed else torrent.state;
    }

-- The loop that takes the requests to a tracker out of the table, at `i`.
unfoldable pub drop_requests : ℕ → ℕ → ℕ → List UdpRequest → ℕ → ℕ → Outcome (List UdpRequest × ℕ)
drop_requests t k zero requests count i = if ltb i count then out_of_fuel else ok (requests, count)
drop_requests t k (suc fuel) requests count i =
    let next = drop_requests t k fuel requests count (i + 1) in
    let again = λ (end : UdpRequest). drop_requests t k fuel (set requests i end) (count - 1) i in
    if not (ltb i count)
    then ok (requests, count)
    else of_option (get_elem? requests i) >>= λ request.
        if request.torrent == t && request.tracker == k
        then of_option (get_elem? requests (count - 1)) >>= again
        else next

-- no answer for more than five seconds
unfoldable pub give_up_tracker : ℕ → ℕ → EvLoop → Outcome EvLoop
unfolding drop_requests
give_up_tracker t k loop = do
  failing ← update_track loop t k (λ track. record track { state = tracker_failed })
  (requests, count) ←
      drop_requests t k failing.udp_requests_count failing.udp_requests failing.udp_requests_count 0
  torrent ← torrent_at failing t
  ok (
      put_torrent (record failing { udp_requests = requests; udp_requests_count = count }) t
        (next_tracker torrent))

-- `now - since > interval`
abbrev pub is_past : ℕ → ℕ → ℤ → Bool
is_past now since (pos n) = ltb (since + n) now
is_past now since (negsuc n) = ltb since (now + n + 1)

-- the `switch` on the state of the active tracker
unfoldable pub tick_state : ℕ → ℕ → ℕ → ℕ → NetTracker → TrackState → EvLoop → Outcome EvLoop
unfolding announce give_up_tracker
tick_state now id t k track tracker_not_resolved loop = ann_resolve_tracker t loop >>= λ pushed.
    update_track pushed t k (λ track. record track { state = tracker_resolving })
tick_state now id t k track tracker_resolving loop = ok loop
tick_state now id t k track tracker_idle loop = announce now id t k loop
tick_state now id t k track tracker_announcing loop =
    let over = give_up_tracker t k loop in
    if ltb (track.announce_sent_at + 5) now then over else ok loop
tick_state now id t k track tracker_alive loop =
    let again = announce now id t k loop in
    if is_past now track.last_announce track.interval then again else ok loop
tick_state now id t k track tracker_failed loop =
    torrent_at loop t >>= λ torrent. ok (put_torrent loop t (next_tracker torrent))

unfoldable pub ann_announcer_tick : ℕ → ℕ → ℕ → EvLoop → Outcome EvLoop
unfolding tick_state
ann_announcer_tick now id t loop = do
  torrent ← torrent_at loop t
  let k = torrent.active_tracker_idx
  track ← of_option (get_elem? torrent.tracks k)
  tick_state now id t k track track.state loop

-- The second test of the code, `strcmp(..., "http") || strcmp(..., "https")`, holds of every string.
abbrev pub reset_track : NetTracker → NetTracker
reset_track track = record track {
  state =
      if same_list track.schema udp
      then tracker_not_resolved
      else if not (same_list track.schema http) || not (same_list track.schema https)
      then tracker_idle
      else track.state;
}

-- The first `tracker_count` trackers start again.
unfoldable pub restart : TrTorrent → Outcome TrTorrent
restart torrent =
    if leb torrent.tracker_count (length torrent.tracks)
    then ok (record torrent {
      tracks =
          map reset_track (take torrent.tracker_count torrent.tracks)
          ++ drop torrent.tracker_count torrent.tracks;
      state = torrent_downloading;
    })
    else fault

-- the `switch` on the state of a torrent
unfoldable pub tick_torrent : ℕ → ℕ → ℕ → TrTorrent → TorrentState → EvLoop → Outcome EvLoop
unfolding ann_announcer_tick restart
tick_torrent now id t torrent torrent_downloading loop = ann_announcer_tick now id t loop
tick_torrent now id t torrent torrent_needs_check loop = ok loop
tick_torrent now id t torrent torrent_checking loop = ok loop
tick_torrent now id t torrent torrent_seeding loop = ann_announcer_tick now id t loop
tick_torrent now id t torrent torrent_paused loop = ok loop
tick_torrent now id t torrent torrent_failed loop =
    restart torrent >>= λ again. ok (put_torrent loop t again)

-- The loop over the torrents with `n` of them left, from `t` on; `random` gives each its identifier.
unfoldable pub tick_torrents : ℕ → (ℕ → ℕ) → ℕ → ℕ → EvLoop → Outcome EvLoop
unfolding tick_torrent
tick_torrents now random zero t loop = ok loop
tick_torrents now random (suc n) t loop = do
  torrent ← torrent_at loop t
  loop' ← tick_torrent now (random t) t torrent torrent.state loop
  tick_torrents now random n (t + 1) loop'

unfoldable pub cl_client_tick : ℕ → (ℕ → ℕ) → EvLoop → Outcome EvLoop
unfolding tick_torrents
cl_client_tick now random loop = tick_torrents now random (length loop.torrents) 0 loop

-- `success` and `ip` are those of the result.
unfoldable pub handle_dns_result : ℕ → ℕ → Bool → ℕ → EvLoop → Outcome EvLoop
handle_dns_result t k success ip loop = update_track loop t k (λ track.
    if success
    then record track { ip = ip; state = tracker_idle }
    else record track { state = tracker_failed })

unfoldable pub handle_http_response : ℕ → ℕ → ℕ → Bool → ℤ → List ℕ → ℕ → EvLoop → Outcome EvLoop
unfolding parse_peers
handle_http_response now t k success interval peers peers_len loop = do
  answered ← update_track loop t k (λ track.
      if success
      then record track { state = tracker_alive; interval = interval; last_announce = now }
      else record track { state = tracker_failed })
  torrent ← torrent_at answered t
  let more = parse_peers peers peers_len torrent.swarm >>= λ swarm.
      ok (put_torrent answered t (record torrent { swarm = swarm }))
  if success then more else ok answered

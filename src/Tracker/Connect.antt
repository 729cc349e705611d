-- ===== src/Tracker/Connect.antt =====
-- The answer to a connect in `UDP_readable` of announcer/udp.c: the announce follows.
use bite_bit_bitten.Common.{
  ℕ, ◌+◌, ◌-◌, ◌^◌, ◌<◌, ◌≡◌, refl, ap, ap₂, ◌∙◌, true, false, none, some, List, [], ◌∷◌, ◌++◌,
  arith, ltb, leb, if◌then◌else◌, lt→ltb, le→ltb, le→leb, length, get_elem?, set, take, length-set,
  get_elem?-set_self, set-set, lt_of_get_elem?,
}
use bite_bit_bitten.Common.Outcome.{of_option, ok, fault, ◌>>=◌}
use bite_bit_bitten.Tracker.{
  tracker_idle, tracker_announcing, NetTracker, TrTorrent, UdpRequest, EvLoop, put_track,
  put_torrent, update_track,
}
use bite_bit_bitten.Tracker.Udp.{
  udp_sendto, make_udp_announce, find_request, remove_request, on_connect, answer, udp_readable,
  announce_message, htobe64,
}
use bite_bit_bitten.Peer.Request.{htonl}
use bite_bit_bitten.Tracker.Announce.{with_active}
use bite_bit_bitten.Tracker.Exchange.{word_from-htonl, word_from-htobe64}

-- what a tracker answers to a connect
abbrev pub connect_answer : ℕ → ℕ → List ℕ → List ℕ
connect_answer id connection_id rest = htonl 0 ++ (htonl id ++ (htobe64 connection_id ++ rest))

-- the tracker with its connection
abbrev pub with_connection : ℕ → NetTracker → NetTracker
with_connection connection_id track = record track {
  connection_id = connection_id;
  state = tracker_idle;
}

module _ (now id key connection_id i : ℕ) (rest : List ℕ) (loop : EvLoop) (request : UdpRequest)
    (torrent : TrTorrent) (track : NetTracker) where
  abbrev connected : NetTracker
  connected = with_connection connection_id track

  abbrev torrent₁ : TrTorrent
  torrent₁ = with_active torrent connected

  -- the request of the announce
  abbrev pub announce_request : UdpRequest
  announce_request = record {
    transaction_id = id;
    sent_at = now;
    torrent = request.torrent;
    tracker = torrent.active_tracker_idx;
  }

  abbrev announced : EvLoop
  announced =
      record (udp_sendto connected (announce_message id key loop.peer_id torrent₁ connected)
        (put_torrent loop request.torrent torrent₁)) {
          udp_requests = set loop.udp_requests loop.udp_requests_count announce_request;
          udp_requests_count = loop.udp_requests_count + 1;
        }

  abbrev waiting : NetTracker
  waiting = record connected { state = tracker_announcing; announce_sent_at = now }

  module _ (at_t : get_elem? loop.torrents request.torrent ≡ some torrent)
      (same : request.tracker ≡ torrent.active_tracker_idx)
      (at_k : get_elem? torrent.tracks torrent.active_tracker_idx ≡ some track)
      (room : loop.udp_requests_count < length loop.udp_requests) where
    at_t₁ : get_elem? announced.torrents request.torrent ≡ some torrent₁
    at_t₁ =
        get_elem?-set_self loop.torrents request.torrent torrent₁
          (lt_of_get_elem? loop.torrents request.torrent torrent at_t)

    at_k₁ : get_elem? torrent₁.tracks torrent.active_tracker_idx ≡ some connected
    at_k₁ =
        get_elem?-set_self torrent.tracks torrent.active_tracker_idx connected
          (lt_of_get_elem? torrent.tracks torrent.active_tracker_idx track at_k)

    make_udp_announce_lem :
        make_udp_announce now id key request.torrent (put_torrent loop request.torrent torrent₁)
        ≡ ok announced
    unfolding make_udp_announce
    make_udp_announce_lem =
        rw (at_t₁, at_k₁, lt→ltb loop.udp_requests_count (length loop.udp_requests) room) refl

    pub on_connect_lem :
        connection_id < 2 ^ 64
        → on_connect now id key request
            (connect_answer request.transaction_id connection_id rest)
            loop
          ≡ ok (put_track announced request.torrent torrent₁ torrent.active_tracker_idx waiting)
    unfolding on_connect
    on_connect_lem small =
        let bytes = connect_answer request.transaction_id connection_id rest in
        let enough : leb 16 (length bytes) ≡ true = le→leb 16 (length bytes) (omega arith) in
        let number = word_from-htobe64 connection_id small in
        ap₂
          (λ b c.
            (if b
              then update_track loop request.torrent request.tracker (with_connection c)
              else fault)
            >>= make_udp_announce now id key request.torrent
            >>= λ sent.
                update_track sent request.torrent request.tracker
                  (λ old. record old { state = tracker_announcing; announce_sent_at = now }))
          enough number
        ∙ rw (same, at_t, at_k, make_udp_announce_lem, at_t₁, at_k₁) refl

-- When the tracker that has its turn answers the connect that request `i` of the table is for, and the
-- table has a place left, `UDP_readable` ends without a fault: the announce goes out on the connection
-- of the answer, the tracker waits for its answer, and the request of the announce takes the place of
-- the one that is done, so that the table has as many as before.
pub udp_readable-connect :
    (now id key connection_id i : ℕ) (rest : List ℕ) (loop : EvLoop) (request : UdpRequest)
    (torrent : TrTorrent) (track : NetTracker)
    → find_request 0 request.transaction_id (take loop.udp_requests_count loop.udp_requests)
      ≡ some i
    → get_elem? loop.udp_requests i ≡ some request
    → request.transaction_id < 2 ^ 32
    → connection_id < 2 ^ 64
    → get_elem? loop.torrents request.torrent ≡ some torrent
    → request.tracker ≡ torrent.active_tracker_idx
    → get_elem? torrent.tracks torrent.active_tracker_idx ≡ some track
    → loop.udp_requests_count < length loop.udp_requests
    → (after : EvLoop) × (udp_readable now id key
          (connect_answer request.transaction_id connection_id rest)
          loop
        ≡ ok after)
      × (after.sent
          ≡ loop.sent
            ++ record {
              ip = track.ip;
              port = track.port;
              bytes =
                  announce_message id key loop.peer_id
                    (with_active torrent (with_connection connection_id track))
                    (with_connection connection_id track);
            }
              ∷ [])
      × (after.udp_requests_count ≡ loop.udp_requests_count)
      × (get_elem? after.udp_requests i
          ≡ some (announce_request now id key connection_id i rest loop request torrent track))
      × (get_elem? after.torrents request.torrent
          ≡ some (
              with_active torrent (record (with_connection connection_id track) {
                state = tracker_announcing;
                announce_sent_at = now;
              })))
unfolding udp_readable answer
udp_readable-connect now id key connection_id i rest loop request torrent track found at_i id_small
      small at_t same at_k room =
    let bytes = connect_answer request.transaction_id connection_id rest in
    let done =
      on_connect_lem now id key connection_id i rest loop request torrent track at_t same at_k room
        small in
    let new = announce_request now id key connection_id i rest loop request torrent track in
    let requests = set loop.udp_requests loop.udp_requests_count new in
    let less : loop.udp_requests_count + 1 - 1 ≡ loop.udp_requests_count = omega arith in
    let end : get_elem? requests (loop.udp_requests_count + 1 - 1) ≡ some new =
      ap (get_elem? requests) less
      ∙ get_elem?-set_self loop.udp_requests loop.udp_requests_count new room in
    let long : ltb (length bytes) 8 ≡ false = le→ltb (length bytes) 8 (omega arith) in
    let torrent' = torrent₁ now id key connection_id i rest loop request torrent track in
    let track' = connected now id key connection_id i rest loop request torrent track in
    let final = waiting now id key connection_id i rest loop request torrent track in
    let in_torrents = lt_of_get_elem? loop.torrents request.torrent torrent at_t in
    let in_requests : i < length requests = omega (
      arith,
      length-set loop.udp_requests loop.udp_requests_count new,
      lt_of_get_elem? loop.udp_requests i request at_i,
    ) in
    (
      record (put_track (announced now id key connection_id i rest loop request torrent track)
          request.torrent torrent' torrent.active_tracker_idx final) {
            udp_requests = set requests i new;
            udp_requests_count = loop.udp_requests_count + 1 - 1;
          },
      ap₂
            (λ short w.
              if short
              then ok loop
              else elim (find_request 0 w (take loop.udp_requests_count loop.udp_requests)) [
                | none ↦ ok loop
                | some j ↦ of_option (get_elem? loop.udp_requests j) >>= λ r.
                    answer now id key 0 r bytes loop >>= remove_request j
              ])
            long (word_from-htonl request.transaction_id id_small)
          ∙ ap
              (λ o. elim o [
                | none ↦ ok loop
                | some j ↦ of_option (get_elem? loop.udp_requests j) >>= λ r.
                    answer now id key 0 r bytes loop >>= remove_request j
              ])
              found
          ∙ ap (λ o. of_option o >>= λ r. answer now id key 0 r bytes loop >>= remove_request i)
              at_i
          ∙ ap (λ o. o >>= remove_request i) done
          ∙ ap
              (λ o. of_option o >>= λ last.
                ok
                  (record (put_track
                    (announced now id key connection_id i rest loop request torrent track)
                    request.torrent torrent' torrent.active_tracker_idx final) {
                      udp_requests = set requests i last;
                      udp_requests_count = loop.udp_requests_count + 1 - 1;
                    }))
              end,
      refl,
      less,
      get_elem?-set_self requests i new in_requests,
      ap (λ l. get_elem? l request.torrent)
            (set-set loop.torrents request.torrent torrent'
              (record torrent { tracks = set torrent'.tracks torrent.active_tracker_idx final }))
          ∙ get_elem?-set_self loop.torrents request.torrent
              (record torrent { tracks = set torrent'.tracks torrent.active_tracker_idx final })
              in_torrents
          ∙ ap (λ tracks. some (record torrent { tracks = tracks }))
              (set-set torrent.tracks torrent.active_tracker_idx track' final),
    )

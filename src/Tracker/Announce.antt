-- ===== src/Tracker/Announce.antt =====
-- What an announce does to the torrent, whatever its tracker speaks.
use bite_bit_bitten.Common.{
  ℕ, ◌+◌, ◌≤◌, ◌<◌, ◌≡◌, refl, ap, ◌∙◌, inl, inr, ◌||◌, some, arith, lt→ltb, Bool-cases, length,
  get_elem?, set, length-set, get_elem?-set_self, same_list, set-set, lt_of_get_elem?,
}
use bite_bit_bitten.Common.Outcome.{ok}
use bite_bit_bitten.Tracker.{
  tracker_announcing, NetTracker, TrTorrent, UdpRequest, http_announce, EvLoop, put_track,
  update_track,
}
use bite_bit_bitten.Tracker.Udp.{make_udp_connect, udp_sendto, connect_message}
use bite_bit_bitten.Tracker.Tick.{udp, http, https, push_task, ann_make_announce_req, announce}

-- the tracker while an announce is under way
abbrev pub asked : ℕ → NetTracker → NetTracker
asked now track = record track { state = tracker_announcing; announce_sent_at = now }

-- the torrent with another tracker in place of its active one
abbrev pub with_active : TrTorrent → NetTracker → TrTorrent
with_active torrent track = record torrent {
  tracks = set torrent.tracks torrent.active_tracker_idx track;
}

pub update_track_lem :
    (loop : EvLoop) (t k : ℕ) (torrent : TrTorrent) (track : NetTracker)
    (change : NetTracker → NetTracker)
    → get_elem? loop.torrents t ≡ some torrent
    → get_elem? torrent.tracks k ≡ some track
    → update_track loop t k change ≡ ok (put_track loop t torrent k (change track))
update_track_lem loop t k torrent track change at_t at_k = rw (at_t, at_k) refl

module _ (now id t : ℕ) (loop : EvLoop) (torrent : TrTorrent) (track : NetTracker)
    (at_t : get_elem? loop.torrents t ≡ some torrent)
    (at_k : get_elem? torrent.tracks torrent.active_tracker_idx ≡ some track) where
  abbrev k : ℕ
  k = torrent.active_tracker_idx

  -- What an announce promises: the tracker waits for its answer, and one request at most is new.
  abbrev pub Announced : EvLoop → Type 0
  Announced after =
      (after.torrents ≡ set loop.torrents t (with_active torrent (asked now track)))
      × (after.udp_requests_count ≤ loop.udp_requests_count + 1)
      × (length after.udp_requests ≡ length loop.udp_requests)

  abbrev asking : NetTracker → NetTracker
  asking track' = record track' { state = tracker_announcing; announce_sent_at = now }

  -- The announce left the torrents alone.
  Announced-plain :
      (sent : EvLoop)
      → ann_make_announce_req now id t loop ≡ ok sent
      → sent.torrents ≡ loop.torrents
      → sent.udp_requests_count ≡ loop.udp_requests_count
      → sent.udp_requests ≡ loop.udp_requests
      → (after : EvLoop) × (announce now id t k loop ≡ ok after) × Announced after
  unfolding announce
  Announced-plain sent made torrents count requests =
      let at_t' : get_elem? sent.torrents t ≡ some torrent =
        ap (λ l. get_elem? l t) torrents ∙ at_t in
      (
        put_track sent t torrent k (asked now track),
        rw made (update_track_lem sent t k torrent track asking at_t' at_k),
        (
          ap (λ l. set l t (with_active torrent (asked now track))) torrents,
          omega (arith, count),
          ap length requests,
        ),
      )

  -- The announce went out, and has changed the tracker already.
  Announced-changed :
      (sent : EvLoop) (changed : NetTracker)
      → asked now changed ≡ asked now track
      → ann_make_announce_req now id t loop ≡ ok sent
      → sent.torrents ≡ set loop.torrents t (with_active torrent changed)
      → sent.udp_requests_count ≤ loop.udp_requests_count + 1
      → length sent.udp_requests ≡ length loop.udp_requests
      → (after : EvLoop) × (announce now id t k loop ≡ ok after) × Announced after
  unfolding announce
  Announced-changed sent changed same made torrents count requests =
      let first = with_active torrent changed in
      let at_t' : get_elem? sent.torrents t ≡ some first =
        ap (λ l. get_elem? l t) torrents
        ∙ get_elem?-set_self loop.torrents t first (lt_of_get_elem? loop.torrents t torrent at_t) in
      let at_k' : get_elem? first.tracks k ≡ some changed =
        get_elem?-set_self torrent.tracks k changed (lt_of_get_elem? torrent.tracks k track at_k) in
      (
        put_track sent t first k (asked now changed),
        rw made (update_track_lem sent t k first changed asking at_t' at_k'),
        (
          ap (λ l. set l t (with_active first (asked now changed))) torrents
              ∙ set-set loop.torrents t first (with_active first (asked now changed))
              ∙ ap (λ tracks. set loop.torrents t (record torrent { tracks = tracks }))
                  (set-set torrent.tracks k changed (asked now changed)
                    ∙ ap (set torrent.tracks k) same),
          count,
          requests,
        ),
      )

  -- With a place left in the table an announce goes out, whatever the tracker speaks.
  pub announce_lem :
      loop.udp_requests_count < length loop.udp_requests
      → (after : EvLoop) × (announce now id t k loop ≡ ok after) × Announced after
  unfolding ann_make_announce_req make_udp_connect
  announce_lem room =
      let free = lt→ltb loop.udp_requests_count (length loop.udp_requests) room in
      elim (Bool-cases (same_list track.schema https || same_list track.schema http)) [
        | inl web ↦
            Announced-changed
              (put_track (push_task loop (http_announce t k)) t torrent k (asked now track))
              (asked now track) refl (rw (at_t, at_k, web) refl) refl (omega arith) refl
        | inr not_web ↦ elim (Bool-cases (same_list track.schema udp)) [
          | inl over_udp ↦
              let request : UdpRequest = record {
                transaction_id = id;
                sent_at = now;
                torrent = t;
                tracker = k;
              } in
              let waiting = put_track loop t torrent k (record track { announce_sent_at = now }) in
              Announced-changed
                (record (udp_sendto track (connect_message id) waiting) {
                  udp_requests = set loop.udp_requests loop.udp_requests_count request;
                  udp_requests_count = loop.udp_requests_count + 1;
                })
                (record track { announce_sent_at = now }) refl
                (rw (at_t, at_k, not_web, over_udp, free) refl) refl (omega arith)
                (length-set loop.udp_requests loop.udp_requests_count request)
          | inr unknown ↦
              Announced-plain loop (rw (at_t, at_k, not_web, unknown) refl) refl refl refl
        ]
      ]

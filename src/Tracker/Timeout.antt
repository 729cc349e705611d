-- ===== src/Tracker/Timeout.antt =====
-- A tracker that does not answer, in `ANN_announcer_tick` of announcer/announcer.c.
use bite_bit_bitten.Common.{
  ℕ, ◌+◌, ◌≤◌, ◌<◌, ◌≡◌, refl, ◌∙◌, false, ◌&&◌, ◌==◌, some, arith, ltb, lt→ltb, le→leb, lt→leb,
  length, get_elem?, set, get_elem?-set_self, set-set, lt_of_get_elem?,
}
use bite_bit_bitten.Common.Outcome.{ok}
use bite_bit_bitten.Tracker.{
  tracker_not_resolved, tracker_resolving, resolve_dns, tracker_idle, tracker_announcing,
  tracker_failed, TorrentState, torrent_failed, NetTracker, TrTorrent, UdpRequest, EvLoop,
  put_torrent,
}
use bite_bit_bitten.Tracker.Tick.{
  push_task, next_tracker, give_up_tracker, tick_state, ann_announcer_tick,
}
use bite_bit_bitten.Tracker.Table.{NotTo, Kept, drop_requests_lem}
use bite_bit_bitten.Tracker.Announce.{update_track_lem, with_active, announce_lem, Announced}

-- the torrent when its active tracker has failed and the next has its turn
abbrev pub after_failure : TrTorrent → NetTracker → TrTorrent
after_failure torrent track =
    next_tracker (with_active torrent (record track { state = tracker_failed }))

module _ (t : ℕ) (loop : EvLoop) (torrent : TrTorrent) (track : NetTracker)
    (at_t : get_elem? loop.torrents t ≡ some torrent)
    (at_k : get_elem? torrent.tracks torrent.active_tracker_idx ≡ some track) where
  -- what becomes of the loop when the tracker is given up
  abbrev pub GivenUp : EvLoop → Type 0
  GivenUp after =
      (after.torrents ≡ set loop.torrents t (after_failure torrent track))
      × (after.udp_requests_count ≤ loop.udp_requests_count)
      × (length after.udp_requests ≡ length loop.udp_requests)
      × ((j : ℕ)
          → j < after.udp_requests_count
          → NotTo t torrent.active_tracker_idx after.udp_requests j)
      × Kept t torrent.active_tracker_idx loop.udp_requests loop.udp_requests_count
          after.udp_requests after.udp_requests_count 0

  pub give_up_lem :
      loop.udp_requests_count ≤ length loop.udp_requests
      → (after : EvLoop) × (give_up_tracker t torrent.active_tracker_idx loop ≡ ok after)
        × GivenUp after
  unfolding give_up_tracker
  give_up_lem bound =
      let k = torrent.active_tracker_idx in
      let failing = with_active torrent (record track { state = tracker_failed }) in
      let count = loop.udp_requests_count in
      let dropped = drop_requests_lem t k count loop.udp_requests count 0 bound (omega arith) in
      let at_t' =
        get_elem?-set_self loop.torrents t failing (lt_of_get_elem? loop.torrents t torrent at_t) in
      (
        record loop {
          torrents = set (set loop.torrents t failing) t (after_failure torrent track);
          udp_requests = dropped.0;
          udp_requests_count = dropped.1;
        },
        rw (at_t, at_k, dropped.2, at_t') refl,
        (
          set-set loop.torrents t failing (after_failure torrent track),
          dropped.3,
          dropped.4,
          λ j below. dropped.6 j (omega arith) below,
          dropped.8,
        ),
      )

  pub tick_lem :
      (now id : ℕ)
      → ann_announcer_tick now id t loop
        ≡ tick_state now id t torrent.active_tracker_idx track track.state loop
  unfolding ann_announcer_tick
  tick_lem now id = rw (at_t, at_k) refl

-- a tracker that has not answered in time
pub tick-late :
    (now id t : ℕ) (loop : EvLoop) (torrent : TrTorrent) (track : NetTracker)
    (at_t : get_elem? loop.torrents t ≡ some torrent)
    (at_k : get_elem? torrent.tracks torrent.active_tracker_idx ≡ some track)
    → track.state ≡ tracker_announcing
    → track.announce_sent_at + 5 < now
    → loop.udp_requests_count ≤ length loop.udp_requests
    → (after : EvLoop) × (ann_announcer_tick now id t loop ≡ ok after)
      × GivenUp t loop torrent track at_t at_k after
unfolding tick_state
tick-late now id t loop torrent track at_t at_k waits late bound =
    let over = give_up_lem t loop torrent track at_t at_k bound in
    let past = lt→ltb (track.announce_sent_at + 5) now late in
    (over.0, tick_lem t loop torrent track at_t at_k now id ∙ rw (waits, past) over.1, over.2)

-- When the active tracker of a torrent has not answered its announce for more than five seconds and
-- the table of the requests is in its bounds, the tick ends without a fault. The tracker is marked as
-- failed and the place of the active tracker moves on by one; the torrent has failed when there is no
-- tracker at that place, and has its state as before when there is one; nothing else of it and no other
-- torrent changes. In the table no request to the tracker is left, and every other request is.
pub ann_announcer_tick-timeout :
    (now id t : ℕ) (loop : EvLoop) (torrent : TrTorrent) (track : NetTracker)
    → get_elem? loop.torrents t ≡ some torrent
    → get_elem? torrent.tracks torrent.active_tracker_idx ≡ some track
    → track.state ≡ tracker_announcing
    → track.announce_sent_at + 5 < now
    → loop.udp_requests_count ≤ length loop.udp_requests
    → let k = torrent.active_tracker_idx in
      (after : EvLoop) × (ann_announcer_tick now id t loop ≡ ok after)
      × (state : TorrentState) × (after.torrents
          ≡ set loop.torrents t (record torrent {
            tracks = set torrent.tracks k (record track { state = tracker_failed });
            active_tracker_idx = k + 1;
            state = state;
          }))
      × (torrent.tracker_count ≤ k + 1 → state ≡ torrent_failed)
      × (k + 1 < torrent.tracker_count → state ≡ torrent.state)
      × (length after.udp_requests ≡ length loop.udp_requests)
      × ((j : ℕ) → j < after.udp_requests_count → NotTo t k after.udp_requests j)
      × ((j : ℕ) (request : UdpRequest)
          → j < loop.udp_requests_count
          → get_elem? loop.udp_requests j ≡ some request
          → (request.torrent == t && request.tracker == k) ≡ false
          → (j' : ℕ) × (j' < after.udp_requests_count)
            × (get_elem? after.udp_requests j' ≡ some request))
ann_announcer_tick-timeout now id t loop torrent track at_t at_k waits late bound =
    let k = torrent.active_tracker_idx in
    let over = tick-late now id t loop torrent track at_t at_k waits late bound in
    let none_left = λ (h : torrent.tracker_count ≤ k + 1). le→leb torrent.tracker_count (k + 1) h in
    let some_left = λ (h : k + 1 < torrent.tracker_count). lt→leb torrent.tracker_count (k + 1) h in
    (
      over.0,
      over.1,
      (next_tracker torrent).state,
      over.2.0,
      λ h. rw (none_left h) refl,
      λ h. rw (some_left h) refl,
      over.2.2,
      over.2.3,
      λ j request below at_j other. over.2.4 j request (omega arith) below at_j other,
    )

-- a tracker whose address is not known
pub tick-not_resolved :
    (now id t : ℕ) (loop : EvLoop) (torrent : TrTorrent) (track : NetTracker)
    → get_elem? loop.torrents t ≡ some torrent
    → get_elem? torrent.tracks torrent.active_tracker_idx ≡ some track
    → track.state ≡ tracker_not_resolved
    → ann_announcer_tick now id t loop
      ≡ ok (
          put_torrent
            (push_task loop (resolve_dns t torrent.active_tracker_idx))
            t
            (with_active torrent (record track { state = tracker_resolving })))
unfolding tick_state
tick-not_resolved now id t loop torrent track at_t at_k unknown =
    tick_lem t loop torrent track at_t at_k now id
    ∙ rw (unknown, at_t)
        (update_track_lem (push_task loop (resolve_dns t torrent.active_tracker_idx)) t
          torrent.active_tracker_idx torrent track
          (λ track'. record track' { state = tracker_resolving }) at_t at_k)

-- a tracker that is looked up
pub tick-resolving :
    (now id t : ℕ) (loop : EvLoop) (torrent : TrTorrent) (track : NetTracker)
    → get_elem? loop.torrents t ≡ some torrent
    → get_elem? torrent.tracks torrent.active_tracker_idx ≡ some track
    → track.state ≡ tracker_resolving
    → ann_announcer_tick now id t loop ≡ ok loop
unfolding tick_state
tick-resolving now id t loop torrent track at_t at_k looked_up =
    tick_lem t loop torrent track at_t at_k now id ∙ rw looked_up refl

-- a tracker that has time left to answer
pub tick-waits :
    (now id t : ℕ) (loop : EvLoop) (torrent : TrTorrent) (track : NetTracker)
    → get_elem? loop.torrents t ≡ some torrent
    → get_elem? torrent.tracks torrent.active_tracker_idx ≡ some track
    → track.state ≡ tracker_announcing
    → ltb (track.announce_sent_at + 5) now ≡ false
    → ann_announcer_tick now id t loop ≡ ok loop
unfolding tick_state
tick-waits now id t loop torrent track at_t at_k waits early =
    tick_lem t loop torrent track at_t at_k now id ∙ rw (waits, early) refl

-- a tracker that waits for its turn
pub tick-idle :
    (now id t : ℕ) (loop : EvLoop) (torrent : TrTorrent) (track : NetTracker)
    (at_t : get_elem? loop.torrents t ≡ some torrent)
    (at_k : get_elem? torrent.tracks torrent.active_tracker_idx ≡ some track)
    → track.state ≡ tracker_idle
    → loop.udp_requests_count < length loop.udp_requests
    → (after : EvLoop) × (ann_announcer_tick now id t loop ≡ ok after)
      × Announced now id t loop torrent track at_t at_k after
unfolding tick_state
tick-idle now id t loop torrent track at_t at_k idle room =
    let made = announce_lem now id t loop torrent track at_t at_k room in
    (made.0, tick_lem t loop torrent track at_t at_k now id ∙ rw idle made.1, made.2)

-- a tracker that has failed before
pub tick-failed :
    (now id t : ℕ) (loop : EvLoop) (torrent : TrTorrent) (track : NetTracker)
    → get_elem? loop.torrents t ≡ some torrent
    → get_elem? torrent.tracks torrent.active_tracker_idx ≡ some track
    → track.state ≡ tracker_failed
    → ann_announcer_tick now id t loop ≡ ok (put_torrent loop t (next_tracker torrent))
unfolding tick_state
tick-failed now id t loop torrent track at_t at_k has_failed =
    tick_lem t loop torrent track at_t at_k now id ∙ rw (has_failed, at_t) refl

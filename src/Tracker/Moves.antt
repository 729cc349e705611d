-- ===== src/Tracker/Moves.antt =====
-- The states of a tracker and the edges between them that `ANN_announcer_tick` of
-- announcer/announcer.c takes.
use bite_bit_bitten.Common.{
  ℕ, ◌+◌, ◌<◌, ◌≡◌, refl, sym, ap, ◌∙◌, subst, ◌≢◌, inl, inr, some, arith, ltb, Bool-cases, length,
  get_elem?, set, get_elem?-set_self, get_elem?-set_ne, lt_of_get_elem?,
}
use bite_bit_bitten.Common.Outcome.{ok}
use bite_bit_bitten.Tracker.{
  TrackState, tracker_not_resolved, tracker_resolving, tracker_idle, tracker_announcing,
  tracker_alive, tracker_failed, NetTracker, TrTorrent, resolve_dns, EvLoop, put_torrent,
}
use bite_bit_bitten.Tracker.Tick.{push_task, next_tracker, is_past, tick_state, ann_announcer_tick}
use bite_bit_bitten.Tracker.Announce.{with_active, asked, update_track_lem, announce_lem}
use bite_bit_bitten.Tracker.Timeout.{after_failure, give_up_lem, tick_lem}

pub data Move : TrackState → TrackState → Type 0 where
  stays : (s : TrackState) → Move s s
  resolves : Move tracker_not_resolved tracker_resolving
  asks : Move tracker_idle tracker_announcing
  asks_again : Move tracker_alive tracker_announcing
  times_out : Move tracker_announcing tracker_failed

module _ (t : ℕ) (loop : EvLoop) (torrent : TrTorrent) (track : NetTracker)
    (at_t : get_elem? loop.torrents t ≡ some torrent)
    (at_k : get_elem? torrent.tracks torrent.active_tracker_idx ≡ some track) where
  -- The active tracker has moved along an edge, and nothing else but the place of the torrent and its
  -- own state has changed.
  abbrev pub Moved : EvLoop → Type 0
  Moved after =
      (torrent' : TrTorrent) × (track' : NetTracker) × (get_elem? after.torrents t ≡ some torrent')
      × (get_elem? torrent'.tracks torrent.active_tracker_idx ≡ some track')
      × Move track.state track'.state
      × ((j : ℕ)
          → j ≢ torrent.active_tracker_idx
          → get_elem? torrent'.tracks j ≡ get_elem? torrent.tracks j)
      × ((j : ℕ) → j ≢ t → get_elem? after.torrents j ≡ get_elem? loop.torrents j)

  Moved-same : (after : EvLoop) → after.torrents ≡ loop.torrents → Moved after
  Moved-same after same = (
    torrent,
    track,
    ap (λ l. get_elem? l t) same ∙ at_t,
    at_k,
    stays track.state,
    λ j other. refl,
    λ j other. ap (λ l. get_elem? l j) same,
  )

  Moved-on :
      (after : EvLoop) (torrent' : TrTorrent) (track' : NetTracker)
      → after.torrents ≡ set loop.torrents t torrent'
      → torrent'.tracks ≡ set torrent.tracks torrent.active_tracker_idx track'
      → Move track.state track'.state
      → Moved after
  Moved-on after torrent' track' torrents tracks move =
      let k = torrent.active_tracker_idx in
      (
        torrent',
        track',
        ap (λ l. get_elem? l t) torrents
            ∙ get_elem?-set_self loop.torrents t torrent'
                (lt_of_get_elem? loop.torrents t torrent at_t),
        ap (λ l. get_elem? l k) tracks
            ∙ get_elem?-set_self torrent.tracks k track'
                (lt_of_get_elem? torrent.tracks k track at_k),
        move,
        λ j other.
            ap (λ l. get_elem? l j) tracks
            ∙ get_elem?-set_ne torrent.tracks k j track' (λ e. other (sym e)),
        λ j other.
            ap (λ l. get_elem? l j) torrents
            ∙ get_elem?-set_ne loop.torrents t j torrent' (λ e. other (sym e)),
      )

  Moved-next :
      (after : EvLoop) → after.torrents ≡ set loop.torrents t (next_tracker torrent) → Moved after
  Moved-next after torrents =
      let k = torrent.active_tracker_idx in
      (
        next_tracker torrent,
        track,
        ap (λ l. get_elem? l t) torrents
            ∙ get_elem?-set_self loop.torrents t (next_tracker torrent)
                (lt_of_get_elem? loop.torrents t torrent at_t),
        at_k,
        stays track.state,
        λ j other. refl,
        λ j other.
            ap (λ l. get_elem? l j) torrents
            ∙ get_elem?-set_ne loop.torrents t j (next_tracker torrent) (λ e. other (sym e)),
      )

  tick_moves :
      (now id : ℕ) (s : TrackState)
      → track.state ≡ s
      → loop.udp_requests_count < length loop.udp_requests
      → (after : EvLoop) × (tick_state now id t torrent.active_tracker_idx track s loop ≡ ok after)
        × Moved after
  unfolding tick_state
  tick_moves now id tracker_not_resolved e room =
      let k = torrent.active_tracker_idx in
      let track' = record track { state = tracker_resolving } in
      let torrent' = with_active torrent track' in
      let pushed = push_task loop (resolve_dns t k) in
      (
        put_torrent pushed t torrent',
        rw at_t (
            update_track_lem pushed t k torrent track
              (λ old. record old { state = tracker_resolving }) at_t at_k),
        Moved-on (put_torrent pushed t torrent') torrent' track' refl refl
            (subst (λ s. Move s tracker_resolving) (sym e) resolves),
      )
  tick_moves now id tracker_resolving e room = (loop, refl, Moved-same loop refl)
  tick_moves now id tracker_idle e room =
      let made = announce_lem now id t loop torrent track at_t at_k room in
      (
        made.0,
        made.1,
        Moved-on made.0 (with_active torrent (asked now track)) (asked now track) made.2.0 refl
            (subst (λ s. Move s tracker_announcing) (sym e) asks),
      )
  tick_moves now id tracker_announcing e room =
      let over = give_up_lem t loop torrent track at_t at_k (omega arith) in
      elim (Bool-cases (ltb (track.announce_sent_at + 5) now)) [
        | inl late ↦ (
          over.0,
          rw late over.1,
          Moved-on over.0 (after_failure torrent track) (record track { state = tracker_failed })
              over.2.0 refl (subst (λ s. Move s tracker_failed) (sym e) times_out),
        )
        | inr early ↦ (loop, rw early refl, Moved-same loop refl)
      ]
  tick_moves now id tracker_alive e room =
      let made = announce_lem now id t loop torrent track at_t at_k room in
      elim (Bool-cases (is_past now track.last_announce track.interval)) [
        | inl due ↦ (
          made.0,
          rw due made.1,
          Moved-on made.0 (with_active torrent (asked now track)) (asked now track) made.2.0 refl
              (subst (λ s. Move s tracker_announcing) (sym e) asks_again),
        )
        | inr early ↦ (loop, rw early refl, Moved-same loop refl)
      ]
  tick_moves now id tracker_failed e room = (
    put_torrent loop t (next_tracker torrent),
    rw at_t refl,
    Moved-next (put_torrent loop t (next_tracker torrent)) refl,
  )

-- When a torrent has a tracker whose turn it is and the table has a place left, a tick ends without a
-- fault: that tracker keeps its state or moves along one of the four edges (it is resolved, asked,
-- asked again, or times out), and the other trackers and the other torrents are as they were.
pub ann_announcer_tick-Move :
    (now id t : ℕ) (loop : EvLoop) (torrent : TrTorrent) (track : NetTracker)
    → get_elem? loop.torrents t ≡ some torrent
    → get_elem? torrent.tracks torrent.active_tracker_idx ≡ some track
    → loop.udp_requests_count < length loop.udp_requests
    → (after : EvLoop) × (ann_announcer_tick now id t loop ≡ ok after)
      × (torrent' : TrTorrent) × (track' : NetTracker) × (get_elem? after.torrents t
          ≡ some torrent')
      × (get_elem? torrent'.tracks torrent.active_tracker_idx ≡ some track')
      × Move track.state track'.state
      × ((j : ℕ)
          → j ≢ torrent.active_tracker_idx
          → get_elem? torrent'.tracks j ≡ get_elem? torrent.tracks j)
      × ((j : ℕ) → j ≢ t → get_elem? after.torrents j ≡ get_elem? loop.torrents j)
ann_announcer_tick-Move now id t loop torrent track at_t at_k room =
    let moves = tick_moves t loop torrent track at_t at_k now id track.state refl room in
    (
      moves.0,
      tick_lem t loop torrent track at_t at_k now id ∙ moves.1,
      moves.2.0,
      moves.2.1,
      moves.2.2,
      moves.2.3,
      moves.2.4,
      moves.2.5,
      moves.2.6,
    )

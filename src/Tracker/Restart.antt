-- ===== src/Tracker/Restart.antt =====
-- `CL_client_tick` of client/client.c on a torrent whose trackers have all failed.
use bite_bit_bitten.Common.{
  ℕ, zero, suc, ◌≤◌, ◌≡◌, ◌≢◌, refl, sym, ap, ◌∙◌, inl, inr, Bool-cases, same_list, same_list-eq,
  take_all, drop_all, past_the_end, append-nil, some, true, List, [], ◌∷◌, ◌++◌, map, arith, leb,
  le→leb, length, get_elem?, take, drop, length-append, length-take, length-drop,
}
use bite_bit_bitten.Common.Outcome.{ok, fault}
use bite_bit_bitten.Tracker.{
  tracker_not_resolved, tracker_idle, NetTracker, torrent_downloading, torrent_failed, TrTorrent,
  EvLoop,
}
use bite_bit_bitten.Tracker.Tick.{
  udp, http, https, ann_announcer_tick, reset_track, restart, tick_torrent, tick_torrents,
  cl_client_tick,
}

length-map {ℓ κ} :
    {A : Type ℓ} {B : Type κ} (f : A → B) (xs : List A) → length (map f xs) ≡ length xs
length-map f [] = refl
length-map f (x ∷ xs) = ap suc (length-map f xs)

-- What a restart makes of a tracker: of UDP it is to be resolved, of any other schema it is idle, and
-- nothing but its state changes.
abbrev pub SetBack : NetTracker → NetTracker → Type 0
SetBack track again =
    (record track { state = again.state } ≡ again)
    × (track.schema ≡ udp → again.state ≡ tracker_not_resolved)
    × (track.schema ≢ udp → again.state ≡ tracker_idle)

not_both : (schema : List ℕ) → same_list schema http ≡ true → same_list schema https ≡ true → ⊥
not_both schema a b =
    let e = sym (same_list-eq schema http a) ∙ same_list-eq schema https b in
    let wrong : 4 ≡ 5 = ap length e in absurd (omega (arith, wrong))

reset_track-SetBack : (track : NetTracker) → SetBack track (reset_track track)
reset_track-SetBack track = (
  refl,
  λ e. rw e refl,
  λ differ. elim (Bool-cases (same_list track.schema udp)) [
    | inl same ↦ absurd (differ (same_list-eq track.schema udp same))
    | inr other ↦ elim (Bool-cases (same_list track.schema http)) [
      | inl is_http ↦ elim (Bool-cases (same_list track.schema https)) [
        | inl is_https ↦ absurd (not_both track.schema is_http is_https)
        | inr not_https ↦ rw (other, is_http, not_https) refl
      ]
      | inr not_http ↦ rw (other, not_http) refl
    ]
  ],
)

get_elem?-map {ℓ κ} :
    {A : Type ℓ} {B : Type κ} (f : A → B) (xs : List A) (j : ℕ) (x : A)
    → get_elem? xs j ≡ some x
    → get_elem? (map f xs) j ≡ some (f x)
get_elem?-map f [] j x h = cc
get_elem?-map f (y ∷ xs) zero x h = let e : y ≡ x = cc in ap (λ z. some (f z)) e
get_elem?-map f (y ∷ xs) (suc j) x h = get_elem?-map f xs j x h

all_reset :
    (tracks : List NetTracker) (n j : ℕ) (track : NetTracker)
    → n ≡ length tracks
    → get_elem? tracks j ≡ some track
    → get_elem? (map reset_track (take n tracks) ++ drop n tracks) j ≡ some (reset_track track)
all_reset tracks n j track whole at_j =
    rw
      (
        take_all n tracks (omega (arith, whole)),
        drop_all n tracks (omega (arith, whole)),
        append-nil (map reset_track tracks),
      )
      (get_elem?-map reset_track tracks j track at_j)

-- A torrent that starts again keeps the place of the tracker after the last one: when the only torrent
-- of a session has failed at all its trackers, the next client tick lets it download again and sets its
-- trackers back, so that those of UDP are to be resolved and all others idle, and the tick after that
-- reads behind the array of the trackers.
pub cl_client_tick-restart :
    (now later : ℕ) (random : ℕ → ℕ) (loop : EvLoop) (torrent : TrTorrent)
    → loop.torrents ≡ torrent ∷ []
    → torrent.state ≡ torrent_failed
    → torrent.tracker_count ≡ length torrent.tracks
    → torrent.tracker_count ≤ torrent.active_tracker_idx
    → (again : TrTorrent) × (cl_client_tick now random loop
        ≡ ok (record loop { torrents = again ∷ [] }))
      × (again.state ≡ torrent_downloading)
      × ((j : ℕ) (track : NetTracker)
          → get_elem? torrent.tracks j ≡ some track
          → (track' : NetTracker) × (get_elem? again.tracks j ≡ some track') × SetBack track track')
      × (cl_client_tick later random (record loop { torrents = again ∷ [] }) ≡ fault)
unfolding cl_client_tick tick_torrents tick_torrent restart ann_announcer_tick
cl_client_tick-restart now later random loop torrent only has_failed whole behind =
    let all : leb torrent.tracker_count (length torrent.tracks) ≡ true =
      le→leb torrent.tracker_count (length torrent.tracks) (omega arith) in
    let tracks =
      map reset_track (take torrent.tracker_count torrent.tracks)
      ++ drop torrent.tracker_count torrent.tracks in
    let again = record torrent { tracks = tracks; state = torrent_downloading } in
    let size : length tracks ≤ torrent.active_tracker_idx = omega (
      arith,
      length-append (map reset_track (take torrent.tracker_count torrent.tracks))
          (drop torrent.tracker_count torrent.tracks),
      length-map reset_track (take torrent.tracker_count torrent.tracks),
      length-take torrent.tracker_count torrent.tracks,
      length-drop torrent.tracker_count torrent.tracks,
    ) in
    (
      again,
      rw (only, has_failed, all) refl,
      refl,
      λ j track at_j. (
        reset_track track,
        all_reset torrent.tracks torrent.tracker_count j track whole at_j,
        reset_track-SetBack track,
      ),
      rw (past_the_end tracks torrent.active_tracker_idx size) refl,
    )

-- ===== src/Tracker/Rounds.antt =====
-- A torrent and the lookups of its trackers from one client tick to the next: `ANN_announcer_tick` of
-- announcer/announcer.c, once a second as event_loop/event_loop.c sets the timer, and
-- `handle_DNS_result` of threads/tasks.c.
use bite_bit_bitten.Common.{
  ℕ, zero, suc, ◌+◌, ◌-◌, ◌*◌, ◌≤◌, ◌<◌, ◌≡◌, refl, ap, ◌∙◌, ◌≢◌, Bool, true, false, Option, none,
  some, arith, if◌then◌else◌, length, get_elem?, set, length-set, get_elem?-set_self,
  get_elem?-set_ne, lt_of_get_elem?,
}
use bite_bit_bitten.Common.Outcome.{Outcome, ok, ◌>>=◌}
use bite_bit_bitten.Tracker.{
  TrackState, tracker_not_resolved, tracker_resolving, tracker_idle, tracker_announcing,
  tracker_alive, tracker_failed, torrent_failed, NetTracker, TrTorrent, EvLoop, torrent_at,
}
use bite_bit_bitten.Tracker.Tick.{ann_announcer_tick, handle_dns_result}
use bite_bit_bitten.Tracker.Announce.{with_active}

abbrev pub is_resolving : TrackState → Bool
is_resolving tracker_not_resolved = false
is_resolving tracker_resolving = true
is_resolving tracker_idle = false
is_resolving tracker_announcing = false
is_resolving tracker_alive = false
is_resolving tracker_failed = false

-- What a lookup says, when there is one: whether it had success, and the address.
abbrev pub answer_lookup : Bool × ℕ → ℕ → ℕ → Option NetTracker → EvLoop → Outcome EvLoop
answer_lookup dns t k none loop = ok loop
answer_lookup dns t k (some track) loop =
    if is_resolving track.state then handle_dns_result t k dns.0 dns.1 loop else ok loop

-- A tick of a torrent, and then the answer to the lookup of its active tracker.
unfoldable pub round : ℕ → ℕ → Bool × ℕ → ℕ → EvLoop → Outcome EvLoop
round now id dns t loop = ann_announcer_tick now id t loop >>= λ ticked.
    torrent_at ticked t >>= λ torrent.
    let k = torrent.active_tracker_idx in answer_lookup dns t k (get_elem? torrent.tracks k) ticked

-- `n` rounds a second apart; `random` and `dns` say what the system gives at a time.
unfoldable pub rounds : (ℕ → ℕ) → (ℕ → Bool × ℕ) → ℕ → ℕ → ℕ → EvLoop → Outcome EvLoop
unfolding round
rounds random dns now t zero loop = ok loop
rounds random dns now t (suc n) loop =
    round now (random now) (dns now) t loop >>= rounds random dns (now + 1) t n

-- No answer of the tracker has come in, and no announce was sent in the time to come.
abbrev pub IsSilent : ℕ → NetTracker → Type 0
IsSilent now track =
    (track.state ≢ tracker_alive)
    × (track.state ≡ tracker_announcing → track.announce_sent_at ≤ now)

pub IsSilent-later :
    (now later : ℕ) (track : NetTracker) → now ≤ later → IsSilent now track → IsSilent later track
IsSilent-later now later track h silent = (silent.0, λ e. omega (arith, h, silent.1 e))

-- How many rounds the active tracker can take, when one that is looked up takes `r`.
abbrev pub wait : ℕ → ℕ → ℕ → TrackState → ℕ
wait r now sent tracker_not_resolved = 8
wait r now sent tracker_resolving = r
wait r now sent tracker_idle = 7
wait r now sent tracker_announcing = suc (sent + 6 - now)
wait r now sent tracker_alive = 0
wait r now sent tracker_failed = 1

-- the requests in the table that the active tracker can have
abbrev pub in_table : TrackState → ℕ
in_table tracker_not_resolved = 0
in_table tracker_resolving = 0
in_table tracker_idle = 0
in_table tracker_announcing = 1
in_table tracker_alive = 0
in_table tracker_failed = 0

-- A torrent has its turn at a tracker in a state, every tracker from there on is silent, the table has
-- a place for a request to each, and the torrent has failed within `m` rounds.
pub record Turn (r m now t : ℕ) (loop : EvLoop) : Type 0 where
  pub torrent : TrTorrent
  pub track : NetTracker
  pub state : TrackState
  pub at_t : get_elem? loop.torrents t ≡ some torrent
  pub at_k : get_elem? torrent.tracks torrent.active_tracker_idx ≡ some track
  pub is_state : track.state ≡ state
  pub not_alive : state ≢ tracker_alive
  pub sent : state ≡ tracker_announcing → track.announce_sent_at ≤ now
  pub whole : torrent.tracker_count ≡ length torrent.tracks
  pub turn : torrent.active_tracker_idx < torrent.tracker_count
  pub places :
      loop.udp_requests_count + torrent.tracker_count
      ≤ length loop.udp_requests + torrent.active_tracker_idx + in_table state
  pub later :
      (j : ℕ)
      → torrent.active_tracker_idx < j
      → j < torrent.tracker_count
      → (other : NetTracker) × (get_elem? torrent.tracks j ≡ some other) × IsSilent now other
  pub within :
      wait r now track.announce_sent_at state
        + 8 * (torrent.tracker_count - torrent.active_tracker_idx - 1)
      ≤ m

-- The torrent has failed, and its turn is at no tracker.
abbrev pub Ended : ℕ → EvLoop → Type 0
Ended t loop =
    (torrent : TrTorrent) × (get_elem? loop.torrents t ≡ some torrent)
    × (torrent.state ≡ torrent_failed)
    × (get_elem? torrent.tracks torrent.active_tracker_idx ≡ none)

-- The active tracker is another now, and its turn goes on.
pub Turn-stay :
    (r r' m m' now now' t : ℕ) (loop next : EvLoop) (turn : Turn r m now t loop)
    (track : NetTracker)
    → now ≤ now'
    → next.torrents ≡ set loop.torrents t (with_active turn.torrent track)
    → length next.udp_requests ≡ length loop.udp_requests
    → next.udp_requests_count + in_table turn.state ≤ loop.udp_requests_count + in_table track.state
    → IsSilent now' track
    → wait r' now' track.announce_sent_at track.state
        + 8 * (turn.torrent.tracker_count - turn.torrent.active_tracker_idx - 1)
      ≤ m'
    → Turn r' m' now' t next
Turn-stay r r' m m' now now' t loop next turn track after torrents size count silent fits =
    let k = turn.torrent.active_tracker_idx in
    let torrent = with_active turn.torrent track in
    record {
      torrent = torrent;
      track = track;
      state = track.state;
      at_t =
          ap (λ l. get_elem? l t) torrents
          ∙ get_elem?-set_self loop.torrents t torrent
              (lt_of_get_elem? loop.torrents t turn.torrent turn.at_t);
      at_k =
          get_elem?-set_self turn.torrent.tracks k track
            (lt_of_get_elem? turn.torrent.tracks k turn.track turn.at_k);
      is_state = refl;
      not_alive = silent.0;
      sent = silent.1;
      whole = omega (arith, turn.whole, length-set turn.torrent.tracks k track);
      turn = turn.turn;
      places = omega (arith, turn.places, size, count);
      later = λ j from below.
          let (other, at_j, quiet) = turn.later j from below in
          (
            other,
            get_elem?-set_ne turn.torrent.tracks k j track (λ e. omega arith) ∙ at_j,
            IsSilent-later now now' other after quiet,
          );
      within = fits;
    }

-- The turn goes on a second later, with nothing changed.
pub Turn-wait :
    (r r' m m' now t : ℕ) (loop : EvLoop) (turn : Turn r m now t loop)
    → wait r' (now + 1) turn.track.announce_sent_at turn.state
        + 8 * (turn.torrent.tracker_count - turn.torrent.active_tracker_idx - 1)
      ≤ m'
    → Turn r' m' (now + 1) t loop
Turn-wait r r' m m' now t loop turn fits = record {
  torrent = turn.torrent;
  track = turn.track;
  state = turn.state;
  at_t = turn.at_t;
  at_k = turn.at_k;
  is_state = turn.is_state;
  not_alive = turn.not_alive;
  sent = λ h. omega (arith, turn.sent h);
  whole = turn.whole;
  turn = turn.turn;
  places = turn.places;
  later = λ j from below.
      let (other, at_j, waits) = turn.later j from below in
      (other, at_j, IsSilent-later now (now + 1) other (omega arith) waits);
  within = fits;
}

-- The time that a lookup takes is of no account to a tracker that is not looked up.
pub Turn-as :
    (r r' m now t : ℕ) (loop : EvLoop) (turn : Turn r m now t loop) (state : TrackState)
    → turn.state ≡ state
    → (wait r now turn.track.announce_sent_at state ≡ wait r' now turn.track.announce_sent_at state)
    → Turn r' m now t loop
Turn-as r r' m now t loop turn state e same = record {
  torrent = turn.torrent;
  track = turn.track;
  state = turn.state;
  at_t = turn.at_t;
  at_k = turn.at_k;
  is_state = turn.is_state;
  not_alive = turn.not_alive;
  sent = turn.sent;
  whole = turn.whole;
  turn = turn.turn;
  places = turn.places;
  later = turn.later;
  within = let w = rw e at turn.within in rw e (omega (arith, w, same));
}

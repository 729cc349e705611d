-- ===== src/Tracker/Url.antt =====
-- The addresses of trackers and what goes into an announce over HTTP: `tracker_string_to_NET_tracker`,
-- `HTTP_url_encode_hash`, `generate_peer_id` and `get_random_u32` of announcer/announcer.c. A C string
-- is the list of its bytes before the 0.
use bite_bit_bitten.Common.{
  ℕ, zero, suc, ◌+◌, ◌-◌, ◌/◌, ◌%◌, ◌||◌, Option, none, some, List, [], ◌∷◌, ◌++◌, ltb, leb, ◌==◌,
  if◌then◌else◌, length, get_or, take, drop, to_word, same_list,
}
use bite_bit_bitten.Common.Outcome.{Outcome, ok, failed, fault, ◌>>=◌}
use bite_bit_bitten.Bencode.Strtol.{strtol}
use bite_bit_bitten.Tracker.{NetTracker, TrackState, tracker_not_resolved, tracker_idle}
use bite_bit_bitten.Tracker.Tick.{udp, http, https}

-- "://"
abbrev pub separator : List ℕ
separator = b':' ∷ b'/' ∷ b'/' ∷ []

abbrev pub behind {ℓ} : {A : Type ℓ} → ℕ → Option (List ℕ × A) → Option (List ℕ × A)
behind b none = none
behind b (some (before, rest)) = some (b ∷ before, rest)

-- `strstr(url, "://")`: what is before it, and what is after it
unfoldable pub split_schema : List ℕ → Option (List ℕ × List ℕ)
split_schema [] = none
split_schema (b ∷ url) =
    let more = behind b (split_schema url) in
    if same_list (take 3 (b ∷ url)) separator then some ([], drop 3 (b ∷ url)) else more

-- `strchr`: what is before the first such byte, and what is after it
unfoldable pub split_at : ℕ → List ℕ → Option (List ℕ × List ℕ)
split_at c [] = none
split_at c (b ∷ bytes) =
    let more = behind b (split_at c bytes) in if b == c then some ([], bytes) else more

-- `atoi` as an `uint16_t`
abbrev pub atoi_u16 : List ℕ → ℕ
atoi_u16 bytes = elim (strtol (bytes ++ 0 ∷ [])) [ none ↦ 0 | some r ↦ to_word 16 r.0 ]

-- The path is "/" when there is none.
abbrev pub path_of : Option (List ℕ × List ℕ) → List ℕ
path_of none = b'/' ∷ []
path_of (some (before, path)) = b'/' ∷ path

-- A tracker of any other schema keeps the state that it had.
abbrev pub first_state : List ℕ → TrackState → TrackState
first_state schema state =
    if same_list schema udp
    then tracker_not_resolved
    else if same_list schema http || same_list schema https
    then tracker_idle
    else state

abbrev pub found {ℓ} : {A : Type ℓ} → Option A → Outcome A
found none = failed
found (some a) = ok a

-- `failed` is the -1 of an address without "://" or without a port.
unfoldable pub tracker_string_to_net_tracker : List ℕ → NetTracker → Outcome NetTracker
unfolding split_schema split_at
tracker_string_to_net_tracker url track = do
  (schema, host_start) ← found (split_schema url)
  (host, after_colon) ← found (split_at b':' host_start)
  ok (record track {
    schema = schema;
    host = host;
    port = atoi_u16 after_colon;
    path = path_of (split_at b'/' after_colon);
    state = first_state schema track.state;
    ip = 0;
  })

-- a digit of `%X`
abbrev pub hex_digit : ℕ → ℕ
hex_digit d = if ltb d 10 then b'0' + d else b'A' + (d - 10)

-- `sprintf` with "%%%02X"
abbrev pub percent : ℕ → List ℕ
percent b = b'%' ∷ hex_digit (b / 16) ∷ hex_digit (b % 16) ∷ []

abbrev pub percent_all : List ℕ → List ℕ
percent_all [] = []
percent_all (b ∷ bytes) = percent b ++ percent_all bytes

-- The twenty bytes of a hash, and the 0 at the end.
unfoldable pub http_url_encode_hash : List ℕ → Outcome (List ℕ)
http_url_encode_hash hash_info =
    if leb 20 (length hash_info) then ok (percent_all (take 20 hash_info) ++ 0 ∷ []) else fault

abbrev pub run_of : ℕ → ℕ → List ℕ
run_of start zero = []
run_of start (suc n) = start ∷ run_of (start + 1) n

-- small letters, capital letters and digits
abbrev pub charset : List ℕ
charset = run_of b'a' 26 ++ (run_of b'A' 26 ++ run_of b'0' 10)

-- "-BB1313-"
abbrev pub peer_id_version : List ℕ
peer_id_version = b'-' ∷ b'B' ∷ b'B' ∷ b'1' ∷ b'3' ∷ b'1' ∷ b'3' ∷ b'-' ∷ []

abbrev pub chars_of : List ℕ → List ℕ
chars_of [] = []
chars_of (b ∷ buf) = get_or charset (b % 62) 0 ∷ chars_of buf

-- `getrandom` is what it gives when it gives all twelve bytes. `urandom` is whether /dev/urandom opens
-- and then what is read of it in full; a file that was read in full is closed twice, which is
-- undefined. The last twelve bytes of `peer_id` stay when nothing can be had.
unfoldable pub generate_peer_id :
    Option (List ℕ) → Option (Option (List ℕ)) → List ℕ → Outcome (List ℕ)
generate_peer_id (some buf) urandom peer_id = ok (peer_id_version ++ chars_of (take 12 buf))
generate_peer_id none none peer_id = ok (peer_id_version ++ drop 8 peer_id)
generate_peer_id none (some none) peer_id = ok (peer_id_version ++ drop 8 peer_id)
generate_peer_id none (some (some buf)) peer_id = fault

-- `mixed` is the number made from the time, the process and an address.
abbrev pub get_random_u32 : Option ℕ → Option ℕ → ℕ → ℕ
get_random_u32 (some x) urandom mixed = x
get_random_u32 none (some x) mixed = x
get_random_u32 none none mixed = mixed

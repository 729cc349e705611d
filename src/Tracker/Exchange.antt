-- ===== src/Tracker/Exchange.antt =====
-- The bytes of an announce that announcer/udp.c sends.
use bite_bit_bitten.Common.{
  ℕ, ◌+◌, ◌-◌, ◌*◌, ◌/◌, ◌%◌, ◌^◌, ◌≤◌, ◌<◌, ◌≡◌, refl, sym, ap, ◌∙◌, subst, List, [], ◌∷◌, ◌++◌,
  arith, length, take, drop, length-append, length-take, drop-append, take-append, drop-drop, slice,
  u64, take_all,
}
use bite_bit_bitten.Tracker.{
  TorrentState, torrent_downloading, torrent_seeding, torrent_needs_check, torrent_checking,
  torrent_paused, torrent_failed, NetTracker, TrTorrent,
}
use bite_bit_bitten.Tracker.Udp.{announce_message, htobe64, event}
use bite_bit_bitten.Peer.Request.{htonl}
use bite_bit_bitten.Peer.Message.{word_from}

pub word_from-htonl : (x : ℕ) → x < 2 ^ 32 → word_from 0 (htonl x) ≡ x
word_from-htonl x small = omega arith

word_from-append :
    (acc : ℕ) (xs ys : List ℕ) → word_from acc (xs ++ ys) ≡ word_from (word_from acc xs) ys
word_from-append acc [] ys = refl
word_from-append acc (x ∷ xs) ys = word_from-append (acc * 256 + x) xs ys

word_from-htonl_more : (acc x : ℕ) → x < 2 ^ 32 → word_from acc (htonl x) ≡ acc * 2 ^ 32 + x
word_from-htonl_more acc x small = omega arith

pub word_from-htobe64 : (x : ℕ) → x < 2 ^ 64 → word_from 0 (htobe64 x) ≡ x
word_from-htobe64 x small =
    word_from-append 0 (htonl (x / 2 ^ 32)) (htonl (x % 2 ^ 32))
    ∙ ap (λ acc. word_from acc (htonl (x % 2 ^ 32))) (word_from-htonl (x / 2 ^ 32) (omega arith))
    ∙ word_from-htonl_more (x / 2 ^ 32) (x % 2 ^ 32) (omega arith)
    ∙ omega arith

slice_behind :
    (xs ys : List ℕ) (k i n : ℕ) → length xs ≡ k → slice (xs ++ ys) (k + i) n ≡ slice ys i n
slice_behind xs ys k i n size = ap (take n) (
    sym (drop-drop i k (xs ++ ys))
    ∙ ap (drop i) (subst (λ m. drop m (xs ++ ys) ≡ ys) size (drop-append xs ys)))

slice_first : (xs ys : List ℕ) (k : ℕ) → length xs ≡ k → slice (xs ++ ys) 0 k ≡ xs
slice_first xs ys k size = subst (λ m. take m (xs ++ ys) ≡ xs) size (take-append xs ys)

event-small : (s : TorrentState) → event s < 2 ^ 32
event-small torrent_downloading = omega arith
event-small torrent_seeding = omega arith
event-small torrent_needs_check = omega arith
event-small torrent_checking = omega arith
event-small torrent_paused = omega arith
event-small torrent_failed = omega arith

-- An announce has 98 bytes, and its fields stand where the protocol has them: the connection at 0,
-- the action 1 at 8, the transaction at 12, the hash at 16, the identifier at 36, what was downloaded,
-- what is left and what was uploaded at 56, 64 and 72, the event at 80 and the port 6881 at 96. The
-- numbers fit their widths, hash and identifier have twenty bytes, and no more was downloaded than
-- there is.
pub announce_message-layout :
    (id key : ℕ) (peer_id : List ℕ) (torrent : TrTorrent) (track : NetTracker)
    → id < 2 ^ 32
    → length torrent.info_hash ≡ 20
    → length peer_id ≡ 20
    → track.connection_id < 2 ^ 64
    → torrent.downloaded ≤ torrent.total_size
    → torrent.total_size < 2 ^ 64
    → torrent.uploaded < 2 ^ 64
    → (length (announce_message id key peer_id torrent track) ≡ 98)
      × (word_from 0 (slice (announce_message id key peer_id torrent track) 0 8)
          ≡ track.connection_id)
      × (word_from 0 (slice (announce_message id key peer_id torrent track) 8 4) ≡ 1)
      × (word_from 0 (slice (announce_message id key peer_id torrent track) 12 4) ≡ id)
      × (slice (announce_message id key peer_id torrent track) 16 20 ≡ torrent.info_hash)
      × (slice (announce_message id key peer_id torrent track) 36 20 ≡ peer_id)
      × (word_from 0 (slice (announce_message id key peer_id torrent track) 56 8)
          ≡ torrent.downloaded)
      × (word_from 0 (slice (announce_message id key peer_id torrent track) 64 8)
          ≡ torrent.total_size - torrent.downloaded)
      × (word_from 0 (slice (announce_message id key peer_id torrent track) 72 8)
          ≡ torrent.uploaded)
      × (word_from 0 (slice (announce_message id key peer_id torrent track) 80 4)
          ≡ event torrent.state)
      × (word_from 0 (slice (announce_message id key peer_id torrent track) 96 2) ≡ 6881)
announce_message-layout id key peer_id torrent track id_small hash_size id_size conn down total up =
    let hash = take 20 torrent.info_hash in
    let own = take 20 peer_id in
    let hash_len : length hash ≡ 20 = omega (arith, length-take 20 torrent.info_hash) in
    let own_len : length own ≡ 20 = omega (arith, length-take 20 peer_id) in
    let left = u64 (torrent.total_size + 2 ^ 64 - torrent.downloaded) in
    let tail : List ℕ =
      htobe64 torrent.downloaded
      ++ (htobe64 left
          ++ (htobe64 torrent.uploaded
              ++ (htonl (event torrent.state)
                  ++ (htonl 0
                      ++ (htonl key ++ (htonl (2 ^ 32 - 1) ++ 6881 / 256 ∷ 6881 % 256 ∷ [])))))) in
    let after_hash = slice_behind hash (own ++ tail) 20 in
    let after_own = slice_behind own tail 20 in
    let left_small : left ≡ torrent.total_size - torrent.downloaded = omega arith in
    (
      omega (arith, length-append hash (own ++ tail), length-append own tail, hash_len, own_len),
      word_from-htobe64 track.connection_id conn,
      refl,
      word_from-htonl id id_small,
      slice_first hash (own ++ tail) 20 hash_len ∙ take_all 20 torrent.info_hash (omega arith),
      after_hash 0 20 hash_len
          ∙ slice_first own tail 20 own_len
          ∙ take_all 20 peer_id (omega arith),
      ap (word_from 0) (after_hash 20 8 hash_len ∙ after_own 0 8 own_len)
          ∙ word_from-htobe64 torrent.downloaded (omega arith),
      ap (word_from 0) (after_hash 28 8 hash_len ∙ after_own 8 8 own_len)
          ∙ word_from-htobe64 left (omega arith)
          ∙ left_small,
      ap (word_from 0) (after_hash 36 8 hash_len ∙ after_own 16 8 own_len)
          ∙ word_from-htobe64 torrent.uploaded up,
      ap (word_from 0) (after_hash 44 4 hash_len ∙ after_own 24 4 own_len)
          ∙ word_from-htonl (event torrent.state) (event-small torrent.state),
      ap (word_from 0) (after_hash 60 2 hash_len ∙ after_own 40 2 own_len),
    )

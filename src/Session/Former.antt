-- ===== src/Session/Former.antt =====
-- `init_saved_torrents` of init/init_session.c adds behind the torrents that are there.
use bite_bit_bitten.Common.{
  ℕ, suc, ◌≤◌, ◌≡◌, refl, sym, ap, ◌∙◌, subst, inl, inr, ◌||◌, List, [], ◌∷◌, ◌++◌, append_assoc,
  append-nil, arith, ltb, ltb→lt, Bool-cases, length, length-append, same_list,
}
use bite_bit_bitten.Common.Outcome.{Outcome, ok, fault, ◌>>=◌, >>=-eq-ok, ok-injective}
use bite_bit_bitten.Bencode.Parser.{parse_dict}
use bite_bit_bitten.Metainfo.Fields.{as_dict}
use bite_bit_bitten.Metainfo.InfoHash.{get_info_hash}
use bite_bit_bitten.Tracker.Url.{found}
use bite_bit_bitten.Files.{read_ben_file}
use bite_bit_bitten.Resume.{path_in}
use bite_bit_bitten.Session.{TrTorrent, ClSession, World}
use bite_bit_bitten.Session.Start.{init_tr_torrent}
use bite_bit_bitten.Session.Unique.{attempt-cases}
use bite_bit_bitten.Session.Commands.{attempt}
use bite_bit_bitten.Session.Saved.{
  complete_init, add_saved, add_saved_file, cmd_add_init, init_saved,
}

-- The session after has the torrents of the one before in front, then at most so many new ones, and
-- has room for them.
abbrev pub Appended : ℕ → ClSession → ClSession → Type 0
Appended n session after =
    (new : List TrTorrent) × (after.torrents ≡ session.torrents ++ new)
    × (length new ≤ n)
    × (length session.torrents ≤ 128 → length after.torrents ≤ 128)

none_new : (n : ℕ) (session : ClSession) → Appended n session session
none_new n session = ([], sym (append-nil session.torrents), omega arith, λ h. h)

add_saved-Appended :
    (world : World) (session after : ClSession) (path : List ℕ) (torrent : TrTorrent)
    → add_saved world session path torrent ≡ ok after
    → Appended 1 session after
unfolding add_saved
add_saved-Appended world session after path torrent run =
    let put : TrTorrent → Outcome ClSession =
      λ made. ok (record session { torrents = session.torrents ++ made ∷ [] }) in
    elim (Bool-cases (ltb (length session.torrents) 128)) [
      | inr full ↦ let wrong : fault ≡ ok after = rw full at run in cc
      | inl room ↦
          let (made, done, last) =
            >>=-eq-ok (complete_init world session path torrent) put (rw room at run) in
          subst (Appended 1 session) (ok-injective last) (
            made ∷ [],
            refl,
            omega arith,
            λ h. omega (
              arith,
              length-append session.torrents (made ∷ []),
              ltb→lt (length session.torrents) 128 room,
            ),
          )
    ]

add_saved_file-Appended :
    (f : ℕ) (world : World) (session after : ClSession) (path buffer : List ℕ)
    → add_saved_file f world session path buffer ≡ ok after
    → Appended 1 session after
unfolding add_saved_file
add_saved_file-Appended f world session after path buffer run =
    let hashed : List ℕ × TrTorrent → Outcome ClSession = λ made. get_info_hash made.0 f >>= λ hash.
    add_saved world session path (record made.1 { info_hash = hash }) in
    elim (attempt-cases (parse_dict buffer f 0 >>= λ r. as_dict r.0) session after
      (λ pair. attempt (init_tr_torrent world buffer pair) session hashed) run) [
        | inl same ↦ subst (Appended 1 session) same (none_new 1 session)
        | inr (pair, next) ↦
            elim (attempt-cases (init_tr_torrent world buffer pair) session after hashed next) [
              | inl same ↦ subst (Appended 1 session) same (none_new 1 session)
              | inr (made, ready) ↦
                  let (hash, there, last) =
                    >>=-eq-ok (get_info_hash made.0 f)
                      (λ hash. add_saved world session path (record made.1 { info_hash = hash }))
                      ready in
                  add_saved-Appended world session after path (record made.1 { info_hash = hash })
                    last
            ]
      ]

cmd_add_init-Appended :
    (f : ℕ) (world : World) (session after : ClSession) (path : List ℕ)
    → cmd_add_init f world session path ≡ ok after
    → Appended 1 session after
unfolding cmd_add_init
cmd_add_init-Appended f world session after path run =
    elim (attempt-cases (found (read_ben_file world.content path)) session after
      (add_saved_file f world session path) run) [
        | inl same ↦ subst (Appended 1 session) same (none_new 1 session)
        | inr (buffer, there) ↦ add_saved_file-Appended f world session after path buffer there
      ]

later : (n : ℕ) (a b c : ClSession) → Appended 1 a b → Appended n b c → Appended (suc n) a c
later n a b c (new, e, few, fits) (new', e', few', fits') = (
  new ++ new',
  e' ∙ ap (λ l. l ++ new') e ∙ append_assoc a.torrents new new',
  omega (arith, length-append new new'),
  λ h. fits' (fits h),
)

-- Of a directory whose names can all be taken, the torrents of a former run come behind those of the
-- session, at most one for each name, and the array of 128 places still holds them.
pub init_saved-Appended :
    (f : ℕ) (world : World) (entries : List (List ℕ)) (session after : ClSession)
    → init_saved f world session entries ≡ ok after
    → Appended (length entries) session after
unfolding init_saved
init_saved-Appended f world [] session after run =
    subst (Appended 0 session) (ok-injective run) (none_new 0 session)
init_saved-Appended f world (name ∷ entries) session after run =
    let path = path_in session.torrent_dir_path name [] in
    elim (Bool-cases (same_list name (b'.' ∷ []) || same_list name (b'.' ∷ b'.' ∷ []))) [
      | inl dots ↦
          later (length entries) session session after (none_new 1 session)
            (init_saved-Appended f world entries session after (rw dots at run))
      | inr file ↦
          let (next, added, rest) =
            >>=-eq-ok (cmd_add_init f world session path) (λ s. init_saved f world s entries)
              (rw file at run) in
          later (length entries) session next after
            (cmd_add_init-Appended f world session next path added)
            (init_saved-Appended f world entries next after rest)
    ]

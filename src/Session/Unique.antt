-- ===== src/Session/Unique.antt =====
-- What the commands of repl/repl.c keep: no torrent stands in the session twice.
use bite_bit_bitten.Common.{
  ℕ, zero, suc, ◌-◌, ◌≤◌, ◌<◌, ◌≡◌, refl, sym, ap, ◌∙◌, subst, ◌≢◌, ◌⊎◌, inl, inr, Bool, true,
  false, some, List, [], ◌∷◌, ◌++◌, arith, ltb, leb, ◌==◌, ltb→lt, ==_iff, Bool-cases, Option-cases,
  length, get_elem?, set, take, drop, length-append, length-set, length-take, get_elem?-set_self,
  get_elem?-set_ne, same_list, same_list-eq, same_list_refl, lt_of_get_elem?, get_elem?-of_take,
  get_elem?-snoc,
}
use bite_bit_bitten.Common.Outcome.{
  Outcome, ok, failed, fault, out_of_fuel, ◌>>=◌, >>=-eq-ok, ok-injective,
}
use bite_bit_bitten.Tracker.Url.{found}
use bite_bit_bitten.Strings.{replace_spaces_with}
use bite_bit_bitten.Files.{read_ben_file}
use bite_bit_bitten.Session.{TrTorrent, ClSession, World}
use bite_bit_bitten.Session.Start.{init_tr_torrent}
use bite_bit_bitten.Bencode.Parser.{parse_dict}
use bite_bit_bitten.Metainfo.Fields.{as_dict}
use bite_bit_bitten.Metainfo.InfoHash.{get_info_hash}
use bite_bit_bitten.Session.Commands.{
  is_duplicate_torrent, allocate_files, attempt, complete, add_torrent, add_file, cmd_add,
  id_from_arg, place_of, move_last, delete_at, read_torrent, read_all_torrents, delete_place,
  print_place, cmd_list, list, cmd_delete, cmd_print, add, print, delete, dispatch,
}

-- At most 128 torrents, and no two with the same hash.
abbrev pub Unique : ClSession → Type 0
Unique session =
    (length session.torrents ≤ 128)
    × ((i j : ℕ) (a b : TrTorrent)
        → get_elem? session.torrents i ≡ some a
        → get_elem? session.torrents j ≡ some b
        → same_list a.info_hash b.info_hash ≡ true
        → i ≡ j)

pub attempt-cases {ℓ} :
    {A : Type ℓ} (call : Outcome A) (session after : ClSession) (next : A → Outcome ClSession)
    → attempt call session next ≡ ok after
    → (session ≡ after) ⊎ ((x : A) × (next x ≡ ok after))
attempt-cases out_of_fuel session after next h = cc
attempt-cases fault session after next h = cc
attempt-cases failed session after next h = inl (ok-injective h)
attempt-cases (ok x) session after next h = inr (x, h)

-- A test that finds no duplicate has read the first torrent, and goes on.
first_differs :
    (hash : List ℕ) (t : TrTorrent) (torrents : List TrTorrent)
    → is_duplicate_torrent hash (t ∷ torrents) ≡ ok false
    → (same_list hash t.info_hash ≡ false) × (is_duplicate_torrent hash torrents ≡ ok false)
unfolding is_duplicate_torrent
first_differs hash t torrents new = elim (Bool-cases t.released) [
  | inl gone ↦ let wrong : ◌≡◌ {A = Outcome Bool} fault (ok false) = rw gone at new in cc
  | inr kept ↦ elim (Bool-cases (same_list hash t.info_hash)) [
    | inl same ↦ let wrong : true ≡ false = ok-injective (rw (kept, same) at new) in cc
    | inr other ↦ (other, rw (kept, other) at new)
  ]
]

not_duplicate :
    (hash : List ℕ) (torrents : List TrTorrent) (i : ℕ) (a : TrTorrent)
    → is_duplicate_torrent hash torrents ≡ ok false
    → get_elem? torrents i ≡ some a
    → same_list hash a.info_hash ≡ false
not_duplicate hash [] i a new at_i = cc
not_duplicate hash (t ∷ torrents) zero a new at_i =
    let e : t ≡ a = cc in
    subst (λ x. same_list hash x.info_hash ≡ false) e (first_differs hash t torrents new).0
not_duplicate hash (t ∷ torrents) (suc i) a new at_i =
    not_duplicate hash torrents i a (first_differs hash t torrents new).1 at_i

same_list_sym : (xs ys : List ℕ) → same_list xs ys ≡ true → same_list ys xs ≡ true
same_list_sym xs ys h = rw (same_list-eq xs ys h) (same_list_refl ys)

complete-info_hash :
    (world : World) (session : ClSession) (path : List ℕ) (torrent : TrTorrent)
    → (complete world session path torrent).info_hash ≡ torrent.info_hash
unfolding complete
complete-info_hash world session path torrent =
    elim (Bool-cases (
      allocate_files world
        (replace_spaces_with (session.download_folder_path ++ b'/' ∷ torrent.info.name) b'_')
        (drop world.number (take torrent.info.files_count torrent.info.files)))) [
          | inl all ↦ rw all refl
          | inr refused ↦ rw refused refl
        ]

-- A torrent whose hash no other has, at the end.
added_once :
    (torrents : List TrTorrent) (new : TrTorrent) (i j : ℕ) (a b : TrTorrent)
    → ((k : ℕ) (c : TrTorrent)
        → get_elem? torrents k ≡ some c
        → same_list new.info_hash c.info_hash ≡ false)
    → ((i j : ℕ) (a b : TrTorrent)
        → get_elem? torrents i ≡ some a
        → get_elem? torrents j ≡ some b
        → same_list a.info_hash b.info_hash ≡ true
        → i ≡ j)
    → get_elem? (torrents ++ new ∷ []) i ≡ some a
    → get_elem? (torrents ++ new ∷ []) j ≡ some b
    → same_list a.info_hash b.info_hash ≡ true
    → i ≡ j
added_once torrents new i j a b fresh once at_i at_j equal =
    elim (get_elem?-snoc torrents new i a at_i) [
      | inl old_i ↦ elim (get_elem?-snoc torrents new j b at_j) [
        | inl old_j ↦ once i j a b old_i old_j equal
        | inr (place, is_new) ↦
            let back = same_list_sym a.info_hash b.info_hash equal in
            let other = fresh i a old_i in
            let wrong : true ≡ false =
              sym (subst (λ x. same_list x.info_hash a.info_hash ≡ true) is_new back) ∙ other in
            cc
      ]
      | inr (place, is_new) ↦ elim (get_elem?-snoc torrents new j b at_j) [
        | inl old_j ↦
            let other = fresh j b old_j in
            let wrong : true ≡ false =
              sym (subst (λ x. same_list x.info_hash b.info_hash ≡ true) is_new equal) ∙ other in
            cc
        | inr (place', is_new') ↦ place ∙ sym place'
      ]
    ]

add_torrent-Unique :
    (world : World) (session after : ClSession) (path : List ℕ) (torrent : TrTorrent)
    → Unique session
    → add_torrent world session path torrent ≡ ok after
    → Unique after
unfolding add_torrent
add_torrent-Unique world session after path torrent h added =
    let new = complete world session path torrent in
    let hash = complete-info_hash world session path torrent in
    let (known, tested, rest) =
      >>=-eq-ok (is_duplicate_torrent torrent.info_hash session.torrents) _ added in
    elim (Bool-cases known) [
      | inl yes_known ↦
          let same : session ≡ after = ok-injective (rw yes_known at rest) in subst Unique same h
      | inr fresh ↦ elim (Bool-cases (ltb (length session.torrents) 128)) [
        | inr full ↦ let wrong : fault ≡ ok after = rw (fresh, full) at rest in cc
        | inl room ↦
            let same : record session { torrents = session.torrents ++ new ∷ [] } ≡ after =
              ok-injective (rw (fresh, room) at rest) in
            subst Unique same (
              omega (
                arith,
                length-append session.torrents (new ∷ []),
                ltb→lt (length session.torrents) 128 room,
              ),
              λ i j a b at_i at_j equal.
                  added_once session.torrents new i j a b
                    (λ k c at_k. rw hash (
                      not_duplicate torrent.info_hash session.torrents k c (tested ∙ ap ok fresh)
                        at_k))
                    (h.1) at_i at_j equal,
            )
      ]
    ]

-- where an entry of the array stood before one was deleted
moved_from :
    (torrents : List TrTorrent) (id n i : ℕ) (last a : TrTorrent)
    → get_elem? torrents n ≡ some last
    → get_elem? (take n (set torrents id last)) i ≡ some a
    → (i < n)
      × (k : ℕ) × (get_elem? torrents k ≡ some a)
      × (((i ≡ id) × (k ≡ n)) ⊎ ((i ≢ id) × (k ≡ i)))
moved_from torrents id n i last a at_n at_i =
    let (early, there) = get_elem?-of_take (set torrents id last) n i a at_i in
    elim (Bool-cases (i == id)) [
      | inl same ↦
          let here = (==_iff i id).0 same in
          let inside : id < length torrents = omega (
            arith,
            here,
            length-set torrents id last,
            lt_of_get_elem? (set torrents id last) i a there,
          ) in
          let is_last : last ≡ a =
            let t =
              sym (get_elem?-set_self torrents id last inside)
              ∙ subst (λ k. get_elem? (set torrents id last) k ≡ some a) here there in
            cc in
          (early, n, at_n ∙ ap some is_last, inl (here, refl))
      | inr other ↦
          let differ : i ≢ id = λ e. let t = (==_iff i id).1 e in cc in
          (
            early,
            i,
            sym (get_elem?-set_ne torrents id i last (λ e. differ (sym e))) ∙ there,
            inr (differ, refl),
          )
    ]

same_origin :
    (id n i j k l : ℕ)
    → i < n
    → j < n
    → (((i ≡ id) × (k ≡ n)) ⊎ ((i ≢ id) × (k ≡ i)))
    → (((j ≡ id) × (l ≡ n)) ⊎ ((j ≢ id) × (l ≡ j)))
    → k ≡ l
    → i ≡ j
same_origin id n i j k l hi hj (inl a) (inl b) e = a.0 ∙ sym b.0
same_origin id n i j k l hi hj (inl a) (inr b) e = absurd (omega (arith, a.1, b.1, hj, e))
same_origin id n i j k l hi hj (inr a) (inl b) e = absurd (omega (arith, a.1, b.1, hi, e))
same_origin id n i j k l hi hj (inr a) (inr b) e = sym a.1 ∙ e ∙ b.1

delete_at-Unique : (id : ℕ) (session : ClSession) → Unique session → Unique (delete_at id session)
delete_at-Unique id session h =
    let n = length session.torrents - 1 in
    elim (Option-cases (get_elem? session.torrents n)) [
      | inl missing ↦
          subst (λ o. Unique (record session { torrents = move_last id n session.torrents o }))
            (sym missing) h
      | inr (last, at_n) ↦
          subst (λ o. Unique (record session { torrents = move_last id n session.torrents o }))
            (sym at_n)
            (
              omega (arith, h.0, length-take n (set session.torrents id last)),
              λ i j a b at_i at_j equal.
                  let from_i = moved_from session.torrents id n i last a at_n at_i in
                  let from_j = moved_from session.torrents id n j last b at_n at_j in
                  same_origin id n i j from_i.1 from_j.1 from_i.0 from_j.0 from_i.3 from_j.3
                    (h.1 from_i.1 from_j.1 a b from_i.2 from_j.2 equal),
            )
    ]

cmd_delete-Unique :
    (session after : ClSession) (args : List (List ℕ))
    → Unique session
    → cmd_delete session args ≡ ok after
    → Unique after
unfolding cmd_delete
cmd_delete-Unique session after [] h run = subst Unique (ok-injective run) h
cmd_delete-Unique session after (name ∷ []) h run = subst Unique (ok-injective run) h
cmd_delete-Unique session after (name ∷ arg ∷ other ∷ more) h run =
    subst Unique (ok-injective run) h
cmd_delete-Unique session after (name ∷ arg ∷ []) h run =
    elim (attempt-cases (id_from_arg arg) session after
      (λ id. place_of id >>= λ place. delete_place session place) run) [
        | inl same ↦ subst Unique same h
        | inr (id, next) ↦
            let (place, found, last) = >>=-eq-ok (place_of id) (delete_place session) next in
            elim (Bool-cases (leb (length session.torrents) place)) [
              | inl beyond ↦ subst Unique (ok-injective (rw beyond at last)) h
              | inr inside ↦
                  let (torrent, read, end) =
                    >>=-eq-ok (read_torrent session place) _ (rw inside at last) in
                  subst Unique (ok-injective end) (delete_at-Unique place session h)
            ]
      ]

cmd_print-Unique :
    (session after : ClSession) (args : List (List ℕ))
    → Unique session
    → cmd_print session args ≡ ok after
    → Unique after
unfolding cmd_print
cmd_print-Unique session after [] h run = subst Unique (ok-injective run) h
cmd_print-Unique session after (name ∷ []) h run = subst Unique (ok-injective run) h
cmd_print-Unique session after (name ∷ arg ∷ other ∷ more) h run = subst Unique (ok-injective run) h
cmd_print-Unique session after (name ∷ arg ∷ []) h run =
    elim (attempt-cases (id_from_arg arg) session after (λ id. place_of id >>= print_place session)
      run) [
        | inl same ↦ subst Unique same h
        | inr (id, next) ↦
            let (place, found, last) = >>=-eq-ok (place_of id) (print_place session) next in
            elim (Bool-cases (leb (length session.torrents) place)) [
              | inl beyond ↦ subst Unique (ok-injective (rw beyond at last)) h
              | inr inside ↦
                  let (torrent, read, end) =
                    >>=-eq-ok (read_torrent session place) _ (rw inside at last) in
                  subst Unique (ok-injective end) h
            ]
      ]

cmd_list-Unique :
    (session after : ClSession) (args : List (List ℕ))
    → Unique session
    → cmd_list session args ≡ ok after
    → Unique after
unfolding cmd_list
cmd_list-Unique session after [] h run =
    let (all, read, end) = >>=-eq-ok (read_all_torrents session.torrents) _ run in
    subst Unique (ok-injective end) h
cmd_list-Unique session after (name ∷ []) h run =
    let (all, read, end) = >>=-eq-ok (read_all_torrents session.torrents) _ run in
    subst Unique (ok-injective end) h
cmd_list-Unique session after (name ∷ other ∷ more) h run = subst Unique (ok-injective run) h

add_file-Unique :
    (f : ℕ) (world : World) (session after : ClSession) (path buffer : List ℕ)
    → Unique session
    → add_file f world session path buffer ≡ ok after
    → Unique after
unfolding add_file
add_file-Unique f world session after path buffer h run =
    elim (attempt-cases (parse_dict buffer f 0 >>= λ r. as_dict r.0) session after
      (λ pair. attempt (init_tr_torrent world buffer pair) session (λ made.
        get_info_hash made.0 f >>= λ hash.
        add_torrent world session path (record made.1 { info_hash = hash })))
      run) [
        | inl same ↦ subst Unique same h
        | inr (pair, next) ↦
            elim (attempt-cases (init_tr_torrent world buffer pair) session after
              (λ made. get_info_hash made.0 f >>= λ hash.
                add_torrent world session path (record made.1 { info_hash = hash }))
              next) [
                | inl same ↦ subst Unique same h
                | inr (made, hashed) ↦
                    let (hash, found, last) =
                      >>=-eq-ok (get_info_hash made.0 f)
                        (λ hash.
                          add_torrent world session path (record made.1 { info_hash = hash }))
                        hashed in
                    add_torrent-Unique world session after path (record made.1 { info_hash = hash })
                      h last
              ]
      ]

cmd_add-Unique :
    (f : ℕ) (world : World) (session after : ClSession) (args : List (List ℕ))
    → Unique session
    → cmd_add f world session args ≡ ok after
    → Unique after
unfolding cmd_add
cmd_add-Unique f world session after [] h run = subst Unique (ok-injective run) h
cmd_add-Unique f world session after (name ∷ []) h run = subst Unique (ok-injective run) h
cmd_add-Unique f world session after (name ∷ path ∷ more) h run =
    elim (attempt-cases (found (read_ben_file world.content path)) session after
      (add_file f world session path) run) [
        | inl same ↦ subst Unique same h
        | inr (buffer, there) ↦ add_file-Unique f world session after path buffer h there
      ]

-- `dispatch` keeps the torrents of a session apart: when a command, whatever its words are, ends on a
-- session of at most 128 torrents of which no two have the same hash, the session after it is such a
-- session again.
pub dispatch-Unique :
    (f : ℕ) (world : World) (session after : ClSession) (args : List (List ℕ))
    → Unique session
    → dispatch f world session args ≡ ok after
    → Unique after
unfolding dispatch
dispatch-Unique f world session after [] h run = subst Unique (ok-injective run) h
dispatch-Unique f world session after (name ∷ args) h run = elim (Bool-cases (same_list name add)) [
  | inl is_add ↦ cmd_add-Unique f world session after (name ∷ args) h (rw is_add at run)
  | inr not_add ↦ elim (Bool-cases (same_list name print)) [
    | inl is_print ↦ cmd_print-Unique session after (name ∷ args) h (rw (not_add, is_print) at run)
    | inr not_print ↦ elim (Bool-cases (same_list name delete)) [
      | inl is_delete ↦
          cmd_delete-Unique session after (name ∷ args) h
            (rw (not_add, not_print, is_delete) at run)
      | inr not_delete ↦ elim (Bool-cases (same_list name list)) [
        | inl is_list ↦
            cmd_list-Unique session after (name ∷ args) h
              (rw (not_add, not_print, not_delete, is_list) at run)
        | inr unknown ↦
            let same : session ≡ after =
              ok-injective (rw (not_add, not_print, not_delete, unknown) at run) in
            subst Unique same h
      ]
    ]
  ]
]

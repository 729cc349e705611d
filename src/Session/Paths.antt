-- ===== src/Session/Paths.antt =====
-- The paths of a session in init/init_session.c. The environment, the entry of the user and the random
-- bytes are arguments.
use bite_bit_bitten.Common.{ℕ, ◌≡◌, refl, Option, none, some, List, [], ◌∷◌, ◌++◌}
use bite_bit_bitten.Common.Outcome.{Outcome, ok, ◌>>=◌}
use bite_bit_bitten.Tracker.Url.{generate_peer_id}

-- What the two functions keep in static variables between calls.
pub record Statics : Type 0 where
  pub config_path : Option (List ℕ)
  pub home_path : Option (List ℕ)

-- `getenv` of XDG_CONFIG_HOME and HOME, and the directory that `getpwuid` says
pub record Environment : Type 0 where
  pub xdg_config_home : Option (List ℕ)
  pub home : Option (List ℕ)
  pub pw_dir : Option (List ℕ)

abbrev pub home_of : Option (List ℕ) → Option (List ℕ) → List ℕ
home_of (some home) pw_dir = home
home_of none (some dir) = dir
home_of none none = []

abbrev pub get_home_dir_path : Option (List ℕ) → Environment → List ℕ
get_home_dir_path (some home) env = home
get_home_dir_path none env = home_of env.home env.pw_dir

-- "/.config"
abbrev pub dot_config : List ℕ
dot_config = b'/' ∷ b'.' ∷ b'c' ∷ b'o' ∷ b'n' ∷ b'f' ∷ b'i' ∷ b'g' ∷ []

abbrev pub config_from : Option (List ℕ) → Statics → Environment → List ℕ × Statics
config_from (some config) kept env = (config, record kept { config_path = some config })
config_from none kept env =
    let home = get_home_dir_path kept.home_path env in
    (home ++ dot_config, record { config_path = some home; home_path = some home })

abbrev pub known_config : Option (List ℕ) → Statics → Environment → List ℕ × Statics
known_config (some config) kept env = (config, kept)
known_config none kept env = config_from env.xdg_config_home kept env

-- the path, and the static variables after the call
unfoldable pub get_config_dir_path : Statics → Environment → List ℕ × Statics
get_config_dir_path kept env = known_config kept.config_path kept env

pub record SessionPaths : Type 0 where
  pub config_dir_path : List ℕ
  pub config_file_path : List ℕ
  pub resume_dir_path : List ℕ
  pub torrent_dir_path : List ℕ
  pub download_folder_path : List ℕ
  pub peer_id : List ℕ

-- `blank` is what the place of the identifier holds.
unfoldable pub init_cl_session :
    Environment → Option (List ℕ) → Option (Option (List ℕ)) → List ℕ → Outcome SessionPaths
unfolding get_config_dir_path generate_peer_id
init_cl_session env random urandom blank =
    let (config_path, kept) =
      get_config_dir_path (record { config_path = none; home_path = none }) env in
    let home_path = get_home_dir_path kept.home_path env in
    let dir = config_path ++ b'/' ∷ b'b' ∷ b'b' ∷ b'b' ∷ [] in
    generate_peer_id random urandom blank >>= λ peer_id. ok (record {
      config_dir_path = dir;
      config_file_path =
          dir ++ b'/' ∷ b'c' ∷ b'o' ∷ b'n' ∷ b'f' ∷ b'i' ∷ b'g' ∷ b'.' ∷ b'p' ∷ b'i' ∷ b'g' ∷ [];
      resume_dir_path = dir ++ b'/' ∷ b'r' ∷ b'e' ∷ b's' ∷ b'u' ∷ b'm' ∷ b'e' ∷ [];
      torrent_dir_path = dir ++ b'/' ∷ b't' ∷ b'o' ∷ b'r' ∷ b'r' ∷ b'e' ∷ b'n' ∷ b't' ∷ [];
      download_folder_path =
          home_path
          ++ b'/' ∷ b'b' ∷ b'b' ∷ b'b' ∷ b'_' ∷ b'd' ∷ b'o' ∷ b'w' ∷ b'n' ∷ b'l' ∷ b'o' ∷ b'a'
            ∷ b'd' ∷ [];
      peer_id = peer_id;
    })

-- Without XDG_CONFIG_HOME the second call gives the home directory, where the first gave its `.config`.
pub get_config_dir_path-again :
    (home : List ℕ) (pw_dir : Option (List ℕ))
    → let env : Environment = record {
      xdg_config_home = none;
      home = some home;
      pw_dir = pw_dir;
    } in
      let first = get_config_dir_path (record { config_path = none; home_path = none }) env in
      (first.0 ≡ home ++ dot_config) × ((get_config_dir_path first.1 env).0 ≡ home)
unfolding get_config_dir_path
get_config_dir_path-again home pw_dir = (refl, refl)

-- ===== src/Settings.antt =====
-- src/Settings/Settings.cpp: the settings of the process and their two ways in. The configuration
-- is an `ink::EnhancedJson`, an argument here.
pub mod Valid
pub mod Bounds
use warp_api.Prelude.{
  ℕ, ◌*◌, Bool, true, false, not, ◌&&◌, ◌||◌, Option, none, some, List, [], ◌∷◌, ltb, ◌==◌,
  if◌then◌else◌, codes,
}

pub record SettingsData : Type 0 where
  pub port : ℕ
  pub ip : List ℕ
  pub max_threads : ℕ
  pub backlog_size : ℕ
  pub connection_timeout_ms : ℕ
  pub max_body_size : ℕ
  pub max_request_size : ℕ
  pub max_response_size : ℕ

-- `get` with a key and a default; `none` is the exception that it throws.
pub record EnhancedJson : Type 0 where
  pub get_text : List ℕ → List ℕ → Option (List ℕ)
  pub get_number : List ℕ → ℕ → Option ℕ

pub is_empty : List ℕ → Bool
is_empty [] = true
is_empty (c ∷ cs) = false

-- `SettingsData::isValid`
unfoldable pub is_valid : SettingsData → Bool
unfolding is_empty
is_valid d =
    if ltb d.port 1 || ltb 65535 d.port
    then false
    else if is_empty d.ip
    then false
    else if d.max_threads == 0
    then false
    else not (d.backlog_size == 0)

-- One assignment of `loadSettings`, on the data and whether nothing was thrown before.
pub store :
    {A : Type 0}
    → Option A
    → (A → SettingsData → SettingsData)
    → SettingsData × Bool
    → SettingsData × Bool
store value field (d, false) = (d, false)
store none field (d, true) = (d, false)
store (some v) field (d, true) = (field v d, true)

-- `hardware` is `std::thread::hardware_concurrency()`, `backlog` the `SOMAXCONN` of the system.
module _ (hardware backlog : ℕ) where
  -- `loadSettings`: the data that it leaves behind, and its answer. What was assigned before an
  -- exception stays.
  pub load_settings : EnhancedJson → SettingsData → SettingsData × Bool
  unfolding store
  load_settings c d =
      let s1 =
        store (c.get_text (codes "ip") (codes "0.0.0.0")) (λ v t. record t { ip = v }) (d, true) in
      let s2 = store (c.get_number (codes "port") 8080) (λ v t. record t { port = v }) s1 in
      let s3 =
        store (c.get_number (codes "max_threads") 2)
          (λ v t. record t { max_threads = if ltb hardware v then hardware else v }) s2 in
      let s4 =
        store (c.get_number (codes "backlog_size") backlog) (λ v t. record t { backlog_size = v })
          s3 in
      let s5 =
        store (c.get_number (codes "connection_timeout_ms") 60000)
          (λ v t. record t { connection_timeout_ms = v }) s4 in
      let s6 =
        store (c.get_number (codes "max_body_size") (64 * 1024))
          (λ v t. record t { max_body_size = v }) s5 in
      let s7 =
        store (c.get_number (codes "max_request_size") (64 * 1024))
          (λ v t. record t { max_request_size = v }) s6 in
      store (c.get_number (codes "max_response_size") (64 * 1024))
        (λ v t. record t { max_response_size = v }) s7

  -- `_data` and `_initialized`
  pub record Settings : Type 0 where
    pub data_now : SettingsData
    pub initialized : Bool

  -- The constructor, which ignores the answer of `loadSettings`.
  unfoldable pub construct : EnhancedJson → Settings → Settings
  unfolding load_settings
  construct c s =
      let d = (load_settings c s.data_now).0 in
      if s.initialized then s else record { data_now = d; initialized = is_valid d }

  -- `updateSettings`, with its answer.
  pub update_settings : EnhancedJson → Settings → Settings × Bool
  unfolding load_settings
  update_settings c s =
      let (d, loaded) = load_settings c s.data_now in
      if loaded && is_valid d then (record s { data_now = d }, true) else (s, false)

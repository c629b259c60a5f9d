-- ===== src/Settings/Bounds.antt =====
-- The bound that `loadSettings` puts on the number of threads.
use warp_api.Settings.{store, EnhancedJson, Settings, SettingsData, construct, load_settings}
use warp_api.Prelude.{
  Bool, Option, arith, codes, false, if_cases, if◌then◌else◌, ltb, none, some, true, ℕ, ◌*◌, ◌≤◌,
}

data AtMost (hardware : ℕ) : SettingsData × Bool → Type 0 where
  at_most : {s : SettingsData × Bool} → s.0.max_threads ≤ hardware → AtMost hardware s

bound : {hardware : ℕ} {s : SettingsData × Bool} → AtMost hardware s → s.0.max_threads ≤ hardware
bound (at_most h) = h

store_keeps :
    (hardware : ℕ) {A : Type 0} (value : Option A) (field : A → SettingsData → SettingsData)
    {s : SettingsData × Bool}
    → ((v : A) (d : SettingsData) → d.max_threads ≤ hardware → (field v d).max_threads ≤ hardware)
    → AtMost hardware s
    → AtMost hardware (store value field s)
unfolding store
store_keeps hardware value field {s = (d, false)} keep (at_most h) = at_most h
store_keeps hardware none field {s = (d, true)} keep (at_most h) = at_most h
store_keeps hardware (some v) field {s = (d, true)} keep (at_most h) = at_most (keep v d h)

capped : (hardware v : ℕ) → (if ltb hardware v then hardware else v) ≤ hardware
capped hardware v = ground arith

-- Under this bound before, and under every configuration.
pub load_settings-max_threads :
    (hardware backlog : ℕ) (c : EnhancedJson) (d : SettingsData)
    → d.max_threads ≤ hardware
    → (load_settings hardware backlog c d).0.max_threads ≤ hardware
unfolding load_settings
load_settings-max_threads hardware backlog c d h = bound (
    store_keeps hardware (c.get_number (codes "max_response_size") (64 * 1024))
      (λ v t. record t { max_response_size = v }) (λ v d h. h)
      (store_keeps hardware (c.get_number (codes "max_request_size") (64 * 1024))
        (λ v t. record t { max_request_size = v }) (λ v d h. h)
        (store_keeps hardware (c.get_number (codes "max_body_size") (64 * 1024))
          (λ v t. record t { max_body_size = v }) (λ v d h. h)
          (store_keeps hardware (c.get_number (codes "connection_timeout_ms") 60000)
            (λ v t. record t { connection_timeout_ms = v }) (λ v d h. h)
            (store_keeps hardware (c.get_number (codes "backlog_size") backlog)
              (λ v t. record t { backlog_size = v }) (λ v d h. h)
              (store_keeps hardware (c.get_number (codes "max_threads") 2)
                (λ v t. record t { max_threads = if ltb hardware v then hardware else v })
                (λ v d h. capped hardware v)
                (store_keeps hardware (c.get_number (codes "port") 8080)
                  (λ v t. record t { port = v }) (λ v d h. h)
                  (store_keeps hardware (c.get_text (codes "ip") (codes "0.0.0.0"))
                    (λ v t. record t { ip = v }) (λ v d h. h) (at_most {s = (d, true)} h)))))))))

pub construct-max_threads :
    (hardware backlog : ℕ) (c : EnhancedJson) (s : Settings hardware backlog)
    → s.data_now.max_threads ≤ hardware
    → (construct hardware backlog c s).data_now.max_threads ≤ hardware
unfolding construct
construct-max_threads hardware backlog c s h =
    if_cases (λ (t : Settings hardware backlog). t.data_now.max_threads ≤ hardware) s.initialized s
      _ (λ _. h) (λ _. load_settings-max_threads hardware backlog c s.data_now h)

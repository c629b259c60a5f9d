-- ===== src/Settings/Valid.antt =====
-- What the settings of the process satisfy after each way in.
use warp_api.Settings.{
  EnhancedJson, Settings, SettingsData, construct, is_empty, is_valid, load_settings, store,
  update_settings,
}
use warp_api.Prelude.{
  Bool, Bool-cases, List, Option, [], arith, codes, false, if◌then◌else◌, inl, inr, leb, length,
  ltb, none, not, refl, some, true, ℕ, ◌&&◌, ◌==◌, ◌>>=◌, ◌||◌, ◌∷◌, ◌≡◌,
}

-- Once initialized, the settings are valid.
abbrev pub IsSound : (hardware backlog : ℕ) → Settings hardware backlog → Type 0
IsSound hardware backlog s = s.initialized ≡ true → is_valid s.data_now ≡ true

-- What is a valid configuration: a port of 16 bits that is not 0, an address, and threads and a backlog
-- of at least one.
abbrev pub in_order : SettingsData → Bool
in_order d =
    leb 1 d.port
    && leb d.port 65535
    && ltb 0 (length d.ip)
    && ltb 0 d.max_threads
    && ltb 0 d.backlog_size

is_valid-in_order : (d : SettingsData) → is_valid d ≡ in_order d
unfolding is_valid is_empty
is_valid-in_order d = go d.ip
  where
    go :
        (ip : List ℕ)
        → (if ltb d.port 1 || ltb 65535 d.port
            then false
            else if is_empty ip
            then false
            else if d.max_threads == 0
            then false
            else not (d.backlog_size == 0))
          ≡ (leb 1 d.port
              && leb d.port 65535
              && ltb 0 (length ip)
              && ltb 0 d.max_threads
              && ltb 0 d.backlog_size)
    go [] = ground arith
    go (x ∷ xs) = ground arith

module _ (hardware backlog : ℕ) where
  -- The constructor, on any configuration, leaves sound settings.
  pub construct-IsSound :
      (c : EnhancedJson) (s : Settings hardware backlog)
      → IsSound hardware backlog s
      → IsSound hardware backlog (construct hardware backlog c s)
  unfolding construct
  construct-IsSound c s h = elim (Bool-cases s.initialized) [
    | inl e ↦ rw (e, construct) (λ p. h e)
    | inr e ↦ rw (e, construct) (λ p. p)
  ]

  -- All of a configuration, each value under its key or by its default.
  unfoldable pub configured : EnhancedJson → Option SettingsData
  configured c = do
    ip ← c.get_text (codes "ip") (codes "0.0.0.0")
    port ← c.get_number (codes "port") 8080
    threads ← c.get_number (codes "max_threads") 2
    backlog_size ← c.get_number (codes "backlog_size") backlog
    timeout ← c.get_number (codes "connection_timeout_ms") 60000
    body ← c.get_number (codes "max_body_size") 65536
    request ← c.get_number (codes "max_request_size") 65536
    response ← c.get_number (codes "max_response_size") 65536
    some (record {
      port = port;
      ip = ip;
      max_threads = if ltb hardware threads then hardware else threads;
      backlog_size = backlog_size;
      connection_timeout_ms = timeout;
      max_body_size = body;
      max_request_size = request;
      max_response_size = response;
    })

  -- The loading has read this configuration, or has failed.
  abbrev Reads : Option SettingsData → SettingsData × Bool → Type 0
  Reads (some d) r = r ≡ (d, true)
  Reads none r = r.1 ≡ false

  load_settings-Reads :
      (c : EnhancedJson) (d : SettingsData)
      → Reads (configured c) (load_settings hardware backlog c d)
  unfolding load_settings store configured
  load_settings-Reads c d =
      go (c.get_text (codes "ip") (codes "0.0.0.0")) (c.get_number (codes "port") 8080)
        (c.get_number (codes "max_threads") 2) (c.get_number (codes "backlog_size") backlog)
        (c.get_number (codes "connection_timeout_ms") 60000)
        (c.get_number (codes "max_body_size") 65536) (c.get_number (codes "max_request_size") 65536)
        (c.get_number (codes "max_response_size") 65536)
    where
      go :
          (o1 : Option (List ℕ)) (o2 o3 o4 o5 o6 o7 o8 : Option ℕ)
          → Reads
              (do
                ip ← o1
                port ← o2
                threads ← o3
                backlog_size ← o4
                timeout ← o5
                body ← o6
                request ← o7
                response ← o8
                some (record {
                  port = port;
                  ip = ip;
                  max_threads = if ltb hardware threads then hardware else threads;
                  backlog_size = backlog_size;
                  connection_timeout_ms = timeout;
                  max_body_size = body;
                  max_request_size = request;
                  max_response_size = response;
                }))
              (store o8
                (λ v t. record t { max_response_size = v })
                (store o7
                  (λ v t. record t { max_request_size = v })
                  (store o6
                    (λ v t. record t { max_body_size = v })
                    (store o5
                      (λ v t. record t { connection_timeout_ms = v })
                      (store o4
                        (λ v t. record t { backlog_size = v })
                        (store o3
                          (λ v t. record t { max_threads = if ltb hardware v then hardware else v })
                          (store o2
                            (λ v t. record t { port = v })
                            (store o1 (λ v t. record t { ip = v }) (d, true)))))))))
      go none o2 o3 o4 o5 o6 o7 o8 = refl
      go (some a) none o3 o4 o5 o6 o7 o8 = refl
      go (some a) (some b) none o4 o5 o6 o7 o8 = refl
      go (some a) (some b) (some e) none o5 o6 o7 o8 = refl
      go (some a) (some b) (some e) (some f) none o6 o7 o8 = refl
      go (some a) (some b) (some e) (some f) (some g) none o7 o8 = refl
      go (some a) (some b) (some e) (some f) (some g) (some h) none o8 = refl
      go (some a) (some b) (some e) (some f) (some g) (some h) (some i) none = refl
      go (some a) (some b) (some e) (some f) (some g) (some h) (some i) (some k) = refl

  -- The settings behind a configuration, and the answer.
  abbrev pub taken_over :
      Settings hardware backlog → Option SettingsData → Settings hardware backlog × Bool
  taken_over s none = (s, false)
  taken_over s (some d) = if in_order d then (record s { data_now = d }, true) else (s, false)

  -- An update takes over every value of a configuration that can be read in full and is valid, a
  -- missing one by its default and the threads up to those of the hardware, and answers true. Every
  -- other configuration changes nothing, also where some of it was read, and is answered false.
  pub update_settings_lem :
      (c : EnhancedJson) (s : Settings hardware backlog)
      → update_settings hardware backlog c s ≡ taken_over s (configured c)
  unfolding update_settings
  update_settings_lem c s =
      go (configured c) (load_settings hardware backlog c s.data_now)
        (load_settings-Reads c s.data_now)
    where
      go :
          (o : Option SettingsData) (r : SettingsData × Bool)
          → Reads o r
          → (if r.1 && is_valid r.0 then (record s { data_now = r.0 }, true) else (s, false))
            ≡ taken_over s o
      go none r e = rw e refl
      go (some d) r e = rw e (rw (is_valid-in_order d) refl)

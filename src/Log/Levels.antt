-- ===== src/Log/Levels.antt =====
-- src/common/Logging/Log.cpp: the highest level of all loggers, which is tested first, never hides a message that a
-- logger would write.
use warhead_discord_client.Common.{
  ℕ, zero, suc, ◌+◌, ◌≤◌, ◌<◌, ◌≡◌, refl, sym, ap, ◌∙◌, Bool, true, false, ◌||◌, Bool-cases,
  Option-cases, inl, inr, Option, none, some, List, [], ◌∷◌, ltb, leb, ltb→lt, ◌==◌, if◌then◌else◌,
  arith, length, length-take, take, drop, codes,
}
use warhead_discord_client.StringConvert.{from_string}
use warhead_discord_client.Tokenize.{tokenize}
use warhead_discord_client.Config.{
  ConfigOption, ConfigMgr, same_text, get_text_default, get_keys_by_string, value_or,
}
use warhead_discord_client.Log.{
  LoggerStore, later_dot, find_last_dot, parent_of, uint8, get_position_options, all_known, Log,
  get_logger_by_type, logs_at, should_log, with_logger, add_logger, create_logger_from_config,
  read_loggers, load_from_config,
}

find_last_dot-bound : (type : List ℕ) (k : ℕ) → find_last_dot type ≡ some k → k < length type
unfolding find_last_dot
find_last_dot-bound [] k e = absurd (let c : none ≡ some k = e in cc)
find_last_dot-bound (c ∷ cs) k e = elim (Option-cases (find_last_dot cs)) [
  | inl n ↦ first (c == 46) (sym (ap (later_dot c) n) ∙ e)
  | inr (j, f) ↦
      let g : some (suc j) ≡ some k = sym (ap (later_dot c) f) ∙ e in
      let h : suc j ≡ k = cc in omega (arith, find_last_dot-bound cs j f)
]
  where
    first : (b : Bool) → (if b then some 0 else none) ≡ some k → k < suc (length cs)
    first true e = let h : 0 ≡ k = let c : some 0 ≡ some k = e in cc in omega arith
    first false e = absurd (let c : none ≡ some k = e in cc)

module _ {S : Type 0} (store : LoggerStore S) where
  at_root :
      (f : ℕ) (s : S)
      → 0 < f
      → get_logger_by_type store f (codes "root") s
        ≡ (if store.has (codes "root") s then some (store.level (codes "root") s) else none)
  unfolding get_logger_by_type same_text
  at_root zero s h = absurd (omega arith)
  at_root (suc f) s h = refl

  -- More calls than are enough change nothing.
  get_logger_by_type-enough :
      (f g : ℕ) (type : List ℕ) (s : S)
      → length type + 1 < f
      → length type + 1 < g
      → get_logger_by_type store f type s ≡ get_logger_by_type store g type s
  unfolding get_logger_by_type
  get_logger_by_type-enough zero g type s h k = absurd (omega arith)
  get_logger_by_type-enough (suc f) zero type s h k = absurd (omega arith)
  get_logger_by_type-enough (suc f) (suc g) type s h k = elim (Option-cases (find_last_dot type)) [
    | inl e ↦ by_name (store.has type s) (same_text type (codes "root")) (
        ap (λ o. get_logger_by_type store f (parent_of o type) s) e
        ∙ at_root f s (omega arith)
        ∙ sym (at_root g s (omega arith))
        ∙ sym (ap (λ o. get_logger_by_type store g (parent_of o type) s) e))
    | inr (j, e) ↦
        let b = find_last_dot-bound type j e in
        let shorter = length-take j type in
        by_name (store.has type s) (same_text type (codes "root")) (
          ap (λ o. get_logger_by_type store f (parent_of o type) s) e
          ∙ get_logger_by_type-enough f g (take j type) s (omega arith) (omega arith)
          ∙ sym (ap (λ o. get_logger_by_type store g (parent_of o type) s) e))
  ]
    where
      by_name :
          (b c : Bool) {x y : Option ℕ}
          → x ≡ y
          → (if b then some (store.level type s) else if c then none else x)
            ≡ (if b then some (store.level type s) else if c then none else y)
      by_name true c e = refl
      by_name false true e = refl
      by_name false false e = e

  -- A level that is found is that of a logger.
  get_logger_by_type-has :
      (f : ℕ) (type : List ℕ) (s : S) (l : ℕ)
      → get_logger_by_type store f type s ≡ some l
      → (name : List ℕ) × (store.has name s ≡ true) × (store.level name s ≡ l)
  unfolding get_logger_by_type
  get_logger_by_type-has zero type s l e = absurd (let c : none ≡ some l = e in cc)
  get_logger_by_type-has (suc f) type s l e =
      by_name (store.has type s) (same_text type (codes "root"))
        (get_logger_by_type-has f (parent_of (find_last_dot type) type) s l) refl e
    where
      by_name :
          (b c : Bool)
          → (get_logger_by_type store f (parent_of (find_last_dot type) type) s ≡ some l
              → (name : List ℕ) × (store.has name s ≡ true) × (store.level name s ≡ l))
          → store.has type s ≡ b
          → (if b
              then some (store.level type s)
              else if c
              then none
              else get_logger_by_type store f (parent_of (find_last_dot type) type) s)
            ≡ some l
          → (name : List ℕ) × (store.has name s ≡ true) × (store.level name s ≡ l)
      by_name true c above h e = (type, h, let d : some (store.level type s) ≡ some l = e in cc)
      by_name false true above h e = absurd (let d : none ≡ some l = e in cc)
      by_name false false above h e = above e

  -- No logger has a level above the highest.
  abbrev pub IsBounded : Log store → Type 0
  IsBounded log =
      (name : List ℕ)
      → store.has name log.loggers ≡ true
      → store.level name log.loggers ≤ log.highest_log_level

  add_logger-IsBounded :
      (has_channel : List ℕ → Bool) (logger_name : List ℕ) (level : ℕ) (channels : List ℕ)
      (log : Log store)
      → IsBounded log
      → IsBounded (add_logger store has_channel logger_name level channels log)
  unfolding add_logger
  add_logger-IsBounded has_channel logger_name level channels log v =
      by_channels (all_known has_channel (tokenize channels 32 false))
    where
      highest : ℕ
      highest = if ltb log.highest_log_level level then level else log.highest_log_level

      above : (log.highest_log_level ≤ highest) × (level ≤ highest)
      above = ground arith

      raised : Log store
      raised = record { highest_log_level = highest; loggers = log.loggers }

      kept : IsBounded raised
      kept name h = omega (arith, v name h, above.0)

      created :
          (o : Option S)
          → store.create logger_name level log.loggers ≡ o
          → IsBounded (with_logger store o raised)
      created none e = kept
      created (some s) e = λ name h.
          elim (store.level-create logger_name name level log.loggers s e h) [
            | inl l ↦ omega (arith, l, above.1)
            | inr (old, l) ↦ omega (arith, l, v name old, above.0)
          ]

      by_channels :
          (b : Bool)
          → IsBounded (
              if b
              then with_logger store (store.create logger_name level log.loggers) raised
              else raised)
      by_channels true = created (store.create logger_name level log.loggers) refl
      by_channels false = kept

  create_logger-IsBounded :
      (has_channel : List ℕ → Bool) (m : ConfigMgr) (name : List ℕ) (log : Log store)
      → IsBounded log
      → IsBounded (create_logger_from_config store has_channel m name log)
  unfolding create_logger_from_config
  create_logger-IsBounded has_channel m name log v =
      let options = get_text_default m name [] in
      let level = value_or (from_string uint8 (get_position_options options 0) 10) 9 in
      either
        ((length name == 0)
          || same_text (drop 7 name) (codes "system")
          || (length options == 0)
          || ltb (length (tokenize options 44 true)) 2
          || leb 9 level)
        (add_logger-IsBounded has_channel (drop 7 name) level (get_position_options options 1) log
          v)
    where
      either :
          (b : Bool) {other : Log store} → IsBounded other → IsBounded (if b then log else other)
      either true w = v
      either false w = w

  read_loggers-IsBounded :
      (has_channel : List ℕ → Bool) (m : ConfigMgr) (names : List (List ℕ)) (log : Log store)
      → IsBounded log
      → IsBounded (read_loggers store has_channel m names log)
  unfolding read_loggers
  read_loggers-IsBounded has_channel m [] log v = v
  read_loggers-IsBounded has_channel m (name ∷ names) log v =
      read_loggers-IsBounded has_channel m names
        (create_logger_from_config store has_channel m name log)
        (create_logger-IsBounded has_channel m name log v)

  should_log-logs_at :
      (type : List ℕ) (level fuel : ℕ) (log : Log store)
      → length type + 1 < fuel
      → IsBounded log
      → should_log store type level log
        ≡ logs_at store (get_logger_by_type store fuel type log.loggers) level
  unfolding should_log
  should_log-logs_at type level fuel log h v = elim (Bool-cases (ltb log.highest_log_level level)) [
    | inl high ↦ rw high (
        sym (
          hidden (get_logger_by_type store fuel type log.loggers) refl
            (ltb→lt log.highest_log_level level high)))
    | inr low ↦ rw low (
        ap (λ o. logs_at store o level)
          (get_logger_by_type-enough (length type + 2) fuel type log.loggers (omega arith) h))
  ]
    where
      hidden :
          (o : Option ℕ)
          → get_logger_by_type store fuel type log.loggers ≡ o
          → log.highest_log_level < level
          → logs_at store o level ≡ false
      hidden none e k = refl
      hidden (some l) e k =
          let (name, there, same) = get_logger_by_type-has fuel type log.loggers l e in
          let b = v name there in ground arith

  -- Once the configuration is loaded `ShouldLog` answers what it would without its first test, which compares with
  -- the highest level: whether the logger for the name, or that of the nearest name above it, or the
  -- root's has a level that is not 0 and not below the message's. Two calls more than the name has
  -- characters find that logger.
  pub should_log-load_from_config :
      (has_channel : List ℕ → Bool) (order : List ConfigOption → List ConfigOption) (m : ConfigMgr)
      (type : List ℕ) (level fuel : ℕ)
      → length type + 1 < fuel
      → should_log store type level (load_from_config store has_channel order m)
        ≡ logs_at store
            (get_logger_by_type store fuel type
              (load_from_config store has_channel order m).loggers)
            level
  unfolding load_from_config
  should_log-load_from_config has_channel order m type level fuel h =
      should_log-logs_at type level fuel (load_from_config store has_channel order m) h (
        read_loggers-IsBounded has_channel m (get_keys_by_string order m (codes "Logger."))
          (record { highest_log_level = 1; loggers = store.shutdown })
          (λ name e. absurd (let c : false ≡ true = sym (store.has-shutdown name) ∙ e in cc)))

-- ===== src/Log/Runs.antt =====
-- A store of loggers, runs of the loading of loggers on it, and the theorem at one of them.
use warhead_discord_client.Common.{
  ℕ, ◌≡◌, ◌⊎◌, inl, inr, refl, ap, ◌∙◌, subst, Bool, true, false, Option, none, some, List, [], ◌∷◌,
  if◌then◌else◌, arith, codes,
}
use warhead_discord_client.Config.{ConfigOption, ConfigMgr, same_text}
use warhead_discord_client.Log.{
  LoggerStore, Log, get_logger_by_type, logs_at, should_log, load_from_config,
}
use warhead_discord_client.Log.Levels.{should_log-load_from_config}

record Named : Type 0 where
  name : List ℕ
  level : ℕ

abbrev has : List ℕ → List Named → Bool
unfolding same_text
has name [] = false
has name (n ∷ ns) = if same_text n.name name then true else has name ns

abbrev level_of : List ℕ → List Named → ℕ
unfolding same_text
level_of name [] = 0
level_of name (n ∷ ns) = if same_text n.name name then n.level else level_of name ns

abbrev create : List ℕ → ℕ → List Named → Option (List Named)
unfolding has
create name level ns =
    if has name ns then none else some (record { name = name; level = level } ∷ ns)

level_of-create :
    (name other : List ℕ) (l : ℕ) (s s' : List Named)
    → create name l s ≡ some s'
    → has other s' ≡ true
    → (level_of other s' ≡ l) ⊎ ((has other s ≡ true) × (level_of other s' ≡ level_of other s))
unfolding create has level_of
level_of-create name other l s s' e h = by_has (has name s) e
  where
    added : List Named
    added = record { name = name; level = l } ∷ s

    either :
        (b : Bool)
        → (if b then true else has other s) ≡ true
        → ((if b then l else level_of other s) ≡ l)
          ⊎ ((has other s ≡ true) × ((if b then l else level_of other s) ≡ level_of other s))
    either true h = inl refl
    either false h = inr (h, refl)

    by_has :
        (b : Bool)
        → (if b then none else some added) ≡ some s'
        → (level_of other s' ≡ l) ⊎ ((has other s ≡ true) × (level_of other s' ≡ level_of other s))
    by_has true e = absurd (let c : none ≡ some s' = e in cc)
    by_has false e =
        let same : added ≡ s' = let c : some added ≡ some s' = e in cc in
        subst
          (λ t.
            (level_of other t ≡ l) ⊎ ((has other s ≡ true) × (level_of other t ≡ level_of other s)))
          same (either (same_text name other) (ap (has other) same ∙ h))

abbrev loggers : LoggerStore (List Named)
unfolding has level_of create
loggers = record {
  has = has;
  level = level_of;
  create = create;
  shutdown = [];
  level-create = level_of-create;
  has-shutdown = λ name. refl;
}

abbrev configured : ConfigMgr
configured = record {
  filename = [];
  config_options =
      record { name = codes "Logger.root"; value = codes "4,Console" }
      ∷ record { name = codes "Logger.client"; value = codes "6,Console" }
      ∷ record { name = codes "Logger.other"; value = codes "9,Console" }
      ∷ [];
  using_dist_config = false;
}

abbrev known : List ℕ → Bool
known channel = true

abbrev same_order : List ConfigOption → List ConfigOption
same_order os = os

abbrev loaded : Log loggers
unfolding load_from_config
loaded = load_from_config loggers known same_order configured

-- The name "client.x" has the logger "client", and "y" that of the root.
logs_info : should_log loggers (codes "client.x") 6 loaded ≡ true
unfolding should_log loaded
logs_info = refl

hides_info : should_log loggers (codes "y") 6 loaded ≡ false
unfolding should_log loaded
hides_info = refl

should_log-load_from_config_example :
    should_log loggers (codes "y") 6 (load_from_config loggers known same_order configured)
    ≡ logs_at loggers
        (get_logger_by_type loggers 9
          (codes "y")
          (load_from_config loggers known same_order configured).loggers)
        6
should_log-load_from_config_example =
    should_log-load_from_config loggers known same_order configured (codes "y") 6 9 (omega arith)

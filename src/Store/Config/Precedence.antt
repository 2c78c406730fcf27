-- ===== src/Store/Config/Precedence.antt =====
-- `load_env`: the source of each setting once the environment was read.
use zhuzhbox_cli.Base.{
  ◌≡◌, Bool, true, false, ◌||◌, Option, none, some, List, [], ◌∷◌, if◌then◌else◌, Bytes, codes,
  arith, refl, ap, ◌∙◌, if_holds,
}
use zhuzhbox_cli.Error.{Outcome, done, fail, ◌>>=◌}
use zhuzhbox_cli.Format.Size.{Doubles}
use zhuzhbox_cli.Store.Alloc.{Alloc}
use zhuzhbox_cli.Store.Config.{
  Key, Source, Config, all_keys, key_env, same_key, set_from_text, set_env, env_keys, set_legacy,
  is_env, load_env,
}
use zhuzhbox_cli.Store.Config.Laws.{Gives, Gives-bind}
use zhuzhbox_cli.Store.Config.Sources.{AreFrom, is_there, update, set_from_text-AreFrom}

-- Whether a key is in the list and given.
abbrev pub named : (Key → Bool) → List Key → Key → Bool
named has [] k = false
named has (key ∷ keys) k = if same_key key k then has key || named has keys k else named has keys k

abbrev pub over : Source → (Key → Bool) → (Key → Source) → Key → Source
over source has expect k = if has k then source else expect k

-- What one round of a loop over the keys does.
abbrev pub one_key : Source → Bool → Key → (Key → Source) → Key → Source
one_key source given key expect k =
    if same_key key k then (if given then source else expect k) else expect k

pub if_same : (b : Bool) (s : Source) → s ≡ (if b then s else s)
if_same true s = refl
if_same false s = refl

rounds :
    (same given later : Bool) (source old : Source)
    → (if later then source else if same then (if given then source else old) else old)
      ≡ (if (if same then given || later else later) then source else old)
rounds true true true source old = refl
rounds true true false source old = refl
rounds true false true source old = refl
rounds true false false source old = refl
rounds false given true source old = refl
rounds false given false source old = refl

or_false : (b : Bool) → (b || false) ≡ b
or_false true = refl
or_false false = refl

named-all_keys : (has : Key → Bool) (k : Key) → named has all_keys k ≡ has k
named-all_keys has Key.api_host = or_false (has Key.api_host)
named-all_keys has Key.download_host = or_false (has Key.download_host)
named-all_keys has Key.site_host = or_false (has Key.site_host)
named-all_keys has Key.concurrency = or_false (has Key.concurrency)
named-all_keys has Key.bundle = or_false (has Key.bundle)
named-all_keys has Key.color = or_false (has Key.color)
named-all_keys has Key.progress = or_false (has Key.progress)
named-all_keys has Key.single_shot = or_false (has Key.single_shot)
named-all_keys has Key.single_shot_max = or_false (has Key.single_shot_max)
named-all_keys has Key.resume = or_false (has Key.resume)

pub Gives-AreFrom :
    (expect better : Key → Source) (o : Outcome Config)
    → ((k : Key) → expect k ≡ better k)
    → Gives (AreFrom expect) o
    → Gives (AreFrom better) o
Gives-AreFrom expect better (fail e) same h = tt
Gives-AreFrom expect better (done cfg) same h = λ k. h k ∙ same k

pub round-AreFrom :
    (source : Source) (has : Key → Bool) (key : Key) (keys : List Key) (expect : Key → Source)
    → (o : Outcome Config) → (next : Config → Outcome Config)
    → Gives (AreFrom (one_key source (has key) key expect)) o
    → ((after : Config) (then_ : Key → Source)
        → AreFrom then_ after
        → Gives (AreFrom (over source (named has keys) then_)) (next after))
    → Gives (AreFrom (over source (named has (key ∷ keys)) expect)) (o >>= next)
round-AreFrom source has key keys expect o next first rest =
    let middle = one_key source (has key) key expect in
    let last = over source (named has (key ∷ keys)) expect in
    Gives-bind (AreFrom middle) (AreFrom last) o next first (λ after h.
      Gives-AreFrom (over source (named has keys) middle) last (next after)
        (λ k. rounds (same_key key k) (has key) (named has keys k) source (expect k))
        (rest after middle h))

pub whole_table :
    (source : Source) (has : Key → Bool) (expect : Key → Source) (k : Key)
    → over source (named has all_keys) expect k ≡ over source has expect k
whole_table source has expect k = ap (λ b. if b then source else expect k) (named-all_keys has k)

abbrev legacy_has : Option Bytes → Key → Bool
legacy_has none k = false
legacy_has (some legacy) k = same_key Key.api_host k

-- A variable of the environment sets the key.
abbrev pub env_has : (Bytes → Option Bytes) → Key → Bool
env_has env k = legacy_has (env (codes "ZHUZHBOX_API")) k || is_there (env (key_env k))

legacy_or :
    (s h : Bool) (source old : Source)
    → (if s then source else if h then source else old) ≡ (if s || h then source else old)
legacy_or true h source old = refl
legacy_or false h source old = refl

is_env-from_env : (s : Source) → is_env s ≡ true → s ≡ Source.from_env
is_env-from_env Source.from_env h = refl
is_env-from_env Source.by_default h = grind (arith, h)
is_env-from_env Source.from_file h = grind (arith, h)
is_env-from_env Source.by_flag h = grind (arith, h)

already :
    (cfg : Config) (expect : Key → Source)
    → cfg.src Key.api_host ≡ Source.from_env
    → AreFrom expect cfg
    → AreFrom (update Key.api_host Source.from_env expect) cfg
already cfg expect e h Key.api_host = e
already cfg expect e h Key.download_host = h Key.download_host
already cfg expect e h Key.site_host = h Key.site_host
already cfg expect e h Key.concurrency = h Key.concurrency
already cfg expect e h Key.bundle = h Key.bundle
already cfg expect e h Key.color = h Key.color
already cfg expect e h Key.progress = h Key.progress
already cfg expect e h Key.single_shot = h Key.single_shot
already cfg expect e h Key.single_shot_max = h Key.single_shot_max
already cfg expect e h Key.resume = h Key.resume

module _ (f : Doubles) (m : Alloc) where
  set_env-AreFrom :
      (env : Bytes → Option Bytes) (key : Key) (cfg : Config) (expect : Key → Source)
      → AreFrom expect cfg
      → Gives
          (AreFrom (one_key Source.from_env (is_there (env (key_env key))) key expect))
          (set_env f m env key cfg)
  set_env-AreFrom env key cfg expect h = from_value (env (key_env key))
    where
      from_value :
          (o : Option Bytes)
          → Gives (AreFrom (one_key Source.from_env (is_there o) key expect)) (elim o [
            | none ↦ done cfg
            | some value ↦ set_from_text f m key value Source.from_env cfg
          ])
      from_value none = λ k. h k ∙ if_same (same_key key k) (expect k)
      from_value (some value) = set_from_text-AreFrom f m key value Source.from_env cfg expect h

  env_keys-AreFrom :
      (env : Bytes → Option Bytes) (keys : List Key) (cfg : Config) (expect : Key → Source)
      → AreFrom expect cfg
      → Gives
          (AreFrom (over Source.from_env (named (λ key. is_there (env (key_env key))) keys) expect))
          (env_keys f m env keys cfg)
  unfolding env_keys
  env_keys-AreFrom env [] cfg expect h = h
  env_keys-AreFrom env (key ∷ keys) cfg expect h =
      round-AreFrom Source.from_env (λ k. is_there (env (key_env k))) key keys expect
        (set_env f m env key cfg) (env_keys f m env keys) (set_env-AreFrom env key cfg expect h)
        (λ after then_ w. env_keys-AreFrom env keys after then_ w)

  set_legacy-AreFrom :
      (legacy : Option Bytes) (has : Key → Bool) (cfg : Config) (expect : Key → Source)
      → AreFrom (over Source.from_env has expect) cfg
      → Gives
          (AreFrom (over Source.from_env (λ k. legacy_has legacy k || has k) expect))
          (set_legacy f m legacy cfg)
  set_legacy-AreFrom none has cfg expect h = h
  set_legacy-AreFrom (some legacy) has cfg expect h =
      let before = over Source.from_env has expect in
      let set = update Key.api_host Source.from_env before in
      let after = set_legacy f m (some legacy) cfg in
      Gives-AreFrom set (over Source.from_env (λ k. legacy_has (some legacy) k || has k) expect)
        after (λ k. legacy_or (same_key Key.api_host k) (has k) Source.from_env (expect k))
        (if_holds (Gives (AreFrom set)) (is_env (cfg.src Key.api_host)) _ _
          (λ e. already cfg before (is_env-from_env (cfg.src Key.api_host) e) h)
          (λ e. set_from_text-AreFrom f m Key.api_host legacy Source.from_env cfg before h))

  pub load_env-AreFrom :
      (env : Bytes → Option Bytes) (cfg : Config) (expect : Key → Source)
      → AreFrom expect cfg
      → Gives (AreFrom (over Source.from_env (env_has env) expect)) (load_env f m env cfg)
  unfolding load_env
  load_env-AreFrom env cfg expect h =
      let has : Key → Bool = λ k. is_there (env (key_env k)) in
      let middle = over Source.from_env has expect in
      let legacy = env (codes "ZHUZHBOX_API") in
      Gives-bind (AreFrom middle) (AreFrom (over Source.from_env (env_has env) expect))
        (env_keys f m env all_keys cfg) (set_legacy f m legacy)
        (Gives-AreFrom (over Source.from_env (named has all_keys) expect) middle
          (env_keys f m env all_keys cfg) (whole_table Source.from_env has expect)
          (env_keys-AreFrom env all_keys cfg expect h))
        (λ after w. set_legacy-AreFrom legacy has after expect w)

-- ===== src/Store/Config/Laws.antt =====
-- The settings stay in their ranges, and each comes from the place that has precedence.
use zhuzhbox_cli.Base.{
  ℕ, ◌-◌, ◌<◌, ◌≤◌, ◌≡◌, Bool, true, false, ◌||◌, Option, none, some, List, [], ◌∷◌, ltb,
  if◌then◌else◌, Bytes, codes, length, get_or, take, length-take, arith, refl, if_holds, All,
}
use zhuzhbox_cli.Base.Int.{ℤ, pos, negsuc}
use zhuzhbox_cli.Error.{Outcome, done, fail, ◌>>=◌}
use zhuzhbox_cli.Format.Size.{Doubles, is_either, parse_size}
use zhuzhbox_cli.Store.Alloc.{Alloc}
use zhuzhbox_cli.Store.Config.{
  Key, Source, Config, all_keys, key_env, defaults, is_slash, normalize_host, put_host, put_int,
  set_str, parse_tri, parse_bool, not_auto, strtol_all, parse_concurrency, set_int, set_size,
  set_from_text, set_env, env_keys, set_legacy, is_env, load_env,
}
use zhuzhbox_cli.Text.Filename.{trimmed_len}
use zhuzhbox_cli.Text.Filename.Laws.{trimmed_len-le, trimmed_len-ended, get_or-take}
use zhuzhbox_cli.Text.Utf8.{streq_from}

abbrev pub IsFlag : ℤ → Type 0
IsFlag (pos n) = n ≤ 1
IsFlag (negsuc n) = ⊥

abbrev pub IsTri : ℤ → Type 0
IsTri (pos n) = n ≤ 1
IsTri (negsuc n) = n ≡ 0

abbrev pub IsCount : ℤ → Type 0
IsCount (pos n) = (1 ≤ n) × (n ≤ 16)
IsCount (negsuc n) = ⊥

-- A path can be put behind it without two slashes in a row.
abbrev pub IsHost : Bytes → Type 0
IsHost host = 0 < length host → is_slash (get_or host (length host - 1) 0) ≡ false

-- The hosts, the number of uploads at once, the switches, and the settings that may be "auto".
abbrev pub IsValid : Config → Type 0
IsValid cfg =
    All IsHost (cfg.api_host ∷ cfg.download_host ∷ cfg.site_host ∷ [])
    × IsCount cfg.concurrency
    × All IsFlag (cfg.bundle_default ∷ cfg.single_shot ∷ cfg.resume_default ∷ [])
    × All IsTri (cfg.color ∷ cfg.progress ∷ [])

abbrev pub Gives : (Config → Type 0) → Outcome Config → Type 0
Gives P (fail e) = Unit
Gives P (done cfg) = P cfg

pub Gives-bind :
    (P Q : Config → Type 0) (o : Outcome Config) (next : Config → Outcome Config)
    → Gives P o
    → ((cfg : Config) → P cfg → Gives Q (next cfg))
    → Gives Q (o >>= next)
Gives-bind P Q (fail e) next h step = tt
Gives-bind P Q (done cfg) next h step = step cfg h

normalize_host-IsHost : (value : Bytes) → IsHost (normalize_host value)
unfolding normalize_host
normalize_host-IsHost value h =
    let n = trimmed_len is_slash value (length value) in
    let bound = trimmed_len-le is_slash value (length value) in
    let len : length (take n value) ≡ n = omega (arith, length-take n value, bound) in
    rw (len, get_or-take n (n - 1) value (omega (arith, len, h)))
      (trimmed_len-ended is_slash value (length value) (omega (arith, len, h)))

put_host-IsValid :
    (key : Key) (host : Bytes) (cfg : Config)
    → IsHost host
    → IsValid cfg
    → IsValid (put_host key host cfg)
put_host-IsValid Key.api_host host cfg h v = ((h, v.0.1), v.1, v.2, v.3)
put_host-IsValid Key.download_host host cfg h v = ((v.0.0, (h, v.0.1.1)), v.1, v.2, v.3)
put_host-IsValid Key.site_host host cfg h v = ((v.0.0, (v.0.1.0, (h, v.0.1.1.1))), v.1, v.2, v.3)
put_host-IsValid _ host cfg h v = v

abbrev Fits : Key → ℤ → Type 0
Fits Key.concurrency v = IsCount v
Fits Key.bundle v = IsFlag v
Fits Key.single_shot v = IsFlag v
Fits Key.resume v = IsFlag v
Fits Key.color v = IsTri v
Fits Key.progress v = IsTri v
Fits _ v = Unit

put_int-IsValid :
    (key : Key) (v : ℤ) (cfg : Config) → Fits key v → IsValid cfg → IsValid (put_int key v cfg)
put_int-IsValid Key.concurrency n cfg h v = (v.0, h, v.2, v.3)
put_int-IsValid Key.bundle n cfg h v = (v.0, v.1, (h, v.2.1), v.3)
put_int-IsValid Key.single_shot n cfg h v = (v.0, v.1, (v.2.0, (h, v.2.1.1)), v.3)
put_int-IsValid Key.resume n cfg h v = (v.0, v.1, (v.2.0, (v.2.1.0, (h, v.2.1.1.1))), v.3)
put_int-IsValid Key.color n cfg h v = (v.0, v.1, v.2, (h, v.3.1))
put_int-IsValid Key.progress n cfg h v = (v.0, v.1, v.2, (v.3.0, (h, v.3.1.1)))
put_int-IsValid _ n cfg h v = v

abbrev WhenSome : (ℤ → Type 0) → Option ℤ → Type 0
WhenSome P none = Unit
WhenSome P (some v) = P v

three_ways :
    (auto on off : Bool)
    → WhenSome IsTri (
        if auto
        then some (negsuc 0)
        else if on
        then some (pos 1)
        else if off
        then some (pos 0)
        else none)
three_ways true on off = refl
three_ways false true off = omega arith
three_ways false false true = omega arith
three_ways false false false = tt

parse_tri-IsTri : (s : Bytes) → WhenSome IsTri (parse_tri s)
unfolding parse_tri
parse_tri-IsTri s =
    three_ways (streq_from s (codes "auto"))
      (is_either s (codes "on") (codes "yes") (codes "true")
        || streq_from s (codes "1")
        || streq_from s (codes "always"))
      (is_either s (codes "off") (codes "no") (codes "false")
        || streq_from s (codes "0")
        || streq_from s (codes "never"))

not_auto-IsFlag : (o : Option ℤ) → WhenSome IsTri o → WhenSome IsFlag (not_auto o)
not_auto-IsFlag none h = tt
not_auto-IsFlag (some (pos n)) h = h
not_auto-IsFlag (some (negsuc n)) h = tt

parse_concurrency-IsCount : (s : Bytes) → WhenSome IsCount (parse_concurrency s)
unfolding parse_concurrency
parse_concurrency-IsCount s = count_of (strtol_all s)
  where
    count_of :
        (o : Option ℤ)
        → WhenSome IsCount (elim o [
          | some (pos n) ↦ (if ltb n 1 || ltb 16 n then none else some (pos n))
          | _ ↦ none
        ])
    count_of none = tt
    count_of (some (negsuc n)) = tt
    count_of (some (pos n)) =
        if_holds (WhenSome IsCount) (ltb n 1 || ltb 16 n) none (some (pos n)) (λ e. tt)
          (λ e. (ground (arith, e), ground (arith, e)))

set_int-IsValid :
    (o : Option ℤ) (key : Key) (source : Source) (cfg : Config)
    → WhenSome (Fits key) o
    → IsValid cfg
    → Gives IsValid (set_int o key source cfg)
set_int-IsValid none key source cfg h v = tt
set_int-IsValid (some n) key source cfg h v = put_int-IsValid key n cfg h v

set_size-IsValid :
    (o : Option ℕ) (source : Source) (cfg : Config)
    → IsValid cfg
    → Gives IsValid (set_size o source cfg)
set_size-IsValid none source cfg v = tt
set_size-IsValid (some n) source cfg v = v

set_str-IsValid :
    (m : Alloc) (key : Key) (text : Bytes) (source : Source) (cfg : Config)
    → IsValid cfg
    → Gives IsValid (set_str m key text source cfg)
unfolding set_str
set_str-IsValid m key [] source cfg v = tt
set_str-IsValid m key (c ∷ cs) source cfg v =
    let host = normalize_host (c ∷ cs) in
    if_holds (Gives IsValid) m.copy_ok _ _
      (λ e. put_host-IsValid key host cfg (normalize_host-IsHost (c ∷ cs)) v) (λ e. tt)

module _ (f : Doubles) (m : Alloc) where
  pub set_from_text-IsValid :
      (key : Key) (text : Bytes) (source : Source) (cfg : Config)
      → IsValid cfg
      → Gives IsValid (set_from_text f m key text source cfg)
  unfolding set_from_text parse_bool
  set_from_text-IsValid Key.concurrency text source cfg v =
      set_int-IsValid (parse_concurrency text) Key.concurrency source cfg
        (parse_concurrency-IsCount text) v
  set_from_text-IsValid Key.bundle text source cfg v =
      set_int-IsValid (parse_bool text) Key.bundle source cfg
        (not_auto-IsFlag (parse_tri text) (parse_tri-IsTri text)) v
  set_from_text-IsValid Key.single_shot text source cfg v =
      set_int-IsValid (parse_bool text) Key.single_shot source cfg
        (not_auto-IsFlag (parse_tri text) (parse_tri-IsTri text)) v
  set_from_text-IsValid Key.resume text source cfg v =
      set_int-IsValid (parse_bool text) Key.resume source cfg
        (not_auto-IsFlag (parse_tri text) (parse_tri-IsTri text)) v
  set_from_text-IsValid Key.color text source cfg v =
      set_int-IsValid (parse_tri text) Key.color source cfg (parse_tri-IsTri text) v
  set_from_text-IsValid Key.progress text source cfg v =
      set_int-IsValid (parse_tri text) Key.progress source cfg (parse_tri-IsTri text) v
  set_from_text-IsValid Key.single_shot_max text source cfg v =
      set_size-IsValid (parse_size f (some text)) source cfg v
  set_from_text-IsValid Key.api_host text source cfg v =
      set_str-IsValid m Key.api_host text source cfg v
  set_from_text-IsValid Key.download_host text source cfg v =
      set_str-IsValid m Key.download_host text source cfg v
  set_from_text-IsValid Key.site_host text source cfg v =
      set_str-IsValid m Key.site_host text source cfg v

  set_env-IsValid :
      (env : Bytes → Option Bytes) (key : Key) (cfg : Config)
      → IsValid cfg
      → Gives IsValid (set_env f m env key cfg)
  set_env-IsValid env key cfg v = from_value (env (key_env key))
    where
      from_value :
          (o : Option Bytes)
          → Gives IsValid (elim o [
            | none ↦ done cfg
            | some value ↦ set_from_text f m key value Source.from_env cfg
          ])
      from_value none = v
      from_value (some value) = set_from_text-IsValid key value Source.from_env cfg v

  env_keys-IsValid :
      (env : Bytes → Option Bytes) (keys : List Key) (cfg : Config)
      → IsValid cfg
      → Gives IsValid (env_keys f m env keys cfg)
  unfolding env_keys
  env_keys-IsValid env [] cfg v = v
  env_keys-IsValid env (key ∷ keys) cfg v =
      Gives-bind IsValid IsValid (set_env f m env key cfg) (env_keys f m env keys)
        (set_env-IsValid env key cfg v) (λ after w. env_keys-IsValid env keys after w)

  set_legacy-IsValid :
      (legacy : Option Bytes) (cfg : Config)
      → IsValid cfg
      → Gives IsValid (set_legacy f m legacy cfg)
  set_legacy-IsValid none cfg v = v
  set_legacy-IsValid (some legacy) cfg v =
      if_holds (Gives IsValid) (is_env (cfg.src Key.api_host)) (done cfg)
        (set_from_text f m Key.api_host legacy Source.from_env cfg) (λ e. v)
        (λ e. set_from_text-IsValid Key.api_host legacy Source.from_env cfg v)

  pub load_env-IsValid :
      (env : Bytes → Option Bytes) (cfg : Config)
      → IsValid cfg
      → Gives IsValid (load_env f m env cfg)
  unfolding load_env
  load_env-IsValid env cfg v =
      Gives-bind IsValid IsValid (env_keys f m env all_keys cfg)
        (set_legacy f m (env (codes "ZHUZHBOX_API"))) (env_keys-IsValid env all_keys cfg v)
        (λ after w. set_legacy-IsValid (env (codes "ZHUZHBOX_API")) after w)

pub defaults-IsValid : IsValid defaults
unfolding defaults
defaults-IsValid = (
  ((λ h. refl), ((λ h. refl), ((λ h. refl), tt))),
  (omega arith, omega arith),
  (omega arith, (omega arith, (omega arith, tt))),
  (refl, (refl, tt)),
)

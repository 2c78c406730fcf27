-- ===== src/Store/Config.antt =====
-- src/store/config.c: the settings, where each came from, and the file and the environment that they are
-- read from. A key is one of the ten, so no index is out of range; a text in the record is never NULL. The
-- doubles of `zb_parse_size` and cJSON are parameters; copies succeed if `m.copy_ok`.
pub mod File
pub mod Laws
pub mod Precedence
pub mod Sources
pub mod Reading
use zhuzhbox_cli.Base.{
  ℕ, zero, suc, ◌+◌, ◌-◌, ◌*◌, ◌^◌, Bool, true, false, not, ◌&&◌, ◌||◌, Option, none, some, List,
  [], ◌∷◌, ltb, leb, ◌==◌, if◌then◌else◌, Bytes, codes, length, take,
}
use zhuzhbox_cli.Base.Int.{ℤ, pos, negsuc}
use zhuzhbox_cli.Error.{Status, Outcome, done, fail, ◌>>=◌}
use zhuzhbox_cli.Format.Time.{is_digit}
use zhuzhbox_cli.Format.Relative.{decimal}
use zhuzhbox_cli.Format.Size.{Doubles, is_either, parse_size}
use zhuzhbox_cli.Json.{
  CJson, json_get, json_as_u64, json_obj_set_str, json_obj_set_i64, json_obj_set_u64,
}
use zhuzhbox_cli.Store.Alloc.{Alloc}
use zhuzhbox_cli.Text.Filename.{trimmed_len}
use zhuzhbox_cli.Text.Utf8.{streq_from}

pub data Key : Type 0 where
  api_host download_host site_host concurrency bundle color progress single_shot single_shot_max
        resume :
      Key

pub data Source : Type 0 where
  by_default from_file from_env by_flag : Source

pub record Config : Type 0 where
  pub api_host : Bytes
  pub download_host : Bytes
  pub site_host : Bytes
  pub concurrency : ℤ
  pub bundle_default : ℤ
  pub color : ℤ
  pub progress : ℤ
  pub single_shot : ℤ
  pub single_shot_max : ℕ
  pub resume_default : ℤ
  pub src : Key → Source

abbrev pub all_keys : List Key
all_keys =
    Key.api_host ∷ Key.download_host ∷ Key.site_host ∷ Key.concurrency ∷ Key.bundle ∷ Key.color
    ∷ Key.progress ∷ Key.single_shot ∷ Key.single_shot_max ∷ Key.resume ∷ []

abbrev pub key_name : Key → Bytes
key_name Key.api_host = codes "apiHost"
key_name Key.download_host = codes "downloadHost"
key_name Key.site_host = codes "siteHost"
key_name Key.concurrency = codes "concurrency"
key_name Key.bundle = codes "bundle"
key_name Key.color = codes "color"
key_name Key.progress = codes "progress"
key_name Key.single_shot = codes "singleShot"
key_name Key.single_shot_max = codes "singleShotMax"
key_name Key.resume = codes "resume"

abbrev pub key_env : Key → Bytes
key_env Key.api_host = codes "ZHUZHBOX_API_HOST"
key_env Key.download_host = codes "ZHUZHBOX_DOWNLOAD_HOST"
key_env Key.site_host = codes "ZHUZHBOX_SITE_HOST"
key_env Key.concurrency = codes "ZHUZHBOX_CONCURRENCY"
key_env Key.bundle = codes "ZHUZHBOX_BUNDLE"
key_env Key.color = codes "ZHUZHBOX_COLOR"
key_env Key.progress = codes "ZHUZHBOX_PROGRESS"
key_env Key.single_shot = codes "ZHUZHBOX_SINGLE_SHOT"
key_env Key.single_shot_max = codes "ZHUZHBOX_SINGLE_SHOT_MAX"
key_env Key.resume = codes "ZHUZHBOX_RESUME"

unfoldable pub name_in : List Key → Bytes → Option Key
name_in [] name = none
name_in (key ∷ keys) name =
    let rest = name_in keys name in if streq_from name (key_name key) then some key else rest

-- `zb_config_key_index`
unfoldable pub config_key_index : Option Bytes → Option Key
unfolding name_in
config_key_index none = none
config_key_index (some name) = name_in all_keys name

abbrev pub source_name : Source → Bytes
source_name Source.by_default = codes "default"
source_name Source.from_file = codes "config file"
source_name Source.from_env = codes "environment"
source_name Source.by_flag = codes "flag"

-- The place of a key in the table.
abbrev pub key_index : Key → ℕ
key_index Key.api_host = 0
key_index Key.download_host = 1
key_index Key.site_host = 2
key_index Key.concurrency = 3
key_index Key.bundle = 4
key_index Key.color = 5
key_index Key.progress = 6
key_index Key.single_shot = 7
key_index Key.single_shot_max = 8
key_index Key.resume = 9

abbrev pub same_key : Key → Key → Bool
same_key a b = key_index a == key_index b

-- `cfg->src[index] = src`
abbrev pub sourced : Key → Source → Config → Config
sourced key source cfg = record cfg { src = λ k. if same_key key k then source else cfg.src k }

unfoldable pub defaults : Config
defaults = record {
  api_host = codes "https://api.zhuzhbox.fun";
  download_host = codes "https://dl.zhuzhbox.fun";
  site_host = codes "https://zhuzhbox.fun";
  concurrency = pos 3;
  bundle_default = pos 0;
  color = negsuc 0;
  progress = negsuc 0;
  single_shot = pos 1;
  single_shot_max = 20 * 1024 * 1024;
  resume_default = pos 0;
  src = λ k. Source.by_default;
}

-- `zb_config_defaults`
unfoldable pub config_defaults : Alloc → Outcome Config
unfolding defaults
config_defaults m = if m.copy_ok then done defaults else fail Status.nomem

abbrev pub is_slash : ℕ → Bool
is_slash c = c == 47

unfoldable pub normalize_host : Bytes → Bytes
unfolding trimmed_len
normalize_host value = take (trimmed_len is_slash value (length value)) value

abbrev pub put_host : Key → Bytes → Config → Config
put_host Key.api_host host cfg = record cfg { api_host = host }
put_host Key.download_host host cfg = record cfg { download_host = host }
put_host Key.site_host host cfg = record cfg { site_host = host }
put_host _ host cfg = cfg

abbrev pub put_int : Key → ℤ → Config → Config
put_int Key.concurrency v cfg = record cfg { concurrency = v }
put_int Key.bundle v cfg = record cfg { bundle_default = v }
put_int Key.color v cfg = record cfg { color = v }
put_int Key.progress v cfg = record cfg { progress = v }
put_int Key.single_shot v cfg = record cfg { single_shot = v }
put_int Key.resume v cfg = record cfg { resume_default = v }
put_int _ v cfg = cfg

unfoldable pub set_str : Alloc → Key → Bytes → Source → Config → Outcome Config
unfolding normalize_host
set_str m key [] source cfg = fail Status.usage
set_str m key (c ∷ cs) source cfg =
    if m.copy_ok
    then done (sourced key source (put_host key (normalize_host (c ∷ cs)) cfg))
    else fail Status.nomem

unfoldable pub parse_tri : Bytes → Option ℤ
parse_tri s =
    if streq_from s (codes "auto")
    then some (negsuc 0)
    else if is_either s (codes "on") (codes "yes") (codes "true")
        || streq_from s (codes "1")
        || streq_from s (codes "always")
    then some (pos 1)
    else if is_either s (codes "off") (codes "no") (codes "false")
        || streq_from s (codes "0")
        || streq_from s (codes "never")
    then some (pos 0)
    else none

abbrev not_auto : Option ℤ → Option ℤ
not_auto none = none
not_auto (some (negsuc n)) = none
not_auto (some (pos n)) = some (pos n)

unfoldable pub parse_bool : Bytes → Option ℤ
unfolding parse_tri
parse_bool s = not_auto (parse_tri s)

-- `strtol` in base ten, where it takes the whole text: blanks, a sign and digits; a value that `long`
-- cannot hold is its largest.
abbrev is_white : ℕ → Bool
is_white c = c == 32 || leb 9 c && leb c 13

unfoldable pub skip_white : Bytes → Bytes
skip_white [] = []
skip_white (c ∷ cs) = let rest = skip_white cs in if is_white c then rest else c ∷ cs

unfoldable pub all_digits : Bytes → ℕ → Option ℕ
all_digits [] v = some v
all_digits (c ∷ cs) v =
    let rest = all_digits cs (v * 10 + (c - 48)) in if is_digit c then rest else none

abbrev some_digits : Bytes → Option ℕ
some_digits [] = none
some_digits (c ∷ cs) = all_digits (c ∷ cs) 0

abbrev positive : Option ℕ → Option ℤ
positive none = none
positive (some n) = some (pos (if ltb n (2 ^ 63) then n else 2 ^ 63 - 1))

abbrev negative : Option ℕ → Option ℤ
negative none = none
negative (some zero) = some (pos 0)
negative (some (suc n)) = some (negsuc (if ltb n (2 ^ 63) then n else 2 ^ 63 - 1))

abbrev signed : Bytes → Option ℤ
signed [] = none
signed (c ∷ cs) =
    if c == 45
    then negative (some_digits cs)
    else if c == 43
    then positive (some_digits cs)
    else positive (some_digits (c ∷ cs))

unfoldable pub strtol_all : Bytes → Option ℤ
unfolding skip_white all_digits
strtol_all s = signed (skip_white s)

-- `concurrency must be between 1 and 16`
unfoldable pub parse_concurrency : Bytes → Option ℤ
unfolding strtol_all
parse_concurrency s = elim (strtol_all s) [
  | some (pos n) ↦ (if ltb n 1 || ltb 16 n then none else some (pos n))
  | _ ↦ none
]

abbrev pub set_int : Option ℤ → Key → Source → Config → Outcome Config
set_int none key source cfg = fail Status.usage
set_int (some v) key source cfg = done (sourced key source (put_int key v cfg))

abbrev pub set_size : Option ℕ → Source → Config → Outcome Config
set_size none source cfg = fail Status.usage
set_size (some n) source cfg =
    done (sourced Key.single_shot_max source (record cfg { single_shot_max = n }))

abbrev pub is_env : Source → Bool
is_env Source.from_env = true
is_env _ = false

module _ (f : Doubles) (m : Alloc) where
  unfoldable pub set_from_text : Key → Bytes → Source → Config → Outcome Config
  unfolding set_str parse_bool parse_tri parse_concurrency
  set_from_text Key.concurrency text source cfg =
      set_int (parse_concurrency text) Key.concurrency source cfg
  set_from_text Key.bundle text source cfg = set_int (parse_bool text) Key.bundle source cfg
  set_from_text Key.single_shot text source cfg =
      set_int (parse_bool text) Key.single_shot source cfg
  set_from_text Key.resume text source cfg = set_int (parse_bool text) Key.resume source cfg
  set_from_text Key.color text source cfg = set_int (parse_tri text) Key.color source cfg
  set_from_text Key.progress text source cfg = set_int (parse_tri text) Key.progress source cfg
  set_from_text Key.single_shot_max text source cfg = set_size (parse_size f (some text)) source cfg
  set_from_text key text source cfg = set_str m key text source cfg

  unfoldable pub key_set : Key → Bytes → Config → Outcome Config
  key_set key text cfg = set_from_text key text Source.by_flag cfg

  -- One round of the loop of `load_env`; `env` is the environment.
  abbrev pub set_env : (Bytes → Option Bytes) → Key → Config → Outcome Config
  set_env env key cfg = elim (env (key_env key)) [
    | none ↦ done cfg
    | some value ↦ set_from_text key value Source.from_env cfg
  ]

  unfoldable pub env_keys : (Bytes → Option Bytes) → List Key → Config → Outcome Config
  env_keys env [] cfg = done cfg
  env_keys env (key ∷ keys) cfg = set_env env key cfg >>= λ after. env_keys env keys after

  abbrev pub set_legacy : Option Bytes → Config → Outcome Config
  set_legacy none cfg = done cfg
  set_legacy (some legacy) cfg =
      if is_env (cfg.src Key.api_host)
      then done cfg
      else set_from_text Key.api_host legacy Source.from_env cfg

  unfoldable pub load_env : (Bytes → Option Bytes) → Config → Outcome Config
  unfolding env_keys
  load_env env cfg = env_keys env all_keys cfg >>= set_legacy (env (codes "ZHUZHBOX_API"))

-- ===== src/Tests/Configs.antt =====
-- The theorems on the settings and on sizes, with integers for the doubles of C.
use zhuzhbox_cli.Base.{
  ℕ, ◌+◌, ◌*◌, ◌/◌, ◌^◌, ◌≡◌, true, false, Option, none, some, [], ◌∷◌, ltb, if◌then◌else◌, Bytes,
  arith, codes, refl, str_eq,
}
use zhuzhbox_cli.Base.Int.{pos}
use zhuzhbox_cli.Error.{Outcome, done, fail}
use zhuzhbox_cli.Format.Size.{Doubles, DoublesLaws, parse_size}
use zhuzhbox_cli.Format.Size.Laws.{SizeUnit, parse_size-exact}
use zhuzhbox_cli.Format.Relative.{decimal}
use zhuzhbox_cli.Format.Time.{digit_count, padded}
use zhuzhbox_cli.Text.Utf8.{streq_from, ascii_lower}
use zhuzhbox_cli.Text.Filename.{trimmed_len}
use zhuzhbox_cli.Json.{json_get, json_as_u64}
use zhuzhbox_cli.Json.Concrete.{tree_json, Tree, Fields}
use zhuzhbox_cli.Store.Alloc.{Alloc}
use zhuzhbox_cli.Store.Config.{
  Key, Source, Config, defaults, load_env, env_keys, set_from_text, set_str, normalize_host,
  parse_tri, parse_bool, parse_concurrency, strtol_all, skip_white, all_digits,
}
use zhuzhbox_cli.Store.Config.File.{
  CJsonKinds, config_load, load_config, load_root, set_keys, set_key, node_of, value_text,
}
use zhuzhbox_cli.Store.Config.Laws.{IsValid, Gives, defaults-IsValid}
use zhuzhbox_cli.Store.Config.Sources.{AreFrom}
use zhuzhbox_cli.Store.Config.Precedence.{over, env_has}
use zhuzhbox_cli.Store.Config.Reading.{file_has, config_load-IsValid, config_load-AreFrom}

abbrev integers : Doubles
integers = record {
  Double = ℕ;
  of_u64 = λ n. n;
  tenth = 0;
  plus = λ a b. a + b;
  mul = λ a b. a * b;
  div = λ a b. a / b;
  less = ltb;
  isfinite = λ a. true;
  to_u64 = λ n. n;
}

integers_laws : DoublesLaws integers
integers_laws = record {
  plus-of_u64 = λ a b h. refl;
  mul-of_u64 = λ a b h. refl;
  less-of_u64 = λ a b h k. refl;
  isfinite-of_u64 = λ a h. refl;
  to_u64-of_u64 = λ a h. refl;
}

parse_size-exact_example : parse_size integers (some (codes "20MiB")) ≡ some (20 * 2 ^ 20)
parse_size-exact_example =
    parse_size-exact integers integers_laws 50 (48 ∷ []) SizeUnit.mib (refl, (refl, tt))
      (omega arith)

abbrev memory : Alloc
memory = record { copy_ok = true; grow_ok = true }

abbrev kinds : CJsonKinds tree_json
kinds = record { is_null = λ t. false; bool_value = λ t. none; create_bool = λ b. Tree.null }

abbrev settings : Outcome (Option Tree)
settings = done (
    some (
      Tree.obj (
        Fields.field (codes "concurrency") (Tree.num (pos 5))
          (Fields.field (codes "color") (Tree.str (codes "off")) Fields.end))))

abbrev variables : Bytes → Option Bytes
variables name =
    if str_eq name (codes "ZHUZHBOX_COLOR")
    then some (codes "Always")
    else if str_eq name (codes "ZHUZHBOX_API")
    then some (codes "http://localhost/")
    else none

config_load-IsValid_example :
    Gives IsValid (config_load tree_json kinds integers memory settings variables defaults)
config_load-IsValid_example =
    config_load-IsValid tree_json kinds integers memory settings variables defaults defaults-IsValid

config_load-AreFrom_example :
    Gives
      (AreFrom (
        over Source.from_env
          (env_has variables)
          (over Source.from_file (file_has tree_json kinds integers memory settings) defaults.src)))
      (config_load tree_json kinds integers memory settings variables defaults)
config_load-AreFrom_example =
    config_load-AreFrom tree_json kinds integers memory settings variables defaults

-- The file's concurrency, the environment's colour and host.
abbrev ReadWell : Outcome Config → Type 0
ReadWell (done cfg) =
    (cfg.concurrency ≡ pos 5)
    × (cfg.color ≡ pos 1)
    × (cfg.api_host ≡ codes "http://localhost")
    × (cfg.src Key.color ≡ Source.from_env)
    × (cfg.src Key.concurrency ≡ Source.from_file)
ReadWell (fail e) = ⊥

loaded : ReadWell (config_load tree_json kinds integers memory settings variables defaults)
unfolding config_load load_config load_root set_keys set_key node_of value_text load_env env_keys
    set_from_text set_str normalize_host trimmed_len parse_tri parse_bool parse_concurrency
    strtol_all skip_white all_digits streq_from ascii_lower json_get decimal json_as_u64 str_eq
    digit_count padded defaults
loaded = (refl, refl, refl, refl, refl)

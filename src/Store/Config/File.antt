-- ===== src/Store/Config/File.antt =====
-- The file of the settings: `load_file`, `zb_config_load` and `zb_config_save` of src/store/config.c.
use zhuzhbox_cli.Base.{
  ℕ, Bool, true, false, not, Option, none, some, List, [], ◌∷◌, if◌then◌else◌, Bytes, codes,
}
use zhuzhbox_cli.Base.Int.{ℤ, pos, negsuc, eqb_ℤ}
use zhuzhbox_cli.Error.{Status, Outcome, done, fail, ◌>>=◌}
use zhuzhbox_cli.Format.Relative.{decimal}
use zhuzhbox_cli.Format.Size.{Doubles}
use zhuzhbox_cli.Json.{
  CJson, json_get, json_as_u64, json_obj_set_str, json_obj_set_i64, json_obj_set_u64,
}
use zhuzhbox_cli.Store.Alloc.{Alloc}
use zhuzhbox_cli.Store.Atomic.{Files, Disk, atomic_write}
use zhuzhbox_cli.Store.Config.{Key, Source, Config, all_keys, key_name, set_from_text, load_env}

-- What else of cJSON the settings use: null, and the value of a boolean.
pub record CJsonKinds (c : CJson) : Type 0 where
  pub is_null : c.Node → Bool
  pub bool_value : c.Node → Option Bool
  pub create_bool : Bool → c.Node

module _ (c : CJson) (kinds : CJsonKinds c) where
  abbrev number_text : Option ℕ → Outcome Bytes
  number_text none = fail Status.io
  number_text (some n) = done (decimal n)

  abbrev bool_text : Option Bool → c.Node → Outcome Bytes
  bool_text (some true) node = done (codes "on")
  bool_text (some false) node = done (codes "off")
  bool_text none node = elim (c.number_value node) [
    | none ↦ fail Status.io
    | some d ↦ number_text (json_as_u64 c (some node))
  ]

  -- The text that a value stands for.
  unfoldable pub value_text : c.Node → Outcome Bytes
  unfolding decimal
  value_text node = elim (c.string_value node) [
    | some text ↦ done text
    | none ↦ bool_text (kinds.bool_value node) node
  ]

  -- A node that is null counts as none.
  abbrev pub present : Option c.Node → Option c.Node
  present none = none
  present (some node) = if kinds.is_null node then none else some node

  -- The value of a key: at the top, or in the old "defaults".
  unfoldable pub node_of : c.Node → Key → Option c.Node
  node_of root key = elim (json_get c (some root) (key_name key)) [
    | some node ↦ present (some node)
    | none ↦ present (json_get c (json_get c (some root) (codes "defaults")) (key_name key))
  ]

  unfoldable pub set_key : Doubles → Alloc → c.Node → Key → Config → Outcome Config
  unfolding value_text node_of
  set_key f m root key cfg = elim (node_of root key) [
    | none ↦ done cfg
    | some node ↦ value_text node >>= λ text. set_from_text f m key text Source.from_file cfg
  ]

  unfoldable pub set_keys : Doubles → Alloc → c.Node → List Key → Config → Outcome Config
  unfolding set_key
  set_keys f m root [] cfg = done cfg
  set_keys f m root (key ∷ keys) cfg =
      set_key f m root key cfg >>= λ after. set_keys f m root keys after

  unfoldable pub load_root : Doubles → Alloc → Option c.Node → Config → Outcome Config
  unfolding set_keys
  load_root f m none cfg = fail Status.io
  load_root f m (some root) cfg =
      if not (c.is_object root) then fail Status.io else set_keys f m root all_keys cfg

  -- `load_file`, from what `zb_read_file` gave.
  unfoldable pub load_config : Doubles → Alloc → Outcome (Option c.Text) → Config → Outcome Config
  unfolding load_root
  load_config f m (fail e) cfg = fail e
  load_config f m (done none) cfg = done cfg
  load_config f m (done (some text)) cfg =
      if c.is_empty text then done cfg else load_root f m (c.parse text) cfg

  -- `zb_config_load` with a base directory: the file, and then the environment.
  unfoldable pub config_load :
      Doubles → Alloc → Outcome (Option c.Text) → (Bytes → Option Bytes) → Config → Outcome Config
  config_load f m file env cfg = load_config f m file cfg >>= load_env f m env

  -- Only what the file had or what was just set is written.
  abbrev pub is_owned : Source → Bool
  is_owned Source.from_file = true
  is_owned Source.by_flag = true
  is_owned _ = false

  abbrev pub tri_text : ℤ → Bytes
  tri_text (negsuc n) = codes "auto"
  tri_text (pos n) = if eqb_ℤ (pos n) (pos 0) then codes "off" else codes "on"

  abbrev pub bool_node : ℤ → c.Node
  bool_node v = kinds.create_bool (not (eqb_ℤ v (pos 0)))

  unfoldable pub save_value : Config → Key → c.Node → c.Node
  save_value cfg Key.api_host root = json_obj_set_str c root (codes "apiHost") (some cfg.api_host)
  save_value cfg Key.download_host root =
      json_obj_set_str c root (codes "downloadHost") (some cfg.download_host)
  save_value cfg Key.site_host root =
      json_obj_set_str c root (codes "siteHost") (some cfg.site_host)
  save_value cfg Key.concurrency root =
      json_obj_set_i64 c root (codes "concurrency") cfg.concurrency
  save_value cfg Key.bundle root =
      c.add_item_to_object root (codes "bundle") (bool_node cfg.bundle_default)
  save_value cfg Key.color root =
      json_obj_set_str c root (codes "color") (some (tri_text cfg.color))
  save_value cfg Key.progress root =
      json_obj_set_str c root (codes "progress") (some (tri_text cfg.progress))
  save_value cfg Key.single_shot root =
      c.add_item_to_object root (codes "singleShot") (bool_node cfg.single_shot)
  save_value cfg Key.single_shot_max root =
      json_obj_set_u64 c root (codes "singleShotMax") cfg.single_shot_max
  save_value cfg Key.resume root =
      c.add_item_to_object root (codes "resume") (bool_node cfg.resume_default)

  unfoldable pub save_keys : Config → List Key → c.Node → c.Node
  unfolding save_value
  save_keys cfg [] root = root
  save_keys cfg (key ∷ keys) root =
      save_keys cfg keys (if is_owned (cfg.src key) then save_value cfg key root else root)

  -- The object whose text `zb_config_save` writes.
  unfoldable pub config_json : Config → c.Node
  unfolding save_keys
  config_json cfg = save_keys cfg all_keys c.create_object

  -- `path` is the file of the settings, `blank` a text that is cut short.
  unfoldable pub config_save : Disk → Bytes → c.Text → Files c.Text → Config → Files c.Text × Status
  unfolding config_json
  config_save d path blank fs cfg = atomic_write d fs path blank (c.print (config_json cfg))

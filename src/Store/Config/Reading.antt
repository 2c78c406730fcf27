-- ===== src/Store/Config/Reading.antt =====
-- `zb_config_load`: every setting stays in its range, and is from the environment before the file, and from
-- the file before what was there.
use zhuzhbox_cli.Base.{
  Bool, true, false, not, Option, none, some, List, [], ◌∷◌, if◌then◌else◌, Bytes, refl, ◌∙◌,
  if_holds,
}
use zhuzhbox_cli.Error.{Status, Outcome, done, fail, ◌>>=◌}
use zhuzhbox_cli.Format.Size.{Doubles}
use zhuzhbox_cli.Json.{CJson}
use zhuzhbox_cli.Store.Alloc.{Alloc}
use zhuzhbox_cli.Store.Config.{Key, Source, Config, all_keys, same_key, set_from_text, load_env}
use zhuzhbox_cli.Store.Config.File.{
  CJsonKinds, value_text, node_of, set_key, set_keys, load_root, load_config, config_load,
}
use zhuzhbox_cli.Store.Config.Laws.{
  IsValid, Gives, Gives-bind, set_from_text-IsValid, load_env-IsValid,
}
use zhuzhbox_cli.Store.Config.Sources.{AreFrom, is_there, set_from_text-AreFrom}
use zhuzhbox_cli.Store.Config.Precedence.{
  named, over, one_key, if_same, Gives-AreFrom, round-AreFrom, whole_table, env_has,
  load_env-AreFrom,
}

pub Gives-text :
    (P : Config → Type 0) (o : Outcome Bytes) (next : Bytes → Outcome Config)
    → ((text : Bytes) → Gives P (next text))
    → Gives P (o >>= next)
Gives-text P (fail e) next h = tt
Gives-text P (done text) next h = h text

module _ (c : CJson) (kinds : CJsonKinds c) (f : Doubles) (m : Alloc) where
  set_key-IsValid :
      (root : c.Node) (key : Key) (cfg : Config)
      → IsValid cfg
      → Gives IsValid (set_key c kinds f m root key cfg)
  unfolding set_key
  set_key-IsValid root key cfg v = from_node (node_of c kinds root key)
    where
      from_node :
          (o : Option c.Node)
          → Gives IsValid (elim o [
            | none ↦ done cfg
            | some node ↦
                value_text c kinds node >>= λ text. set_from_text f m key text Source.from_file cfg
          ])
      from_node none = v
      from_node (some node) =
          Gives-text IsValid (value_text c kinds node)
            (λ text. set_from_text f m key text Source.from_file cfg)
            (λ text. set_from_text-IsValid f m key text Source.from_file cfg v)

  set_keys-IsValid :
      (root : c.Node) (keys : List Key) (cfg : Config)
      → IsValid cfg
      → Gives IsValid (set_keys c kinds f m root keys cfg)
  unfolding set_keys
  set_keys-IsValid root [] cfg v = v
  set_keys-IsValid root (key ∷ keys) cfg v =
      Gives-bind IsValid IsValid (set_key c kinds f m root key cfg) (set_keys c kinds f m root keys)
        (set_key-IsValid root key cfg v) (λ after w. set_keys-IsValid root keys after w)

  load_root-IsValid :
      (tree : Option c.Node) (cfg : Config)
      → IsValid cfg
      → Gives IsValid (load_root c kinds f m tree cfg)
  unfolding load_root
  load_root-IsValid none cfg v = tt
  load_root-IsValid (some root) cfg v =
      if_holds (Gives IsValid) (not (c.is_object root)) (fail Status.io)
        (set_keys c kinds f m root all_keys cfg) (λ e. tt)
        (λ e. set_keys-IsValid root all_keys cfg v)

  load_config-IsValid :
      (file : Outcome (Option c.Text)) (cfg : Config)
      → IsValid cfg
      → Gives IsValid (load_config c kinds f m file cfg)
  unfolding load_config
  load_config-IsValid (fail e) cfg v = tt
  load_config-IsValid (done none) cfg v = v
  load_config-IsValid (done (some text)) cfg v =
      if_holds (Gives IsValid) (c.is_empty text) (done cfg)
        (load_root c kinds f m (c.parse text) cfg) (λ e. v)
        (λ e. load_root-IsValid (c.parse text) cfg v)

  -- Whatever the file and the environment hold, the settings that zb_config_load accepts are in their
  -- ranges, if they were before: 1 to 16 uploads at once, switches that are 0 or 1, colour and progress that
  -- are -1, 0 or 1, and hosts without a slash at the end.
  pub config_load-IsValid :
      (file : Outcome (Option c.Text)) (env : Bytes → Option Bytes) (cfg : Config)
      → IsValid cfg
      → Gives IsValid (config_load c kinds f m file env cfg)
  unfolding config_load
  config_load-IsValid file env cfg v =
      Gives-bind IsValid IsValid (load_config c kinds f m file cfg) (load_env f m env)
        (load_config-IsValid file cfg v) (λ after w. load_env-IsValid f m env after w)

  abbrev root_has : Option c.Node → Key → Bool
  root_has none k = false
  root_has (some root) k = is_there (node_of c kinds root k)

  -- The file has a value for the key that is not null.
  abbrev pub file_has : Outcome (Option c.Text) → Key → Bool
  file_has (fail e) k = false
  file_has (done none) k = false
  file_has (done (some text)) k = if c.is_empty text then false else root_has (c.parse text) k

  set_key-AreFrom :
      (root : c.Node) (key : Key) (cfg : Config) (expect : Key → Source)
      → AreFrom expect cfg
      → Gives
          (AreFrom (one_key Source.from_file (is_there (node_of c kinds root key)) key expect))
          (set_key c kinds f m root key cfg)
  unfolding set_key
  set_key-AreFrom root key cfg expect h = from_node (node_of c kinds root key)
    where
      from_node :
          (o : Option c.Node)
          → Gives (AreFrom (one_key Source.from_file (is_there o) key expect)) (elim o [
            | none ↦ done cfg
            | some node ↦
                value_text c kinds node >>= λ text. set_from_text f m key text Source.from_file cfg
          ])
      from_node none = λ k. h k ∙ if_same (same_key key k) (expect k)
      from_node (some node) =
          Gives-text (AreFrom (one_key Source.from_file true key expect)) (value_text c kinds node)
            (λ text. set_from_text f m key text Source.from_file cfg)
            (λ text. set_from_text-AreFrom f m key text Source.from_file cfg expect h)

  set_keys-AreFrom :
      (root : c.Node) (keys : List Key) (cfg : Config) (expect : Key → Source)
      → AreFrom expect cfg
      → Gives
          (AreFrom (
            over Source.from_file (named (λ key. is_there (node_of c kinds root key)) keys) expect))
          (set_keys c kinds f m root keys cfg)
  unfolding set_keys
  set_keys-AreFrom root [] cfg expect h = h
  set_keys-AreFrom root (key ∷ keys) cfg expect h =
      round-AreFrom Source.from_file (λ k. is_there (node_of c kinds root k)) key keys expect
        (set_key c kinds f m root key cfg) (set_keys c kinds f m root keys)
        (set_key-AreFrom root key cfg expect h)
        (λ after then_ w. set_keys-AreFrom root keys after then_ w)

  load_root-AreFrom :
      (tree : Option c.Node) (cfg : Config) (expect : Key → Source)
      → AreFrom expect cfg
      → Gives
          (AreFrom (over Source.from_file (root_has tree) expect))
          (load_root c kinds f m tree cfg)
  unfolding load_root
  load_root-AreFrom none cfg expect h = tt
  load_root-AreFrom (some root) cfg expect h =
      let has : Key → Bool = λ k. is_there (node_of c kinds root k) in
      let result = over Source.from_file has expect in
      if_holds (Gives (AreFrom result)) (not (c.is_object root)) (fail Status.io)
        (set_keys c kinds f m root all_keys cfg) (λ e. tt)
        (λ e.
          Gives-AreFrom (over Source.from_file (named has all_keys) expect) result
            (set_keys c kinds f m root all_keys cfg) (whole_table Source.from_file has expect)
            (set_keys-AreFrom root all_keys cfg expect h))

  when_text :
      (empty : Bool) (tree : Option c.Node) (cfg : Config) (expect : Key → Source)
      → AreFrom expect cfg
      → Gives
          (AreFrom (over Source.from_file (λ k. if empty then false else root_has tree k) expect))
          (if empty then done cfg else load_root c kinds f m tree cfg)
  when_text true tree cfg expect h = h
  when_text false tree cfg expect h = load_root-AreFrom tree cfg expect h

  load_config-AreFrom :
      (file : Outcome (Option c.Text)) (cfg : Config) (expect : Key → Source)
      → AreFrom expect cfg
      → Gives
          (AreFrom (over Source.from_file (file_has file) expect))
          (load_config c kinds f m file cfg)
  unfolding load_config
  load_config-AreFrom (fail e) cfg expect h = tt
  load_config-AreFrom (done none) cfg expect h = h
  load_config-AreFrom (done (some text)) cfg expect h =
      when_text (c.is_empty text) (c.parse text) cfg expect h

  -- Where zb_config_load succeeds, a key that a variable of the environment sets is from the environment,
  -- one that only the file has from the file, and any other keeps its source; for the host of the API the
  -- variable is ZHUZHBOX_API_HOST or the old ZHUZHBOX_API.
  pub config_load-AreFrom :
      (file : Outcome (Option c.Text)) (env : Bytes → Option Bytes) (cfg : Config)
      → Gives
          (AreFrom
            (over Source.from_env (env_has env) (over Source.from_file (file_has file) cfg.src)))
          (config_load c kinds f m file env cfg)
  unfolding config_load
  config_load-AreFrom file env cfg =
      let middle = over Source.from_file (file_has file) cfg.src in
      Gives-bind (AreFrom middle) (AreFrom (over Source.from_env (env_has env) middle))
        (load_config c kinds f m file cfg) (load_env f m env)
        (load_config-AreFrom file cfg cfg.src (λ k. refl))
        (λ after w. load_env-AreFrom f m env after middle w)

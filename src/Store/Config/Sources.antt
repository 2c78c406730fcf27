-- ===== src/Store/Config/Sources.antt =====
-- Setting one key records where it is from, and leaves the source of every other key.
use zhuzhbox_cli.Base.{
  ℕ, ◌≡◌, Bool, true, false, Option, none, some, [], ◌∷◌, if◌then◌else◌, Bytes, ap, if_holds,
}
use zhuzhbox_cli.Base.Int.{ℤ}
use zhuzhbox_cli.Format.Size.{Doubles, parse_size}
use zhuzhbox_cli.Store.Alloc.{Alloc}
use zhuzhbox_cli.Store.Config.{
  Key, Source, Config, same_key, sourced, put_host, put_int, set_str, parse_tri, parse_bool,
  parse_concurrency, normalize_host, set_int, set_size, set_from_text,
}
use zhuzhbox_cli.Store.Config.Laws.{Gives}

-- Where each setting is from.
abbrev pub AreFrom : (Key → Source) → Config → Type 0
AreFrom expect cfg = (k : Key) → cfg.src k ≡ expect k

abbrev pub is_there : {A : Type 0} → Option A → Bool
is_there none = false
is_there (some a) = true

abbrev pub update : Key → Source → (Key → Source) → Key → Source
update key source expect k = if same_key key k then source else expect k

update-AreFrom :
    (key : Key) (source : Source) (cfg : Config) (expect : Key → Source)
    → AreFrom expect cfg
    → AreFrom (update key source expect) (sourced key source cfg)
update-AreFrom key source cfg expect h k = ap (λ s. if same_key key k then source else s) (h k)

put_host-AreFrom :
    (key : Key) (host : Bytes) (cfg : Config) (expect : Key → Source)
    → AreFrom expect cfg
    → AreFrom expect (put_host key host cfg)
put_host-AreFrom Key.api_host host cfg expect h = h
put_host-AreFrom Key.download_host host cfg expect h = h
put_host-AreFrom Key.site_host host cfg expect h = h
put_host-AreFrom _ host cfg expect h = h

put_int-AreFrom :
    (key : Key) (v : ℤ) (cfg : Config) (expect : Key → Source)
    → AreFrom expect cfg
    → AreFrom expect (put_int key v cfg)
put_int-AreFrom Key.concurrency v cfg expect h = h
put_int-AreFrom Key.bundle v cfg expect h = h
put_int-AreFrom Key.color v cfg expect h = h
put_int-AreFrom Key.progress v cfg expect h = h
put_int-AreFrom Key.single_shot v cfg expect h = h
put_int-AreFrom Key.resume v cfg expect h = h
put_int-AreFrom _ v cfg expect h = h

set_int-AreFrom :
    (o : Option ℤ) (key : Key) (source : Source) (cfg : Config) (expect : Key → Source)
    → AreFrom expect cfg
    → Gives (AreFrom (update key source expect)) (set_int o key source cfg)
set_int-AreFrom none key source cfg expect h = tt
set_int-AreFrom (some v) key source cfg expect h =
    update-AreFrom key source (put_int key v cfg) expect (put_int-AreFrom key v cfg expect h)

set_size-AreFrom :
    (o : Option ℕ) (source : Source) (cfg : Config) (expect : Key → Source)
    → AreFrom expect cfg
    → Gives (AreFrom (update Key.single_shot_max source expect)) (set_size o source cfg)
set_size-AreFrom none source cfg expect h = tt
set_size-AreFrom (some n) source cfg expect h =
    update-AreFrom Key.single_shot_max source (record cfg { single_shot_max = n }) expect h

set_str-AreFrom :
    (m : Alloc) (key : Key) (text : Bytes) (source : Source) (cfg : Config) (expect : Key → Source)
    → AreFrom expect cfg
    → Gives (AreFrom (update key source expect)) (set_str m key text source cfg)
unfolding set_str
set_str-AreFrom m key [] source cfg expect h = tt
set_str-AreFrom m key (c ∷ cs) source cfg expect h =
    let host = normalize_host (c ∷ cs) in
    if_holds (Gives (AreFrom (update key source expect))) m.copy_ok _ _
      (λ e.
        update-AreFrom key source (put_host key host cfg) expect
          (put_host-AreFrom key host cfg expect h))
      (λ e. tt)

module _ (f : Doubles) (m : Alloc) where
  pub set_from_text-AreFrom :
      (key : Key) (text : Bytes) (source : Source) (cfg : Config) (expect : Key → Source)
      → AreFrom expect cfg
      → Gives (AreFrom (update key source expect)) (set_from_text f m key text source cfg)
  unfolding set_from_text
  set_from_text-AreFrom Key.concurrency text source cfg expect h =
      set_int-AreFrom (parse_concurrency text) Key.concurrency source cfg expect h
  set_from_text-AreFrom Key.bundle text source cfg expect h =
      set_int-AreFrom (parse_bool text) Key.bundle source cfg expect h
  set_from_text-AreFrom Key.single_shot text source cfg expect h =
      set_int-AreFrom (parse_bool text) Key.single_shot source cfg expect h
  set_from_text-AreFrom Key.resume text source cfg expect h =
      set_int-AreFrom (parse_bool text) Key.resume source cfg expect h
  set_from_text-AreFrom Key.color text source cfg expect h =
      set_int-AreFrom (parse_tri text) Key.color source cfg expect h
  set_from_text-AreFrom Key.progress text source cfg expect h =
      set_int-AreFrom (parse_tri text) Key.progress source cfg expect h
  set_from_text-AreFrom Key.single_shot_max text source cfg expect h =
      set_size-AreFrom (parse_size f (some text)) source cfg expect h
  set_from_text-AreFrom Key.api_host text source cfg expect h =
      set_str-AreFrom m Key.api_host text source cfg expect h
  set_from_text-AreFrom Key.download_host text source cfg expect h =
      set_str-AreFrom m Key.download_host text source cfg expect h
  set_from_text-AreFrom Key.site_host text source cfg expect h =
      set_str-AreFrom m Key.site_host text source cfg expect h

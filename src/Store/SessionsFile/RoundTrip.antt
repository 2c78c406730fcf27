-- ===== src/Store/SessionsFile/RoundTrip.antt =====
-- What `zb_sessions_save` writes, `zb_sessions_load` reads.
use zhuzhbox_cli.Base.{
  ℕ, ◌+◌, ◌*◌, ◌%◌, ◌^◌, ◌<◌, ◌≤◌, ◌≡◌, ◌∙◌, refl, sym, ap, true, false, Option, none, some, List,
  [], ◌∷◌, ◌++◌, arith, if◌then◌else◌, ◌==◌, Bytes, codes, str_eq, length, length-append, snoc, All,
  All-append, append_assoc, append-nil, Option-cases, Bool-cases, inl, inr, subst,
}
use zhuzhbox_cli.Base.Int.{pos}
use zhuzhbox_cli.Base.Keyed.{is_key, Lacks, Apart, Distinct}
use zhuzhbox_cli.Base.Keyed.Laws.{str_eq_sym, find_key_lacking}
use zhuzhbox_cli.Error.{Status, Outcome, done, fail}
use zhuzhbox_cli.Json.{CJson, CJsonLaws, json_get, json_get_i64, json_items, json_obj_set_i64}
use zhuzhbox_cli.Json.Objects.{
  Items, build, item, get_item-build, is_object-build, number_to_i64-of_i64,
}
use zhuzhbox_cli.Store.Alloc.{Alloc, Plenty, grow}
use zhuzhbox_cli.Store.Sessions.{Session, Sessions, no_sessions, token_of, find_token, put_at, put}
use zhuzhbox_cli.Store.SessionsFile.{
  load_sessions, load_root, version_ok, load, session_json, sessions_json, save_text,
}
use zhuzhbox_cli.Store.SessionsFile.Encode.{
  IsSavable, blank_of, alloc_ok, reloaded, parse_one-session_json,
}
use zhuzhbox_cli.Upload.Bitmap.{has}
use zhuzhbox_cli.Upload.Bitmap.Copy.{has-copy_bits}
use zhuzhbox_cli.Upload.Bitmap.Laws.{IsFresh, alloc_bitmap-IsFresh}

-- The same session: every field, and the mark of every chunk.
pub record IsCopy (s copy : Session) : Type 0 where
  pub fields : copy ≡ record s { sent = copy.sent }
  pub marks : (k : ℕ) → k < s.total_chunks → has copy.sent k ≡ has s.sent k

abbrev pub AreCopies : List Session → List Session → Type 0
AreCopies [] [] = Unit
AreCopies (s ∷ ss) (x ∷ xs) = IsCopy s x × AreCopies ss xs
AreCopies _ _ = ⊥

-- A load that succeeds, with copies of these sessions in their order.
abbrev pub LoadsAs : Outcome Sessions → List Session → Type 0
LoadsAs (fail e) ss = ⊥
LoadsAs (done s) ss = AreCopies ss s.items

abbrev pub all_reloaded : List Session → List Session
all_reloaded [] = []
all_reloaded (s ∷ ss) = reloaded s ∷ all_reloaded ss

put_ok :
    (m : Alloc) (s : Sessions) (session : Session) (key : Bytes)
    → m.grow_ok ≡ true
    → length s.items < 2 ^ 50
    → session.token ≡ some key
    → Lacks token_of key s.items
    → (after : Sessions) × (put m s session ≡ (after, Status.ok))
      × (after.items ≡ snoc s.items session)
unfolding put put_at find_token grow
put_ok m s session key ok small e lacks = elim (Bool-cases (length s.items == s.capacity)) [
  | inl full ↦ (
    record {
      items = snoc s.items session;
      capacity = if s.capacity == 0 then 8 else s.capacity * 2 % 2 ^ 64;
    },
    ground (arith, find_key_lacking token_of key s.items lacks),
    refl,
  )
  | inr room ↦ (
    record s { items = snoc s.items session },
    ground (arith, find_key_lacking token_of key s.items lacks),
    refl,
  )
]

-- None of the sessions still to come has the token of one that is there.
abbrev Clear : List Session → List Session → Type 0
Clear there = All (λ s. Apart token_of s.token there)

Apart-snoc :
    (k : Option Bytes) (new : Session) (key : Bytes) (xs : List Session)
    → new.token ≡ some key
    → is_key k key ≡ false
    → Apart token_of k xs
    → Apart token_of k (snoc xs new)
Apart-snoc none new key xs e apart h = tt
Apart-snoc (some k) new key xs e apart h =
    let other : is_key new.token k ≡ false = rw e (str_eq_sym key k ∙ apart) in
    All-append (λ x. is_key (token_of x) k ≡ false) xs (new ∷ []) h (other, tt)

Clear-snoc :
    (new : Session) (key : Bytes) (xs es : List Session)
    → new.token ≡ some key
    → Lacks token_of key es
    → Clear xs es
    → Clear (snoc xs new) es
Clear-snoc new key xs [] e lacks h = tt
Clear-snoc new key xs (x ∷ es) e lacks h =
    (Apart-snoc x.token new key xs e lacks.0 h.0, Clear-snoc new key xs es e lacks.1 h.1)

module _ (c : CJson) (laws : CJsonLaws c) where
  abbrev nodes : List Session → List c.Node
  nodes [] = []
  nodes (s ∷ ss) = session_json c s ∷ nodes ss

  items-sessions_json :
      (ss : List Session) (array : c.Node) (xs : List c.Node)
      → c.items array ≡ some xs
      → c.items (sessions_json c ss array) ≡ some (xs ++ nodes ss)
  unfolding sessions_json
  items-sessions_json [] array xs h = rw append-nil h
  items-sessions_json (s ∷ ss) array xs h =
      items-sessions_json ss (c.add_item_to_array array (session_json c s))
        (snoc xs (session_json c s)) (laws.items-add array (session_json c s) xs h)
      ∙ ap some (append_assoc xs (session_json c s ∷ []) (nodes ss))

  -- A load that gives these very items.
  abbrev pub Gives : Outcome Sessions → List Session → Type 0
  Gives (fail e) ss = ⊥
  Gives (done s) ss = s.items ≡ ss

  load_sessions-nodes :
      (m : Alloc) (ss : List Session) (s : Sessions)
      → Plenty m
      → All IsSavable ss
      → Distinct token_of ss
      → Clear s.items ss
      → length s.items + length ss < 2 ^ 50
      → Gives (load_sessions c m true s (nodes ss)) (s.items ++ all_reloaded ss)
  unfolding load_sessions
  load_sessions-nodes m [] s p h d clear small = sym (append-nil s.items)
  load_sessions-nodes m (x ∷ ss) s p h d clear small = elim (Option-cases x.token) [
    | inl missing ↦ absurd (d.0 missing)
    | inr (key, e) ↦
        let lacks : Lacks token_of key s.items = subst (λ k. Apart token_of k s.items) e clear.0 in
        let others : Lacks token_of key ss = subst (λ k. Apart token_of k ss) e d.1 in
        let (after, step, added) = put_ok m s (reloaded x) key p.1 (omega arith) e lacks in
        let clear' : Clear after.items ss =
          subst (λ xs. Clear xs ss) (sym added)
            (Clear-snoc (reloaded x) key s.items ss e others clear.1) in
        let rest =
          load_sessions-nodes m ss after p h.1 d.2 clear'
            (omega (arith, ap length added, length-append s.items (reloaded x ∷ []))) in
        rw (parse_one-session_json c laws m x p h.0, step)
          (subst (λ xs. Gives (load_sessions c m true after (nodes ss)) xs)
            (ap (λ xs. xs ++ all_reloaded ss) added
              ∙ append_assoc s.items (reloaded x ∷ []) (all_reloaded ss))
            rest)
  ]

  abbrev root_items : c.Node → Items c
  root_items array =
      (codes "version", c.create_number (c.of_i64 (pos 1))) ∷ (codes "sessions", array) ∷ []

  get_root :
      (array : c.Node) (key : Bytes)
      → json_get c (some (build c c.create_object (root_items array))) key
        ≡ item c (root_items array) key
  unfolding str_eq
  get_root array key = get_item-build c laws (root_items array) key refl

  get_version :
      (array : c.Node)
      → json_get_i64 c (some (build c c.create_object (root_items array))) (codes "version")
        ≡ some (pos 1)
  unfolding json_get_i64 str_eq
  get_version array =
      rw (get_root array (codes "version"), laws.number_value-create (c.of_i64 (pos 1)))
        (number_to_i64-of_i64 c laws (pos 1) (omega arith))

  load_root-root :
      (m : Alloc) (ss : List Session) (array : c.Node)
      → c.items array ≡ some (nodes ss)
      → load_root c m true (build c c.create_object (root_items array))
        ≡ load_sessions c m true no_sessions (nodes ss)
  unfolding load_root version_ok json_items str_eq
  load_root-root m ss array listed = ground (
    arith,
    is_object-build c laws c.create_object (root_items array) laws.is_object-create,
    get_version array,
    get_root array (codes "sessions"),
  )

  Clear-nil : (ss : List Session) → Clear [] ss
  Clear-nil [] = tt
  Clear-nil (s ∷ ss) = (Apart_nothing s.token, Clear-nil ss)
    where
      Apart_nothing : (k : Option Bytes) → Apart token_of k []
      Apart_nothing none = tt
      Apart_nothing (some k) = tt

  pub load_reloaded :
      (m : Alloc) (s : Sessions)
      → Plenty m
      → All IsSavable s.items
      → Distinct token_of s.items
      → length s.items < 2 ^ 50
      → Gives (load c m true (done (some (save_text c s)))) (all_reloaded s.items)
  unfolding load save_text json_obj_set_i64
  load_reloaded m s p h d small =
      let array = sessions_json c s.items c.create_array in
      let root = build c c.create_object (root_items array) in
      let read =
        load_root-root m s.items array
          (items-sessions_json s.items c.create_array [] laws.items-create) in
      rw (laws.is_empty-print root, laws.parse-print root, read)
        (load_sessions-nodes m s.items no_sessions p h d (Clear-nil s.items) (omega arith))

blank-IsFresh : (total : ℕ) → 0 < total → total ≤ 2 ^ 32 → IsFresh (blank_of total) total
blank-IsFresh total some_chunks few =
    alloc_bitmap-IsFresh true total (alloc_ok total some_chunks few)

pub reloaded-IsCopy : (s : Session) → IsSavable s → IsCopy s (reloaded s)
reloaded-IsCopy s h = record {
  fields = refl;
  marks = λ k below.
      let fresh = blank-IsFresh s.total_chunks h.some_chunks h.few_chunks in
      let copied =
        has-copy_bits s.sent (blank_of s.total_chunks) s.total_chunks 0 k fresh.bytes
          (omega (arith, fresh.covers)) in
      ground (arith, copied, fresh.none_sent k, below);
}

-- ===== src/Store/Sessions/Laws.antt =====
-- `zb_sessions_put` and `zb_sessions_remove` against `zb_sessions_find_token`.
use zhuzhbox_cli.Base.{
  ℕ, ◌≡◌, ◌⊎◌, refl, true, false, ◌&&◌, none, some, List, [], ◌∷◌, arith, if◌then◌else◌, Bytes,
  str_eq, subst, Bool-cases, Option-cases, inl, inr, snoc,
}
use zhuzhbox_cli.Base.Int.{ℤ, eqb_ℤ_iff}
use zhuzhbox_cli.Base.Keyed.{is_key, find_key, replace_key, Distinct}
use zhuzhbox_cli.Base.Keyed.Laws.{
  is_key-eq, find_key-replace_key, find_key-snoc, find_key-none, find_key-gone, find_key-remove_key,
  Distinct-replace_key, Distinct-remove_key, Distinct-snoc,
}
use zhuzhbox_cli.Error.{Status, is_ok}
use zhuzhbox_cli.Store.Alloc.{Alloc, grow}
use zhuzhbox_cli.Store.Sessions.{
  Session, Sessions, token_of, find_token, is_source, source_in, find_source, put_at, put, remove,
}

put_at_find :
    (m : Alloc) (s : Sessions) (session : Session) (key other : Bytes)
    → session.token ≡ some key
    → find_token (put_at m s session key).0 other ≡ (
        if is_ok (put_at m s session key).1 && str_eq key other
        then some session
        else find_token s other)
unfolding put_at grow find_token
put_at_find m s session key other e = ground (
  arith,
  find_key-replace_key token_of key other session s.items e,
  find_key-snoc token_of key other session s.items e,
)

put_at-items :
    (m : Alloc) (s : Sessions) (session : Session) (key : Bytes)
    → let (after, rc) = put_at m s session key in
      ((rc ≡ Status.nomem) × (after ≡ s))
      ⊎ ((rc ≡ Status.ok) × (after.items ≡ replace_key token_of key session s.items))
      ⊎ ((rc ≡ Status.ok)
          × (find_key token_of key s.items ≡ none)
          × (after.items ≡ snoc s.items session))
unfolding put_at grow find_token
put_at-items m s session key = ground arith

put_at-Distinct :
    (m : Alloc) (s : Sessions) (session : Session) (key : Bytes)
    → session.token ≡ some key
    → Distinct token_of s.items
    → put m s session ≡ put_at m s session key
    → Distinct token_of (put m s session).0.items
put_at-Distinct m s session key e d step = rw step (elim (put_at-items m s session key) [
  | inl (_, same) ↦ rw same d
  | inr (inl (_, replaced)) ↦ rw replaced (Distinct-replace_key token_of key session s.items e d)
  | inr (inr (_, gone, added)) ↦
      rw added
        (Distinct-snoc token_of key session s.items e (find_key-none token_of key s.items gone) d)
])

-- A session that is put is found under its token, and every other as before; the tokens stay distinct.
-- A put that fails, for want of a token or of memory, changes nothing.
pub put_lem :
    (m : Alloc) (s : Sessions) (session : Session) (other : Bytes)
    → Distinct token_of s.items
    → let (after, rc) = put m s session in
      (find_token after other
        ≡ (if is_ok rc && is_key session.token other then some session else find_token s other))
      × Distinct token_of after.items
      × ((after ≡ s) ⊎ (rc ≡ Status.ok))
unfolding put
put_lem m s session other d = elim (Option-cases session.token) [
  | inl e ↦
      let same : put m s session ≡ (s, Status.proto) = ground (arith, e) in
      rw same (refl, d, inl refl)
  | inr (key, e) ↦
      let step : put m s session ≡ put_at m s session key = ground (arith, e) in
      let found = put_at_find m s session key other e in
      let items = put_at-items m s session key in
      (
        ground (arith, e, found),
        put_at-Distinct m s session key e d step,
        rw step (elim items [
          | inl (_, same) ↦ inl same
          | inr (inl (good, _)) ↦ inr good
          | inr (inr (good, _, _)) ↦ inr good
        ]),
      )
]

-- With distinct tokens, a removed token is found no more, and no other session goes with it.
pub remove-find_token :
    (s : Sessions) (token other : Bytes)
    → Distinct token_of s.items
    → let (after, removed) = remove s token in
      (find_token after other ≡ (if str_eq token other then none else find_token s other))
      × (removed ≡ (elim (find_token s token) [ none ↦ false | some x ↦ true ]))
      × Distinct token_of after.items
unfolding remove find_token
remove-find_token s token other d = elim (Option-cases (find_key token_of token s.items)) [
  | inl gone ↦
      rw (gone, remove)
        (
          find_key-gone token_of token other s.items (find_key-none token_of token s.items gone),
          refl,
          d,
        )
  | inr (x, there) ↦
      rw (there, remove)
        (
          find_key-remove_key token_of token other s.items d,
          refl,
          Distinct-remove_key token_of token s.items d,
        )
]

source_of :
    (x : Session) (source_path : Bytes) (size : ℕ) (mtime : ℤ)
    → is_source x source_path size mtime ≡ true
    → (x.source_path ≡ some source_path) × (x.size ≡ size) × (x.mtime ≡ mtime)
unfolding is_source
source_of x source_path size mtime h = (
  is_key-eq x.source_path source_path (ground arith),
  ground arith,
  (eqb_ℤ_iff x.mtime mtime).0 (ground arith),
)

source_in-matches :
    (ss : List Session) (source_path : Bytes) (size : ℕ) (mtime : ℤ) {x : Session}
    → source_in ss source_path size mtime ≡ some x
    → is_source x source_path size mtime ≡ true
unfolding source_in
source_in-matches [] source_path size mtime h = cc
source_in-matches (s ∷ ss) source_path size mtime {x} h =
    elim (Bool-cases (is_source s source_path size mtime)) [
      | inl here ↦
          let e : s ≡ x = cc (rw here at h) in
          subst (λ z. is_source z source_path size mtime ≡ true) e here
      | inr there ↦ source_in-matches ss source_path size mtime (rw there at h)
    ]

-- A session is resumed only for the same path, size and time of the last change: a file that was edited
-- since is never continued.
pub find_source_lem :
    (s : Sessions) (source_path : Bytes) (size : ℕ) (mtime : ℤ) {x : Session}
    → find_source s source_path size mtime ≡ some x
    → (x.source_path ≡ some source_path) × (x.size ≡ size) × (x.mtime ≡ mtime)
unfolding find_source
find_source_lem s source_path size mtime {x} h =
    let hit = source_in-matches s.items source_path size mtime {x = x} h in
    source_of x source_path size mtime hit

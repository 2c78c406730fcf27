-- ===== src/Store/Sessions.antt =====
-- src/store/sessions.c and sessions.h: the upload sessions that can be resumed, in memory. The bitmap of
-- a session is that of `Upload.Bitmap`; `sent_len` is the length of the block.
pub mod Laws
pub mod Prune
use zhuzhbox_cli.Base.{
  ℕ, zero, suc, ◌+◌, ◌*◌, ◌%◌, ◌^◌, Bool, true, false, ◌&&◌, Option, none, some, List, [], ◌∷◌,
  ◌++◌, ltb, leb, ◌==◌, if◌then◌else◌, Bytes, str_eq, length, snoc,
}
use zhuzhbox_cli.Base.Int.{ℤ, pos, ◌-ℤ◌, ltb_ℤ, eqb_ℤ}
use zhuzhbox_cli.Base.Keyed.{is_key, find_key, replace_key, remove_key}
use zhuzhbox_cli.Error.{Status}
use zhuzhbox_cli.Store.Alloc.{Alloc, grow}
use zhuzhbox_cli.Upload.Bitmap

pub record Session : Type 0 where
  pub token : Option Bytes
  pub delete_token : Option Bytes
  pub source_path : Option Bytes
  pub filename : Option Bytes
  pub mime_type : Option Bytes
  pub collection_token : Option Bytes
  pub size : ℕ
  pub mtime : ℤ
  pub chunk_size : ℕ
  pub total_chunks : ℕ
  pub sent : Bytes
  pub updated_at : ℤ

pub record Sessions : Type 0 where
  pub items : List Session
  pub capacity : ℕ

abbrev pub no_sessions : Sessions
no_sessions = record { items = []; capacity = 0 }

abbrev pub token_of : Session → Option Bytes
token_of s = s.token

-- `zb_session_alloc_bitmap`: `none` is the -1 that leaves the session with no bitmap or as it was.
unfoldable pub session_alloc_bitmap : Bool → Session → ℕ → Option Session
session_alloc_bitmap calloc_ok s total_chunks = elim (Bitmap.alloc_bitmap calloc_ok total_chunks) [
  | none ↦ none
  | some block ↦ some (record s { sent = block; total_chunks = total_chunks })
]

unfoldable pub session_mark : Session → ℕ → Session
session_mark s index = record s { sent = Bitmap.mark s.sent index }

unfoldable pub session_has : Session → ℕ → Bool
session_has s index = Bitmap.has s.sent index

count_from : Session → ℕ → ℕ → ℕ → ℕ
count_from s zero i n = n
count_from s (suc left) i n = count_from s left (i + 1) (if session_has s i then n + 1 else n)

-- `zb_session_count_sent`
unfoldable pub count_sent : Session → ℕ
unfolding count_from
count_sent s = count_from s s.total_chunks 0 0

unfoldable pub find_token : Sessions → Bytes → Option Session
unfolding find_key
find_token s token = find_key token_of token s.items

-- The test of `zb_sessions_find_source`: the path, the size and the time of the last change.
unfoldable pub is_source : Session → Bytes → ℕ → ℤ → Bool
is_source s source_path size mtime =
    is_key s.source_path source_path && s.size == size && eqb_ℤ s.mtime mtime

unfoldable pub source_in : List Session → Bytes → ℕ → ℤ → Option Session
source_in [] source_path size mtime = none
source_in (s ∷ ss) source_path size mtime =
    if is_source s source_path size mtime then some s else source_in ss source_path size mtime

unfoldable pub find_source : Sessions → Bytes → ℕ → ℤ → Option Session
unfolding source_in is_source
find_source s source_path size mtime = source_in s.items source_path size mtime

-- `zb_sessions_put` of a session that has the token `key`.
unfoldable pub put_at : Alloc → Sessions → Session → Bytes → Sessions × Status
put_at m s session key = elim (find_token s key) [
  | some existing ↦ (record s { items = replace_key token_of key session s.items }, Status.ok)
  | none ↦
      (if length s.items == s.capacity
        then elim (grow m 8 104 s.capacity) [
          | none ↦ (s, Status.nomem)
          | some cap ↦ (record { items = snoc s.items session; capacity = cap }, Status.ok)
        ]
        else (record s { items = snoc s.items session }, Status.ok))
]

unfoldable pub put : Alloc → Sessions → Session → Sessions × Status
unfolding put_at
put m s session = elim session.token [
  | none ↦ (s, Status.proto)
  | some key ↦ put_at m s session key
]

unfoldable pub remove : Sessions → Bytes → Sessions × Bool
remove s token = elim (find_token s token) [
  | none ↦ (s, false)
  | some x ↦ (record s { items = remove_key token_of token s.items }, true)
]

-- `ZB_UPLOAD_SESSION_TTL_MINUTES * 60`
abbrev pub ttl : ℕ
ttl = 180 * 60

-- `now - updated_at > ttl`
unfoldable pub is_stale : ℤ → Session → Bool
is_stale now s = ltb_ℤ (pos ttl) (now -ℤ s.updated_at)

-- The loop of `zb_sessions_prune_stale` at index `i`: `kept` is the first `i` items.
unfoldable pub prune_from : ℤ → List Session → List Session → ℕ → List Session × ℕ
prune_from now kept [] removed = (kept, removed)
prune_from now kept (s ∷ rest) removed =
    let stay = prune_from now (snoc kept s) rest removed in
    let go = prune_from now kept rest (removed + 1) in if is_stale now s then go else stay

unfoldable pub prune_stale : Sessions → ℤ → Sessions × ℕ
unfolding prune_from
prune_stale s now =
    let (items, removed) = prune_from now [] s.items 0 in (record s { items = items }, removed)

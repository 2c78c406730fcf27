-- ===== src/Store/Sessions/Prune.antt =====
-- `zb_sessions_prune_stale`.
use zhuzhbox_cli.Base.{
  ℕ, ◌+◌, ◌*◌, Bool, ◌≡◌, ◌∙◌, refl, sym, false, List, [], ◌∷◌, ◌++◌, arith, if◌then◌else◌, length,
  snoc, All, append_assoc, append-nil, Bool-cases, inl, inr,
}
use zhuzhbox_cli.Base.Int.{ℤ, pos, ◌+ℤ◌, ◌-ℤ◌, ltb_ℤ}
use zhuzhbox_cli.Store.Sessions.{Session, Sessions, is_stale, prune_from, prune_stale}

-- Seconds in three hours.
abbrev pub three_hours : ℕ
three_hours = 3 * (60 * 60)

-- More than three hours after the session was last touched.
abbrev pub is_past : ℤ → Session → Bool
is_past now s = ltb_ℤ (s.updated_at +ℤ pos three_hours) now

is_stale-is_past : (now : ℤ) (s : Session) → is_stale now s ≡ is_past now s
unfolding is_stale ◌-ℤ◌ ◌+ℤ◌
is_stale-is_past now s = ground arith

-- The sessions that were touched within three hours, in their order.
abbrev pub live : ℤ → List Session → List Session
live now [] = []
live now (s ∷ ss) = if is_past now s then live now ss else s ∷ live now ss

prune_from-live :
    (now : ℤ) (kept rest : List Session) (removed : ℕ)
    → ((prune_from now kept rest removed).0 ≡ kept ++ live now rest)
      × ((prune_from now kept rest removed).1 + length (live now rest) ≡ removed + length rest)
unfolding prune_from
prune_from-live now kept [] removed = (sym (append-nil kept), omega arith)
prune_from-live now kept (s ∷ rest) removed = elim (Bool-cases (is_past now s)) [
  | inl old ↦
      let (items, count) = prune_from-live now kept rest (removed + 1) in
      rw (is_stale-is_past now s, old) (items, omega arith)
  | inr fresh ↦
      let (items, count) = prune_from-live now (snoc kept s) rest removed in
      rw (is_stale-is_past now s, fresh)
        (items ∙ append_assoc kept (s ∷ []) (live now rest), omega arith)
]

live-All : (now : ℤ) (ss : List Session) → All (λ s. is_past now s ≡ false) (live now ss)
live-All now [] = tt
live-All now (s ∷ ss) = elim (Bool-cases (is_past now s)) [
  | inl old ↦ rw old (live-All now ss)
  | inr fresh ↦ rw fresh (fresh, live-All now ss)
]

-- Pruning keeps exactly the sessions that were touched within three hours, 10,800 seconds, in their order,
-- and returns how many went.
pub prune_stale-live :
    (s : Sessions) (now : ℤ)
    → let (after, removed) = prune_stale s now in
      (after.items ≡ live now s.items)
      × All (λ x. is_past now x ≡ false) after.items
      × (removed + length after.items ≡ length s.items)
unfolding prune_stale
prune_stale-live s now =
    let (items, count) = prune_from-live now [] s.items 0 in
    rw items (refl, live-All now s.items, omega arith)

-- ===== src/Store/Atomic/Laws.antt =====
-- A file is replaced whole or not at all, and what can be left behind.
use zhuzhbox_cli.Base.{
  ℕ, zero, suc, ◌+◌, ◌≡◌, inl, inr, Bool, true, not, ◌&&◌, none, some, arith, if◌then◌else◌, Bytes,
  str_eq, str_eq_iff, subst, sym, Bool-cases, refl, if_holds, Option,
}
use zhuzhbox_cli.Error.{Status, is_ok}
use zhuzhbox_cli.Store.Atomic.{
  Files, write, Disk, Attempt, create_new, find_temp, remove_temp, finish, after_attempts,
  atomic_write,
}

module _ {Text : Type 0} where
  create_new-free :
      (d : Disk) (fs : Files Text) (i : ℕ) → create_new d fs i ≡ true → fs (d.temp_name i) ≡ none
  unfolding create_new
  create_new-free d fs i h = ground arith

  -- What the loop creates was not there.
  abbrev pub WasFree : Disk → Files Text → Attempt → Type 0
  WasFree d fs (Attempt.created k) = fs (d.temp_name k) ≡ none
  WasFree d fs _ = Unit

  pub find_temp-WasFree :
      (d : Disk) (fs : Files Text) (left i : ℕ) → WasFree d fs (find_temp d fs left i)
  unfolding find_temp
  find_temp-WasFree d fs zero i = tt
  find_temp-WasFree d fs (suc left) i =
      if_holds (WasFree d fs) (not (d.temp_name_ok i)) _ _ (λ e. tt)
        (λ e.
          if_holds (WasFree d fs) (create_new d fs i) _ _ (create_new-free d fs i)
            (λ f. find_temp-WasFree d fs left (i + 1)))

  -- A file other than the temporary one is seen as it was; the temporary name was free.
  other_than_temp :
      (fs : Files Text) (tmp other : Bytes)
      → fs tmp ≡ none
      → (if str_eq tmp other then none else fs other) ≡ fs other
  other_than_temp fs tmp other free = elim (Bool-cases (str_eq tmp other)) [
    | inl e ↦ rw e (subst (λ n. none ≡ fs n) ((str_eq_iff tmp other).0 e) (sym free))
    | inr e ↦ rw e
  ]

  abbrev pub replaced : Bool → Files Text → Bytes → Text → Bytes → Option Text
  replaced good fs path text other = if good && str_eq path other then some text else fs other

  finish_lem :
      (d : Disk) (fs : Files Text) (tmp path other : Bytes) (partial text : Text)
      → fs tmp ≡ none
      → let (after, rc) = finish d fs tmp path partial text in
        after other ≡ (
          if not (is_ok rc) && not d.remove_ok && str_eq tmp other
          then some partial
          else replaced (is_ok rc) fs path text other)
  unfolding finish remove_temp write
  finish_lem d fs tmp path other partial text free =
      ground (arith, other_than_temp fs tmp other free)

  -- Where memory and the directory are there, and one of the 32 attempts creates its temporary file, the
  -- target holds the new text afterwards exactly if the status is OK, and every other name what it held
  -- before; but where the write fails and the temporary file cannot be removed, that file stays.
  pub atomic_write_lem :
      (d : Disk) (fs : Files Text) (path other : Bytes) (partial text : Text) (i : ℕ)
      → d.path_ok ≡ true
      → d.mkdir_ok ≡ true
      → find_temp d fs 32 0 ≡ Attempt.created i
      → let (after, rc) = atomic_write d fs path partial text in
        after other ≡ (
          if not (is_ok rc) && not d.remove_ok && str_eq (d.temp_name i) other
          then some partial
          else replaced (is_ok rc) fs path text other)
  unfolding atomic_write after_attempts
  atomic_write_lem d fs path other partial text i named made at =
      rw (named, made, at)
        (finish_lem d fs (d.temp_name i) path other partial text
          (subst (WasFree d fs) at (find_temp-WasFree d fs 32 0)))

  -- Where memory and the directory are there and no attempt creates its file, the write fails with the IO
  -- status, whatever file of the last name was there is gone if it can be removed, and no other file changes.
  pub atomic_write_removes :
      (d : Disk) (fs : Files Text) (path other : Bytes) (partial text : Text)
      → d.path_ok ≡ true
      → d.mkdir_ok ≡ true
      → find_temp d fs 32 0 ≡ Attempt.none_created
      → ((atomic_write d fs path partial text).1 ≡ Status.io)
        × ((atomic_write d fs path partial text).0 other
            ≡ (if d.remove_ok && str_eq (d.temp_name 31) other then none else fs other))
  unfolding atomic_write after_attempts remove_temp write
  atomic_write_removes d fs path other partial text named made all_taken =
      rw (named, made, all_taken) (refl, ground arith)

  finish_ok :
      (d : Disk) (fs : Files Text) (tmp path other : Bytes) (partial text : Text)
      → fs tmp ≡ none
      → is_ok (finish d fs tmp path partial text).1 ≡ true
      → (finish d fs tmp path partial text).0 other ≡ replaced true fs path text other
  finish_ok d fs tmp path other partial text free good =
      ground (arith, good, finish_lem d fs tmp path other partial text free)

  -- A write that succeeds replaces the target and nothing else.
  pub atomic_write_ok :
      (d : Disk) (fs : Files Text) (path other : Bytes) (partial text : Text)
      → is_ok (atomic_write d fs path partial text).1 ≡ true
      → (atomic_write d fs path partial text).0 other ≡ replaced true fs path text other
  unfolding atomic_write after_attempts
  atomic_write_ok d fs path other partial text =
      if_holds
        (λ (x : Files Text × Status).
          is_ok x.1 ≡ true → x.0 other ≡ replaced true fs path text other)
        (not d.path_ok) _ _ (λ e g. cc)
        (λ e.
          if_holds
            (λ (x : Files Text × Status).
              is_ok x.1 ≡ true → x.0 other ≡ replaced true fs path text other)
            (not d.mkdir_ok) _ _ (λ f g. cc)
            (λ f. of_attempt (find_temp d fs 32 0) (find_temp-WasFree d fs 32 0)))
    where
      of_attempt :
          (a : Attempt)
          → WasFree d fs a
          → is_ok (after_attempts d fs path partial text a).1 ≡ true
          → (after_attempts d fs path partial text a).0 other ≡ replaced true fs path text other
      of_attempt Attempt.no_memory free g = cc
      of_attempt Attempt.none_created free g = cc
      of_attempt (Attempt.created i) free g =
          finish_ok d fs (d.temp_name i) path other partial text free g

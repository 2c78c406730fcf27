-- ===== src/Store/Atomic.antt =====
-- src/store/atomic.c: `zb_atomic_write` and `zb_read_file` on a file system that is a function from
-- names to contents. What the operating system decides is an argument: the outcome of each call, and the
-- 32 names that the clock gives.
pub mod Laws
use zhuzhbox_cli.Base.{
  ℕ, zero, suc, ◌+◌, Bool, true, false, not, ◌&&◌, Option, none, some, if◌then◌else◌, Bytes, str_eq,
}
use zhuzhbox_cli.Error.{Status, Outcome, done, fail}

module _ (Text : Type 0) where
  abbrev pub Files : Type 0
  Files = Bytes → Option Text

  unfoldable pub write : Files → Bytes → Option Text → Files
  write fs name text = λ other. if str_eq name other then text else fs other

  abbrev pub taken : Files → Bytes → Bool
  taken fs name = elim (fs name) [ none ↦ false | some t ↦ true ]

-- The outcomes of the calls that one `zb_atomic_write` makes.
pub record Disk : Type 0 where
  -- The copies of the names: of the target, of its directory, and of the temporary file at attempt `i`.
  pub path_ok : Bool
  pub temp_name_ok : ℕ → Bool
  pub mkdir_ok : Bool
  -- Whether attempt `i` could create its file if no file of that name is there.
  pub create_ok : ℕ → Bool
  pub write_ok : Bool
  pub flush_ok : Bool
  pub close_ok : Bool
  pub rename_ok : Bool
  pub remove_ok : Bool
  -- The name of the temporary file at attempt `i`, next to the target.
  pub temp_name : ℕ → Bytes

-- How the loop over the attempts ends: with the file of an attempt, without memory for a name, or with no
-- file created.
pub data Attempt : Type 0 where
  created : ℕ → Attempt
  no_memory none_created : Attempt

module _ {Text : Type 0} where
  -- `zb_fopen_private_new` creates, and never opens a file that is there.
  unfoldable pub create_new : Disk → Files Text → ℕ → Bool
  create_new d fs i = d.create_ok i && not (taken Text fs (d.temp_name i))

  -- The loop over the attempts at attempt `i`.
  unfoldable pub find_temp : Disk → Files Text → ℕ → ℕ → Attempt
  unfolding create_new
  find_temp d fs zero i = Attempt.none_created
  find_temp d fs (suc left) i =
      let rest = find_temp d fs left (i + 1) in
      if not (d.temp_name_ok i)
      then Attempt.no_memory
      else if create_new d fs i
      then Attempt.created i
      else rest

  -- `zb_remove`, whose failure the code ignores.
  unfoldable pub remove_temp : Disk → Files Text → Bytes → Files Text
  remove_temp d fs tmp = if d.remove_ok then write Text fs tmp none else fs

  -- Behind the loop, with the temporary file created under `tmp`; `partial` is what a
  -- write that is broken off leaves in it.
  unfoldable pub finish : Disk → Files Text → Bytes → Bytes → Text → Text → Files Text × Status
  unfolding remove_temp
  finish d fs tmp path partial text =
      let open_fs = write Text fs tmp (some partial) in
      let failed = remove_temp d open_fs tmp in
      if not d.write_ok
      then (failed, Status.io)
      else if not d.flush_ok
      then (failed, Status.io)
      else if not d.close_ok
      then (failed, Status.io)
      else if not d.rename_ok
      then (failed, Status.io)
      else (write Text (write Text open_fs tmp none) path (some text), Status.ok)

  -- `cleanup:` removes the last name that was tried, also where no attempt created a file.
  unfoldable pub after_attempts :
      Disk → Files Text → Bytes → Text → Text → Attempt → Files Text × Status
  unfolding finish
  after_attempts d fs path partial text Attempt.no_memory = (fs, Status.nomem)
  after_attempts d fs path partial text Attempt.none_created =
      (remove_temp d fs (d.temp_name 31), Status.io)
  after_attempts d fs path partial text (Attempt.created i) =
      finish d fs (d.temp_name i) path partial text

  unfoldable pub atomic_write : Disk → Files Text → Bytes → Text → Text → Files Text × Status
  unfolding after_attempts find_temp write
  atomic_write d fs path partial text =
      if not d.path_ok
      then (fs, Status.nomem)
      else if not d.mkdir_ok
      then (fs, Status.io)
      else after_attempts d fs path partial text (find_temp d fs 32 0)

  -- `zb_read_file`: a file that cannot be opened reads as no file. `open_ok` and `read_ok` are the
  -- outcomes of `fopen` on a file that is there, and of `fread`; `memory_ok` of the growth of the buffer.
  unfoldable pub read_file :
      (open_ok read_ok memory_ok : Bool) → Files Text → Bytes → Outcome (Option Text)
  read_file open_ok read_ok memory_ok fs path = elim (fs path) [
    | none ↦ done none
    | some text ↦
        (if not open_ok
          then done none
          else if not memory_ok
          then fail Status.nomem
          else if read_ok
          then done (some text)
          else fail Status.io)
  ]

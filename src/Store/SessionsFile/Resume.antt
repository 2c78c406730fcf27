-- ===== src/Store/SessionsFile/Resume.antt =====
-- The session of an interrupted upload is found by a later run.
use zhuzhbox_cli.Base.{ℕ, Option, none, some, Bytes}
use zhuzhbox_cli.Base.Int.{ℤ}
use zhuzhbox_cli.Error.{Outcome, done, fail}
use zhuzhbox_cli.Store.Alloc.{Alloc}
use zhuzhbox_cli.Store.Sessions.{Session, Sessions, find_source}
use zhuzhbox_cli.Store.SessionsFile.RoundTrip.{IsCopy}

-- What a search in sessions finds, when they are found again: nothing, or copies.
abbrev pub FoundAgain : Option Session → Option Session → Type 0
FoundAgain none none = Unit
FoundAgain (some s) (some x) = IsCopy s x
FoundAgain _ _ = ⊥

abbrev pub FindsAgain : Outcome Sessions → Sessions → Bytes → ℕ → ℤ → Type 0
FindsAgain (fail e) s path size mtime = ⊥
FindsAgain (done after) s path size mtime =
    FoundAgain (find_source s path size mtime) (find_source after path size mtime)

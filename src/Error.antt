-- ===== src/Error.antt =====
-- src/util/error.h and error.c: the status of an operation, and what is kept of an error. The text of a
-- message is not modelled where it is only shown to the user.
use zhuzhbox_cli.Base.{Bool, true, false, Bytes, codes}

pub data Status : Type 0 where
  ok usage io net http proto nomem canceled : Status

pub Status-discrete : Discrete Status
Status-discrete = hlevel

abbrev pub is_ok : Status → Bool
is_ok Status.ok = true
is_ok _ = false

pub status_name : Status → Bytes
status_name Status.ok = codes "ok"
status_name Status.usage = codes "usage"
status_name Status.io = codes "io"
status_name Status.net = codes "network"
status_name Status.http = codes "http"
status_name Status.proto = codes "protocol"
status_name Status.nomem = codes "nomem"
status_name Status.canceled = codes "canceled"

-- The result of a function that returns `zb_status` and fills in a value on success.
pub data Outcome {ℓ} (A : Type ℓ) : Type ℓ where
  done : A → Outcome A
  fail : Status → Outcome A

infixl 5 ◌>>=◌
abbrev pub ◌>>=◌ {ℓ κ} : {A : Type ℓ} {B : Type κ} → Outcome A → (A → Outcome B) → Outcome B
done a >>= f = f a
fail e >>= f = fail e

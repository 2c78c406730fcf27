-- ===== src/Upload/Job/Schedule/Round.antt =====
-- How many transfers a whole round of the engine has going.
use zhuzhbox_cli.Upload.Job.{Job}

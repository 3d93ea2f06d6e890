-- ===== src/Xserver/Args.antt =====
-- The arguments of the X server in src/daemon/entrance_xserver.c.
use entrance.Xserver.{Xinit, Xserver}
use entrance.Common.{List, [], ◌∷◌, ◌++◌, Option, some, Str, codes, truncate, decimal}

abbrev pub leading_args : Xinit → Xserver → List (Option Str)
leading_args conf x =
    some (truncate 4096 conf.xinit_path)
    ∷ some (truncate 64 x.display)
    ∷ some (codes "-seat")
    ∷ some (truncate 64 (codes "seat" ++ decimal x.id))
    ∷ some (truncate 64 (codes "vt" ++ decimal x.vt))
    ∷ []

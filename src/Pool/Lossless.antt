-- ===== src/Pool/Lossless.antt =====
-- The second half of `claim` in internal/pool/manager.go when it fails.
use pvm.Prelude.{String, Bool, Option, List, text_comparable, Result, ok, err}
use pvm.Fsjson
use pvm.Pool.Types.{Manager, Error, DecisionLog}
use pvm.Pool.Granted.{IsRestored, IsCleaned}

-- What a failed claim leaves.
abbrev pub IsLossless :
    Option Bool → Manager → String → Manager × List DecisionLog × Result Error String → Type 0
IsLossless d m id (m', rows, ok _) = Unit
IsLossless d m id (m', rows, err x) = IsRestored m m' × IsCleaned d m' id
